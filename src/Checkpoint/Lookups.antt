-- ===== src/Checkpoint/Lookups.antt =====
-- A replay of the last transactions once more changes no lookup.
use mathlib.Core.List.{foldl, foldl-append}
use async_wal_db.Prelude.{
  ℕ, ◌<◌, ◌≤◌, ◌≡◌, refl, sym, ap, ◌∙◌, arith, List, [], ◌∷◌, ◌++◌, Bool, true, false, not, ◌&&◌,
  Option, none, some, ltb, leb, nat_beq, filter, if◌then◌else◌, bytes_beq, bytes_eq, Bool-cases,
  inl, inr, All,
}
use async_wal_db.Prelude.Map
use async_wal_db.Prelude.Map.{get-insert, get-remove}
use async_wal_db.Prelude.Sort.{has, Ascending, Ascending-unique, All-has}
use async_wal_db.Entry.{Bytes, WalEntry, tx_id_of, is_marker}
use async_wal_db.Store.{Store, redo}
use async_wal_db.Recovery.{RecoveryAction}
use async_wal_db.Recovery.Tracking.{entries_of, final_marker, says_commit, or_else}
use async_wal_db.Recovery.Serial.{changes_of, serial, Committed}
use async_wal_db.Recovery.Extend.{serial-append, marker_of-other}
use async_wal_db.Checkpoint.Loop.{newer}
use async_wal_db.Checkpoint.Members.{final_marker-newer, has-filter}

-- The value that an entry leaves at a key, if it touches it.
touch : Bytes → WalEntry → Option (Option Bytes)
touch k (WalEntry.insert i t j v) = if bytes_beq j k then some (some v) else none
touch k (WalEntry.update i t j o v) = if bytes_beq j k then some (some v) else none
touch k (WalEntry.delete i t j o) = if bytes_beq j k then some none else none
touch k (WalEntry.commit i t) = none
touch k (WalEntry.abort i t) = none

settle : Option (Option Bytes) → Option Bytes → Option Bytes
settle none v = v
settle (some w) v = w

later : Option (Option Bytes) → Option (Option Bytes) → Option (Option Bytes)
later none b = b
later (some a) b = some a

effect : Bytes → List WalEntry → Option (Option Bytes)
unfolding touch later
effect k [] = none
effect k (e ∷ es) = later (effect k es) (touch k e)

get-redo :
    (k : Bytes) (e : WalEntry) (s : Store) → Map.get k (redo s e) ≡ settle (touch k e) (Map.get k s)
unfolding redo touch settle
get-redo k (WalEntry.insert i t j v) s = get-insert j k v s ∙ ground arith
get-redo k (WalEntry.update i t j o v) s = get-insert j k v s ∙ ground arith
get-redo k (WalEntry.delete i t j o) s = get-remove j k s ∙ ground arith
get-redo k (WalEntry.commit i t) s = refl
get-redo k (WalEntry.abort i t) s = refl

settle-later :
    (a b : Option (Option Bytes)) (v : Option Bytes) → settle a (settle b v) ≡ settle (later a b) v
unfolding settle later
settle-later none b v = refl
settle-later (some x) b v = refl

get-foldl :
    (k : Bytes) (es : List WalEntry) (s : Store)
    → Map.get k (foldl redo s es) ≡ settle (effect k es) (Map.get k s)
unfolding effect settle
get-foldl k [] s = refl
get-foldl k (e ∷ es) s =
    get-foldl k es (redo s e)
    ∙ ap (settle (effect k es)) (get-redo k e s)
    ∙ settle-later (effect k es) (touch k e) (Map.get k s)

-- Stores with the same lookups keep them under the same changes.
pub get-foldl-same :
    (k : Bytes) (es : List WalEntry) (s t : Store)
    → Map.get k s ≡ Map.get k t
    → Map.get k (foldl redo s es) ≡ Map.get k (foldl redo t es)
get-foldl-same k es s t h = get-foldl k es s ∙ ap (settle (effect k es)) h ∙ sym (get-foldl k es t)

settle-twice : (a : Option (Option Bytes)) (v : Option Bytes) → settle a (settle a v) ≡ settle a v
unfolding settle
settle-twice none v = refl
settle-twice (some x) v = refl

-- Replaying the last part of what has been replayed, once more, changes no lookup.
redo-again :
    (k : Bytes) (xs ys : List WalEntry)
    → Map.get k (foldl redo (foldl redo [] (xs ++ ys)) ys) ≡ Map.get k (foldl redo [] (xs ++ ys))
redo-again k xs ys =
    let split = foldl-append redo [] xs ys in
    get-foldl k ys (foldl redo [] (xs ++ ys))
    ∙ ap (λ s. settle (effect k ys) (Map.get k s)) split
    ∙ ap (settle (effect k ys)) (get-foldl k ys (foldl redo [] xs))
    ∙ settle-twice (effect k ys) (Map.get k (foldl redo [] xs))
    ∙ sym (get-foldl k ys (foldl redo [] xs))
    ∙ ap (Map.get k) (sym split)

All-filter : (P : ℕ → Type 0) (p : ℕ → Bool) (l : List ℕ) → All P l → All P (filter p l)
All-filter P p [] h = tt
All-filter P p (i ∷ l) h = elim (Bool-cases (p i)) [
  | inl kept ↦ rw kept (h.0, All-filter P p l h.1)
  | inr gone ↦ rw gone (All-filter P p l h.1)
]

Ascending-filter : (p : ℕ → Bool) (l : List ℕ) → Ascending l → Ascending (filter p l)
Ascending-filter p [] h = tt
Ascending-filter p (i ∷ l) h = elim (Bool-cases (p i)) [
  | inl kept ↦ rw kept (All-filter (λ j. i < j) p l h.0, Ascending-filter p l h.1)
  | inr gone ↦ rw gone (Ascending-filter p l h.1)
]

filter-All :
    (last : ℕ) (l : List ℕ)
    → All (λ j. last < j) l
    → (filter (λ i. ltb last i) l ≡ l) × (filter (λ i. leb i last) l ≡ [])
filter-All last [] h = (refl, refl)
filter-All last (i ∷ l) h =
    let new : ltb last i ≡ true = ground (arith, h.0) in
    let not_old : leb i last ≡ false = ground (arith, h.0) in
    rw (new, not_old) (ap (λ t. i ∷ t) (filter-All last l h.1).0, (filter-All last l h.1).1)

-- An ascending list, cut behind `last`.
split-Ascending :
    (last : ℕ) (l : List ℕ)
    → Ascending l
    → l ≡ filter (λ i. leb i last) l ++ filter (λ i. ltb last i) l
split-Ascending last [] h = refl
split-Ascending last (i ∷ l) h = elim (Bool-cases (leb i last)) [
  | inl old ↦
      let not_new : ltb last i ≡ false = ground arith in
      rw (old, not_new) (ap (λ t. i ∷ t) (split-Ascending last l h.1))
  | inr passed ↦
      let new : ltb last i ≡ true = ground arith in
      let above : last < i = ground arith in
      let rest = filter-All last l (All-above last i l above h.0) in
      rw (passed, new, rest.0, rest.1)
]
  where
    All-above : (a b : ℕ) (m : List ℕ) → a < b → All (λ j. b < j) m → All (λ j. a < j) m
    All-above a b [] lt q = tt
    All-above a b (j ∷ m) lt q = (omega (arith, lt, q.0), All-above a b m lt q.1)

final_marker-after :
    (last i : ℕ) (es : List WalEntry)
    → last < i
    → final_marker i (newer last es) ≡ final_marker i es
unfolding final_marker
final_marker-after last i [] h = refl
final_marker-after last i (e ∷ es) h = elim (Bool-cases (ltb last (tx_id_of e))) [
  | inl new ↦ rw (new, final_marker-after last i es h)
  | inr old ↦
      let below : tx_id_of e ≤ last = ground arith in
      rw
        (
          old,
          final_marker-after last i es h,
          marker_of-other (tx_id_of e) i e (λ p. absurd (omega (arith, p))) refl,
        )
        (or_else-right (final_marker i es))
]
  where
    or_else-right : (a : Option RecoveryAction) → a ≡ or_else a none
    or_else-right none = refl
    or_else-right (some x) = refl

entries_of-after :
    (last i : ℕ) (es : List WalEntry) → last < i → entries_of i (newer last es) ≡ entries_of i es
entries_of-after last i [] h = refl
entries_of-after last i (e ∷ es) h = elim (Bool-cases (ltb last (tx_id_of e))) [
  | inl new ↦ rw new (ground (arith, entries_of-after last i es h))
  | inr old ↦
      let other : nat_beq (tx_id_of e) i ≡ false = ground arith in
      rw (old, other) (entries_of-after last i es h)
]

serial-after :
    (last : ℕ) (ids : List ℕ) (es : List WalEntry)
    → All (λ j. last < j) ids
    → serial ids (newer last es) ≡ serial ids es
serial-after last [] es h = refl
serial-after last (i ∷ ids) es h =
    ap (λ l. filter (λ e. not (is_marker e)) l ++ serial ids (newer last es))
      (entries_of-after last i es h.0)
    ∙ ap (λ l. changes_of i es ++ l) (serial-after last ids es h.1)

module _ (last : ℕ) (es : List WalEntry) (all new : List ℕ) (whole : Committed es all)
    (part : Committed (newer last es) new) where
  members : (i : ℕ) → has i new ≡ has i (filter (λ j. ltb last j) all)
  members i = part.exact i ∙ by_age ∙ sym (has-filter (λ j. ltb last j) i all)
    where
      by_age : says_commit (final_marker i (newer last es)) ≡ (ltb last i && has i all)
      by_age = elim (Bool-cases (ltb last i)) [
        | inl after ↦ rw (after, final_marker-after last i es (ground arith)) (sym (whole.exact i))
        | inr old ↦ rw (old, final_marker-newer last i es (ground arith))
      ]

  new-filter : new ≡ filter (λ j. ltb last j) all
  new-filter =
      Ascending-unique new (filter (λ j. ltb last j) all) part.ascending
        (Ascending-filter (λ j. ltb last j) all whole.ascending) members

  above : All (λ j. last < j) new
  above =
      All-has (λ j. last < j) new
        (λ i p. ground (arith, sym (members i) ∙ p, has-filter (λ j. ltb last j) i all))

  serial-split :
      serial all es ≡ serial (filter (λ j. leb j last) all) es ++ serial new (newer last es)
  serial-split =
      ap (λ l. serial l es) (split-Ascending last all whole.ascending)
      ∙ serial-append (filter (λ j. leb j last) all) (filter (λ j. ltb last j) all) es
      ∙ ap (λ l. serial (filter (λ j. leb j last) all) es ++ serial l es) (sym new-filter)
      ∙ ap (λ l. serial (filter (λ j. leb j last) all) es ++ l)
          (sym (serial-after last new es above))

  -- On the store of all committed transactions, the replay of those behind `last` changes no lookup.
  pub replay_again :
      (k : Bytes)
      → Map.get k (foldl redo (foldl redo [] (serial all es)) (serial new (newer last es)))
        ≡ Map.get k (foldl redo [] (serial all es))
  replay_again k =
      ap (λ l. Map.get k (foldl redo (foldl redo [] l) (serial new (newer last es)))) serial-split
      ∙ redo-again k (serial (filter (λ j. leb j last) all) es) (serial new (newer last es))
      ∙ ap (λ l. Map.get k (foldl redo [] l)) (sym serial-split)
