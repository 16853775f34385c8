-- ===== src/Recovery/Extend.antt =====
-- The log of one more transaction behind those that have ended: its entries, its markers, and
-- the changes of the others.
use async_wal_db.Prelude.{
  ℕ, ◌<◌, ◌≤◌, ◌≡◌, ◌≢◌, refl, sym, ap, ◌∙◌, arith, List, [], ◌∷◌, ◌++◌, Bool, true, false, ◌||◌,
  Option, none, some, not, filter, filter-append, All, nat_beq,
}
use mathlib.Core.List.{append-nil, append_assoc}
use async_wal_db.Entry.{WalEntry, tx_id_of, is_marker}
use async_wal_db.Recovery.{RecoveryAction}
use async_wal_db.Recovery.Tracking.{entries_of, marker_of, or_else, final_marker}
use async_wal_db.Recovery.Serial.{changes_of, serial}

-- Every entry is of transaction `i`.
abbrev pub AllOf : ℕ → List WalEntry → Type 0
AllOf i = All (λ e. tx_id_of e ≡ i)

-- Every entry is of a transaction below `i`.
abbrev pub AllBelow : ℕ → List WalEntry → Type 0
AllBelow i = All (λ e. tx_id_of e < i)

-- No entry is a marker.
abbrev pub NoMarker : List WalEntry → Type 0
NoMarker = All (λ e. is_marker e ≡ false)

pub entries_of-below : (i : ℕ) (es : List WalEntry) → AllBelow i es → entries_of i es ≡ []
entries_of-below i [] h = refl
entries_of-below i (e ∷ es) h = ground (arith, h.0, entries_of-below i es h.1)

pub entries_of-other : (i j : ℕ) (es : List WalEntry) → i ≢ j → AllOf i es → entries_of j es ≡ []
entries_of-other i j [] n h = refl
entries_of-other i j (e ∷ es) n h = ground (arith, h.0, entries_of-other i j es n h.1)

pub entries_of-own : (i : ℕ) (es : List WalEntry) → AllOf i es → entries_of i es ≡ es
entries_of-own i [] h = refl
entries_of-own i (e ∷ es) h = ground (arith, h.0, entries_of-own i es h.1)

pub changes-own : (es : List WalEntry) → NoMarker es → filter (λ e. not (is_marker e)) es ≡ es
changes-own [] h = refl
changes-own (e ∷ es) h = ground (arith, h.0, changes-own es h.1)

pub marker_of-other : (i j : ℕ) (e : WalEntry) → i ≢ j → tx_id_of e ≡ i → marker_of j e ≡ none
marker_of-other i j (WalEntry.insert k t x v) n h = refl
marker_of-other i j (WalEntry.update k t x o v) n h = refl
marker_of-other i j (WalEntry.delete k t x o) n h = refl
marker_of-other i j (WalEntry.commit k t) n h = ground arith
marker_of-other i j (WalEntry.abort k t) n h = ground arith

pub final_marker-other :
    (i j : ℕ) (es : List WalEntry) → i ≢ j → AllOf i es → final_marker j es ≡ none
unfolding final_marker
final_marker-other i j [] n h = refl
final_marker-other i j (e ∷ es) n h =
    rw (final_marker-other i j es n h.1) (marker_of-other i j e n h.0)

pub final_marker-below :
    (i j : ℕ) (es : List WalEntry) → i ≤ j → AllBelow i es → final_marker j es ≡ none
unfolding final_marker
final_marker-below i j [] le h = refl
final_marker-below i j (e ∷ es) le h =
    rw (final_marker-below i j es le h.1)
      (marker_of-other (tx_id_of e) j e (λ p. absurd (omega (arith, h.0, p))) refl)

or_else_assoc : (a b c : Option RecoveryAction) → or_else a (or_else b c) ≡ or_else (or_else a b) c
or_else_assoc none b c = refl
or_else_assoc (some x) b c = refl

pub or_else-right : (a : Option RecoveryAction) → or_else a none ≡ a
or_else-right none = refl
or_else-right (some x) = refl

pub or_true : (b : Bool) → (b || true) ≡ true
or_true b = ground arith

pub or_false : (b : Bool) → (b || false) ≡ b
or_false b = ground arith

pub final_marker-append :
    (i : ℕ) (xs ys : List WalEntry)
    → final_marker i (xs ++ ys) ≡ or_else (final_marker i ys) (final_marker i xs)
unfolding final_marker
final_marker-append i [] ys = sym (or_else-right (final_marker i ys))
final_marker-append i (x ∷ xs) ys =
    rw (final_marker-append i xs ys)
      (sym (or_else_assoc (final_marker i ys) (final_marker i xs) (marker_of i x)))

pub changes_of-append :
    (i : ℕ) (xs ys : List WalEntry) → changes_of i (xs ++ ys) ≡ changes_of i xs ++ changes_of i ys
changes_of-append i xs ys =
    ap (filter (λ e. not (is_marker e))) (filter-append (λ e. nat_beq (tx_id_of e) i) xs ys)
    ∙ filter-append (λ e. not (is_marker e)) (entries_of i xs) (entries_of i ys)

-- The entries of a later transaction do not change what the earlier ones do.
pub serial-later :
    (i : ℕ) (ids : List ℕ) (es block : List WalEntry)
    → All (λ j. j < i) ids
    → AllOf i block
    → serial ids (es ++ block) ≡ serial ids es
serial-later i [] es block b h = refl
serial-later i (j ∷ ids) es block b h =
    ap (λ l. l ++ serial ids (es ++ block))
      (changes_of-append j es block
        ∙ ap (λ l. changes_of j es ++ filter (λ e. not (is_marker e)) l)
            (entries_of-other i j block (λ p. absurd (omega (arith, b.0, p))) h)
        ∙ append-nil (changes_of j es))
    ∙ ap (λ l. changes_of j es ++ l) (serial-later i ids es block b.1 h)

pub serial-append :
    (is js : List ℕ) (es : List WalEntry) → serial (is ++ js) es ≡ serial is es ++ serial js es
serial-append [] js es = refl
serial-append (i ∷ is) js es =
    ap (λ l. changes_of i es ++ l) (serial-append is js es)
    ∙ sym (append_assoc (changes_of i es) (serial is es) (serial js es))
