-- ===== src/Checkpoint/Members.antt =====
-- The set of committed transactions, sorted and measured.
use async_wal_db.Prelude.{
  ℕ, ◌<◌, ◌≤◌, ◌≡◌, refl, ap, ◌∙◌, arith, List, [], ◌∷◌, Bool, true, false, ◌&&◌, Option, none,
  some, ltb, nat_beq, nat_beq_iff, filter, Bool-cases, inl, inr,
}
use mathlib.Core.List.{foldl}
use async_wal_db.Prelude.Sort.{sort, has, Distinct, has-sort, Ascending-sort}
use async_wal_db.Entry.{WalEntry, tx_id_of}
use async_wal_db.Recovery.{RecoveryAction}
use async_wal_db.Recovery.Tracking.{final_marker, says_commit}
use async_wal_db.Recovery.Extend.{marker_of-other}
use async_wal_db.Recovery.Serial.{Committed}
use async_wal_db.Checkpoint.{Progress, nothing_read, max_or, no_ids, visit}
use async_wal_db.Checkpoint.Loop.{newer, visit-newer, visit-Distinct, has-committed_txs, decide}

pub has-filter : (p : ℕ → Bool) (i : ℕ) (l : List ℕ) → has i (filter p l) ≡ (p i && has i l)
has-filter p i [] = ground arith
has-filter p i (j ∷ l) = elim (Bool-cases (nat_beq j i)) [
  | inl same ↦ rw ((nat_beq_iff j i).0 same) (ground (arith, has-filter p i l, nat_beq_iff i i))
  | inr other ↦ ground (arith, has-filter p i l, other)
]

Distinct-filter : (p : ℕ → Bool) (l : List ℕ) → Distinct l → Distinct (filter p l)
Distinct-filter p [] h = tt
Distinct-filter p (j ∷ l) h = elim (Bool-cases (p j)) [
  | inl kept ↦ rw kept (has-filter p j l ∙ ground (arith, h.0), Distinct-filter p l h.1)
  | inr gone ↦ rw gone (Distinct-filter p l h.1)
]

pub has-max_or : (d : ℕ) (l : List ℕ) → no_ids l ≡ false → has (max_or d l) l ≡ true
unfolding max_or
has-max_or d [] h = absurd (cc)
has-max_or d (i ∷ []) h = ground arith
has-max_or d (i ∷ j ∷ l) h = ground (arith, has-max_or d (j ∷ l) refl)

pub le-max_or : (d i : ℕ) (l : List ℕ) → has i l ≡ true → i ≤ max_or d l
unfolding max_or
le-max_or d i [] h = absurd (cc)
le-max_or d i (j ∷ []) h = ground arith
le-max_or d i (j ∷ k ∷ l) h = elim (Bool-cases (nat_beq j i)) [
  | inl same ↦ ground arith
  | inr other ↦ ground (arith, le-max_or d i (k ∷ l) (ground (arith, h, other)))
]

pub final_marker-newer :
    (last i : ℕ) (es : List WalEntry) → i ≤ last → final_marker i (newer last es) ≡ none
unfolding final_marker
final_marker-newer last i [] h = refl
final_marker-newer last i (e ∷ es) h = elim (Bool-cases (ltb last (tx_id_of e))) [
  | inl new ↦
      let above : last < tx_id_of e = ground arith in
      rw (new, final_marker-newer last i es h)
        (marker_of-other (tx_id_of e) i e (λ p. absurd (omega (arith, p))) refl)
  | inr old ↦ rw old (final_marker-newer last i es h)
]

decide-false : (o : Option RecoveryAction) → decide o false ≡ says_commit o
decide-false none = refl
decide-false (some a) = refl

-- The numbers that are replayed, in their order.
abbrev pub sorted : ℕ → Progress → List ℕ
sorted last s = sort (filter (λ id. ltb last id) s.committed_txs)

module _ (last : ℕ) (es : List WalEntry) where
  abbrev read : Progress
  read = foldl (visit last) nothing_read es

  has-read : (i : ℕ) → has i read.committed_txs ≡ says_commit (final_marker i (newer last es))
  has-read i =
      ap (λ (s : Progress). has i s.committed_txs) (visit-newer last es nothing_read)
      ∙ has-committed_txs i (newer last es) nothing_read
      ∙ decide-false (final_marker i (newer last es))

  -- Sorting and filtering keep the members.
  pub has-sorted : (i : ℕ) → has i (sorted last read) ≡ has i read.committed_txs
  has-sorted i =
      has-sort i (filter (λ id. ltb last id) read.committed_txs)
      ∙ has-filter (λ id. ltb last id) i read.committed_txs
      ∙ elim (Bool-cases (ltb last i)) [
        | inl new ↦ rw new
        | inr old ↦
            let none_there =
              has-read i ∙ ap says_commit (final_marker-newer last i es (ground arith)) in
            rw (old, none_there)
      ]

  pub sorted-Committed : Committed (newer last es) (sorted last read)
  sorted-Committed = record {
    ascending = Ascending-sort (filter (λ id. ltb last id) read.committed_txs) (
        Distinct-filter (λ id. ltb last id) read.committed_txs
          (rw (visit-newer last es nothing_read) (visit-Distinct (newer last es) nothing_read tt)));
    exact = λ i. has-sorted i ∙ has-read i;
  }
