-- ===== src/Recovery/Further.antt =====
-- The log of one more entry, of a transaction that has not ended, behind entries of any others.
use async_wal_db.Prelude.{
  ℕ, ◌<◌, ◌≡◌, ◌≢◌, refl, sym, ap, ◌∙◌, List, [], ◌∷◌, ◌++◌, true, false, not, none, filter, All,
  Bool-cases, inl, inr, nat_beq, nat_beq_iff,
}
use mathlib.Core.List.{append-nil}
use async_wal_db.Prelude.Sort.{has, All-has, Ascending-append_last, has-append_last}
use async_wal_db.Entry.{WalEntry, tx_id_of, is_marker}
use async_wal_db.Recovery.Tracking.{marker_of, or_else, final_marker, says_commit}
use async_wal_db.Recovery.Serial.{changes_of, serial, Committed}
use async_wal_db.Recovery.Extend.{
  entries_of-other, entries_of-own, changes-own, final_marker-other, or_else-right, or_true,
  or_false, final_marker-append, changes_of-append,
}

module _ (i : ℕ) (e : WalEntry) (own : tx_id_of e ≡ i) (total : List WalEntry) where
  pub changes_of-further : (j : ℕ) → i ≢ j → changes_of j (total ++ e ∷ []) ≡ changes_of j total
  changes_of-further j other =
      changes_of-append j total (e ∷ [])
      ∙ ap (λ l. changes_of j total ++ filter (λ e. not (is_marker e)) l)
          (entries_of-other i j (e ∷ []) other (own, tt))
      ∙ append-nil (changes_of j total)

  pub changes_of-change :
      is_marker e ≡ false → changes_of i (total ++ e ∷ []) ≡ changes_of i total ++ e ∷ []
  changes_of-change change =
      changes_of-append i total (e ∷ [])
      ∙ ap (λ l. changes_of i total ++ filter (λ e. not (is_marker e)) l)
          (entries_of-own i (e ∷ []) (own, tt))
      ∙ ap (λ l. changes_of i total ++ l) (changes-own (e ∷ []) (change, tt))

  pub changes_of-marker : is_marker e ≡ true → changes_of i (total ++ e ∷ []) ≡ changes_of i total
  changes_of-marker marker =
      changes_of-append i total (e ∷ [])
      ∙ ap (λ l. changes_of i total ++ filter (λ e. not (is_marker e)) l)
          (entries_of-own i (e ∷ []) (own, tt))
      ∙ rw marker (append-nil (changes_of i total))

  pub serial-further :
      (ids : List ℕ) → All (λ j. i ≢ j) ids → serial ids (total ++ e ∷ []) ≡ serial ids total
  serial-further [] h = refl
  serial-further (j ∷ ids) h =
      ap (λ l. l ++ serial ids (total ++ e ∷ [])) (changes_of-further j h.0)
      ∙ ap (λ l. changes_of j total ++ l) (serial-further ids h.1)

  pub final_marker-further :
      (j : ℕ) → i ≢ j → final_marker j (total ++ e ∷ []) ≡ final_marker j total
  final_marker-further j other =
      final_marker-append j total (e ∷ [])
      ∙ ap (λ o. or_else o (final_marker j total)) (final_marker-other i j (e ∷ []) other (own, tt))

  -- The transaction has not ended, so it is none of those that have committed.
  pub open-apart :
      (ids : List ℕ) → Committed total ids → final_marker i total ≡ none → All (λ j. i ≢ j) ids
  open-apart ids d open' =
      All-has (λ j. i ≢ j) ids
        (λ j there same. cc (there, ap (λ k. has k ids) same, d.exact i, ap says_commit open'))

  pub final_marker-last :
      final_marker i total ≡ none → final_marker i (total ++ e ∷ []) ≡ marker_of i e
  unfolding final_marker
  final_marker-last open' =
      final_marker-append i total (e ∷ []) ∙ rw open' (or_else-right (marker_of i e))

  -- An entry that is no commit commits nothing.
  pub Committed-further :
      (ids : List ℕ)
      → Committed total ids
      → final_marker i total ≡ none
      → says_commit (marker_of i e) ≡ false
      → Committed (total ++ e ∷ []) ids
  Committed-further ids d open' quiet = record {
    ascending = d.ascending;
    exact = λ j. elim (Bool-cases (nat_beq i j)) [
      | inl same ↦
          let p = (nat_beq_iff i j).0 same in
          d.exact j
          ∙ ap (λ k. says_commit (final_marker k total)) (sym p)
          ∙ ap says_commit open'
          ∙ sym (
              ap (λ k. says_commit (final_marker k (total ++ e ∷ []))) (sym p)
              ∙ ap says_commit (final_marker-last open')
              ∙ quiet)
      | inr other ↦
          d.exact j
          ∙ ap says_commit (sym (final_marker-further j (λ p. cc (other, (nat_beq_iff i j).1 p))))
    ];
  }

  pub Committed-last :
      (ids : List ℕ)
      → Committed total ids
      → All (λ j. j < i) ids
      → final_marker i total ≡ none
      → says_commit (marker_of i e) ≡ true
      → Committed (total ++ e ∷ []) (ids ++ i ∷ [])
  Committed-last ids d lower open' commits = record {
    ascending = Ascending-append_last i ids lower d.ascending;
    exact = λ j. has-append_last j i ids ∙ elim (Bool-cases (nat_beq i j)) [
      | inl same ↦
          let p = (nat_beq_iff i j).0 same in
          rw same (or_true (has j ids))
          ∙ sym (
              ap (λ k. says_commit (final_marker k (total ++ e ∷ []))) (sym p)
              ∙ ap says_commit (final_marker-last open')
              ∙ commits)
      | inr other ↦
          rw other (or_false (has j ids))
          ∙ d.exact j
          ∙ ap says_commit (sym (final_marker-further j (λ p. cc (other, (nat_beq_iff i j).1 p))))
    ];
  }

  -- A marker is no change of any transaction.
  pub serial-marker :
      is_marker e ≡ true → (ids : List ℕ) → serial ids (total ++ e ∷ []) ≡ serial ids total
  serial-marker marker [] = refl
  serial-marker marker (j ∷ ids) =
      ap (λ l. l ++ serial ids (total ++ e ∷ []))
        (elim (Bool-cases (nat_beq i j)) [
          | inl same ↦
              let p = (nat_beq_iff i j).0 same in
              ap (λ k. changes_of k (total ++ e ∷ [])) (sym p)
              ∙ changes_of-marker marker
              ∙ ap (λ k. changes_of k total) p
          | inr other ↦ changes_of-further j (λ p. cc (other, (nat_beq_iff i j).1 p))
        ])
      ∙ ap (λ l. changes_of j total ++ l) (serial-marker marker ids)
