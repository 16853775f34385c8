-- ===== src/Recovery/Block.antt =====
-- The log of one more transaction behind those that have ended: which transactions it commits.
use async_wal_db.Prelude.{
  ℕ, ◌<◌, ◌≤◌, ◌⊎◌, ◌≡◌, refl, sym, ap, ◌∙◌, arith, List, [], ◌∷◌, ◌++◌, true, false, none, some,
  not, filter, filter-append, All, All-append, Bool-cases, inl, inr, nat_beq, nat_beq_iff,
  if◌then◌else◌,
}
use mathlib.Core.List.{append-nil}
use async_wal_db.Prelude.Sort.{has, All-has, Ascending-append_last, has-append_last}
use async_wal_db.Entry.{WalEntry, tx_id_of, is_marker}
use async_wal_db.Recovery.{RecoveryAction}
use async_wal_db.Recovery.Tracking.{or_else, final_marker, says_commit}
use async_wal_db.Recovery.Serial.{changes_of, serial, Committed}
use async_wal_db.Recovery.Extend.{
  AllOf, AllBelow, NoMarker, entries_of-below, entries_of-own, changes-own, final_marker-other,
  final_marker-below, or_else-right, or_true, or_false, final_marker-append, changes_of-append,
  serial-later, serial-append,
}

-- The transactions that a log commits are among those that it has entries of.
pub Committed-below :
    (i : ℕ) (ids : List ℕ) (es : List WalEntry)
    → Committed es ids
    → AllBelow i es
    → All (λ j. j < i) ids
Committed-below i ids es d h = All-has (λ j. j < i) ids below
  where
    le_or_lt : (a b : ℕ) → (a ≤ b) ⊎ (b < a)
    le_or_lt a b = ground arith

    below : (j : ℕ) → has j ids ≡ true → j < i
    below j p = elim (le_or_lt i j) [
      | inl le ↦ absurd (cc (p, d.exact j ∙ ap says_commit (final_marker-below i j es le h)))
      | inr lt ↦ lt
    ]

-- The last marker of a transaction behind the entries of lower ones, or of another one.
final_marker-block :
    (i j : ℕ) (es block : List WalEntry)
    → AllBelow i es
    → AllOf i block
    → final_marker j (es ++ block)
      ≡ (if nat_beq i j then final_marker j block else final_marker j es)
final_marker-block i j es block below own = elim (Bool-cases (nat_beq i j)) [
  | inl same ↦ rw same (
      final_marker-append j es block
      ∙ ap (or_else (final_marker j block)) (final_marker-below i j es (ground arith) below)
      ∙ or_else-right (final_marker j block))
  | inr other ↦ rw other (
      final_marker-append j es block
      ∙ ap (λ o. or_else o (final_marker j es)) (final_marker-other i j block (ground arith) own))
]

-- A block of entries of transaction `i` behind entries of lower ones, without a commit in it:
-- nothing more is committed.
pub Committed-other :
    (i : ℕ) (ids : List ℕ) (es block : List WalEntry)
    → Committed es ids
    → AllBelow i es
    → AllOf i block
    → says_commit (final_marker i block) ≡ false
    → Committed (es ++ block) ids × (serial ids (es ++ block) ≡ serial ids es)
Committed-other i ids es block d below own none_there = (
  record { ascending = d.ascending; exact = exact },
  serial-later i ids es block (Committed-below i ids es d below) own,
)
  where
    exact : (j : ℕ) → has j ids ≡ says_commit (final_marker j (es ++ block))
    exact j = elim (Bool-cases (nat_beq i j)) [
      | inl same ↦
          rw (final_marker-block i j es block below own, same)
            (d.exact j
              ∙ ap says_commit (final_marker-below i j es (ground arith) below)
              ∙ sym none_there
              ∙ ap (λ k. says_commit (final_marker k block)) ((nat_beq_iff i j).0 same))
      | inr other ↦ rw (final_marker-block i j es block below own, other) (d.exact j)
    ]

final_marker-commit :
    (i t : ℕ) (ops : List WalEntry)
    → final_marker i (ops ++ WalEntry.commit i t ∷ []) ≡ some RecoveryAction.commit
unfolding final_marker
final_marker-commit i t ops =
    final_marker-append i ops (WalEntry.commit i t ∷ []) ∙ rw ((nat_beq_iff i i).1 refl)

pub final_marker-abort :
    (i t : ℕ) (ops : List WalEntry)
    → final_marker i (ops ++ WalEntry.abort i t ∷ []) ≡ some RecoveryAction.rollback
unfolding final_marker
final_marker-abort i t ops =
    final_marker-append i ops (WalEntry.abort i t ∷ []) ∙ rw ((nat_beq_iff i i).1 refl)

pub final_marker-changes : (i : ℕ) (ops : List WalEntry) → NoMarker ops → final_marker i ops ≡ none
unfolding final_marker
final_marker-changes i [] h = refl
final_marker-changes i (WalEntry.insert j t k v ∷ ops) h = rw (final_marker-changes i ops h.1)
final_marker-changes i (WalEntry.update j t k o v ∷ ops) h = rw (final_marker-changes i ops h.1)
final_marker-changes i (WalEntry.delete j t k o ∷ ops) h = rw (final_marker-changes i ops h.1)
final_marker-changes i (WalEntry.commit j t ∷ ops) h = absurd (cc (h.0))
final_marker-changes i (WalEntry.abort j t ∷ ops) h = absurd (cc (h.0))

-- The changes `ops` of transaction `i` and its commit, behind entries of lower ones.
pub Committed-commit :
    (i t : ℕ) (ids : List ℕ) (es ops : List WalEntry)
    → Committed es ids
    → AllBelow i es
    → AllOf i ops
    → NoMarker ops
    → Committed (es ++ (ops ++ WalEntry.commit i t ∷ [])) (ids ++ i ∷ [])
      × (serial (ids ++ i ∷ []) (es ++ (ops ++ WalEntry.commit i t ∷ [])) ≡ serial ids es ++ ops)
Committed-commit i t ids es ops d below own changes = (
  record { ascending = Ascending-append_last i ids lower d.ascending; exact = exact },
  serial-append ids (i ∷ []) (es ++ block)
      ∙ ap (λ l. l ++ serial (i ∷ []) (es ++ block)) (serial-later i ids es block lower all_own)
      ∙ ap (λ l. serial ids es ++ l) (append-nil (changes_of i (es ++ block)) ∙ own_changes),
)
  where
    block : List WalEntry
    block = ops ++ WalEntry.commit i t ∷ []

    all_own : AllOf i block
    all_own = All-append (λ e. tx_id_of e ≡ i) ops (WalEntry.commit i t ∷ []) own (refl, tt)

    lower : All (λ j. j < i) ids
    lower = Committed-below i ids es d below

    own_changes : changes_of i (es ++ block) ≡ ops
    own_changes =
        changes_of-append i es block
        ∙ ap (λ l. filter (λ e. not (is_marker e)) l ++ changes_of i block)
            (entries_of-below i es below)
        ∙ ap (filter (λ e. not (is_marker e))) (entries_of-own i block all_own)
        ∙ filter-append (λ e. not (is_marker e)) ops (WalEntry.commit i t ∷ [])
        ∙ append-nil (filter (λ e. not (is_marker e)) ops)
        ∙ changes-own ops changes

    exact : (j : ℕ) → has j (ids ++ i ∷ []) ≡ says_commit (final_marker j (es ++ block))
    exact j = elim (Bool-cases (nat_beq i j)) [
      | inl same ↦
          rw
            (
              has-append_last j i ids,
              final_marker-block i j es block below all_own,
              same,
              sym ((nat_beq_iff i j).0 same),
              final_marker-commit i t ops,
            )
            (or_true (has i ids))
      | inr other ↦
          rw (has-append_last j i ids, final_marker-block i j es block below all_own, other)
            (or_false (has j ids) ∙ d.exact j)
    ]
