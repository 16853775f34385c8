-- ===== src/Recovery/Damaged.antt =====
-- The counts of damage in the result of recovery.
use mathlib.Core.List.{foldl}
use async_wal_db.Prelude.{ℕ, ◌+◌, ◌≡◌, refl, sym, ap, ◌∙◌, arith, [], ◌∷◌, length}
use async_wal_db.Prelude.Map.{Map}
use async_wal_db.Errors.{Result, ok, err, panic, unfinished}
use async_wal_db.Recovery.{
  RecoveryAction, RecoveryStats, no_stats, Scan, count_partial_write, count_checksum_failure,
  count_action, classify, Memory, finish,
}

-- The same result, with these counts of partial writes and checksum failures.
abbrev pub with_damage : ℕ → ℕ → Result RecoveryStats → Result RecoveryStats
with_damage p f (ok st) = ok (record st { partial_writes = p; checksum_failures = f })
with_damage p f (err e) = err e
with_damage p f panic = panic
with_damage p f unfinished = unfinished

pub with_damage-with_damage :
    (p f q g : ℕ) (r : Result RecoveryStats)
    → with_damage p f (with_damage q g r) ≡ with_damage p f r
with_damage-with_damage p f q g (ok st) = refl
with_damage-with_damage p f q g (err e) = refl
with_damage-with_damage p f q g panic = refl
with_damage-with_damage p f q g unfinished = refl

abbrev pub marked : ℕ → ℕ → Scan → Scan
marked p f s = record s { stats = record s.stats { partial_writes = p; checksum_failures = f } }

foldl-marked :
    (p f : ℕ) (m : Map ℕ RecoveryAction) (st : RecoveryStats)
    → foldl count_action (record st { partial_writes = p; checksum_failures = f }) m
      ≡ record (foldl count_action st m) { partial_writes = p; checksum_failures = f }
unfolding count_action
foldl-marked p f [] st = refl
foldl-marked p f ((i, RecoveryAction.commit) ∷ m) st =
    foldl-marked p f m (count_action st (i, RecoveryAction.commit))
foldl-marked p f ((i, RecoveryAction.rollback) ∷ m) st =
    foldl-marked p f m (count_action st (i, RecoveryAction.rollback))
foldl-marked p f ((i, RecoveryAction.incomplete) ∷ m) st =
    foldl-marked p f m (count_action st (i, RecoveryAction.incomplete))

-- Phases 2 to 5 take these counts as they are.
pub finish-marked :
    (m : Memory) (p f : ℕ) (s : Scan)
    → finish m (marked p f s) ≡ ((finish m s).0, with_damage p f (finish m s).1)
unfolding finish classify
finish-marked m p f s =
    let counts =
      foldl-marked p f s.tx_actions (record s.stats { total_transactions = length s.tx_entries }) in
    ground (arith, counts)

pub count_checksum_failure-marked :
    (s : Scan) → s.stats ≡ no_stats → count_checksum_failure s ≡ marked 0 1 s
unfolding count_checksum_failure
count_checksum_failure-marked s h =
    ap
      (λ (x : RecoveryStats). record s {
        stats = record x { checksum_failures = x.checksum_failures + 1 };
      })
      h
    ∙ sym (
        ap
          (λ (x : RecoveryStats). record s {
            stats = record x { partial_writes = 0; checksum_failures = 1 };
          })
          h)

pub count_partial_write-marked :
    (s : Scan) → s.stats ≡ no_stats → count_partial_write s ≡ marked 1 0 s
unfolding count_partial_write
count_partial_write-marked s h =
    ap
      (λ (x : RecoveryStats). record s {
        stats = record x { partial_writes = x.partial_writes + 1 };
      })
      h
    ∙ sym (
        ap
          (λ (x : RecoveryStats). record s {
            stats = record x { partial_writes = 1; checksum_failures = 0 };
          })
          h)
