-- ===== src/Tasks/Safety.antt =====
-- What holds of the shared state whatever the tasks do.
use async_wal_db.Prelude.{
  ℕ, nil_of_length, ◌+◌, ◌^◌, ◌≤◌, ◌<◌, ◌≡◌, refl, ap, ◌∙◌, arith, List, [], ◌∷◌, Bool, length,
}
use async_wal_db.Entry.{WalEntry}
use async_wal_db.Tasks.{Shared, Task, Move, System, Step, Reach}
use async_wal_db.Tasks.Tally.{slots, holds, unsynced, weigh, carried, total, bit}
use async_wal_db.Tasks.Reachable.{Reach-IsTallied}

Move-size : {m m' : Shared} {t t' : Task} → Move m t m' t' → m'.max_queue_size ≡ m.max_queue_size
Move-size Move.load = refl
Move-size mv = refl

Step-size : {s t : System} → Step s t → t.shared.max_queue_size ≡ s.shared.max_queue_size
Step-size (Step.call t c) = refl
Step-size (Step.moves front t back e mv) = Move-size mv
Step-size (Step.notify front k back e) = refl
Step-size (Step.join front back before behind e p) = refl

pub Reach-size : {n : ℕ} {s : System} → Reach n s → s.shared.max_queue_size ≡ n
Reach-size Reach.start = refl
Reach-size (Reach.later r st) = Step-size st ∙ Reach-size r

-- The entries in the queue, those of batches under way and the places reserved are never more than
-- the queue may hold, however many tasks append, drain and fail.
pub capacity :
    {n : ℕ} {s : System}
    → n < 2 ^ 64
    → Reach n s
    → length s.shared.pending + total slots s.tasks ≤ n
capacity small r =
    let i = Reach-IsTallied small r in omega (arith, i.exact, i.bounded, Reach-size r)

-- At most one task stands between taking the mutex and dropping its guard.
pub exclusion : {n : ℕ} {s : System} → n < 2 ^ 64 → Reach n s → total holds s.tasks ≤ 1
exclusion {s = s} small r =
    let i = Reach-IsTallied small r in omega (arith, i.mutex, bit-le s.shared.locked)
  where
    bit-le : (b : Bool) → bit b ≤ 1
    bit-le b = ground arith

-- No entry is lost, doubled or invented: for each weight on entries, what was pushed weighs what is
-- in the log, in the queue, with the tasks that drain, and in batches that failed.
pub conservation :
    {n : ℕ} {s : System}
    → n < 2 ^ 64
    → Reach n s
    → (w : WalEntry → ℕ)
    → weigh w s.shared.pushed
      ≡ weigh w s.shared.log
        + weigh w s.shared.pending
        + total (λ t. weigh w (carried t)) s.tasks
        + weigh w s.shared.lost
conservation small r w = (Reach-IsTallied small r).kept w

empty_handed : (w : WalEntry → ℕ) (t : Task) → slots t ≡ 0 → weigh w (carried t) ≡ 0
empty_handed w (Task.draining k batch) e = ap (weigh w) (nil_of_length batch e)
empty_handed w (Task.locking k batch) e = ap (weigh w) (nil_of_length batch e)
empty_handed w (Task.writing k n rest) e = ap (weigh w) (nil_of_length rest (omega arith))
empty_handed w t e = refl

none_carried :
    (w : WalEntry → ℕ) (ts : List Task)
    → total slots ts ≡ 0
    → total (λ t. weigh w (carried t)) ts ≡ 0
none_carried w [] e = refl
none_carried w (t ∷ ts) e =
    omega (arith, empty_handed w t (omega arith), none_carried w ts (omega arith))

synced_handed : (t : Task) → slots t ≡ 0 → unsynced t ≡ 0
synced_handed (Task.writing k n rest) e = omega arith
synced_handed t e = refl

none_unsynced : (ts : List Task) → total slots ts ≡ 0 → total unsynced ts ≡ 0
none_unsynced [] e = refl
none_unsynced (t ∷ ts) e =
    omega (arith, synced_handed t (omega arith), none_unsynced ts (omega arith))

-- When the counter is 0, every entry that has been pushed is in the log, as often as it was pushed,
-- and an fsync has covered the whole log.
pub count_zero_durable :
    {n : ℕ} {s : System}
    → n < 2 ^ 64
    → Reach n s
    → s.shared.pending_count ≡ 0
    → ((w : WalEntry → ℕ) → weigh w s.shared.pushed ≡ weigh w s.shared.log)
      × (length s.shared.log ≤ s.shared.durable)
count_zero_durable {s = s} small r zero =
    let i = Reach-IsTallied small r in
    let m = s.shared in
    let idle : total slots s.tasks ≡ 0 = omega (arith, i.exact) in
    let queue : m.pending ≡ [] = nil_of_length m.pending (omega (arith, i.exact)) in
    let none_lost : m.lost ≡ [] = nil_of_length m.lost (omega (arith, i.exact, i.accounted)) in
    (
      λ w. omega (
        arith,
        i.kept w,
        ap (weigh w) queue,
        ap (weigh w) none_lost,
        none_carried w s.tasks idle,
      ),
      omega (arith, i.exact, i.synced, none_unsynced s.tasks idle),
    )
