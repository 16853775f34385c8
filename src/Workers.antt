-- ===== src/Workers.antt =====
-- The programs over the database: src/main.rs, examples/benchmark.rs and
-- examples/scaling_benchmark.rs. Each spawns tasks that run transactions of inserts one after the
-- other, waits for the tasks, and goes on.
pub mod Values
pub mod Logged
pub mod Replayed
pub mod Grown
pub mod Ready
pub mod Progress
pub mod Counting
pub mod Turns
pub mod Finished
pub mod Recovered
pub mod Programs
pub mod Benchmarks
pub mod Demo
pub mod Tests
use async_wal_db.Prelude.{ℕ, zero, suc, List, [], ◌∷◌, ◌++◌, map, Option}
use async_wal_db.Errors.{Result, ok, err, panic, unfinished}
use async_wal_db.Entry.{Bytes, WalEntry}
use async_wal_db.Frame.{Codec}
use async_wal_db.Wal.{Disk, background}
use async_wal_db.Database.{Database, Action, pure, ◌>>=◌, ◌>>◌}
use async_wal_db.Transaction.{Transaction, World, begin_transaction, append_op, commit}

-- A spawned task between two calls: the operations of the transactions that it has not begun, and
-- the open transaction with the operations that it has still to append.
pub data Worker : Type 0 where
  idle : (jobs : List (List WalEntry)) → Worker
  working : (tx : Transaction) (ops : List WalEntry) (jobs : List (List WalEntry)) → Worker

-- `unwrap` panics on an error.
unwrapped : {A : Type 0} → Result A → Result A
unwrapped (err e) = panic
unwrapped r = r

unfoldable pub unwrap : {A : Type 0} → Action A → Action A
unfolding unwrapped
unwrap m db = let (db', r) = m db in (db', unwrapped r)

began : List WalEntry → List (List WalEntry) → Database × Transaction → Database × Result Worker
began ops jobs (db, tx) = (db, ok (working tx ops jobs))

-- The next call of a task: `begin_transaction`, `append_op` or `commit`.
unfoldable pub work : Codec → World → Worker → Action Worker
unfolding began
work c world (idle []) = pure (idle [])
work c world (idle (ops ∷ jobs)) = λ db. began ops jobs (begin_transaction db)
work c world (working tx (op ∷ ops) jobs) = do
  tx' ← unwrap (append_op c world tx op)
  pure (working tx' ops jobs)
work c world (working tx [] jobs) = do unwrap (commit c world tx); pure (idle jobs)

-- The task at a place makes its next call. A task that panics or that waits ends the run.
unfoldable pub turn : Codec → World → ℕ → List Worker → Action (List Worker)
turn c world i [] = pure []
turn c world zero (w ∷ ws) = do w' ← work c world w; pure (w' ∷ ws)
turn c world (suc i) (w ∷ ws) = do ws' ← turn c world i ws; pure (w ∷ ws')

-- What happens next: a call of a task, or a round of the flusher.
pub data Beat : Type 0 where
  calls : ℕ → World → Beat
  passes : Option Disk → Beat

passed : Codec → Option Disk → Action (Unit {0})
passed c b db = (record db { wal = background c b db.wal }, ok tt)

-- The tasks in the order that the scheduler chooses.
unfoldable pub interleave : Codec → List Beat → List Worker → Action (List Worker)
unfolding passed
interleave c [] ws = pure ws
interleave c (calls i world ∷ beats) ws = turn c world i ws >>= interleave c beats
interleave c (passes b ∷ beats) ws = passed c b >> interleave c beats ws
