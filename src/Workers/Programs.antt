-- ===== src/Workers/Programs.antt =====
-- `main` of src/main.rs, examples/benchmark.rs and examples/scaling_benchmark.rs: what they insert,
-- and what they do around their tasks. Each program has its own log. A loop that a benchmark runs
-- itself is a task here. In `main` the scheduler's checkpoints come before the calls of the tasks.
use async_wal_db.Prelude.{ℕ, zero, suc, ◌%◌, List, [], ◌∷◌, ◌++◌, map, Bool, Option}
use async_wal_db.Errors.{Result, ok, err, panic, unfinished, no_new_checkpoints, codes}
use async_wal_db.Entry.{Bytes, WalEntry}
use async_wal_db.Frame.{Codec}
use async_wal_db.Wal
use async_wal_db.Wal.{Disk}
use async_wal_db.Database.{
  Database, Action, Opening, new, recover_from_log, shutdown, pure, ◌>>=◌, ◌>>◌,
}
use async_wal_db.Checkpoint
use async_wal_db.Checkpoint.{checkpoint}
use async_wal_db.Checkpoint.Decimal.{to_string}
use async_wal_db.Checkpoint.Scheduler.{scheduler}
use async_wal_db.Workers.{Worker, idle, working, unwrap, Beat, interleave}

-- The operation as it is written in the programs: `append_op` fills in the number and the time.
abbrev pub insert : Bytes → Bytes → WalEntry
insert key value = WalEntry.insert 0 0 key value

-- `0..n`
abbrev pub upto : ℕ → List ℕ
upto zero = []
upto (suc n) = upto n ++ n ∷ []

-- `format!("{}-{}", a, b)`
abbrev pub pair : ℕ → ℕ → Bytes
pair a b = to_string a ++ codes "-" ++ to_string b

abbrev pub triple : ℕ → ℕ → ℕ → Bytes
triple a b d = to_string a ++ codes "-" ++ pair b d

-- The operations, by the numbers of the thread, the transaction and the operation.
abbrev pub single_op : ℕ → ℕ → ℕ → WalEntry
single_op thread i j = insert (codes "key-" ++ to_string i) (codes "value-" ++ to_string i)

abbrev pub thread_op : ℕ → ℕ → ℕ → WalEntry
thread_op thread i j = insert (codes "key-" ++ pair thread i) (codes "value-" ++ pair thread i)

abbrev pub batch_op : ℕ → ℕ → ℕ → WalEntry
batch_op thread i j = insert (codes "key-" ++ pair i j) (codes "value-" ++ pair i j)

abbrev pub thread_batch_op : ℕ → ℕ → ℕ → WalEntry
thread_batch_op thread i j =
    insert (codes "key-" ++ triple thread i j) (codes "value-" ++ triple thread i j)

abbrev pub own_key_op : ℕ → ℕ → ℕ → WalEntry
own_key_op thread i j =
    insert (codes "thread" ++ to_string thread ++ codes "-key" ++ to_string i) (codes "value")

abbrev pub shared_key_op : ℕ → ℕ → ℕ → WalEntry
shared_key_op thread i j = insert (codes "shared-key" ++ to_string (i % 10)) (codes "value")

-- The nested loops over threads, transactions and operations.
abbrev pub job : (ℕ → WalEntry) → ℕ → List WalEntry
job op ops = map op (upto ops)

abbrev pub thread_jobs : (ℕ → ℕ → WalEntry) → ℕ → ℕ → List (List WalEntry)
thread_jobs op txns ops = map (λ i. job (op i) ops) (upto txns)

abbrev pub threads : (ℕ → ℕ → ℕ → WalEntry) → ℕ → ℕ → ℕ → List Worker
threads op count txns ops = map (λ t. idle (thread_jobs (op t) txns ops)) (upto count)

-- `handle.await.unwrap()` on each handle; a task that has panicked has ended the run before.
unfoldable pub join_all : List Worker → Action (Unit {0})
join_all [] = pure tt
join_all (idle [] ∷ ws) = join_all ws
join_all (idle (ops ∷ jobs) ∷ ws) = λ db. (db, unfinished)
join_all (working tx ops jobs ∷ ws) = λ db. (db, unfinished)

-- One benchmark: the tasks, and at the end the shutdown.
unfoldable pub benchmark :
    Codec → Bool → List (Option Disk) → Disk → List Beat → List Worker → Action (Unit {0})
unfolding join_all
benchmark c stored bs disk beats ws = do
  ws' ← interleave c beats ws
  join_all ws'
  unwrap (shutdown c stored bs disk)

-- The benchmarks of examples/benchmark.rs.
abbrev pub single_threaded : List Worker
single_threaded = threads single_op 1 1000 1

abbrev pub concurrent : List Worker
concurrent = threads thread_op 10 100 1

abbrev pub batched : List Worker
batched = threads batch_op 1 100 10

abbrev pub highly_concurrent : List Worker
highly_concurrent = threads thread_op 50 20 1

-- Those of examples/scaling_benchmark.rs, for each number of threads and each size of a batch.
abbrev pub scaling : ℕ → List Worker
scaling num_threads = threads thread_op num_threads 100 1

abbrev pub batch_size : ℕ → List Worker
batch_size ops_per_txn = threads thread_batch_op 10 50 ops_per_txn

abbrev pub no_overlap : List Worker
no_overlap = threads own_key_op 20 50 1

abbrev pub overlap : List Worker
overlap = threads shared_key_op 20 50 1

-- The tasks of src/main.rs.
abbrev pub demo_tasks : List Worker
demo_tasks =
    idle ((insert (codes "key1") (codes "value1") ∷ []) ∷ [])
    ∷ idle ((insert (codes "key2") (codes "value2") ∷ []) ∷ [])
    ∷ []

unfoldable pub scheduled : Codec → List Checkpoint.Files → Action (Unit {0})
scheduled c ticks db = (scheduler c ticks db, ok tt)

-- The `match` on the checkpoint that `main` makes.
reported : Result ℕ → Result (Unit {0})
reported (ok tx_id) = ok tt
reported (err no_new_checkpoints) = ok tt
reported (err e) = err e
reported panic = panic
reported unfinished = unfinished

unfoldable pub last_checkpoint : Codec → Checkpoint.Files → Action (Unit {0})
unfolding reported
last_checkpoint c files db = let (db', r) = checkpoint c files db in (db', reported r)

unfoldable pub open_demo : Wal.Files → ℕ → Database
open_demo files next_tx_id = new files next_tx_id (codes "demo_wal.log")

-- `main` after the database is opened
unfoldable pub main :
    Codec → Opening → List Checkpoint.Files → List Beat → Checkpoint.Files → Action (Unit {0})
unfolding scheduled join_all
main c how ticks beats files = do
  stats ← recover_from_log c how
  scheduled c ticks
  ws ← interleave c beats demo_tasks
  join_all ws
  last_checkpoint c files
