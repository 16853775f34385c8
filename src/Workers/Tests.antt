-- ===== src/Workers/Tests.antt =====
-- `main` on a log that is not there, a small benchmark, and the theorems at them.
use async_wal_db.Prelude.{
  ℕ, zero, suc, ◌^◌, ◌≤◌, ◌<◌, ◌≡◌, ◌≢◌, refl, ap, arith, List, [], ◌∷◌, true, none, some, Option,
  ◌+◌, length, All, bytes_eq,
}
use async_wal_db.Prelude.Map
use async_wal_db.Errors.{ok, codes}
use async_wal_db.Entry.{Bytes, WalEntry}
use async_wal_db.Frame.{frame, read_frame, read_exact}
use async_wal_db.Frame.Sample.{sample, sample-IsLawful}
use async_wal_db.Frame.Sample.Writes.{sample-commit, sample-insert}
use async_wal_db.Header
use async_wal_db.Header.Bytes.{IsByte}
use async_wal_db.Wal.Holds.{is_some}
use async_wal_db.Wal
use async_wal_db.Wal.{Disk, fine, with_config, encode_batch, log_file}
use async_wal_db.Recovery.{RecoveryStats, recover, recover_with_validation}
use async_wal_db.Database
use async_wal_db.Database.{Database, opened, open_log, recover_from_log, on_wal, pure}
use async_wal_db.Database.Config
use async_wal_db.Checkpoint
use async_wal_db.Transaction.{
  World, stamp, begin_transaction, append_op, add_entry, commit, write_marker, apply_entries,
  apply_to_store,
}
use async_wal_db.Store.{redo_all}
use async_wal_db.Session.Open.{IsCalm}
use async_wal_db.Session.Start.{new-Consistent, new-idle, new-size, new-store}
use async_wal_db.Session.Closing.{recovered}
use async_wal_db.Workers.Recovered.{interleave-recover}
use async_wal_db.Workers.{Beat, calls, passes, interleave, turn, work, began, passed, unwrap}
use async_wal_db.Workers.Ready.{Serializes, SerializesCommits, Runs}
use async_wal_db.Workers.Counting.{left_at, times}
use async_wal_db.Workers.Turns.{IsCalmBeat}
use async_wal_db.Workers.Finished.{Finished, interleave-Finished}
use async_wal_db.Workers.Programs.{insert, demo_tasks, last_checkpoint, open_demo, main}
use async_wal_db.Workers.Demo.{numbered_value, demo_tasks-IsReady, key1, key2, main-lem}

abbrev good : Disk
good = record { outcome = fine; accepted = 0; spilled = 0 }

abbrev world : World
world = record { timestamp = 100; while_waiting = []; while_polling = none ∷ []; disk = good }

world-IsCalm : IsCalm world × (world.timestamp < 2 ^ 64)
world-IsCalm = (record { waiting = tt; polling = (tt, tt); flushing = refl }, omega arith)

-- The second task overtakes the first; the flusher writes in between.
abbrev beats : List Beat
beats =
    calls 0 world
    ∷ calls 1 world
    ∷ calls 1 world
    ∷ calls 0 world
    ∷ passes (some good)
    ∷ calls 1 world
    ∷ calls 0 world
    ∷ []

beats-calm : All IsCalmBeat beats
beats-calm = (
  world-IsCalm,
  (world-IsCalm, (world-IsCalm, (world-IsCalm, (refl, (world-IsCalm, (world-IsCalm, tt)))))),
)

demo-fair : (j : ℕ) → left_at j demo_tasks ≤ times j beats
demo-fair zero = omega arith
demo-fair (suc zero) = omega arith
demo-fair (suc (suc j)) = omega arith

is_some_of : (o : Option Bytes) (b : Bytes) → o ≡ some b → is_some o ≡ true
is_some_of o b e = rw e

sample-SerializesCommits : SerializesCommits sample
unfolding frame
sample-SerializesCommits id now hi hn = rw (sample-commit id now hi hn).1

sample-Serializes :
    (k v : Bytes)
    → All IsByte k
    → All IsByte v
    → length k + length v < 2 ^ 62
    → Serializes sample (insert k v)
unfolding frame stamp
sample-Serializes k v bk bv short id now hi hn = rw (sample-insert id now k v hi hn bk bv short).1

abbrev blank_stats : RecoveryStats
blank_stats = record {
  total_transactions = 0;
  committed = 0;
  aborted = 0;
  incomplete = 0;
  partial_writes = 0;
  checksum_failures = 0;
}

-- One checkpoint of the scheduler, which finds nothing, and the one at the end.
abbrev quiet : Checkpoint.Files
quiet = record { loading = Checkpoint.works; opening = opened; saving = Checkpoint.works }

demo-recovers : (recover_from_log sample opened (open_demo [] 1)).1 ≡ ok blank_stats
unfolding recover_from_log open_log recover Database.new Database.build Wal.with_config Config.new
    recover_with_validation read_frame read_exact Map.get Map.insert Map.remove redo_all open_demo
demo-recovers = refl

main-lem_example :
    (after : Database) × (main sample opened (quiet ∷ []) beats quiet (open_demo [] 1)
      ≡ last_checkpoint sample quiet after)
    × (after.wal.pending ≡ [])
    × (Map.get key1 after.store ≡ some (codes "value1"))
    × (Map.get key2 after.store ≡ some (codes "value2"))
    × ((k : Bytes)
        → k ≢ key1
        → k ≢ key2
        → Map.get k after.store
          ≡ Map.get k (recover_from_log sample opened (open_demo [] 1)).0.store)
unfolding Map.get encode_batch
main-lem_example =
    main-lem sample-IsLawful sample-SerializesCommits
      (sample-Serializes key1 (codes "value1") (omega arith) (omega arith) (omega arith))
      (sample-Serializes key2 (codes "value2") (omega arith) (omega arith) (omega arith)) [] 1 []
      blank_stats (quiet ∷ []) beats quiet refl (omega arith) tt (omega arith) demo-recovers
      beats-calm demo-fair

abbrev bench : Database
bench = Database.new [] 1 (codes "bench_concurrent.log")

bench-Runs : Runs sample [] bench
unfolding Map.get Database.new Database.build
bench-Runs =
    let k = new-Consistent [] 1 (codes "bench_concurrent.log") sample refl in
    record { holds = k.holds; writable = k.writable; counter = omega arith }

interleave-Finished_example : Finished sample numbered_value beats demo_tasks bench []
interleave-Finished_example =
    interleave-Finished sample numbered_value 1 sample-SerializesCommits beats demo_tasks bench []
      beats-calm bench-Runs
      (demo_tasks-IsReady sample
        (sample-Serializes key1 (codes "value1") (omega arith) (omega arith) (omega arith))
        (sample-Serializes key2 (codes "value2") (omega arith) (omega arith) (omega arith)))
      (omega (arith, new-size [] 1 (codes "bench_concurrent.log")))
      (omega (arith, ap (length {A = WalEntry}) (new-idle [] 1 (codes "bench_concurrent.log"))))
      demo-fair

-- The second task, whose number is the higher one, commits first.
interleaved-size : length (log_file (interleave sample beats demo_tasks bench).0.wal) < 2 ^ 64
unfolding Database.new Database.build Wal.with_config Config.new interleave turn work began passed
    unwrap begin_transaction append_op stamp add_entry Wal.append Wal.flush Wal.background
    Wal.drain_and_flush encode_batch frame sample Header.new Header.to_bytes commit write_marker
    apply_entries apply_to_store on_wal Database.on_store pure Database.raise Database.◌>>=◌ Map.get
    Map.insert Map.remove
interleaved-size = omega arith

interleave-recover_example :
    Map.get key1 (recovered sample 1 (interleave sample beats demo_tasks bench).0.wal).store
    ≡ Map.get key1 (interleave sample beats demo_tasks bench).0.store
interleave-recover_example =
    interleave-recover sample-IsLawful numbered_value 1 sample-SerializesCommits beats demo_tasks
      bench 1 beats-calm bench-Runs (new-store [] 1 (codes "bench_concurrent.log"))
      (new-idle [] 1 (codes "bench_concurrent.log"))
      (demo_tasks-IsReady sample
        (sample-Serializes key1 (codes "value1") (omega arith) (omega arith) (omega arith))
        (sample-Serializes key2 (codes "value2") (omega arith) (omega arith) (omega arith)))
      (tt, (tt, tt)) (omega (arith, new-size [] 1 (codes "bench_concurrent.log"))) demo-fair
      interleaved-size key1
