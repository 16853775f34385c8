-- ===== src/Wal/Simulation/Tests.antt =====
-- Calls on a small log, and the theorems about what the tasks can reach at them.
use async_wal_db.Prelude.{◌≡◌, refl, arith, List, [], ◌∷◌, none, some, bytes_eq}
use async_wal_db.Prelude.Map
use async_wal_db.Entry.{WalEntry}
use async_wal_db.Header
use async_wal_db.Frame.{frame}
use async_wal_db.Frame.Sample.{sample}
use async_wal_db.Wal.{
  Files, Disk, fine, write_fails, contents, encode_batch, with_config, drain_and_flush, background,
  append, flush, log_file,
}
use async_wal_db.Wal.Simulation.{Matches}
use async_wal_db.Wal.Simulation.Calls.{Call, appends, flushes, passes, run, run-Reach}
use async_wal_db.Wal.Simulation.Settled.{OnDisk, count_zero-OnDisk, same_file}
use async_wal_db.Tasks.{System, Reach}

abbrev good : Disk
good = record { outcome = fine; accepted = 0; spilled = 0 }

abbrev bad : Disk
bad = record { outcome = write_fails; accepted = 20; spilled = 5 }

abbrev files : Files
files = (119 ∷ [], 7 ∷ []) ∷ []

abbrev first : WalEntry
first = WalEntry.insert 1 100 (107 ∷ []) (1 ∷ [])

abbrev second : WalEntry
second = WalEntry.commit 1 100

-- The second call waits for the flusher, since the queue has room for one entry.
abbrev cramped : List Call
cramped = appends [] first ∷ appends (none ∷ some good ∷ []) second ∷ flushes (none ∷ []) good ∷ []

abbrev roomy : List Call
roomy = appends [] first ∷ passes none ∷ appends [] second ∷ flushes (some good ∷ []) good ∷ []

abbrev failing : List Call
failing = appends [] first ∷ passes (some bad) ∷ appends [] second ∷ flushes [] good ∷ []

cramped-count : (run sample cramped (with_config files (119 ∷ []) 1) []).0.pending_count ≡ 0
unfolding run with_config append flush background drain_and_flush encode_batch frame sample
    Header.new Header.to_bytes Map.get Map.insert
cramped-count = refl

roomy-count : (run sample roomy (with_config files (119 ∷ []) 9) []).0.pending_count ≡ 0
unfolding run with_config append flush background drain_and_flush encode_batch frame sample
    Header.new Header.to_bytes Map.get Map.insert
roomy-count = refl

-- The entry of the failed batch stays counted.
failing-count : (run sample failing (with_config files (119 ∷ []) 9) []).0.pending_count ≡ 1
unfolding run with_config append flush background drain_and_flush encode_batch frame sample
    Header.new Header.to_bytes Map.get Map.insert
failing-count = refl

same_admitted :
    (run sample cramped (with_config files (119 ∷ []) 1) []).1
    ≡ (run sample roomy (with_config files (119 ∷ []) 9) []).1
unfolding run with_config append flush background drain_and_flush encode_batch frame sample
    Header.new Header.to_bytes Map.get Map.insert
same_admitted = refl

run-Reach_example :
    (s : System) × Reach 9 s
    × (s.shared.pushed ≡ (run sample failing (with_config files (119 ∷ []) 9) []).1)
    × Matches sample
        (contents (Map.get (119 ∷ []) files))
        (run sample failing (with_config files (119 ∷ []) 9) []).0
        s.shared
run-Reach_example = run-Reach sample files (119 ∷ []) 9 failing

count_zero-OnDisk_example :
    OnDisk sample
      (contents (Map.get (119 ∷ []) files))
      (run sample cramped (with_config files (119 ∷ []) 1) []).1
      (run sample cramped (with_config files (119 ∷ []) 1) []).0
count_zero-OnDisk_example =
    count_zero-OnDisk sample files (119 ∷ []) 1 cramped (omega arith) cramped-count

same_file_example :
    log_file (run sample cramped (with_config files (119 ∷ []) 1) []).0
    ≡ log_file (run sample roomy (with_config files (119 ∷ []) 9) []).0
same_file_example =
    same_file sample files (119 ∷ []) 1 9 cramped roomy (omega arith) (omega arith) cramped-count
      roomy-count same_admitted
