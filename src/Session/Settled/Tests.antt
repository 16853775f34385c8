-- ===== src/Session/Settled/Tests.antt =====
-- Two transactions on a new log, the first of them committed, and the theorem at them.
use async_wal_db.Prelude.{
  ℕ, ◌^◌, ◌<◌, ◌≡◌, refl, arith, List, [], ◌∷◌, none, some, length, bytes_eq,
}
use async_wal_db.Prelude.Map
use mathlib.Core.List.{foldl}
use async_wal_db.Entry.{WalEntry}
use async_wal_db.Store.{redo}
use async_wal_db.Header
use async_wal_db.Frame.{frame}
use async_wal_db.Frame.Sample.{sample, sample-IsLawful}
use async_wal_db.Wal.{
  Disk, fine, encode_batch, with_config, drain_and_flush, background, append, flush, log_file,
}
use async_wal_db.Wal.Simulation.Calls.{Call, appends, flushes, run}
use async_wal_db.Recovery.Serial.{serial, Committed}
use async_wal_db.Session.Closing.{recovered}
use async_wal_db.Session.Settled.{count_zero-recover}

abbrev good : Disk
good = record { outcome = fine; accepted = 0; spilled = 0 }

-- The third entry waits until the flusher has made room.
abbrev calls : List Call
calls =
    appends [] (WalEntry.insert 1 100 (107 ∷ []) (1 ∷ []))
    ∷ appends [] (WalEntry.insert 2 100 (108 ∷ []) (2 ∷ []))
    ∷ appends (none ∷ some good ∷ []) (WalEntry.commit 1 100)
    ∷ flushes (none ∷ []) good
    ∷ []

calls-count : (run sample calls (with_config [] (119 ∷ []) 2) []).0.pending_count ≡ 0
unfolding run with_config append flush background drain_and_flush encode_batch frame sample
    Header.new Header.to_bytes Map.get Map.insert
calls-count = refl

calls-size : length (log_file (run sample calls (with_config [] (119 ∷ []) 2) []).0) < 2 ^ 64
unfolding run with_config append flush background drain_and_flush encode_batch frame sample
    Header.new Header.to_bytes Map.get Map.insert
calls-size = omega arith

count_zero-recover_example :
    (let r = run sample calls (with_config [] (119 ∷ []) 2) [] in
      (ids : List ℕ) × Committed r.1 ids
      × ((recovered sample 10_000 r.0).store ≡ foldl redo [] (serial ids r.1)))
unfolding Map.get
count_zero-recover_example =
    count_zero-recover sample-IsLawful [] (119 ∷ []) 2 10_000 calls (omega arith) refl calls-count
      calls-size
