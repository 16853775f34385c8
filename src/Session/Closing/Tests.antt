-- ===== src/Session/Closing/Tests.antt =====
-- A process with an entry in its queue, and the theorems about its shutdown and its log at it.
use async_wal_db.Prelude.{
  ◌^◌, ◌<◌, ◌≡◌, ◌≢◌, refl, arith, List, [], ◌∷◌, true, none, some, length, bytes_eq,
}
use async_wal_db.Prelude.Map
use async_wal_db.Errors.{ok}
use async_wal_db.Entry.{Bytes, WalEntry}
use async_wal_db.Header
use async_wal_db.Frame.{frame}
use async_wal_db.Frame.Sample.{sample, sample-IsLawful}
use async_wal_db.Wal
use async_wal_db.Wal.{WalStorage, Disk, fine, encode_batch, drain_and_flush, log_file}
use async_wal_db.Wal.Encode.{Encodes}
use async_wal_db.Wal.Closing.{stop_flusher, rounds, old_path, truncate_wal}
use async_wal_db.Database
use async_wal_db.Database.{Database, on_wal, shutdown, pure, ◌>>=◌}
use async_wal_db.Database.Config
use async_wal_db.Transaction.{
  begin_transaction, add_entry, stamp, append_op, apply_to_store, apply_entries, write_marker,
  commit, abort,
}
use async_wal_db.Session.{Session, commits, drops, append_ops, conclude, run, run_all}
use async_wal_db.Session.Consistent.{Consistent}
use async_wal_db.Session.Replay.{AllWritable, run_all-Consistent}
use async_wal_db.Session.Tests.{good, one, start, one-calm, start-Consistent, start-number}
use async_wal_db.Session.Closing.{recovered, shutdown-recover, truncate_wal-recover}

-- The second transaction is dropped before its entry is written.
abbrev both : List Session
both =
    one (WalEntry.insert 0 0 (107 ∷ []) (1 ∷ [])) commits
    ∷ one (WalEntry.insert 0 0 (108 ∷ []) (2 ∷ [])) drops
    ∷ []

abbrev worked : Database
worked = (run_all sample both start).0

both-writable : AllWritable sample start.next_tx_id both
unfolding Database.new Database.build Config.new stamp frame sample Header.new Header.to_bytes
both-writable = (
  record { appending = (refl, tt); concluding = refl },
  (record { appending = (refl, tt); concluding = tt }, tt),
)

both-run : (run_all sample both start).1 ≡ ok tt
unfolding Database.new Database.build Wal.with_config Config.new run_all run begin_transaction
    append_ops conclude append_op stamp add_entry Wal.append Wal.flush Wal.drain_and_flush
    encode_batch frame sample Header.new Header.to_bytes commit abort write_marker apply_entries
    apply_to_store on_wal Database.on_store pure Database.raise ◌>>=◌ Map.get Map.insert Map.remove
both-run = refl

worked-Consistent : (total : List WalEntry) × Consistent sample total worked
worked-Consistent =
    run_all-Consistent sample both start [] start-Consistent (one-calm _ _, (one-calm _ _, tt))
      both-writable (omega (arith, start-number)) both-run

queue-left : length worked.wal.pending ≡ 1
unfolding Database.new Database.build Wal.with_config Config.new run_all run begin_transaction
    append_ops conclude append_op stamp add_entry Wal.append Wal.flush Wal.drain_and_flush
    encode_batch frame sample Header.new Header.to_bytes commit abort write_marker apply_entries
    apply_to_store on_wal Database.on_store pure Database.raise ◌>>=◌ Map.get Map.insert Map.remove
queue-left = refl

shutdown-size :
    length (log_file (shutdown sample true (none ∷ some good ∷ []) good worked).0.wal) < 2 ^ 64
unfolding Database.new Database.build Wal.with_config Config.new run_all run begin_transaction
    append_ops conclude append_op stamp add_entry Wal.append Wal.flush Wal.drain_and_flush
    encode_batch frame sample Header.new Header.to_bytes commit abort write_marker apply_entries
    apply_to_store on_wal Database.on_store pure Database.raise ◌>>=◌ Map.get Map.insert Map.remove
    shutdown stop_flusher rounds Wal.background
shutdown-size = omega arith

shutdown-recover_example :
    ((shutdown sample true (none ∷ some good ∷ []) good worked).1 ≡ ok tt)
    × ((shutdown sample true (none ∷ some good ∷ []) good worked).0.wal.pending ≡ [])
    × ((recovered sample 1 (shutdown sample true (none ∷ some good ∷ []) good worked).0.wal).store
        ≡ worked.store)
shutdown-recover_example =
    shutdown-recover sample-IsLawful worked-Consistent.0 worked (none ∷ some good ∷ []) good 1
      worked-Consistent.1 (tt, (refl, tt)) refl shutdown-size

log-there : Map.get worked.wal.path worked.wal.files ≢ none
unfolding Database.new Database.build Wal.with_config Config.new run_all run begin_transaction
    append_ops conclude append_op stamp add_entry Wal.append Wal.flush Wal.drain_and_flush
    encode_batch frame sample Header.new Header.to_bytes commit abort write_marker apply_entries
    apply_to_store on_wal Database.on_store pure Database.raise ◌>>=◌ Map.get Map.insert Map.remove
log-there e = cc (e)

truncate_wal-recover_example :
    let (w', result) = truncate_wal sample (some good ∷ []) good true worked.wal.path worked.wal in
    (result ≡ ok tt)
    × ((bytes : Bytes) × (Map.get (old_path worked.wal) w'.files ≡ some bytes)
        × Encodes sample worked-Consistent.0 bytes)
    × (log_file w' ≡ [])
    × ((recovered sample 1 w').store ≡ [])
truncate_wal-recover_example =
    truncate_wal-recover sample-IsLawful worked-Consistent.0 worked.wal (some good ∷ []) good 1
      worked-Consistent.1.holds worked-Consistent.1.writable log-there (refl, tt) refl
