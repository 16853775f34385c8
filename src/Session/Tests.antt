-- ===== src/Session/Tests.antt =====
-- Two processes on one log, and the theorems about sessions at them.
use async_wal_db.Prelude.{
  ◌^◌, ◌<◌, ◌≡◌, refl, arith, List, [], ◌∷◌, none, some, All, length, bytes_eq,
}
use async_wal_db.Prelude.Map
use async_wal_db.Errors.{ok}
use async_wal_db.Entry.{Bytes, WalEntry}
use async_wal_db.Header
use async_wal_db.Frame.{frame, eof, read_frame, read_exact}
use async_wal_db.Store.{redo_all}
use async_wal_db.Frame.RoundTrip.{reader}
use async_wal_db.Frame.Sample.{sample, sample-IsLawful}
use async_wal_db.Wal
use async_wal_db.Wal.{Disk, fine, encode_batch, drain_and_flush, log_file, contents, Files}
use async_wal_db.Wal.Encode.{Encodes}
use async_wal_db.Recovery.{Memory, RecoveryStats, recover, recover_with_validation}
use async_wal_db.Database
use async_wal_db.Database.{Database, opened, open_log, recover_from_log, on_wal, pure, ◌>>=◌}
use async_wal_db.Database.Config
use async_wal_db.Transaction.{
  World, begin_transaction, add_entry, stamp, append_op, apply_to_store, apply_entries,
  write_marker, commit, abort,
}
use async_wal_db.Session.{
  Session, Ending, commits, aborts, drops, append_ops, conclude, run, run_all,
}
use async_wal_db.Session.Open.{IsCalm}
use async_wal_db.Session.Consistent.{Consistent}
use async_wal_db.Session.Replay.{IsCalmSession, AllWritable, run_all-recover}
use async_wal_db.Session.Start.{new-Consistent, recover_from_log-Consistent}

abbrev pub good : Disk
good = record { outcome = fine; accepted = 0; spilled = 0 }

-- The flusher drains while the first flush polls.
abbrev pub quiet : World
quiet = record {
  timestamp = 100;
  while_waiting = [];
  while_polling = none ∷ some good ∷ [];
  disk = good;
}

abbrev pub one : WalEntry → Ending → Session
one op ending = record { ops = (quiet, op) ∷ []; ending = ending; last = quiet }

abbrev sessions : List Session
sessions =
    one (WalEntry.insert 0 0 (107 ∷ []) (1 ∷ [])) commits
    ∷ one (WalEntry.insert 0 0 (108 ∷ []) (2 ∷ [])) aborts
    ∷ one (WalEntry.delete 0 0 (107 ∷ []) []) drops
    ∷ one (WalEntry.update 0 0 (107 ∷ []) (1 ∷ []) (3 ∷ [])) commits
    ∷ []

abbrev pub start : Database
start = Database.new [] 1 (119 ∷ [])

abbrev blank : Memory
blank = record { store = []; next_tx_id = 1 }

pub quiet-IsCalm : IsCalm quiet
quiet-IsCalm = record { waiting = tt; polling = (tt, (refl, tt)); flushing = refl }

pub one-calm : (op : WalEntry) (ending : Ending) → IsCalmSession (one op ending)
one-calm op ending = record { appending = (quiet-IsCalm, tt); concluding = quiet-IsCalm }

sessions-calm : All IsCalmSession sessions
sessions-calm = (one-calm _ _, (one-calm _ _, (one-calm _ _, (one-calm _ _, tt))))

pub start-Consistent : Consistent sample [] start
unfolding Map.get
start-Consistent = new-Consistent [] 1 (119 ∷ []) sample refl

sessions-writable : AllWritable sample start.next_tx_id sessions
unfolding Database.new Database.build Config.new stamp frame sample Header.new Header.to_bytes
sessions-writable = (
  record { appending = (refl, tt); concluding = refl },
  (
    record { appending = (refl, tt); concluding = refl },
    (
      record { appending = (refl, tt); concluding = tt },
      (record { appending = (refl, tt); concluding = refl }, tt),
    ),
  ),
)

sessions-run : (run_all sample sessions start).1 ≡ ok tt
unfolding Database.new Database.build Wal.with_config Config.new run_all run begin_transaction
    append_ops conclude append_op stamp add_entry Wal.append Wal.flush Wal.drain_and_flush
    encode_batch frame sample Header.new Header.to_bytes commit abort write_marker apply_entries
    apply_to_store on_wal Database.on_store pure Database.raise ◌>>=◌ Map.get Map.insert Map.remove
sessions-run = refl

sessions-idle : (run_all sample sessions start).0.wal.pending ≡ []
unfolding Database.new Database.build Wal.with_config Config.new run_all run begin_transaction
    append_ops conclude append_op stamp add_entry Wal.append Wal.flush Wal.drain_and_flush
    encode_batch frame sample Header.new Header.to_bytes commit abort write_marker apply_entries
    apply_to_store on_wal Database.on_store pure Database.raise ◌>>=◌ Map.get Map.insert Map.remove
sessions-idle = refl

sessions-size : length (log_file (run_all sample sessions start).0.wal) < 2 ^ 64
unfolding Database.new Database.build Wal.with_config Config.new run_all run begin_transaction
    append_ops conclude append_op stamp add_entry Wal.append Wal.flush Wal.drain_and_flush
    encode_batch frame sample Header.new Header.to_bytes commit abort write_marker apply_entries
    apply_to_store on_wal Database.on_store pure Database.raise ◌>>=◌ Map.get Map.insert Map.remove
sessions-size = omega arith

pub start-number : start.next_tx_id ≡ 1
unfolding Database.new Database.build
start-number = refl

-- The store at the end, and the log after it.
sessions-store : (run_all sample sessions start).0.store ≡ (107 ∷ [], 3 ∷ []) ∷ []
unfolding Database.new Database.build Wal.with_config Config.new run_all run begin_transaction
    append_ops conclude append_op stamp add_entry Wal.append Wal.flush Wal.drain_and_flush
    encode_batch frame sample Header.new Header.to_bytes commit abort write_marker apply_entries
    apply_to_store on_wal Database.on_store pure Database.raise ◌>>=◌ Map.get Map.insert Map.remove
sessions-store = refl

run_all-recover_example :
    (recover_with_validation sample
      (some (reader (log_file (run_all sample sessions start).0.wal) eof))
      blank).0.store
    ≡ (run_all sample sessions start).0.store
run_all-recover_example =
    run_all-recover sample-IsLawful sessions [] start blank start-Consistent sessions-calm
      sessions-writable (omega (arith, start-number)) sessions-run refl sessions-idle sessions-size

new-Consistent_example : Consistent sample [] (Database.new [] 1 (119 ∷ []))
unfolding Map.get
new-Consistent_example = new-Consistent [] 1 (119 ∷ []) sample refl

-- Another process on a log of one transaction.
abbrev entries : List WalEntry
entries = WalEntry.insert 1 100 (107 ∷ []) (1 ∷ []) ∷ WalEntry.commit 1 101 ∷ []

abbrev log : Bytes
log = (encode_batch sample entries).0

abbrev old_files : Files
old_files = (119 ∷ [], log) ∷ []

abbrev old_path : Bytes
old_path = 119 ∷ []

abbrev second : Database
second = Database.new old_files 1 old_path

second-Encodes : Encodes sample entries (contents (Map.get old_path old_files))
unfolding Map.get encode_batch frame sample Header.new Header.to_bytes
second-Encodes = refl

second-size : length (contents (Map.get old_path old_files)) < 2 ^ 64
unfolding Map.get encode_batch frame sample Header.new Header.to_bytes
second-size = omega arith

abbrev stats : RecoveryStats
stats = record {
  total_transactions = 1;
  committed = 1;
  aborted = 0;
  incomplete = 0;
  partial_writes = 1;
  checksum_failures = 0;
}

second-recovers : (recover_from_log sample opened second).1 ≡ ok stats
unfolding recover_from_log open_log recover Database.new Database.build Wal.with_config Config.new
    recover_with_validation encode_batch frame sample Header.new Header.to_bytes Header.from_bytes
    Header.validate read_frame read_exact Map.get Map.insert Map.remove redo_all
second-recovers = refl

recover_from_log-Consistent_example :
    Consistent sample entries (recover_from_log sample opened second).0
recover_from_log-Consistent_example =
    recover_from_log-Consistent old_files 1 old_path sample-IsLawful entries stats second-Encodes
      second-size (omega arith, (omega arith, tt)) second-recovers
