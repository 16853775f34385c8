-- ===== src/Session/Checkpointed/Tests.antt =====
-- A checkpoint by a process that has recovered its log.
use async_wal_db.Prelude.{◌≡◌, ◌≢◌, refl, arith, none, List, [], ◌∷◌, some, bytes_eq, length}
use async_wal_db.Prelude.Map
use async_wal_db.Prelude.Sort.{sort}
use async_wal_db.Errors.{ok}
use async_wal_db.Entry.{Bytes, WalEntry}
use async_wal_db.Header
use async_wal_db.Frame.{frame, eof, read_frame, read_exact}
use async_wal_db.Frame.RoundTrip.{reader}
use async_wal_db.Frame.Sample.{sample, sample-IsLawful}
use async_wal_db.Store.{redo, redo_all}
use async_wal_db.Wal.{encode_batch, log_file}
use async_wal_db.Wal.Holds.{Holds}
use async_wal_db.Recovery.{push_entry, replay}
use async_wal_db.Recovery.Tracking.{final_marker}
use async_wal_db.Recovery.Serial.{Committed}
use async_wal_db.Database.{Database, opened, refused, open_log, on_wal, pure, ◌>>=◌}
use async_wal_db.Checkpoint
use async_wal_db.Checkpoint.{
  works, get_last_checkpoint, set_checkpoint, set_insert, set_remove, note_marker, visit, leave,
  read_since, max_or, checkpoint,
}
use async_wal_db.Checkpoint.Scheduler.{scheduler}
use async_wal_db.Checkpoint.Decimal.{to_string, parse, trim}
use async_wal_db.Session.Consistent.{Consistent}
use async_wal_db.Session.Checkpointed.{get-scheduler}

abbrev entries : List WalEntry
entries = WalEntry.insert 1 100 (107 ∷ []) (1 ∷ []) ∷ WalEntry.commit 1 101 ∷ []

abbrev log : Bytes
log = (encode_batch sample entries).0

abbrev db : Database
db = record {
  store = (107 ∷ [], 1 ∷ []) ∷ [];
  wal = record {
    files = (119 ∷ [], log) ∷ [];
    path = 119 ∷ [];
    pending = [];
    max_queue_size = 10;
    pending_count = 0;
    buffered = [];
    durable = length log;
  };
  next_tx_id = 2;
}

abbrev files : Checkpoint.Files
files = record { loading = works; opening = opened; saving = works }

db-Holds : Holds sample db.wal entries
unfolding Map.get encode_batch frame sample Header.new Header.to_bytes
db-Holds = record {
  logged = entries;
  encoded = refl;
  split = refl;
  settled = record { unbuffered = refl; synced = refl; exact = refl; word = omega arith };
  word = omega arith;
}

only_first : Committed entries (1 ∷ [])
unfolding final_marker
only_first = record { ascending = (tt, tt); exact = λ i. ground arith }

db-Consistent : Consistent sample entries db
unfolding frame sample Header.new Header.to_bytes Map.insert redo
db-Consistent = record {
  holds = db-Holds;
  writable = (refl, (refl, tt));
  ids = 1 ∷ [];
  committed = only_first;
  replayed = refl;
  below = (omega arith, (omega arith, tt));
}

loaded : (get_last_checkpoint works db.wal).1 ≡ ok 0
unfolding get_last_checkpoint Map.get
loaded = refl

opens : open_log opened db.wal ≡ some (reader (log_file db.wal) eof)
unfolding open_log Map.get
opens = refl

runs : (checkpoint sample files db).1 ≡ ok 1
unfolding checkpoint on_wal get_last_checkpoint set_checkpoint open_log read_since leave visit
    note_marker set_insert set_remove max_or Map.get Map.insert Map.remove parse trim to_string pure
    ◌>>=◌ push_entry replay redo_all sort encode_batch frame sample Header.new Header.to_bytes
    Header.from_bytes Header.validate read_frame read_exact
runs = refl

-- The file system refuses the first checkpoint; the second one succeeds.
abbrev ticks : List Checkpoint.Files
ticks = record files { opening = refused } ∷ files ∷ []

log-there : Map.get db.wal.path db.wal.files ≢ none
unfolding Map.get
log-there e = cc (e)

get-scheduler_example :
    Map.get (107 ∷ []) (scheduler sample ticks db).store ≡ Map.get (107 ∷ []) db.store
get-scheduler_example =
    get-scheduler sample-IsLawful ticks db entries db-Consistent refl log-there (107 ∷ [])
