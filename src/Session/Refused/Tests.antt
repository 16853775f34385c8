-- ===== src/Session/Refused/Tests.antt =====
-- A commit of an update of an absent key.
use async_wal_db.Prelude.{◌≡◌, ◌++◌, ◌<◌, ◌^◌, refl, arith, [], ◌∷◌, none, some, bytes_eq, length}
use async_wal_db.Prelude.Map
use async_wal_db.Errors.{ok, err, apply_store, codes}
use async_wal_db.Entry.{WalEntry}
use async_wal_db.Header
use async_wal_db.Frame.{frame, eof}
use async_wal_db.Frame.RoundTrip.{reader}
use async_wal_db.Frame.Sample.{sample, sample-IsLawful}
use async_wal_db.Wal
use async_wal_db.Wal.{WalStorage, Disk, fine, encode_batch, drain_and_flush, log_file}
use async_wal_db.Wal.Holds.{Holds}
use async_wal_db.Recovery.{Memory, recover_with_validation}
use async_wal_db.Recovery.Tracking.{final_marker}
use async_wal_db.Database.{Database, on_wal, on_store, pure, raise, ◌>>=◌}
use async_wal_db.Transaction.{
  Transaction, active, World, apply_to_store, apply_entries, write_marker, commit,
}
use async_wal_db.Session.Open.{IsCalm, IsOpen}
use async_wal_db.Session.Consistent.{Before}
use async_wal_db.Session.Refused.{commit_refused}

abbrev good : Disk
good = record { outcome = fine; accepted = 0; spilled = 0 }

abbrev quiet : World
quiet = record { timestamp = 100; while_waiting = []; while_polling = []; disk = good }

quiet-IsCalm : IsCalm quiet
quiet-IsCalm = record { waiting = tt; polling = tt; flushing = refl }

abbrev change : WalEntry
change = WalEntry.update 1 100 (107 ∷ []) [] (1 ∷ [])

abbrev tx : Transaction
tx = record { id = 1; state = active; entries = change ∷ [] }

abbrev db : Database
db = record {
  store = [];
  wal = record {
    files = (119 ∷ [], []) ∷ [];
    path = 119 ∷ [];
    pending = change ∷ [];
    max_queue_size = 10;
    pending_count = 1;
    buffered = [];
    durable = 0;
  };
  next_tx_id = 2;
}

db-Holds : Holds sample db.wal (change ∷ [])
unfolding Map.get encode_batch
db-Holds = record {
  logged = [];
  encoded = refl;
  split = refl;
  settled = record { unbuffered = refl; synced = refl; exact = refl; word = omega arith };
  word = omega arith;
}

tx-IsOpen : IsOpen sample 1 2 db.store [] (change ∷ []) db tx
unfolding frame sample Header.new Header.to_bytes
tx-IsOpen = record {
  same_id = refl;
  is_active = refl;
  buffered = refl;
  same_store = refl;
  same_counter = refl;
  own = (refl, tt);
  changes = (refl, tt);
  holds = db-Holds;
  writable = (refl, tt);
}

db-Before : Before 1 [] db.store []
unfolding final_marker
db-Before = record {
  committed = record { ascending = tt; exact = λ i. refl };
  replayed = refl;
  below = tt;
}

absent : Map.get (107 ∷ []) db.store ≡ none
unfolding Map.get
absent = refl

marker_written : (write_marker sample quiet (WalEntry.commit 1 100) db).1 ≡ ok tt
unfolding write_marker on_wal ◌>>=◌ Wal.append Wal.flush drain_and_flush encode_batch frame sample
    Header.new Header.to_bytes Map.get Map.insert
marker_written = refl

size : length (log_file (commit sample quiet tx db).0.wal) < 2 ^ 64
unfolding commit write_marker on_wal on_store pure raise ◌>>=◌ apply_entries apply_to_store
    Wal.append Wal.flush drain_and_flush encode_batch frame sample Header.new Header.to_bytes
    Map.get Map.insert
size = omega arith

abbrev blank : Memory
blank = record { store = []; next_tx_id = 1 }

commit_refused_example :
    ((commit sample quiet tx db).1
      ≡ err (apply_store (codes "Update on non-existent key: " ++ 107 ∷ [])))
    × ((commit sample quiet tx db).0.store ≡ db.store)
    × ((recover_with_validation sample
          (some (reader (log_file (commit sample quiet tx db).0.wal) eof))
          blank).0.store
        ≡ Map.insert (107 ∷ []) (1 ∷ []) db.store)
unfolding frame sample Header.new Header.to_bytes
commit_refused_example =
    commit_refused sample-IsLawful quiet quiet-IsCalm tx db [] [] 100 (107 ∷ []) [] (1 ∷ []) blank
      tx-IsOpen db-Before absent refl marker_written refl size
