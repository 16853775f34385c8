-- ===== src/Session/Interleaved/Tests.antt =====
-- Two transactions whose calls alternate, and the theorem about open transactions at them.
use mathlib.Core.List.{foldl}
use async_wal_db.Store.{redo}
use async_wal_db.Prelude.{◌^◌, ◌<◌, ◌≡◌, refl, arith, List, [], ◌∷◌, length, bytes_eq}
use async_wal_db.Prelude.Map
use async_wal_db.Errors.{ok}
use async_wal_db.Entry.{WalEntry}
use async_wal_db.Header
use async_wal_db.Frame.{frame}
use async_wal_db.Frame.Sample.{sample, sample-IsLawful}
use async_wal_db.Wal
use async_wal_db.Wal.{encode_batch, log_file}
use async_wal_db.Recovery.Tracking.{final_marker}
use async_wal_db.Recovery.Serial.{Committed}
use async_wal_db.Database
use async_wal_db.Database.{Database, on_wal, pure, ◌>>=◌}
use async_wal_db.Database.Config
use async_wal_db.Transaction.{
  Transaction, active, begin_transaction, add_entry, stamp, append_op, apply_to_store,
  apply_entries, write_marker, commit,
}
use async_wal_db.Session.Consistent.{Consistent}
use async_wal_db.Session.Start.{new-store}
use async_wal_db.Session.Tests.{quiet, quiet-IsCalm, start, start-Consistent}
use async_wal_db.Session.Closing.{recovered}
use async_wal_db.Session.Interleaved.{Work, Turn, Turns}
use async_wal_db.Session.Interleaved.Kept.{IsKept}
use async_wal_db.Session.Interleaved.Calls.{Turns-IsKept}
use async_wal_db.Session.Interleaved.Reordered.{commits_reordered}
use async_wal_db.Session.Interleaved.Recovered.{interleaved-recover}

nothing_committed : Committed [] []
unfolding final_marker
nothing_committed = record { ascending = tt; exact = λ i. refl }

abbrev start_clean : Consistent sample [] start
start_clean = record {
  holds = start-Consistent.holds;
  writable = tt;
  ids = [];
  committed = nothing_committed;
  replayed = new-store [] 1 (119 ∷ []);
  below = tt;
}

-- Both write the same key; the second one writes it first.
abbrev first : WalEntry
first = WalEntry.insert 0 0 (107 ∷ []) (1 ∷ [])

abbrev second : WalEntry
second = WalEntry.insert 0 0 (107 ∷ []) (2 ∷ [])

abbrev a : Transaction
a = record { id = 1; state = active; entries = WalEntry.insert 1 100 (107 ∷ []) (1 ∷ []) ∷ [] }

abbrev b : Transaction
b = record { id = 2; state = active; entries = WalEntry.insert 2 100 (107 ∷ []) (2 ∷ []) ∷ [] }

abbrev idle : Work
idle = record { db = start; running = []; committed = [] }

abbrev one_begun : Work
one_begun = record {
  db = (begin_transaction start).0;
  running = (begin_transaction start).1 ∷ [];
  committed = [];
}

abbrev both_begun : Work
both_begun = record {
  db = (begin_transaction one_begun.db).0;
  running = (begin_transaction one_begun.db).1 ∷ one_begun.running;
  committed = [];
}

abbrev one_appended : Work
one_appended = record {
  db = (append_op sample quiet (begin_transaction one_begun.db).1 second both_begun.db).0;
  running = b ∷ one_begun.running;
  committed = [];
}

abbrev picked : Work
picked = record one_appended { running = (begin_transaction start).1 ∷ b ∷ [] }

abbrev both_appended : Work
both_appended = record {
  db = (append_op sample quiet (begin_transaction start).1 first picked.db).0;
  running = a ∷ b ∷ [];
  committed = [];
}

abbrev one_committed : Work
one_committed = record {
  db = (commit sample quiet a both_appended.db).0;
  running = b ∷ [];
  committed = 1 ∷ [];
}

abbrev both_committed : Work
both_committed = record {
  db = (commit sample quiet b one_committed.db).0;
  running = [];
  committed = 1 ∷ 2 ∷ [];
}

begun : Turns sample idle both_begun
unfolding Database.new Database.build Wal.with_config Config.new begin_transaction append_op stamp
    add_entry Wal.append Wal.flush Wal.drain_and_flush encode_batch frame sample Header.new
    Header.to_bytes commit write_marker apply_entries apply_to_store on_wal Database.on_store pure
    ◌>>=◌ Map.get Map.insert
begun = Turns.then (Turns.then Turns.here (Turn.begins (omega arith))) (Turn.begins (omega arith))

appended : Turns sample idle both_appended
unfolding Database.new Database.build Wal.with_config Config.new begin_transaction append_op stamp
    add_entry Wal.append Wal.flush Wal.drain_and_flush encode_batch frame sample Header.new
    Header.to_bytes commit write_marker apply_entries apply_to_store on_wal Database.on_store pure
    ◌>>=◌ Map.get Map.insert
appended =
    Turns.then
      (Turns.then
        (Turns.then begun (
          Turn.appends (begin_transaction one_begun.db).1 b one_begun.running quiet second refl
            quiet-IsCalm refl refl))
        (Turn.picks (b ∷ []) (begin_transaction start).1 [] refl))
      (Turn.appends (begin_transaction start).1 a (b ∷ []) quiet first refl quiet-IsCalm refl refl)

a_committed : (commit sample quiet a both_appended.db).1 ≡ ok tt
unfolding Database.new Database.build Wal.with_config Config.new begin_transaction append_op stamp
    add_entry Wal.append Wal.flush Wal.drain_and_flush encode_batch frame sample Header.new
    Header.to_bytes commit write_marker apply_entries apply_to_store on_wal Database.on_store pure
    ◌>>=◌ Map.get Map.insert
a_committed = refl

b_committed : (commit sample quiet b one_committed.db).1 ≡ ok tt
unfolding Database.new Database.build Wal.with_config Config.new begin_transaction append_op stamp
    add_entry Wal.append Wal.flush Wal.drain_and_flush encode_batch frame sample Header.new
    Header.to_bytes commit write_marker apply_entries apply_to_store on_wal Database.on_store pure
    ◌>>=◌ Map.get Map.insert
b_committed = refl

committed : Turns sample idle both_committed
unfolding Database.new Database.build Wal.with_config Config.new begin_transaction append_op stamp
    add_entry Wal.append Wal.flush Wal.drain_and_flush encode_batch frame sample Header.new
    Header.to_bytes commit write_marker apply_entries apply_to_store on_wal Database.on_store pure
    ◌>>=◌ Map.get Map.insert
committed =
    Turns.then
      (Turns.then appended (Turn.commits a (b ∷ []) quiet refl quiet-IsCalm refl tt a_committed))
      (Turn.commits b [] quiet refl quiet-IsCalm refl (omega arith, tt) b_committed)

all_written : both_committed.db.wal.pending ≡ []
unfolding Database.new Database.build Wal.with_config Config.new begin_transaction append_op stamp
    add_entry Wal.append Wal.flush Wal.drain_and_flush encode_batch frame sample Header.new
    Header.to_bytes commit write_marker apply_entries apply_to_store on_wal Database.on_store pure
    ◌>>=◌ Map.get Map.insert
all_written = refl

log_small : length (log_file both_committed.db.wal) < 2 ^ 64
unfolding Database.new Database.build Wal.with_config Config.new begin_transaction append_op stamp
    add_entry Wal.append Wal.flush Wal.drain_and_flush encode_batch frame sample Header.new
    Header.to_bytes commit write_marker apply_entries apply_to_store on_wal Database.on_store pure
    ◌>>=◌ Map.get Map.insert
log_small = omega arith

interleaved-recover_example :
    (recovered sample 1 both_committed.db.wal).store ≡ both_committed.db.store
interleaved-recover_example =
    interleaved-recover sample-IsLawful [] start start_clean both_committed 1 committed all_written
      log_small

-- The second one is to commit first.
abbrev turned : Work
turned = record both_appended { running = b ∷ a ∷ [] }

idle-IsKept : IsKept sample [] idle
idle-IsKept = record {
  holds = start-Consistent.holds;
  writable = tt;
  committed = nothing_committed;
  replayed = new-store [] 1 (119 ∷ []);
  below = tt;
  running = tt;
  apart = tt;
}

turned-IsKept : (total : List WalEntry) × IsKept sample total turned
turned-IsKept =
    Turns-IsKept sample [] (Turns.then appended (Turn.picks (a ∷ []) b [] refl)) idle-IsKept

b_first : (commit sample quiet b turned.db).1 ≡ ok tt
unfolding Database.new Database.build Wal.with_config Config.new begin_transaction append_op stamp
    add_entry Wal.append Wal.flush Wal.drain_and_flush encode_batch frame sample Header.new
    Header.to_bytes commit write_marker apply_entries apply_to_store on_wal Database.on_store pure
    ◌>>=◌ Map.get Map.insert
b_first = refl

a_last : (commit sample quiet a (commit sample quiet b turned.db).0).1 ≡ ok tt
unfolding Database.new Database.build Wal.with_config Config.new begin_transaction append_op stamp
    add_entry Wal.append Wal.flush Wal.drain_and_flush encode_batch frame sample Header.new
    Header.to_bytes commit write_marker apply_entries apply_to_store on_wal Database.on_store pure
    ◌>>=◌ Map.get Map.insert
a_last = refl

turned-size :
    length (log_file (commit sample quiet a (commit sample quiet b turned.db).0).0.wal) < 2 ^ 64
unfolding Database.new Database.build Wal.with_config Config.new begin_transaction append_op stamp
    add_entry Wal.append Wal.flush Wal.drain_and_flush encode_batch frame sample Header.new
    Header.to_bytes commit write_marker apply_entries apply_to_store on_wal Database.on_store pure
    ◌>>=◌ Map.get Map.insert
turned-size = omega arith

commits_reordered_example :
    let last = (commit sample quiet a (commit sample quiet b turned.db).0).0 in
    (last.store ≡ foldl redo (foldl redo turned.db.store b.entries) a.entries)
    × ((recovered sample 1 last.wal).store
        ≡ foldl redo (foldl redo turned.db.store a.entries) b.entries)
unfolding frame sample
commits_reordered_example =
    commits_reordered sample-IsLawful turned-IsKept.0 turned a b [] quiet quiet 1 turned-IsKept.1
      refl (omega arith) tt quiet-IsCalm quiet-IsCalm refl refl b_first a_last turned-size
