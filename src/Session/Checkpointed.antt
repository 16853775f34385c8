-- ===== src/Session/Checkpointed.antt =====
-- A checkpoint of a database whose store follows from its log.
pub mod Tests
use mathlib.Core.List.{foldl, append-nil}
use async_wal_db.Prelude.{
  ℕ, ◌<◌, ◌^◌, ◌≡◌, ◌≢◌, refl, sym, ap, ◌∙◌, arith, List, [], ◌++◌, Option, none, some,
  Option-cases, inl, inr, false, bytes_eq,
}
use async_wal_db.Prelude.Map
use async_wal_db.Errors.{ok}
use async_wal_db.Entry.{Bytes, WalEntry}
use async_wal_db.Frame.{Codec, IsLawful, eof}
use async_wal_db.Frame.RoundTrip.{reader}
use async_wal_db.Store.{redo}
use async_wal_db.Wal.{log_file, contents}
use async_wal_db.Recovery.{is_empty}
use async_wal_db.Recovery.Serial.{serial}
use async_wal_db.Database.{Database, open_log}
use async_wal_db.Checkpoint
use async_wal_db.Checkpoint.{get_last_checkpoint, checkpoint}
use async_wal_db.Checkpoint.Scheduler.{scheduler}
use async_wal_db.Checkpoint.Branches.{IsReadable, scheduler-IsReadable}
use async_wal_db.Checkpoint.Loop.{newer}
use async_wal_db.Checkpoint.Lookups.{replay_again}
use async_wal_db.Checkpoint.Replayed.{checkpoint_replays}
use async_wal_db.Session.Consistent.{Consistent}

-- A checkpoint that succeeds, of a database whose store is what its log makes of the empty store and
-- that has nothing pending, changes the value of no key, wherever the last checkpoint was.
pub get-checkpoint :
    {c : Codec}
    → IsLawful c
    → (files : Checkpoint.Files) (db : Database) (total : List WalEntry) (last n : ℕ)
    → Consistent c total db
    → db.wal.pending ≡ []
    → (get_last_checkpoint files.loading db.wal).1 ≡ ok last
    → is_empty db.wal.path ≡ false
    → open_log files.opening db.wal ≡ some (reader (log_file db.wal) eof)
    → n < 2 ^ 64
    → (checkpoint c files db).1 ≡ ok n
    → (k : Bytes) → Map.get k (checkpoint c files db).0.store ≡ Map.get k db.store
get-checkpoint {c} l files db total last n s idle loaded named open' small done k =
    let logged : s.holds.logged ≡ total =
      sym (append-nil s.holds.logged) ∙ rw (sym idle) s.holds.split in
    let (ids, part, store, top, bound, saved) =
      checkpoint_replays l files db total (log_file db.wal) last n loaded named
        (rw (sym logged) s.holds.encoded) open' small done in
    ap (Map.get k) (store ∙ ap (λ t. foldl redo t (serial ids (newer last total))) s.replayed)
    ∙ replay_again last total s.ids ids s.committed part k
    ∙ ap (Map.get k) (sym s.replayed)

-- The scheduler of a database whose store is what its log makes of the empty store and that has
-- nothing pending: however many checkpoints it makes, whether they succeed or not and however the
-- files behave, the value of no key changes.
pub get-scheduler :
    {c : Codec}
    → IsLawful c
    → (ticks : List Checkpoint.Files) (db : Database) (total : List WalEntry)
    → Consistent c total db
    → db.wal.pending ≡ []
    → Map.get db.wal.path db.wal.files ≢ none
    → (k : Bytes) → Map.get k (scheduler c ticks db).store ≡ Map.get k db.store
get-scheduler {c} l ticks db total s idle there k =
    elim (Option-cases (Map.get db.wal.path db.wal.files)) [
      | inl gone ↦ absurd (there gone)
      | inr (bytes, e) ↦
          let logged : s.holds.logged ≡ total =
            sym (append-nil s.holds.logged) ∙ rw (sym idle) s.holds.split in
          let before : IsReadable c total s.ids db = record {
            bytes = bytes;
            on_disk = e;
            encoded = rw (sym logged, sym (ap contents e)) s.holds.encoded;
            looks = λ k. ap (Map.get k) s.replayed;
          } in
          (scheduler-IsReadable l total s.ids s.committed ticks db before).looks k
          ∙ ap (Map.get k) (sym s.replayed)
    ]
