-- ===== src/Checkpoint/Branches.antt =====
-- What a checkpoint does on each of its branches to a database whose log file is whole.
use mathlib.Core.List.{foldl}
use mathlib.Core.Path.{subst}
use async_wal_db.Prelude.{
  ℕ, zero, suc, ◌+◌, ◌≡◌, ◌≢◌, refl, sym, ap, ◌∙◌, arith, List, [], ◌∷◌, ◌&&◌, some, nat_beq,
  length, Bool-cases, inl, inr, bytes_eq,
}
use async_wal_db.Prelude.Map
use async_wal_db.Errors.{Result, ok, err, panic, unfinished}
use async_wal_db.Entry.{Bytes, WalEntry}
use async_wal_db.Frame.{
  Codec, IsLawful, Reader, Frame, fault, entry, header_eof, data_eof, read_error, too_long, invalid,
  undecodable, read_frame,
}
use async_wal_db.Frame.Fault.{IsFaultyFrame, read_frame-IsFaultyFrame}
use async_wal_db.Store.{redo}
use async_wal_db.Wal.Encode.{Encodes}
use async_wal_db.Recovery.{replay, is_empty}
use async_wal_db.Recovery.Damage.{Reads-log}
use async_wal_db.Recovery.Serial.{serial, Committed}
use async_wal_db.Database.{
  Database, Opening, refused, opened, failing, open_log, on_wal, pure, ◌>>=◌, ◌>>◌,
}
use async_wal_db.Checkpoint.{
  Access, works, fails, Progress, nothing_read, set_checkpoint, get_last_checkpoint, visit, leave,
  read_since, max_or, no_ids, Files, apply_committed, after_read, read_log, checkpoint_since,
  checkpoint,
}
use async_wal_db.Checkpoint.Scheduler.{goes_on, scheduler}
use async_wal_db.Checkpoint.File.{log_file_beside}
use async_wal_db.Checkpoint.Loop.{newer, read_since-Reads}
use async_wal_db.Checkpoint.Members.{sorted, sorted-Committed}
use async_wal_db.Checkpoint.Lookups.{replay_again, get-foldl-same}
use async_wal_db.Checkpoint.Replayed.{after_read-damaged, replay-sorted}

-- The log file holds the entries `total`, and each lookup gives what its committed transactions make
-- of the empty store.
pub record IsReadable (c : Codec) (total : List WalEntry) (ids : List ℕ) (db : Database)
    : Type 0 where
  pub bytes : Bytes
  pub on_disk : Map.get db.wal.path db.wal.files ≡ some bytes
  pub encoded : Encodes c total bytes
  pub looks : (k : Bytes) → Map.get k db.store ≡ Map.get k (foldl redo [] (serial ids total))

-- Saving touches no store and not the log file.
record Beside (db out : Database) : Type 0 where
  same_store : out.store ≡ db.store
  same_path : out.wal.path ≡ db.wal.path
  same_log : Map.get out.wal.path out.wal.files ≡ Map.get db.wal.path db.wal.files

save-Beside :
    (access : Access) (n : ℕ) (db : Database)
    → Beside db ((on_wal (set_checkpoint access n) >> pure n) db).0
unfolding on_wal set_checkpoint pure ◌>>=◌
save-Beside works n db = record {
  same_store = refl;
  same_path = refl;
  same_log = log_file_beside db.wal _;
}
save-Beside Access.refused n db = record { same_store = refl; same_path = refl; same_log = refl }
save-Beside (fails m) n db = record {
  same_store = refl;
  same_path = refl;
  same_log = log_file_beside db.wal _;
}

read_since-fault :
    (c : Codec) (last rounds : ℕ) (r : Reader) (s t : Progress)
    → r.tail ≡ fault
    → read_since c last rounds r s ≢ ok t
unfolding read_since leave
read_since-fault c last zero r s t h = λ e. cc (e)
read_since-fault c last (suc rounds) r s t h =
    of (read_frame c r) (read_frame-IsFaultyFrame c r h)
      (λ x r' h'. read_since-fault c last rounds r' (visit last s x) t h')
  where
    of :
        (f : Frame)
        → IsFaultyFrame f
        → ((x : WalEntry) (r' : Reader)
            → r'.tail ≡ fault
            → read_since c last rounds r' (visit last s x) ≢ ok t)
        → elim f [
          | entry len e r' ↦ read_since c last rounds r' (visit last s e)
          | other ↦ leave other s
        ]
          ≢ ok t
    of (entry len e r') q rest = rest e r' q
    of header_eof q rest = elim q [ ]
    of data_eof q rest = λ e. cc (e)
    of read_error q rest = λ e. cc (e)
    of too_long q rest = λ e. cc (e)
    of (invalid x) q rest = λ e. cc (e)
    of undecodable q rest = λ e. cc (e)

module _ {c : Codec} (l : IsLawful c) (total : List WalEntry) (ids : List ℕ)
    (whole : Committed total ids) where
  -- The replay of what is behind the last checkpoint keeps every lookup.
  replay-looks :
      (last : ℕ) (db : Database) (k : Bytes)
      → IsReadable c total ids db
      → Map.get k (
          foldl redo db.store
            (serial (sorted last (foldl (visit last) nothing_read total)) (newer last total)))
        ≡ Map.get k (foldl redo [] (serial ids total))
  replay-looks last db k i =
      let new = sorted last (foldl (visit last) nothing_read total) in
      get-foldl-same k (serial new (newer last total)) db.store (foldl redo [] (serial ids total))
        (i.looks k)
      ∙ replay_again last total ids new whole (sorted-Committed last total) k

  after_read-IsReadable :
      (files : Files) (last : ℕ) (db : Database)
      → IsReadable c total ids db
      → IsReadable c total ids
          (after_read files last db (ok (foldl (visit last) nothing_read total))).0
  unfolding after_read apply_committed
  after_read-IsReadable files last db i =
      let s = foldl (visit last) nothing_read total in
      elim (Bool-cases (no_ids s.committed_txs)) [
        | inl none_new ↦ rw none_new i
        | inr some_new ↦
            let replayed : Database = record db {
              store = replay s.tx_entries db.store (sorted last s);
            } in
            let b = save-Beside files.saving (max_or last s.committed_txs) replayed in
            rw some_new record {
              bytes = i.bytes;
              on_disk = b.same_log ∙ i.on_disk;
              encoded = i.encoded;
              looks = λ k.
                  ap (Map.get k) (b.same_store ∙ replay-sorted last total db.store)
                  ∙ replay-looks last db k i;
            }
      ]

  read_log-IsReadable :
      (files : Files) (last : ℕ) (db : Database)
      → IsReadable c total ids db
      → IsReadable c total ids (read_log c files last db (open_log files.opening db.wal)).0
  unfolding read_log open_log leave
  read_log-IsReadable files last db i = of files.opening
    where
      of :
          (how : Opening)
          → IsReadable c total ids (read_log c files last db (open_log how db.wal)).0
      of refused = rw (i.on_disk) i
      of opened =
          rw
            (
              i.on_disk,
              read_since-Reads c last (Reads-log l total i.bytes i.encoded) (length i.bytes + 1)
                  nothing_read (omega arith),
            )
            (after_read-IsReadable files last db i)
      of (failing n) = rw (i.on_disk) (
          subst (IsReadable c total ids)
            (sym
              (after_read-damaged c files db last _
                (λ t. read_since-fault c last _ _ nothing_read t refl)).0)
            i)

  checkpoint_since-IsReadable :
      (files : Files) (last : ℕ) (db : Database)
      → IsReadable c total ids db
      → IsReadable c total ids (checkpoint_since c files last db).0
  unfolding checkpoint_since
  checkpoint_since-IsReadable files last db i =
      elim (Bool-cases (nat_beq last 0 && is_empty db.wal.path)) [
        | inl nameless ↦ rw nameless i
        | inr named ↦ rw named (read_log-IsReadable files last db i)
      ]

  -- A checkpoint, successful or not, whatever the last one was and however the files behave.
  pub checkpoint-IsReadable :
      (files : Files) (db : Database)
      → IsReadable c total ids db
      → IsReadable c total ids (checkpoint c files db).0
  unfolding checkpoint on_wal get_last_checkpoint ◌>>=◌
  checkpoint-IsReadable files db i = of (get_last_checkpoint files.loading db.wal).1 refl
    where
      of :
          (r : Result ℕ)
          → (get_last_checkpoint files.loading db.wal).1 ≡ r
          → IsReadable c total ids (checkpoint c files db).0
      of (ok last) e = rw e (checkpoint_since-IsReadable files last db i)
      of (err x) e = rw e i
      of panic e = rw e i
      of unfinished e = rw e i

  pub scheduler-IsReadable :
      (ticks : List Files) (db : Database)
      → IsReadable c total ids db
      → IsReadable c total ids (scheduler c ticks db)
  unfolding scheduler
  scheduler-IsReadable [] db i = i
  scheduler-IsReadable (files ∷ ticks) db i =
      elim (Bool-cases (goes_on (checkpoint c files db).1)) [
        | inl on ↦ rw on (
            scheduler-IsReadable ticks (checkpoint c files db).0 (checkpoint-IsReadable files db i))
        | inr off ↦ rw off (checkpoint-IsReadable files db i)
      ]
