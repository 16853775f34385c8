-- ===== src/Checkpoint.antt =====
-- `checkpoint` of src/database.rs, and the checkpoint file that src/wal_storage.rs writes beside
-- the log. The loop reads frames as recovery does, but each damage ends it with an error. White
-- space beyond ASCII, which `trim` also removes, is left off.
pub mod Decimal
pub mod File
pub mod Loop
pub mod Members
pub mod Lookups
pub mod Replayed
pub mod Scheduler
pub mod Branches
pub mod Untouched
pub mod Tests
use async_wal_db.Prelude.{
  ℕ, zero, suc, ◌+◌, List, [], ◌∷◌, ◌++◌, Bool, true, false, not, ◌&&◌, Option, none, some, max,
  ltb, leb, nat_beq, if◌then◌else◌, length, take, filter, bytes_eq,
}
use async_wal_db.Prelude.Map
use async_wal_db.Prelude.Map.{Map}
use async_wal_db.Prelude.Sort
use async_wal_db.Prelude.Sort.{has}
use async_wal_db.Errors.{
  WalError, Result, ok, err, panic, unfinished, io, deserialization, open_wal, no_new_checkpoints,
  codes,
}
use async_wal_db.Entry.{Bytes, WalEntry, tx_id_of}
use async_wal_db.Frame.{
  Codec, Reader, Frame, header_eof, data_eof, read_error, too_long, invalid, undecodable, entry,
  read_frame,
}
use async_wal_db.Store.{Store}
use async_wal_db.Wal.{WalStorage}
use async_wal_db.Recovery.{push_entry, replay, is_empty}
use async_wal_db.Database.{Database, Action, Opening, open_log, on_wal, pure, ◌>>=◌, ◌>>◌}
use Decimal.{to_string, trim, parse}

-- How the use of a file turns out: it works, it cannot be opened, or it fails behind `n` bytes. A
-- file that is not UTF-8 fails to be read.
pub data Access : Type 0 where
  works refused : Access
  fails : ℕ → Access

-- `format!("{}.checkpoint", self.path)`
abbrev pub checkpoint_path : WalStorage → Bytes
checkpoint_path w = w.path ++ codes ".checkpoint"

write_checkpoint : WalStorage → Bytes → WalStorage
write_checkpoint w text = record w { files = Map.insert (checkpoint_path w) text w.files }

unfoldable pub set_checkpoint : Access → ℕ → WalStorage → WalStorage × Result (Unit {0})
unfolding write_checkpoint
set_checkpoint works tx_id w = (write_checkpoint w (to_string tx_id), ok tt)
set_checkpoint refused tx_id w =
    (w, err (WalError.checkpoint (codes "Failed to write checkpoint: ")))
set_checkpoint (fails n) tx_id w = (write_checkpoint w (take n (to_string tx_id)), err io)

parsed : Option ℕ → Result ℕ
parsed none = err (WalError.checkpoint (codes "Invalid checkpoint TxID: "))
parsed (some tx_id) = ok tx_id

read_checkpoint : Access → Option Bytes → Result ℕ
unfolding parsed
read_checkpoint access none = ok 0
read_checkpoint works (some contents) = parsed (parse (trim contents))
read_checkpoint refused (some contents) =
    err (WalError.checkpoint (codes "Failed to read checkpoint: "))
read_checkpoint (fails n) (some contents) = err io

unfoldable pub get_last_checkpoint : Access → WalStorage → WalStorage × Result ℕ
unfolding read_checkpoint
get_last_checkpoint access w = (w, read_checkpoint access (Map.get (checkpoint_path w) w.files))

-- The local variables of the loop; `committed_txs` is a `HashSet`.
pub record Progress : Type 0 where
  pub tx_entries : Map ℕ (List WalEntry)
  pub committed_txs : List ℕ

abbrev pub nothing_read : Progress
nothing_read = record { tx_entries = []; committed_txs = [] }

-- `HashSet::insert` and `HashSet::remove`
unfoldable pub set_insert : ℕ → List ℕ → List ℕ
set_insert i ids = if has i ids then ids else i ∷ ids

unfoldable pub set_remove : ℕ → List ℕ → List ℕ
set_remove i ids = filter (λ j. not (nat_beq j i)) ids

-- The second `match` of the loop
unfoldable pub note_marker : WalEntry → List ℕ → List ℕ
note_marker (WalEntry.commit tx_id t) ids = set_insert tx_id ids
note_marker (WalEntry.abort tx_id t) ids = set_remove tx_id ids
note_marker (WalEntry.insert tx_id t k v) ids = ids
note_marker (WalEntry.update tx_id t k o v) ids = ids
note_marker (WalEntry.delete tx_id t k o) ids = ids

-- What one round does with an entry: those up to the last checkpoint are skipped.
unfoldable pub visit : ℕ → Progress → WalEntry → Progress
visit last_ckpt s e = if leb (tx_id_of e) last_ckpt then s else record {
  tx_entries = push_entry (tx_id_of e) e s.tx_entries;
  committed_txs = note_marker e s.committed_txs;
}

-- The ways out of the loop
unfoldable pub leave : Frame → Progress → Result Progress
leave header_eof s = ok s
leave data_eof s = err io
leave read_error s = err io
leave too_long s = panic
leave (invalid e) s = err e
leave undecodable s = err deserialization
leave (entry len e r) s = unfinished

unfoldable pub read_since : Codec → ℕ → ℕ → Reader → Progress → Result Progress
unfolding leave visit
read_since c last_ckpt zero r s = unfinished
read_since c last_ckpt (suc rounds) r s = elim (read_frame c r) [
  | entry len e r' ↦ read_since c last_ckpt rounds r' (visit last_ckpt s e)
  | other ↦ leave other s
]

-- `iter().max().unwrap_or(&last_ckpt)`
unfoldable pub max_or : ℕ → List ℕ → ℕ
max_or d [] = d
max_or d (i ∷ []) = i
max_or d (i ∷ j ∷ ids) = max i (max_or d (j ∷ ids))

-- How the files behave during one checkpoint.
pub record Files : Type 0 where
  pub loading : Access
  pub opening : Opening
  pub saving : Access

-- The new committed transactions are replayed, and the highest is saved.
apply_committed : Files → ℕ → Progress → Action ℕ
apply_committed files last_ckpt s db =
    let sorted = Sort.sort (filter (λ id. ltb last_ckpt id) s.committed_txs) in
    let max_ckpt = max_or last_ckpt s.committed_txs in
    (on_wal (set_checkpoint files.saving max_ckpt) >> pure max_ckpt)
      (record db { store = replay s.tx_entries db.store sorted })

abbrev pub no_ids : List ℕ → Bool
no_ids [] = true
no_ids (i ∷ ids) = false

pub after_read : Files → ℕ → Database → Result Progress → Database × Result ℕ
unfolding apply_committed
after_read files last_ckpt db (ok s) =
    if no_ids s.committed_txs
    then (db, err no_new_checkpoints)
    else apply_committed files last_ckpt s db
after_read files last_ckpt db (err e) = (db, err e)
after_read files last_ckpt db panic = (db, panic)
after_read files last_ckpt db unfinished = (db, unfinished)

read_log : Codec → Files → ℕ → Database → Option Reader → Database × Result ℕ
unfolding after_read read_since
read_log c files last_ckpt db none = (db, err open_wal)
read_log c files last_ckpt db (some r) =
    after_read files last_ckpt db (read_since c last_ckpt (length r.bytes + 1) r nothing_read)

pub checkpoint_since : Codec → Files → ℕ → Action ℕ
unfolding read_log
checkpoint_since c files last_ckpt db =
    if nat_beq last_ckpt 0 && is_empty db.wal.path
    then (db, err no_new_checkpoints)
    else read_log c files last_ckpt db (open_log files.opening db.wal)

-- `checkpoint`
unfoldable pub checkpoint : Codec → Files → Action ℕ
unfolding checkpoint_since
checkpoint c files = on_wal (get_last_checkpoint files.loading) >>= checkpoint_since c files
