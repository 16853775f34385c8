-- ===== src/Checkpoint/File.antt =====
-- The checkpoint file: what is saved is loaded, and the log file is another file.
use async_wal_db.Prelude.{
  ℕ, ◌^◌, ◌<◌, ◌≡◌, refl, ap, ◌∙◌, arith, bytes_eq, bytes_beq_iff, bytes_beq, Bool-cases, inl, inr,
  length, length-append, false,
}
use async_wal_db.Prelude.Map
use async_wal_db.Prelude.Map.{get-insert}
use async_wal_db.Errors.{ok, codes}
use async_wal_db.Entry.{Bytes}
use async_wal_db.Wal.{WalStorage, log_file, contents}
use async_wal_db.Checkpoint.{
  Access, works, checkpoint_path, write_checkpoint, set_checkpoint, parsed, read_checkpoint,
  get_last_checkpoint,
}
use async_wal_db.Checkpoint.Decimal.{to_string, parse-to_string}

-- After `set_checkpoint` with a `u64`, `get_last_checkpoint` returns that number.
pub get_last_checkpoint-set_checkpoint :
    (w : WalStorage) (tx_id : ℕ)
    → tx_id < 2 ^ 64
    → (get_last_checkpoint works (set_checkpoint works tx_id w).0).1 ≡ ok tx_id
unfolding get_last_checkpoint set_checkpoint write_checkpoint read_checkpoint parsed
get_last_checkpoint-set_checkpoint w tx_id h =
    ap (read_checkpoint works)
      (get-insert (checkpoint_path w) (checkpoint_path w) (to_string tx_id) w.files)
    ∙ rw ((bytes_beq_iff (checkpoint_path w) (checkpoint_path w)).1 refl, parse-to_string tx_id h)

path-ne : (w : WalStorage) → bytes_beq (checkpoint_path w) w.path ≡ false
path-ne w = elim (Bool-cases (bytes_beq (checkpoint_path w) w.path)) [
  | inl same ↦
      let p = (bytes_beq_iff (checkpoint_path w) w.path).0 same in
      absurd (omega (arith, ap (length {A = ℕ}) p, length-append w.path (codes ".checkpoint")))
  | inr other ↦ other
]

pub log_file_beside :
    (w : WalStorage) (text : Bytes)
    → Map.get w.path (Map.insert (checkpoint_path w) text w.files) ≡ Map.get w.path w.files
log_file_beside w text = get-insert (checkpoint_path w) w.path text w.files ∙ rw (path-ne w)

-- However it turns out, `set_checkpoint` leaves the log file, the queue and its counter.
pub set_checkpoint-log_file :
    (access : Access) (tx_id : ℕ) (w : WalStorage)
    → log_file (set_checkpoint access tx_id w).0 ≡ log_file w
unfolding set_checkpoint write_checkpoint
set_checkpoint-log_file works tx_id w = ap contents (log_file_beside w _)
set_checkpoint-log_file Access.refused tx_id w = refl
set_checkpoint-log_file (Access.fails n) tx_id w = ap contents (log_file_beside w _)

-- What has been saved without an error is loaded.
pub saved-loaded :
    (access : Access) (w : WalStorage) (tx_id : ℕ)
    → tx_id < 2 ^ 64
    → (set_checkpoint access tx_id w).1 ≡ ok tt
    → (get_last_checkpoint works (set_checkpoint access tx_id w).0).1 ≡ ok tx_id
unfolding set_checkpoint
saved-loaded works w tx_id h r = get_last_checkpoint-set_checkpoint w tx_id h
saved-loaded Access.refused w tx_id h r = absurd (cc)
saved-loaded (Access.fails n) w tx_id h r = absurd (cc)
