-- ===== src/Wal/Durable.antt =====
-- A flush on a disk that does not fail: every pending entry is in the log file, and synced.
use async_wal_db.Prelude.{
  ℕ, nil_of_length, zero, suc, ◌^◌, ◌<◌, ◌≡◌, ◌≢◌, refl, sym, ap, ◌∙◌, arith, List, [], ◌∷◌, ◌++◌,
  false, Option, none, some, ltb, length, Bool-cases, inl, inr, ◌⊎◌, All, bytes_eq, bytes_beq_iff,
}
use async_wal_db.Prelude.Map
use async_wal_db.Prelude.Map.{get-insert}
use mathlib.Core.List.{append-nil}
use async_wal_db.Errors.{ok}
use async_wal_db.Entry.{Bytes, WalEntry}
use async_wal_db.Frame.{Codec}
use async_wal_db.Wal.{
  WalStorage, Disk, fine, contents, log_file, extend_log, written, finished, drain_batch,
  drain_and_flush, background, poll, flush,
}
use async_wal_db.Wal.Encode.{Encodes, nil-Encodes}

-- Nothing is half written, and the counter is exact.
pub record IsSettled (w : WalStorage) : Type 0 where
  pub unbuffered : w.buffered ≡ []
  pub synced : w.durable ≡ length (log_file w)
  pub exact : w.pending_count ≡ length w.pending
  pub word : w.pending_count < 2 ^ 64

-- `w'` is `w` with its queue written: `bytes` stand at the end of the log.
pub record Drained (w w' : WalStorage) (bytes : Bytes) : Type 0 where
  pub log : log_file w' ≡ log_file w ++ bytes
  pub emptied : w'.pending ≡ []
  pub settled : IsSettled w'
  pub same_path : w'.path ≡ w.path
  pub same_size : w'.max_queue_size ≡ w.max_queue_size
  pub there : Map.get w.path w.files ≢ none → Map.get w'.path w'.files ≢ none

pub log_file-extend_log :
    (w : WalStorage) (bytes : Bytes)
    → contents (Map.get w.path (extend_log w bytes)) ≡ log_file w ++ bytes
unfolding extend_log
log_file-extend_log w bytes =
    ap contents (get-insert w.path w.path (log_file w ++ bytes) w.files)
    ∙ rw ((bytes_beq_iff w.path w.path).1 refl)

finished-Drained :
    (w : WalStorage) (bytes : Bytes) (n : ℕ)
    → w.buffered ≡ []
    → w.pending_count ≡ n
    → n < 2 ^ 64
    → Drained w (finished (record w { pending = [] }) bytes n) bytes
unfolding finished written extend_log
finished-Drained w bytes n unbuffered count small = record {
  log =
      log_file-extend_log w (w.buffered ++ bytes) ∙ ap (λ b. log_file w ++ (b ++ bytes)) unbuffered;
  emptied = refl;
  settled = record { unbuffered = refl; synced = refl; exact = omega arith; word = omega arith };
  same_path = refl;
  same_size = refl;
  there = λ h e. cc (
    get-insert w.path w.path (log_file w ++ (w.buffered ++ bytes)) w.files,
    (bytes_beq_iff w.path w.path).1 refl,
    e,
  );
}

Drained-empty :
    (w : WalStorage) (bytes : Bytes) → IsSettled w → w.pending ≡ [] → bytes ≡ [] → Drained w w bytes
Drained-empty w bytes s empty none_written = record {
  log = rw none_written (sym (append-nil (log_file w)));
  emptied = empty;
  settled = s;
  same_path = refl;
  same_size = refl;
  there = λ h. h;
}

drain_batch_fine :
    (c : Codec) (disk : Disk) (w : WalStorage) (bytes : Bytes) (batch : List WalEntry)
    → w.pending ≡ batch
    → disk.outcome ≡ fine
    → IsSettled w
    → Encodes c batch bytes
    → ((drain_batch c disk w batch).1 ≡ ok tt) × Drained w (drain_batch c disk w batch).0 bytes
unfolding drain_batch
drain_batch_fine c disk w bytes [] e f s h =
    (refl, Drained-empty w bytes s e (nil-Encodes c bytes h))
drain_batch_fine c disk w bytes (x ∷ batch) e f s h =
    rw (f, h)
      (
        refl,
        finished-Drained w bytes (suc (length batch)) s.unbuffered
            (s.exact ∙ ap (length {A = WalEntry}) e) (omega (arith, ap (length {A = WalEntry}) e)),
      )

-- On a disk that does not fail, `drain_and_flush` writes and syncs every pending entry.
pub drain_and_flush_fine :
    (c : Codec) (disk : Disk) (w : WalStorage) (bytes : Bytes)
    → disk.outcome ≡ fine
    → IsSettled w
    → Encodes c w.pending bytes
    → ((drain_and_flush c disk w).1 ≡ ok tt) × Drained w (drain_and_flush c disk w).0 bytes
unfolding drain_and_flush
drain_and_flush_fine c disk w bytes f s h = drain_batch_fine c disk w bytes w.pending refl f s h

-- A flusher that writes without fail when it comes to write.
abbrev pub IsFine : Option Disk → Type 0
IsFine none = Unit
IsFine (some disk) = disk.outcome ≡ fine

Drained-count : {w w' : WalStorage} {bytes : Bytes} → Drained w w' bytes → w'.pending_count ≡ 0
Drained-count d = d.settled.exact ∙ ap (length {A = WalEntry}) d.emptied

poll_idle :
    (c : Codec) (n : ℕ) (bs : List (Option Disk)) (w : WalStorage)
    → w.pending_count ≡ 0
    → poll c n bs w ≡ w
unfolding poll
poll_idle c zero bs w e = refl
poll_idle c (suc n) [] w e = refl
poll_idle c (suc n) (b ∷ bs) w e = ground arith

-- While `flush` polls, the queue is written as a whole or left as it is.
poll_fine :
    (c : Codec) (n : ℕ) (bs : List (Option Disk)) (w : WalStorage) (bytes : Bytes)
    → All IsFine bs
    → IsSettled w
    → Encodes c w.pending bytes
    → (poll c n bs w ≡ w) ⊎ Drained w (poll c n bs w) bytes
unfolding poll background
poll_fine c zero bs w bytes f s h = inl refl
poll_fine c (suc n) [] w bytes f s h = inl refl
poll_fine c (suc n) (none ∷ bs) w bytes f s h = elim (Bool-cases (ltb 0 w.pending_count)) [
  | inl busy ↦ rw busy (poll_fine c n bs w bytes f.1 s h)
  | inr idle ↦ rw idle (inl refl)
]
poll_fine c (suc n) (some disk ∷ bs) w bytes f s h = elim (Bool-cases (ltb 0 w.pending_count)) [
  | inl busy ↦
      let drained = (drain_and_flush_fine c disk w bytes f.0 s h).1 in
      rw (busy, poll_idle c n bs (drain_and_flush c disk w).0 (Drained-count drained)) (inr drained)
  | inr idle ↦ rw idle (inl refl)
]

-- On a storage that is settled (nothing stands in the buffer of the writer, the whole file is synced,
-- and the counter is the length of the queue), with pending entries that can be serialized, on disks
-- that do not fail, and where each drain that the flusher begins between two polls is over before the
-- next poll: `flush` returns without an error, the bytes of what was pending stand at the end of the
-- log file, in order, the queue is empty, and the storage is settled again.
pub flush_fine :
    (c : Codec) (bs : List (Option Disk)) (disk : Disk) (w : WalStorage) (bytes : Bytes)
    → All IsFine bs
    → disk.outcome ≡ fine
    → IsSettled w
    → Encodes c w.pending bytes
    → ((flush c bs disk w).1 ≡ ok tt) × Drained w (flush c bs disk w).0 bytes
unfolding flush
flush_fine c bs disk w bytes f fd s h = elim (poll_fine c 100 bs w bytes f s h) [
  | inl same ↦ rw same (elim (Bool-cases (ltb 0 w.pending_count)) [
    | inl busy ↦ rw busy (drain_and_flush_fine c disk w bytes fd s h)
    | inr idle ↦
        let empty : w.pending ≡ [] = nil_of_length w.pending (ground arith) in
        rw idle (refl, Drained-empty w bytes s empty (nil-Encodes c bytes (rw empty at h)))
  ])
  | inr drained ↦
      let idle : ltb 0 (poll c 100 bs w).pending_count ≡ false =
        ground (arith, Drained-count drained) in
      rw idle (refl, drained)
]
