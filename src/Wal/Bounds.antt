-- ===== src/Wal/Bounds.antt =====
-- The bound on the queue: what the counter promises on every path, failures included.
use async_wal_db.Prelude.{
  ℕ, zero, suc, ◌+◌, ◌^◌, ◌≤◌, ◌<◌, ◌≡◌, refl, ap, arith, List, [], ◌∷◌, Bool, true, false, Option,
  none, some, ltb, leb, length, length-append, Bool-cases, inl, inr,
}
use async_wal_db.Entry.{Bytes, WalEntry}
use async_wal_db.Frame.{Codec}
use async_wal_db.Wal.{
  WalStorage, Disk, Outcome, fine, write_fails, sync_fails, encode_batch, stopped, written,
  finished, write_batch, drain_batch, drain_and_flush, background, pushed, append, poll, flush,
}

-- The queue is no longer than its counter, which is within the capacity, which is a `usize`.
pub record IsBounded (w : WalStorage) : Type 0 where
  pub counted : length w.pending ≤ w.pending_count
  pub bounded : w.pending_count ≤ w.max_queue_size
  pub word : w.max_queue_size < 2 ^ 64

write_batch-IsBounded :
    (w : WalStorage) (disk : Disk) (o : Outcome) (bytes : Bytes) (b : Bool) (n : ℕ)
    → IsBounded w
    → length w.pending + n ≤ w.pending_count
    → IsBounded (write_batch w disk o bytes b n).0
unfolding write_batch stopped written finished
write_batch-IsBounded w disk fine bytes true n h le = omega arith
write_batch-IsBounded w disk fine bytes false n h le = omega arith
write_batch-IsBounded w disk sync_fails bytes true n h le = omega arith
write_batch-IsBounded w disk sync_fails bytes false n h le = omega arith
write_batch-IsBounded w disk write_fails bytes b n h le = ground arith

drain_batch-IsBounded :
    (c : Codec) (disk : Disk) (w : WalStorage) (batch : List WalEntry)
    → w.pending ≡ batch
    → IsBounded w
    → IsBounded (drain_batch c disk w batch).0
unfolding drain_batch
drain_batch-IsBounded c disk w [] e h = h
drain_batch-IsBounded c disk w (x ∷ batch) e h =
    write_batch-IsBounded (record w { pending = [] }) disk disk.outcome
      (encode_batch c (x ∷ batch)).0 (encode_batch c (x ∷ batch)).1 (suc (length batch))
      (omega arith) (omega (arith, ap (length {A = WalEntry}) e))

pub drain_and_flush-IsBounded :
    (c : Codec) (disk : Disk) (w : WalStorage)
    → IsBounded w
    → IsBounded (drain_and_flush c disk w).0
unfolding drain_and_flush
drain_and_flush-IsBounded c disk w h = drain_batch-IsBounded c disk w w.pending refl h

background-IsBounded :
    (c : Codec) (b : Option Disk) (w : WalStorage) → IsBounded w → IsBounded (background c b w)
unfolding background
background-IsBounded c none w h = h
background-IsBounded c (some disk) w h = drain_and_flush-IsBounded c disk w h

pushed-IsBounded :
    (w : WalStorage) (e : WalEntry)
    → leb w.max_queue_size w.pending_count ≡ false
    → IsBounded w
    → IsBounded (pushed w e)
unfolding pushed
pushed-IsBounded w e room h = ground (arith, length-append w.pending (e ∷ []))

-- `append` keeps the bound, whether it returns or still waits, and whatever the flusher does.
pub append-IsBounded :
    (c : Codec) (bs : List (Option Disk)) (e : WalEntry) (w : WalStorage)
    → IsBounded w
    → IsBounded (append c bs e w).0
unfolding append
append-IsBounded c [] e w h = elim (Bool-cases (leb w.max_queue_size w.pending_count)) [
  | inl full ↦ rw full h
  | inr room ↦ rw room (pushed-IsBounded w e room h)
]
append-IsBounded c (b ∷ bs) e w h = elim (Bool-cases (leb w.max_queue_size w.pending_count)) [
  | inl full ↦ rw full (append-IsBounded c bs e (background c b w) (background-IsBounded c b w h))
  | inr room ↦ rw room (pushed-IsBounded w e room h)
]

poll-IsBounded :
    (c : Codec) (n : ℕ) (bs : List (Option Disk)) (w : WalStorage)
    → IsBounded w
    → IsBounded (poll c n bs w)
unfolding poll
poll-IsBounded c zero bs w h = h
poll-IsBounded c (suc n) [] w h = h
poll-IsBounded c (suc n) (b ∷ bs) w h = elim (Bool-cases (ltb 0 w.pending_count)) [
  | inl busy ↦ rw busy (poll-IsBounded c n bs (background c b w) (background-IsBounded c b w h))
  | inr idle ↦ rw idle h
]

-- `flush` keeps the bound, also where it fails.
pub flush-IsBounded :
    (c : Codec) (bs : List (Option Disk)) (disk : Disk) (w : WalStorage)
    → IsBounded w
    → IsBounded (flush c bs disk w).0
unfolding flush
flush-IsBounded c bs disk w h = elim (Bool-cases (ltb 0 (poll c 100 bs w).pending_count)) [
  | inl busy ↦
      rw busy (drain_and_flush-IsBounded c disk (poll c 100 bs w) (poll-IsBounded c 100 bs w h))
  | inr idle ↦ rw idle (poll-IsBounded c 100 bs w h)
]
