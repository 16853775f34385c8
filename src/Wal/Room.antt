-- ===== src/Wal/Room.antt =====
-- What the calls of the log leave of the queue and of its size, whatever the disk does.
use async_wal_db.Prelude.{
  ℕ, zero, suc, ◌+◌, ◌≤◌, ◌<◌, ◌≡◌, ◌∙◌, arith, List, [], ◌∷◌, ◌++◌, Bool, true, false, Option,
  none, some, ltb, length, Bool-cases, inl, inr,
}
use async_wal_db.Errors.{ok}
use async_wal_db.Entry.{Bytes, WalEntry}
use async_wal_db.Frame.{Codec}
use async_wal_db.Wal.{
  WalStorage, Disk, Outcome, fine, write_fails, sync_fails, stopped, written, finished, write_batch,
  drain_batch, drain_and_flush, background, pushed, append, poll, flush,
}

-- With room in the queue an `append` returns at once.
pub append_room :
    (c : Codec) (bs : List (Option Disk)) (e : WalEntry) (w : WalStorage)
    → w.pending_count < w.max_queue_size
    → append c bs e w
      ≡ (record w { pending = w.pending ++ e ∷ []; pending_count = w.pending_count + 1 }, ok tt)
unfolding append pushed
append_room c [] e w room = ground arith
append_room c (b ∷ bs) e w room = ground arith

-- The queue is not longer than before, and its size is the same.
pub record Shorter (w w' : WalStorage) : Type 0 where
  pub shorter : length w'.pending ≤ length w.pending
  pub same_size : w'.max_queue_size ≡ w.max_queue_size

Shorter-trans : {a b d : WalStorage} → Shorter a b → Shorter b d → Shorter a d
Shorter-trans p q = record {
  shorter = omega (arith, p.shorter, q.shorter);
  same_size = q.same_size ∙ p.same_size;
}

write_batch-Shorter :
    (w : WalStorage) (disk : Disk) (o : Outcome) (bytes : Bytes) (b : Bool) (n : ℕ)
    → Shorter w (write_batch (record w { pending = [] }) disk o bytes b n).0
unfolding write_batch stopped written finished
write_batch-Shorter w disk fine bytes true n = omega arith
write_batch-Shorter w disk fine bytes false n = omega arith
write_batch-Shorter w disk sync_fails bytes true n = omega arith
write_batch-Shorter w disk sync_fails bytes false n = omega arith
write_batch-Shorter w disk write_fails bytes b n = ground arith

drain_batch-Shorter :
    (c : Codec) (disk : Disk) (w : WalStorage) (batch : List WalEntry)
    → Shorter w (drain_batch c disk w batch).0
unfolding drain_batch
drain_batch-Shorter c disk w [] = omega arith
drain_batch-Shorter c disk w (e ∷ batch) = write_batch-Shorter w disk disk.outcome _ _ _

drain_and_flush-Shorter :
    (c : Codec) (disk : Disk) (w : WalStorage) → Shorter w (drain_and_flush c disk w).0
unfolding drain_and_flush
drain_and_flush-Shorter c disk w = drain_batch-Shorter c disk w w.pending

pub background-Shorter :
    (c : Codec) (b : Option Disk) (w : WalStorage) → Shorter w (background c b w)
unfolding background
background-Shorter c none w = omega arith
background-Shorter c (some disk) w = drain_and_flush-Shorter c disk w

poll-Shorter :
    (c : Codec) (n : ℕ) (bs : List (Option Disk)) (w : WalStorage) → Shorter w (poll c n bs w)
unfolding poll
poll-Shorter c zero bs w = omega arith
poll-Shorter c (suc n) [] w = omega arith
poll-Shorter c (suc n) (b ∷ bs) w = elim (Bool-cases (ltb 0 w.pending_count)) [
  | inl busy ↦
      rw busy (Shorter-trans (background-Shorter c b w) (poll-Shorter c n bs (background c b w)))
  | inr idle ↦ rw idle (omega arith)
]

pub flush-Shorter :
    (c : Codec) (bs : List (Option Disk)) (disk : Disk) (w : WalStorage)
    → Shorter w (flush c bs disk w).0
unfolding flush
flush-Shorter c bs disk w =
    let polled = poll-Shorter c 100 bs w in
    elim (Bool-cases (ltb 0 (poll c 100 bs w).pending_count)) [
      | inl busy ↦ rw busy (Shorter-trans polled (drain_and_flush-Shorter c disk (poll c 100 bs w)))
      | inr idle ↦ rw idle polled
    ]
