-- ===== src/Wal/Lost.antt =====
-- What a failed `drain_and_flush` leaves: the queue is empty, and its counter is as before.
use async_wal_db.Prelude.{
  ℕ, zero, suc, ◌≤◌, ◌≡◌, ◌≢◌, refl, ap, arith, List, [], ◌∷◌, Bool, true, false, Option, none,
  some, ltb, leb, Bool-cases, inl, inr,
}
use async_wal_db.Errors.{Result, ok, unfinished}
use async_wal_db.Entry.{Bytes, WalEntry}
use async_wal_db.Frame.{Codec}
use async_wal_db.Wal.{
  WalStorage, Disk, Outcome, fine, write_fails, sync_fails, stopped, written, write_batch,
  drain_batch, drain_and_flush, background, append, poll, flush,
}

record Lost (w w' : WalStorage) : Type 0 where
  emptied : w'.pending ≡ []
  same_count : w'.pending_count ≡ w.pending_count
  same_size : w'.max_queue_size ≡ w.max_queue_size

write_batch-Lost :
    (w : WalStorage) (disk : Disk) (o : Outcome) (bytes : Bytes) (b : Bool) (n : ℕ)
    → (write_batch (record w { pending = [] }) disk o bytes b n).1 ≢ ok tt
    → Lost w (write_batch (record w { pending = [] }) disk o bytes b n).0
unfolding write_batch stopped written
write_batch-Lost w disk fine bytes true n h = absurd (h refl)
write_batch-Lost w disk fine bytes false n h = ground arith
write_batch-Lost w disk sync_fails bytes true n h = ground arith
write_batch-Lost w disk sync_fails bytes false n h = ground arith
write_batch-Lost w disk write_fails bytes b n h = ground arith

drain_batch-Lost :
    (c : Codec) (disk : Disk) (w : WalStorage) (batch : List WalEntry)
    → (drain_batch c disk w batch).1 ≢ ok tt
    → Lost w (drain_batch c disk w batch).0
unfolding drain_batch
drain_batch-Lost c disk w [] h = absurd (h refl)
drain_batch-Lost c disk w (x ∷ batch) h = write_batch-Lost w disk disk.outcome _ _ _ h

drain-Lost :
    (c : Codec) (disk : Disk) (w : WalStorage)
    → (drain_and_flush c disk w).1 ≢ ok tt
    → Lost w (drain_and_flush c disk w).0
unfolding drain_and_flush
drain-Lost c disk w h = drain_batch-Lost c disk w w.pending h

-- With nothing queued, `drain_and_flush` does nothing and succeeds.
drain_nothing :
    (c : Codec) (disk : Disk) (w : WalStorage)
    → w.pending ≡ []
    → drain_and_flush c disk w ≡ (w, ok tt)
unfolding drain_and_flush
drain_nothing c disk w e = rw e

background_nothing :
    (c : Codec) (b : Option Disk) (w : WalStorage) → w.pending ≡ [] → background c b w ≡ w
unfolding background
background_nothing c none w e = refl
background_nothing c (some disk) w e =
    ap (λ (p : WalStorage × Result (Unit {0})). p.0) (drain_nothing c disk w e)

poll_nothing :
    (c : Codec) (n : ℕ) (bs : List (Option Disk)) (w : WalStorage)
    → w.pending ≡ []
    → poll c n bs w ≡ w
unfolding poll
poll_nothing c zero bs w e = refl
poll_nothing c (suc n) [] w e = refl
poll_nothing c (suc n) (b ∷ bs) w e = elim (Bool-cases (ltb 0 w.pending_count)) [
  | inl busy ↦ rw (busy, background_nothing c b w e, poll_nothing c n bs w e)
  | inr idle ↦ rw idle
]

-- After a call of `drain_and_flush` that failed, for whatever reason, the next `flush` succeeds and
-- changes nothing: the entries that were queued at the failure are not written by it, and its
-- caller is told that they are durable.
pub flush-lost :
    (c : Codec) (disk : Disk) (w : WalStorage)
    → (drain_and_flush c disk w).1 ≢ ok tt
    → (bs : List (Option Disk)) (disk' : Disk)
    → flush c bs disk' (drain_and_flush c disk w).0 ≡ ((drain_and_flush c disk w).0, ok tt)
unfolding flush
flush-lost c disk w h bs disk' =
    rw (poll_nothing c 100 bs w' empty) (elim (Bool-cases (ltb 0 w'.pending_count)) [
      | inl busy ↦ rw (busy, drain_nothing c disk' w' empty)
      | inr idle ↦ rw idle
    ])
  where
    w' : WalStorage
    w' = (drain_and_flush c disk w).0

    empty : w'.pending ≡ []
    empty = (drain-Lost c disk w h).emptied

append_blocked :
    (c : Codec) (bs : List (Option Disk)) (e : WalEntry) (w : WalStorage)
    → w.pending ≡ []
    → leb w.max_queue_size w.pending_count ≡ true
    → append c bs e w ≡ (w, unfinished)
unfolding append
append_blocked c [] e w h full = rw full
append_blocked c (b ∷ bs) e w h full =
    rw (full, background_nothing c b w h, append_blocked c bs e w h full)

le→leb : {a b : ℕ} → a ≤ b → leb a b ≡ true
le→leb h = ground arith

-- If the queue was full when a call of `drain_and_flush` failed, no later `append` returns, however
-- often the flusher runs.
pub append-lost :
    (c : Codec) (disk : Disk) (w : WalStorage)
    → (drain_and_flush c disk w).1 ≢ ok tt
    → w.max_queue_size ≤ w.pending_count
    → (bs : List (Option Disk)) (e : WalEntry)
    → append c bs e (drain_and_flush c disk w).0 ≡ ((drain_and_flush c disk w).0, unfinished)
append-lost c disk w h full bs e =
    append_blocked c bs e (drain_and_flush c disk w).0 lost.emptied
      (le→leb (omega (arith, lost.same_size, lost.same_count)))
  where
    lost : Lost w (drain_and_flush c disk w).0
    lost = drain-Lost c disk w h
