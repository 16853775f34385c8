-- ===== src/Wal/Simulation/Drained.antt =====
-- `drain_and_flush` on every behaviour of the disk, and with an entry that cannot be serialized.
use async_wal_db.Prelude.{
  ℕ, ◌+◌, ◌≡◌, refl, sym, ap, ◌∙◌, arith, List, [], ◌∷◌, ◌++◌, Bool, true, false, length, take,
  take-append_length, leb, not, ◌&&◌, Bool-cases, inl, inr,
}
use mathlib.Core.Path.{subst}
use mathlib.Core.List.{append-nil}
use async_wal_db.Entry.{Bytes, WalEntry}
use async_wal_db.Frame.{Codec}
use async_wal_db.Wal.{
  WalStorage, Disk, Outcome, fine, write_fails, sync_fails, log_file, encode_batch, write_batch,
  drain_batch, drain_and_flush,
}
use async_wal_db.Wal.Simulation.{Matches, is_ok}
use async_wal_db.Wal.Simulation.Images.{Cut, part-Image}
use async_wal_db.Wal.Simulation.Batches.{Failed, stopped-Failed, written-Failed}
use async_wal_db.Wal.Simulation.Drains.{Drains, reshape, fine-Drains, stops}
use async_wal_db.Tasks.{Caller, Task, Move, System}
use async_wal_db.Tasks.Runs.{Runs, move_at}

module _ (c : Codec) (base : Bytes) {s : System} (front back : List Task) (k : Caller)
    (w : WalStorage) (place : s.tasks ≡ front ++ Task.draining k [] ∷ back)
    (free : s.shared.locked ≡ false) (matches : Matches c base w s.shared) where
  -- The part of a batch that a failing call has written.
  part_written :
      (n : ℕ) (e : WalEntry) (batch : List WalEntry)
      → Cut c base
          (s.shared.leaked + length (e ∷ batch))
          s.shared.log
          (e ∷ batch)
          (log_file w ++ w.buffered)
          (take n (encode_batch c (e ∷ batch)).0)
  part_written n e batch = part-Image c base n (e ∷ batch) _ (omega arith) matches.image

  fails_after :
      (n : ℕ) (e : WalEntry) (batch : List WalEntry) (w' : WalStorage)
      → s.shared.pending ≡ e ∷ batch
      → Failed w w' (take n (encode_batch c (e ∷ batch)).0)
      → Drains c base s front back k w w' false
  fails_after n e batch w' p f =
      let cut = part_written n e batch in
      stops c base front back k w place free matches e batch (take n (encode_batch c (e ∷ batch)).0)
        w' p f cut cut.rest refl

  take-length : (xs : Bytes) → take (length xs) xs ≡ xs
  take-length xs = ap (take (length xs)) (sym (append-nil xs)) ∙ take-append_length xs []

  fails_behind :
      (e : WalEntry) (batch : List WalEntry) (w' : WalStorage)
      → s.shared.pending ≡ e ∷ batch
      → Failed w w' (encode_batch c (e ∷ batch)).0
      → Drains c base s front back k w w' false
  fails_behind e batch w' p f =
      let bytes = (encode_batch c (e ∷ batch)).0 in
      fails_after (length bytes) e batch w' p (subst (Failed w w') (sym (take-length bytes)) f)

  write_batch-Drains :
      (disk : Disk) (o : Outcome) (e : WalEntry) (batch : List WalEntry) (b : Bool)
      → s.shared.pending ≡ e ∷ batch
      → (encode_batch c (e ∷ batch)).1 ≡ b
      → (let r =
            write_batch
              (record w { pending = [] })
              disk
              o
              (encode_batch c (e ∷ batch)).0
              b
              (length (e ∷ batch)) in
          Drains c base s front back k w r.0 (is_ok r.1))
  unfolding write_batch
  write_batch-Drains disk fine e batch true p q =
      fine-Drains c base front back k w place free matches e batch (encode_batch c (e ∷ batch)).0 p
        (ap (λ b. ((encode_batch c (e ∷ batch)).0, b)) q)
  write_batch-Drains disk fine e batch false p q =
      fails_behind e batch _ p (stopped-Failed w disk (encode_batch c (e ∷ batch)).0)
  write_batch-Drains disk sync_fails e batch true p q =
      fails_behind e batch _ p (written-Failed w (encode_batch c (e ∷ batch)).0)
  write_batch-Drains disk sync_fails e batch false p q =
      fails_behind e batch _ p (stopped-Failed w disk (encode_batch c (e ∷ batch)).0)
  write_batch-Drains disk write_fails e batch b p q =
      elim (Bool-cases (not b && leb (length (encode_batch c (e ∷ batch)).0) disk.accepted)) [
        | inl bad ↦
            rw bad (fails_behind e batch _ p (stopped-Failed w disk (encode_batch c (e ∷ batch)).0))
        | inr device ↦ rw device (
            fails_after disk.accepted e batch _ p
              (stopped-Failed w disk (take disk.accepted (encode_batch c (e ∷ batch)).0)))
      ]

  drain_batch-Drains :
      (disk : Disk) (batch : List WalEntry)
      → s.shared.pending ≡ batch
      → Drains c base s front back k w
          (drain_batch c disk w batch).0
          (is_ok (drain_batch c disk w batch).1)
  unfolding drain_batch
  drain_batch-Drains disk [] p = record {
    shared = s.shared;
    left = front;
    right = back;
    runs = move_at front back (reshape refl place Runs.here) refl (Move.nothing p);
    matches = matches;
    free = free;
    same_flag = refl;
    same_pushed = refl;
    others = inl (refl, refl, refl);
  }
  drain_batch-Drains disk (e ∷ batch) p = write_batch-Drains disk disk.outcome e batch _ p refl

  -- Each call of `drain_and_flush` is a run of steps of its task with the same answer, to a state
  -- that matches the storage after the call.
  pub drain_and_flush-Drains :
      (disk : Disk)
      → Drains c base s front back k w
          (drain_and_flush c disk w).0
          (is_ok (drain_and_flush c disk w).1)
  unfolding drain_and_flush
  drain_and_flush-Drains disk = drain_batch-Drains disk w.pending (sym matches.queue)
