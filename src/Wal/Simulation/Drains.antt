-- ===== src/Wal/Simulation/Drains.antt =====
-- A call of `drain_and_flush` as a run of the steps of one task, whatever the disk does.
use async_wal_db.Prelude.{
  ℕ, ◌+◌, ◌-◌, ◌%◌, ◌^◌, ◌≡◌, refl, sym, ap, ◌∙◌, arith, List, [], ◌∷◌, ◌++◌, map, Bool, true,
  false, length, length-append, inl, inr, ◌⊎◌,
}
use mathlib.Core.Path.{subst}
use mathlib.Core.List.{append-nil, append_assoc}
use async_wal_db.Entry.{Bytes, WalEntry}
use async_wal_db.Frame.{Codec}
use async_wal_db.Wal.{WalStorage, log_file, encode_batch, finished}
use async_wal_db.Wal.Simulation.{Matches}
use async_wal_db.Wal.Simulation.Images.{Cut}
use async_wal_db.Wal.Simulation.Batches.{Failed, Leaked, Failed-Matches, Done-Matches}
use async_wal_db.Tasks.{Shared, Caller, Task, Move, wake, System, Step}
use async_wal_db.Tasks.Runs.{Runs, move_at}

abbrev pub at : Shared → List Task → System
at m tasks = record { shared = m; tasks = tasks }

pub reshape :
    {s : System} {m m' : Shared} {ts ts' : List Task}
    → m ≡ m'
    → ts ≡ ts'
    → Runs s (at m ts)
    → Runs s (at m' ts')
reshape {s = s} {m' = m'} {ts = ts} p q r =
    subst (λ x. Runs s (at m' x)) q (subst (λ x. Runs s (at x ts)) p r)

module _ {s : System} (front back : List Task) (k : Caller) where
  -- The queue is popped until it is empty.
  pops :
      (m : Shared) (batch rest : List WalEntry)
      → m.pending ≡ rest
      → Runs s (at m (front ++ Task.draining k batch ∷ back))
      → Runs s (at (record m { pending = [] }) (front ++ Task.draining k (batch ++ rest) ∷ back))
  pops m batch [] e r =
      reshape (ap (λ p. record m { pending = p }) e)
        (ap (λ b. front ++ Task.draining k b ∷ back) (sym (append-nil batch))) r
  pops m batch (x ∷ rest) e r =
      reshape refl (ap (λ b. front ++ Task.draining k b ∷ back) (append_assoc batch (x ∷ []) rest))
        (pops (record m { pending = rest }) (batch ++ x ∷ []) rest refl
          (move_at front back r refl (Move.pop x rest e)))

  -- The writer accepts a part of the batch.
  writes_part :
      (m : Shared) (n : ℕ) (xs ys : List WalEntry)
      → Runs s (at m (front ++ Task.writing k n (xs ++ ys) ∷ back))
      → Runs s
          (at (record m { log = m.log ++ xs }) (front ++ Task.writing k (n + length xs) ys ∷ back))
  writes_part m n [] ys r =
      reshape (ap (λ l. record m { log = l }) (sym (append-nil m.log)))
        (ap (λ i. front ++ Task.writing k i ys ∷ back) (omega arith)) r
  writes_part m n (x ∷ xs) ys r =
      reshape (ap (λ l. record m { log = l }) (append_assoc m.log (x ∷ []) xs))
        (ap (λ i. front ++ Task.writing k i ys ∷ back) (omega arith))
        (writes_part (record m { log = m.log ++ x ∷ [] }) (n + 1) xs ys
          (move_at front back r refl Move.write))

-- What the tasks have come to after a drain by the task between `front` and `back`: the same as
-- `w'`, with the other tasks woken where the drain has made space.
pub record Drains (c : Codec) (base : Bytes) (s : System) (front back : List Task) (k : Caller)
    (w w' : WalStorage) (succeeded : Bool) : Type 0 where
  pub shared : Shared
  pub left : List Task
  pub right : List Task
  pub runs : Runs s (at shared (left ++ Task.returned k succeeded ∷ right))
  pub matches : Matches c base w' shared
  pub free : shared.locked ≡ false
  pub same_flag : shared.shutdown ≡ s.shared.shutdown
  pub same_pushed : shared.pushed ≡ s.shared.pushed
  pub others :
      ((left ≡ front) × (right ≡ back) × (w'.pending_count ≡ w.pending_count))
      ⊎ ((left ≡ map wake front) × (right ≡ map wake back))

module _ (c : Codec) (base : Bytes) {s : System} (front back : List Task) (k : Caller)
    (w : WalStorage) (place : s.tasks ≡ front ++ Task.draining k [] ∷ back)
    (free : s.shared.locked ≡ false) (matches : Matches c base w s.shared) where
  -- The task has popped the batch and holds the mutex.
  taken :
      (e : WalEntry) (batch : List WalEntry)
      → s.shared.pending ≡ e ∷ batch
      → Runs s (
          at
            (record s.shared { pending = []; locked = true })
            (front ++ Task.writing k 0 (e ∷ batch) ∷ back))
  taken e batch p =
      move_at front back
        (move_at front back
          (pops front back k s.shared [] (e ∷ batch) p (reshape refl place Runs.here)) refl
          (Move.drained refl))
        refl (Move.lock free)

  -- All of the batch is written, and synced.
  pub fine-Drains :
      (e : WalEntry) (batch : List WalEntry) (bytes : Bytes)
      → s.shared.pending ≡ e ∷ batch
      → encode_batch c (e ∷ batch) ≡ (bytes, true)
      → Drains c base s front back k w
          (finished (record w { pending = [] }) bytes (length (e ∷ batch)))
          true
  fine-Drains e batch bytes p enc =
      let m : Shared = record s.shared { pending = []; locked = true } in
      let start =
        reshape refl (ap (λ b. front ++ Task.writing k 0 b ∷ back) (sym (append-nil (e ∷ batch))))
          (taken e batch p) in
      let all = writes_part front back k m 0 (e ∷ batch) [] start in
      let synced = move_at front back all refl Move.sync in
      let counted = move_at front back synced refl Move.count in
      let notified = Runs.then counted (Step.notify front k back refl) in
      record {
        shared = _;
        left = map wake front;
        right = map wake back;
        runs = move_at (map wake front) (map wake back) notified refl Move.unlock;
        matches =
            Done-Matches c base w (e ∷ batch) bytes (length (e ∷ batch)) p enc
              (record {
                emptied = refl;
                counted = ap (λ n. (s.shared.pending_count + 2 ^ 64 - n) % 2 ^ 64) (omega arith);
                same_size = refl;
                log = refl;
                durable = refl;
                same_leaked = refl;
                same_pushed = refl;
              })
              matches;
        free = refl;
        same_flag = refl;
        same_pushed = refl;
        others = inr (refl, refl);
      }

  module _ (e : WalEntry) (batch : List WalEntry) (bytes : Bytes) (w' : WalStorage)
      (p : s.shared.pending ≡ e ∷ batch) (f : Failed w w' bytes)
      (cut : Cut c base
        (s.shared.leaked + length (e ∷ batch))
        s.shared.log
        (e ∷ batch)
        (log_file w ++ w.buffered)
        bytes) where
    leaves :
        (m : Shared)
        → Runs s (at m (front ++ Task.leaving k false ∷ back))
        → Leaked s.shared m (length (e ∷ batch)) cut.in_log
        → m.shutdown ≡ s.shared.shutdown
        → m.pushed ≡ s.shared.pushed
        → Drains c base s front back k w w' false
    leaves m r l flag same = record {
      shared = record m { locked = false };
      left = front;
      right = back;
      runs = move_at front back r refl Move.unlock;
      matches =
          Failed-Matches c base (length (e ∷ batch)) (e ∷ batch) bytes cut (omega arith) f
            (record {
              emptied = l.emptied;
              same_count = l.same_count;
              same_size = l.same_size;
              same_durable = l.same_durable;
              log = l.log;
              leaked = l.leaked;
            })
            matches;
      free = refl;
      same_flag = flag;
      same_pushed = same;
      others = inl (refl, refl, f.same_count);
    }

    -- The writer has accepted `cut.in_log`; then a write fails, or the flush or the fsync.
    pub stops : (rest : List WalEntry) → cut.rest ≡ rest → Drains c base s front back k w w' false
    stops rest q =
        let m : Shared = record s.shared { pending = []; locked = true } in
        let start =
          reshape refl
            (ap (λ b. front ++ Task.writing k 0 b ∷ back)
              (sym cut.split ∙ ap (λ r. cut.in_log ++ r) q))
            (taken e batch p) in
        ends rest q (writes_part front back k m 0 cut.in_log rest start)
      where
        lengths : length cut.in_log + length cut.rest ≡ length (e ∷ batch)
        lengths = sym (length-append cut.in_log cut.rest) ∙ ap (length {A = WalEntry}) cut.split

        ends :
            (rest : List WalEntry)
            → cut.rest ≡ rest
            → Runs s (
                at
                  (record s.shared {
                    pending = [];
                    locked = true;
                    log = s.shared.log ++ cut.in_log;
                  })
                  (front ++ Task.writing k (0 + length cut.in_log) rest ∷ back))
            → Drains c base s front back k w w' false
        ends [] q r =
            leaves _ (move_at front back r refl Move.sync_fails)
              (record {
                emptied = refl;
                same_count = refl;
                same_size = refl;
                same_durable = refl;
                log = refl;
                leaked = omega (arith, lengths, ap (length {A = WalEntry}) q);
              })
              refl refl
        ends (x ∷ rest) q r =
            leaves _ (move_at front back r refl Move.write_fails)
              (record {
                emptied = refl;
                same_count = refl;
                same_size = refl;
                same_durable = refl;
                log = refl;
                leaked = omega (arith, lengths, ap (length {A = WalEntry}) q);
              })
              refl refl
