-- ===== src/Tasks/Runs.antt =====
-- What the tasks can come to from a state: an append that is admitted, a flush that overtakes a
-- batch, and two batches that are written in either order.
use async_wal_db.Prelude.{
  ℕ, zero, suc, ◌+◌, ◌<◌, ◌≡◌, refl, sym, ap, ◌∙◌, arith, List, [], ◌∷◌, ◌++◌, map, true, false,
}
use mathlib.Core.List.{append-nil, append_assoc}
use async_wal_db.Entry.{WalEntry}
use async_wal_db.Tasks.{Shared, Caller, Task, Move, wake, System, Step, Reach}

-- Any number of steps.
pub data Runs (s : System) : System → Type 0 where
  here : Runs s s
  then : {t u : System} → Runs s t → Step t u → Runs s u

pub Reach-Runs : {n : ℕ} {s t : System} → Reach n s → Runs s t → Reach n t
Reach-Runs r here = r
Reach-Runs r (then q st) = Reach.later (Reach-Runs r q) st

-- One move of the task at a place.
pub move_at :
    {s t : System} {m : Shared} {x y : Task} (front back : List Task)
    → Runs s t
    → t.tasks ≡ front ++ x ∷ back
    → Move t.shared x m y
    → Runs s (record { shared = m; tasks = front ++ y ∷ back })
move_at {x = x} front back r e mv = then r (Step.moves front x back e mv)

pub reach_at :
    {n : ℕ} {t : System} {m : Shared} {x y : Task} (front back : List Task)
    → Reach n t
    → t.tasks ≡ front ++ x ∷ back
    → Move t.shared x m y
    → Reach n (record { shared = m; tasks = front ++ y ∷ back })
reach_at {x = x} front back r e mv = Reach.later r (Step.moves front x back e mv)

-- An append at the head of its loop returns after three steps of its own, without a lock, if there
-- is space and no other task comes between: its entry is the last in the queue.
pub append_admitted :
    {n : ℕ} {s : System} (front back : List Task) (e : WalEntry)
    → Reach n s
    → s.tasks ≡ front ++ Task.appending e ∷ back
    → s.shared.pending_count < s.shared.max_queue_size
    → (t : System) × Reach n t
      × (t.tasks ≡ front ++ Task.appended ∷ back)
      × (t.shared.pending ≡ s.shared.pending ++ e ∷ [])
      × (t.shared.pending_count ≡ s.shared.pending_count + 1)
append_admitted front back e r place space = (
  _,
  Reach-Runs r (
      move_at front back
        (move_at front back (move_at front back here place Move.load) refl
          (Move.reserve space refl))
        refl Move.push),
  refl,
  refl,
  refl,
)

-- A flush that has stopped polling returns without an error, in three steps of its own, as soon as
-- the queue is empty: batches that other tasks are still writing are not waited for.
pub flush_overtakes :
    {n : ℕ} {s : System} (front back : List Task)
    → Reach n s
    → s.tasks ≡ front ++ Task.checking ∷ back
    → 0 < s.shared.pending_count
    → s.shared.pending ≡ []
    → Reach n (record { shared = s.shared; tasks = front ++ Task.flushed true ∷ back })
flush_overtakes front back r place busy empty = Reach-Runs r (
    move_at front back
      (move_at front back (move_at front back here place (Move.force busy)) refl
        (Move.nothing empty))
      refl Move.flush_returns)

pub writes :
    (s : System) (front : List Task) (k : Caller) (n : ℕ) (batch : List WalEntry) (back : List Task)
    (u : System)
    → Runs u s
    → s.tasks ≡ front ++ Task.writing k n batch ∷ back
    → (t : System) × (m : ℕ) × Runs u t
      × (t.shared.log ≡ s.shared.log ++ batch)
      × (t.shared.pushed ≡ s.shared.pushed)
      × (t.tasks ≡ front ++ Task.writing k m [] ∷ back)
writes s front k n [] back u r place = (s, n, r, sym (append-nil s.shared.log), refl, place)
writes s front k n (e ∷ batch) back u r place =
    let next : System = record {
      shared = record s.shared { log = s.shared.log ++ e ∷ [] };
      tasks = front ++ Task.writing k (n + 1) batch ∷ back;
    } in
    let (t, m, runs, log, pushed, tasks) =
      writes next front k (n + 1) batch back u (move_at front back r place Move.write) refl in
    (t, m, runs, log ∙ append_assoc s.shared.log (e ∷ []) batch, pushed, tasks)

-- A task that has its batch and finds the mutex free can write it at once.
batch_written :
    (s : System) (front : List Task) (k : Caller) (batch : List WalEntry) (back : List Task)
    (u : System)
    → Runs u s
    → s.tasks ≡ front ++ Task.locking k batch ∷ back
    → s.shared.locked ≡ false
    → (t : System) × Runs u t
      × (t.shared.log ≡ s.shared.log ++ batch)
      × (t.shared.pushed ≡ s.shared.pushed)
      × (t.shared.locked ≡ false)
      × (t.tasks ≡ map wake front ++ Task.returned k true ∷ map wake back)
batch_written s front k batch back u r place free =
    let taken : System = record {
      shared = record s.shared { locked = true };
      tasks = front ++ Task.writing k 0 batch ∷ back;
    } in
    let (t, m, runs, log, pushed, tasks) =
      writes taken front k 0 batch back u (move_at front back r place (Move.lock free)) refl in
    let counted = move_at front back (move_at front back runs tasks Move.sync) refl Move.count in
    let notified = then counted (Step.notify front k back refl) in
    (_, move_at (map wake front) (map wake back) notified refl Move.unlock, log, pushed, refl, refl)

-- Two tasks have drained one batch each and wait for the mutex, which is free, and the two batches
-- are what was pushed since the entries that stand in the log, `xs` before `ys`: the task with the
-- later entries can write them first, and the log ends in `ys ++ xs`.
pub batches_reordered :
    {n : ℕ} {s : System} (k j : Caller) (before xs ys : List WalEntry) (others : List Task)
    → Reach n s
    → s.tasks ≡ Task.locking k xs ∷ Task.locking j ys ∷ others
    → s.shared.locked ≡ false
    → s.shared.log ≡ before
    → s.shared.pushed ≡ before ++ xs ++ ys
    → (t : System) × Reach n t
      × (t.shared.pushed ≡ before ++ xs ++ ys)
      × (t.shared.log ≡ before ++ ys ++ xs)
batches_reordered {s = s} k j before xs ys others r place free stands order =
    let (t, runs, log, pushed, free', tasks) =
      batch_written s (Task.locking k xs ∷ []) j ys others s here place free in
    let (u, runs', log', pushed', free'', tasks') =
      batch_written t [] k xs (Task.returned j true ∷ map wake others) s runs tasks free' in
    (
      u,
      Reach-Runs r runs',
      pushed' ∙ pushed ∙ order,
      log' ∙ ap (λ l. l ++ xs) log ∙ ap (λ l. l ++ ys ++ xs) stands,
    )

-- A flush stops polling after 100 rounds though entries are still counted.
pub polls_out :
    {n : ℕ} {m : Shared} (front back : List Task) (k retries : ℕ)
    → k + retries ≡ 100
    → 0 < m.pending_count
    → Reach n (record { shared = m; tasks = front ++ Task.polling retries ∷ back })
    → Reach n (record { shared = m; tasks = front ++ Task.checking ∷ back })
polls_out front back zero retries e busy r = reach_at front back r refl (Move.give_up (omega arith))
polls_out front back (suc k) retries e busy r =
    polls_out front back k (retries + 1) (omega arith) busy
      (reach_at front back r refl (Move.sleep busy (omega arith)))
