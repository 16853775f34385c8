-- ===== src/Tasks/Tests.antt =====
-- Concrete runs of several tasks, and the theorems about tasks at them.
use async_wal_db.Prelude.{ℕ, ◌+◌, ◌≤◌, ◌≡◌, refl, arith, List, [], ◌∷◌, true, length}
use async_wal_db.Entry.{WalEntry}
use async_wal_db.Tasks.{at_tick, by_flush, Task, Move, System, IsCall, Step, fresh, Reach}
use async_wal_db.Tasks.Tally.{slots, weigh, carried, total}
use async_wal_db.Tasks.Safety.{capacity, conservation, count_zero_durable}
use async_wal_db.Tasks.Runs.{reach_at, flush_overtakes, batches_reordered, polls_out}
use async_wal_db.Tasks.Asleep.{Calm, IsAsleep, waits, asleep_for_good}

abbrev change : WalEntry
change = WalEntry.insert 1 100 (107 ∷ []) (1 ∷ [])

abbrev mark : WalEntry
mark = WalEntry.commit 1 101

begins :
    {n : ℕ} {s : System} (t : Task)
    → Reach n s
    → IsCall t
    → Reach n (record s { tasks = t ∷ s.tasks })
begins t r c = Reach.later r (Step.call t c)

-- One entry in a queue for one.
abbrev one_queued : System
one_queued = record {
  shared = record (fresh 1) { pending = change ∷ []; pending_count = 1; pushed = change ∷ [] };
  tasks = Task.appended ∷ [];
}

one_queued-reached : Reach 1 one_queued
one_queued-reached =
    reach_at [] []
      (reach_at [] []
        (reach_at [] [] (begins (Task.appending change) Reach.start (IsCall.append change)) refl
          Move.load)
        refl (Move.reserve (omega arith) refl))
      refl Move.push

-- A second append has seen the full queue; the flusher has popped the entry and holds the mutex.
abbrev under_way : System
under_way = record {
  shared = record (fresh 1) { pending_count = 1; locked = true; pushed = change ∷ [] };
  tasks = Task.writing at_tick 0 (change ∷ []) ∷ Task.full mark ∷ Task.appended ∷ [];
}

under_way-reached : Reach 1 under_way
under_way-reached =
    reach_at [] rest
      (reach_at [] rest
        (reach_at [] rest
          (reach_at [] rest
            (begins Task.selecting
              (reach_at [] (Task.appended ∷ [])
                (reach_at [] (Task.appended ∷ [])
                  (begins (Task.appending mark) one_queued-reached (IsCall.append mark)) refl
                  Move.load)
                refl (Move.no_space (omega arith)))
              IsCall.start_flusher)
            refl Move.tick)
          refl (Move.pop change [] refl))
        refl (Move.drained refl))
      refl (Move.lock refl)
  where
    rest : List Task
    rest = Task.full mark ∷ Task.appended ∷ []

capacity_example : length {A = WalEntry} [] + total slots under_way.tasks ≤ 1
capacity_example = capacity (omega arith) under_way-reached

conservation_example :
    weigh (λ e. 1) under_way.shared.pushed
    ≡ weigh (λ e. 1) under_way.shared.log
      + weigh (λ e. 1) under_way.shared.pending
      + total (λ t. weigh (λ e. 1) (carried t)) under_way.tasks
      + weigh (λ e. 1) under_way.shared.lost
conservation_example = conservation (omega arith) under_way-reached (λ e. 1)

-- The entry is in the log; the second append registers after the notification.
abbrev asleep : System
asleep = record {
  shared = record (fresh 1) { pushed = change ∷ []; log = change ∷ []; durable = 1 };
  tasks = Task.selecting ∷ Task.waiting mark ∷ Task.appended ∷ [];
}

asleep-reached : Reach 1 asleep
asleep-reached =
    reach_at (Task.selecting ∷ []) (Task.appended ∷ [])
      (reach_at [] rest
        (reach_at [] rest
          (Reach.later
            (reach_at [] rest
              (reach_at [] rest (reach_at [] rest under_way-reached refl Move.write) refl Move.sync)
              refl Move.count)
            (Step.notify [] at_tick rest refl))
          refl Move.unlock)
        refl (Move.goes_on refl))
      refl Move.register
  where
    rest : List Task
    rest = Task.full mark ∷ Task.appended ∷ []

count_zero_durable_example :
    ((w : WalEntry → ℕ) → weigh w asleep.shared.pushed ≡ weigh w asleep.shared.log)
    × (length asleep.shared.log ≤ asleep.shared.durable)
count_zero_durable_example = count_zero_durable (omega arith) asleep-reached refl

asleep-IsAsleep : IsAsleep asleep 1
asleep-IsAsleep = record { empty = refl; idle = (tt, (tt, (tt, tt))); waiting = refl }

-- Another flush, and a tick of the flusher.
abbrev ticked : System
ticked = record {
  shared = asleep.shared;
  tasks = Task.polling 0 ∷ Task.draining at_tick [] ∷ Task.waiting mark ∷ Task.appended ∷ [];
}

asleep-ticked : Calm asleep ticked
asleep-ticked =
    Calm.then (Calm.then Calm.here (Step.call (Task.polling 0) IsCall.flush) tt)
      (Step.moves (Task.polling 0 ∷ []) Task.selecting (Task.waiting mark ∷ Task.appended ∷ []) refl
        Move.tick)
      tt

asleep_for_good_example : (ticked.shared.pending ≡ []) × (total waits ticked.tasks ≡ 1)
asleep_for_good_example = asleep_for_good asleep-ticked asleep-IsAsleep

-- A flush has stopped polling while the flusher writes: it returns, and the log is still empty.
abbrev given_up : System
given_up = record { shared = under_way.shared; tasks = Task.checking ∷ under_way.tasks }

given_up-reached : Reach 1 given_up
given_up-reached =
    polls_out [] under_way.tasks 100 0 refl (omega arith)
      (begins (Task.polling 0) under_way-reached IsCall.flush)

flush_overtakes_example :
    Reach 1 (record { shared = under_way.shared; tasks = Task.flushed true ∷ under_way.tasks })
flush_overtakes_example =
    flush_overtakes [] under_way.tasks given_up-reached refl (omega arith) refl

-- The flusher has drained the change, and a flush the marker that was pushed after it.
abbrev crossed : System
crossed = record {
  shared = record (fresh 2) { pending_count = 2; pushed = change ∷ mark ∷ [] };
  tasks =
      Task.locking at_tick (change ∷ [])
      ∷ Task.locking by_flush (mark ∷ [])
      ∷ Task.appended
      ∷ Task.appended
      ∷ [];
}

-- The flusher has drained the change; a second append is about to start, and a flush polls.
abbrev half_way : System
half_way = record {
  shared = record (fresh 2) { pending_count = 1; pushed = change ∷ [] };
  tasks =
      Task.locking at_tick (change ∷ []) ∷ Task.checking ∷ Task.appending mark ∷ Task.appended ∷ [];
}

change_queued : Reach 2 (record {
  shared = record (fresh 2) { pending = change ∷ []; pending_count = 1; pushed = change ∷ [] };
  tasks = Task.appended ∷ [];
})
change_queued =
    reach_at [] []
      (reach_at [] []
        (reach_at [] [] (begins (Task.appending change) Reach.start (IsCall.append change)) refl
          Move.load)
        refl (Move.reserve (omega arith) refl))
      refl Move.push

half_way-reached : Reach 2 half_way
half_way-reached =
    reach_at [] rest
      (reach_at [] rest
        (reach_at [] rest
          (begins Task.selecting
            (polls_out [] (Task.appending mark ∷ Task.appended ∷ []) 100 0 refl (omega arith) (
              begins (Task.polling 0)
                (begins (Task.appending mark) change_queued (IsCall.append mark)) IsCall.flush))
            IsCall.start_flusher)
          refl Move.tick)
        refl (Move.pop change [] refl))
      refl (Move.drained refl)
  where
    rest : List Task
    rest = Task.checking ∷ Task.appending mark ∷ Task.appended ∷ []

crossed-reached : Reach 2 crossed
crossed-reached =
    reach_at flusher rest
      (reach_at flusher rest
        (reach_at flusher (Task.appended ∷ Task.appended ∷ [])
          (reach_at before (Task.appended ∷ [])
            (reach_at before (Task.appended ∷ [])
              (reach_at before (Task.appended ∷ []) half_way-reached refl Move.load) refl
              (Move.reserve (omega arith) refl))
            refl Move.push)
          refl (Move.force (omega arith)))
        refl (Move.pop mark [] refl))
      refl (Move.drained refl)
  where
    flusher : List Task
    flusher = Task.locking at_tick (change ∷ []) ∷ []

    before : List Task
    before = Task.locking at_tick (change ∷ []) ∷ Task.checking ∷ []

    rest : List Task
    rest = Task.appended ∷ Task.appended ∷ []

batches_reordered_example :
    (t : System) × Reach 2 t
    × (t.shared.pushed ≡ change ∷ mark ∷ [])
    × (t.shared.log ≡ mark ∷ change ∷ [])
batches_reordered_example =
    batches_reordered at_tick by_flush [] (change ∷ []) (mark ∷ []) _ crossed-reached refl refl refl
      refl
