-- ===== src/Tasks/Order/Tests.antt =====
-- Tasks that take turns, and the order of their log.
use async_wal_db.Prelude.{ℕ, ◌+◌, ◌≤◌, ◌<◌, ◌≡◌, refl, arith, List, [], ◌∷◌, ◌++◌, true}
use async_wal_db.Entry.{WalEntry}
use async_wal_db.Tasks.{Shared, at_tick, Task, Move, System, IsCall, Step, fresh}
use async_wal_db.Tasks.Tally.{total}
use async_wal_db.Tasks.Order.{drains, Orderly, under_way, log_order}

abbrev change : WalEntry
change = WalEntry.insert 1 100 (107 ∷ []) (1 ∷ [])

abbrev mark : WalEntry
mark = WalEntry.commit 1 101

orderly_at :
    {n : ℕ} {t : System} {m : Shared} {x y : Task} (front back : List Task)
    → Orderly n t
    → t.tasks ≡ front ++ x ∷ back
    → Move t.shared x m y
    → total drains (front ++ y ∷ back) ≤ 1
    → Orderly n (record { shared = m; tasks = front ++ y ∷ back })
orderly_at {x = x} front back r e mv one = Orderly.later r (Step.moves front x back e mv) one

appends :
    {n : ℕ} {s : System} (e : WalEntry)
    → Orderly n s
    → s.shared.pending_count < s.shared.max_queue_size
    → total drains s.tasks ≤ 1
    → Orderly n (record {
      shared = record s.shared {
        pending = s.shared.pending ++ e ∷ [];
        pending_count = s.shared.pending_count + 1;
        pushed = s.shared.pushed ++ e ∷ [];
      };
      tasks = Task.appended ∷ s.tasks;
    })
appends {s = s} e r space one =
    orderly_at [] s.tasks
      (orderly_at [] s.tasks
        (orderly_at [] s.tasks
          (Orderly.later r (Step.call (Task.appending e) (IsCall.append e)) (omega (arith, one)))
          refl Move.load (omega (arith, one)))
        refl (Move.reserve space refl) (omega (arith, one)))
      refl Move.push (omega (arith, one))

-- The flusher has written the change and not yet synced it, when the marker is pushed.
abbrev in_turn : System
in_turn = record {
  shared = record (fresh 5) {
    pending = mark ∷ [];
    pending_count = 2;
    locked = true;
    log = change ∷ [];
    pushed = change ∷ mark ∷ [];
  };
  tasks = Task.appended ∷ Task.writing at_tick 1 [] ∷ Task.appended ∷ [];
}

in_turn-Orderly : Orderly 5 in_turn
in_turn-Orderly =
    appends mark
      (orderly_at [] (Task.appended ∷ [])
        (orderly_at [] (Task.appended ∷ [])
          (orderly_at [] (Task.appended ∷ [])
            (orderly_at [] (Task.appended ∷ [])
              (orderly_at [] (Task.appended ∷ [])
                (Orderly.later (appends change Orderly.start (omega arith) (omega arith))
                  (Step.call Task.selecting IsCall.start_flusher) (omega arith))
                refl Move.tick (omega arith))
              refl (Move.pop change [] refl) (omega arith))
            refl (Move.drained refl) (omega arith))
          refl (Move.lock refl) (omega arith))
        refl Move.write (omega arith))
      (omega arith) (omega arith)

log_order_example :
    in_turn.shared.pushed
    ≡ in_turn.shared.log ++ (under_way in_turn.tasks ++ in_turn.shared.pending)
log_order_example = log_order in_turn-Orderly refl
