-- ===== src/Tasks/Asleep.antt =====
-- A writer that waits although there is space: `notify_waiters` wakes only the tasks that have
-- already registered, so a task that has seen a full queue and registers after the notification
-- sleeps until a batch of later entries is written.
use async_wal_db.Prelude.{ℕ, ◌+◌, ◌≡◌, refl, ap, arith, List, [], ◌∷◌, ◌++◌, All, All-append}
use async_wal_db.Tasks.{Shared, Task, Move, System, IsCall, Step}
use async_wal_db.Tasks.Tally.{total}

-- The task cannot push, write or notify without a new entry: it waits, has nothing, or is no part of
-- an `append` or of a batch.
abbrev pub IsEmptyHanded : Task → Type 0
IsEmptyHanded (Task.appending e) = ⊥
IsEmptyHanded (Task.loaded e n) = ⊥
IsEmptyHanded (Task.full e) = ⊥
IsEmptyHanded (Task.reserved e) = ⊥
IsEmptyHanded (Task.draining k batch) = batch ≡ []
IsEmptyHanded (Task.locking k batch) = ⊥
IsEmptyHanded (Task.writing k n rest) = ⊥
IsEmptyHanded (Task.counting k n) = ⊥
IsEmptyHanded (Task.notifying k) = ⊥
IsEmptyHanded t = Unit

-- A step that is no new call of `append`.
abbrev pub AppendsNot : {s t : System} → Step s t → Type 0
AppendsNot (Step.call t (IsCall.append e)) = ⊥
AppendsNot st = Unit

pub data Calm (s : System) : System → Type 0 where
  here : Calm s s
  then : {t u : System} → Calm s t → (st : Step t u) → AppendsNot st → Calm s u

abbrev pub waits : Task → ℕ
waits (Task.waiting e) = 1
waits t = 0

pub record IsAsleep (s : System) (sleepers : ℕ) : Type 0 where
  pub empty : s.shared.pending ≡ []
  pub idle : All IsEmptyHanded s.tasks
  pub waiting : total waits s.tasks ≡ sleepers

All-middle :
    (front : List Task) (t : Task) (back : List Task)
    → All IsEmptyHanded (front ++ t ∷ back)
    → All IsEmptyHanded front × IsEmptyHanded t × All IsEmptyHanded back
All-middle [] t back h = (tt, h.0, h.1)
All-middle (x ∷ front) t back h = let (f, m, b) = All-middle front t back h.1 in ((h.0, f), m, b)

total-middle :
    (front : List Task) (t : Task) (back : List Task)
    → total waits (front ++ t ∷ back) ≡ total waits front + total waits back + waits t
total-middle [] t back = omega arith
total-middle (x ∷ front) t back = omega (arith, total-middle front t back)

-- An access of such a task leaves the queue empty and the task as it was in this respect.
Move-asleep :
    {m m' : Shared} {t t' : Task}
    → Move m t m' t'
    → m.pending ≡ []
    → IsEmptyHanded t
    → (m'.pending ≡ []) × IsEmptyHanded t' × (waits t' ≡ waits t)
Move-asleep Move.load e h = elim h [ ]
Move-asleep (Move.no_space f) e h = elim h [ ]
Move-asleep Move.register e h = elim h [ ]
Move-asleep (Move.reserve f g) e h = elim h [ ]
Move-asleep (Move.retry f g) e h = elim h [ ]
Move-asleep Move.push e h = elim h [ ]
Move-asleep (Move.pop x rest p) e h = absurd (cc (p, e))
Move-asleep (Move.drained f) e h = absurd (cc (h))
Move-asleep (Move.lock f) e h = elim h [ ]
Move-asleep Move.write e h = elim h [ ]
Move-asleep Move.write_fails e h = elim h [ ]
Move-asleep Move.sync e h = elim h [ ]
Move-asleep Move.sync_fails e h = elim h [ ]
Move-asleep Move.count e h = elim h [ ]
Move-asleep (Move.force f) e h = (e, refl, refl)
Move-asleep Move.tick e h = (e, refl, refl)
Move-asleep (Move.shuts_down f) e h = (e, refl, refl)
Move-asleep mv e h = (e, tt, refl)

-- While no new `append` is called, such a state stays as it is in this respect.
Step-IsAsleep : {s t : System} {n : ℕ} (st : Step s t) → AppendsNot st → IsAsleep s n → IsAsleep t n
Step-IsAsleep (Step.call t (IsCall.append e)) no_append a = elim no_append [ ]
Step-IsAsleep (Step.call t IsCall.flush) no_append a = record {
  empty = a.empty;
  idle = (tt, a.idle);
  waiting = omega (arith, a.waiting);
}
Step-IsAsleep (Step.call t IsCall.start_flusher) no_append a = record {
  empty = a.empty;
  idle = (tt, a.idle);
  waiting = omega (arith, a.waiting);
}
Step-IsAsleep (Step.call t IsCall.store_handle) no_append a = record {
  empty = a.empty;
  idle = (tt, a.idle);
  waiting = omega (arith, a.waiting);
}
Step-IsAsleep (Step.call t IsCall.stop_flusher) no_append a = record {
  empty = a.empty;
  idle = (tt, a.idle);
  waiting = omega (arith, a.waiting);
}
Step-IsAsleep (Step.moves front t back {t' = t'} e mv) no_append a =
    let (f, now, b) = All-middle front t back (rw e at (a.idle)) in
    let (empty, after, same) = Move-asleep mv a.empty now in
    record {
      empty = empty;
      idle = All-append IsEmptyHanded front (t' ∷ back) f (after, b);
      waiting = omega (
        arith,
        total-middle front t back,
        total-middle front t' back,
        ap (total waits) e,
        a.waiting,
        same,
      );
    }
Step-IsAsleep (Step.notify front k back e) no_append a =
    elim (All-middle front (Task.notifying k) back (rw e at (a.idle))).1 [ ]
Step-IsAsleep (Step.join front back before behind e p) no_append a =
    let (f, now, b) = All-middle front Task.joining back (rw e at (a.idle)) in
    record {
      empty = a.empty;
      idle = All-append IsEmptyHanded front (Task.stopped ∷ back) f (tt, b);
      waiting = omega (
        arith,
        total-middle front Task.joining back,
        total-middle front Task.stopped back,
        ap (total waits) e,
        a.waiting,
      );
    }

-- If the queue is empty and no task has an entry on the way, the writers that wait go on waiting,
-- with space for them or not, through every flush, tick of the flusher and shutdown, as long as no
-- other `append` is called.
pub asleep_for_good :
    {s t : System} {n : ℕ}
    → Calm s t
    → IsAsleep s n
    → (t.shared.pending ≡ []) × (total waits t.tasks ≡ n)
asleep_for_good c a = let b = all_along c a in (b.empty, b.waiting)
  where
    all_along : {s t : System} {n : ℕ} → Calm s t → IsAsleep s n → IsAsleep t n
    all_along Calm.here a' = a'
    all_along (Calm.then c' st no_append) a' = Step-IsAsleep st no_append (all_along c' a')
