-- ===== src/Wal/Simulation/Flusher.antt =====
-- What the background flusher does between two accesses of another task, and the drain that a
-- `flush` makes itself.
use async_wal_db.Prelude.{
  ◌≡◌, refl, sym, ap, ◌∙◌, List, [], ◌∷◌, ◌++◌, map, Bool, Option, none, some, inl, inr, ◌⊎◌,
}
use mathlib.Core.List.{append_assoc}
use async_wal_db.Entry.{WalEntry}
use async_wal_db.Wal.{WalStorage, Disk, drain_and_flush, background}
use async_wal_db.Wal.Simulation.{View, Stands, is_ok}
use async_wal_db.Wal.Simulation.Drains.{Drains, at}
use async_wal_db.Wal.Simulation.Drained.{drain_and_flush-Drains}
use async_wal_db.Tasks.{Caller, Task, Move, wake, System, IsCall, Step, Reach}
use async_wal_db.Tasks.Runs.{Reach-Runs, reach_at, move_at}

-- A task begins a call.
pub begins :
    {v : View} {total : List WalEntry} {w : WalStorage} (t : Task)
    → IsCall t
    → Stands v total w []
    → Stands v total w (t ∷ [])
begins t c s = record {
  system = record s.system { tasks = t ∷ s.system.tasks };
  reach = Reach.later s.reach (Step.call t c);
  matches = s.matches;
  free = s.free;
  running = s.running;
  pushed = s.pushed;
  before = s.before;
  after = s.after;
  tasks = ap (λ ts. t ∷ ts) s.tasks;
}

-- The call is over, or will not be looked at again.
pub ends :
    {v : View} {total : List WalEntry} {w : WalStorage} {t : Task}
    → Stands v total w (t ∷ [])
    → Stands v total w []
ends {t = t} s = record {
  system = s.system;
  reach = s.reach;
  matches = s.matches;
  free = s.free;
  running = s.running;
  pushed = s.pushed;
  before = t ∷ s.before;
  after = s.after;
  tasks = s.tasks;
}

-- The task that makes the call reads the shared state.
pub reads :
    {v : View} {total : List WalEntry} {w : WalStorage} {t t' : Task}
    (s : Stands v total w (t ∷ []))
    → Move s.system.shared t s.system.shared t'
    → Stands v total w (t' ∷ [])
reads {t' = t'} s mv = record {
  system = at s.system.shared (t' ∷ (s.before ++ Task.selecting ∷ s.after));
  reach = reach_at [] (s.before ++ Task.selecting ∷ s.after) s.reach s.tasks mv;
  matches = s.matches;
  free = s.free;
  running = s.running;
  pushed = s.pushed;
  before = s.before;
  after = s.after;
  tasks = refl;
}

pub map-append_wake : (xs ys : List Task) → map wake (xs ++ ys) ≡ map wake xs ++ map wake ys
map-append_wake [] ys = refl
map-append_wake (x ∷ xs) ys = ap (λ l. wake x ∷ l) (map-append_wake xs ys)

-- The state after a round of the flusher: the caller is woken where there is more space.
pub record Round (v : View) (total : List WalEntry) (w w' : WalStorage) (call : List Task)
    : Type 0 where
  pub call' : List Task
  pub stands : Stands v total w' call'
  pub woken : ((call' ≡ call) × (w'.pending_count ≡ w.pending_count)) ⊎ (call' ≡ map wake call)

module _ {v : View} {total : List WalEntry} {w : WalStorage} {call : List Task} where
  -- The flusher has left its `select!`.
  ticked : Stands v total w call → System
  ticked s = at s.system.shared ((call ++ s.before) ++ Task.draining Caller.at_tick [] ∷ s.after)

  ticked-Reach : (s : Stands v total w call) → Reach v.max_queue_size (ticked s)
  unfolding ticked
  ticked-Reach s =
      reach_at (call ++ s.before) s.after s.reach
        (s.tasks ∙ sym (append_assoc call s.before (Task.selecting ∷ s.after))) Move.tick

  comes_back :
      (w' : WalStorage) (ok : Bool) (s : Stands v total w call)
      → Drains v.codec v.base (ticked s) (call ++ s.before) s.after Caller.at_tick w w' ok
      → Round v total w w' call
  unfolding ticked
  comes_back w' ok s d =
      let runs = move_at d.left d.right d.runs refl (Move.goes_on (d.same_flag ∙ s.running)) in
      let standing : (call' before : List Task)
          → d.left ≡ call' ++ before
          → Stands v total w' call' =
        λ call' before e. record {
          system = _;
          reach = Reach-Runs (ticked-Reach s) runs;
          matches = d.matches;
          free = d.free;
          running = d.same_flag ∙ s.running;
          pushed = d.same_pushed ∙ s.pushed;
          before = before;
          after = d.right;
          tasks =
              ap (λ l. l ++ Task.selecting ∷ d.right) e
              ∙ append_assoc call' before (Task.selecting ∷ d.right);
        } in
      elim d.others [
        | inl (l, r, n) ↦ record {
          call' = call;
          stands = standing call s.before l;
          woken = inl (refl, n);
        }
        | inr (l, r) ↦ record {
          call' = map wake call;
          stands = standing (map wake call) (map wake s.before) (l ∙ map-append_wake call s.before);
          woken = inr refl;
        }
      ]

  pub background-Round :
      (b : Option Disk) → Stands v total w call → Round v total w (background v.codec b w) call
  unfolding background ticked
  background-Round none s = record { call' = call; stands = s; woken = inl (refl, refl) }
  background-Round (some disk) s =
      comes_back (drain_and_flush v.codec disk w).0 (is_ok (drain_and_flush v.codec disk w).1) s (
        drain_and_flush-Drains v.codec v.base (call ++ s.before) s.after Caller.at_tick w refl
          s.free s.matches disk)
