-- ===== src/Wal/Simulation/Flushes.antt =====
-- A call of `flush` as a run of steps of its task and of the flusher.
use async_wal_db.Prelude.{
  ℕ, zero, suc, ◌+◌, ◌≡◌, refl, ap, ◌∙◌, arith, List, [], ◌∷◌, ◌++◌, map, Bool, Option, ltb,
  Bool-cases, inl, inr, if◌then◌else◌,
}
use mathlib.Core.Path.{subst}
use async_wal_db.Errors.{ok}
use async_wal_db.Entry.{WalEntry}
use async_wal_db.Wal.{WalStorage, Disk, drain_and_flush, background, poll, flush}
use async_wal_db.Wal.Simulation.{View, Stands, is_ok}
use async_wal_db.Wal.Simulation.Drains.{Drains, at}
use async_wal_db.Wal.Simulation.Drained.{drain_and_flush-Drains}
use async_wal_db.Wal.Simulation.Flusher.{reads, map-append_wake, background-Round}
use async_wal_db.Tasks.{Caller, Task, Move, wake}
use async_wal_db.Tasks.Runs.{Reach-Runs, move_at}

module _ {v : View} {total : List WalEntry} where
  -- The rest of the sleeps, in which the flusher does nothing.
  waits_out :
      (n retries : ℕ) (w : WalStorage)
      → n + retries ≡ 100
      → Stands v total w (Task.polling retries ∷ [])
      → Stands v total w (Task.checking ∷ [])
  waits_out zero retries w e s = reads s (Move.give_up (omega arith))
  waits_out (suc n) retries w e s = elim (Bool-cases (ltb 0 w.pending_count)) [
    | inl busy ↦
        waits_out n (retries + 1) w (omega arith)
          (reads s (Move.sleep (ground (arith, s.matches.count)) (omega arith)))
    | inr idle ↦ reads s (Move.settled (ground (arith, s.matches.count)))
  ]

  poll-Stands :
      (n retries : ℕ) (bs : List (Option Disk)) (w : WalStorage)
      → n + retries ≡ 100
      → Stands v total w (Task.polling retries ∷ [])
      → Stands v total (poll v.codec n bs w) (Task.checking ∷ [])
  unfolding poll
  poll-Stands zero retries bs w e s = waits_out zero retries w e s
  poll-Stands (suc n) retries [] w e s = waits_out (suc n) retries w e s
  poll-Stands (suc n) retries (b ∷ bs) w e s = elim (Bool-cases (ltb 0 w.pending_count)) [
    | inl busy ↦
        let slept = reads s (Move.sleep (ground (arith, s.matches.count)) (omega arith)) in
        let r = background-Round b slept in
        let same : r.call' ≡ Task.polling (retries + 1) ∷ [] = elim r.woken [
          | inl (q, c) ↦ q
          | inr q ↦ q
        ] in
        rw busy (
          poll-Stands n (retries + 1) bs (background v.codec b w) (omega arith)
            (subst (λ x. Stands v total (background v.codec b w) x) same r.stands))
    | inr idle ↦ rw idle (reads s (Move.settled (ground (arith, s.matches.count))))
  ]

  -- The drain that a `flush` makes itself is over.
  drained :
      (w w' : WalStorage) (succeeded : Bool)
      (s : Stands v total w (Task.draining Caller.by_flush [] ∷ []))
      → Drains v.codec v.base s.system []
          (s.before ++ Task.selecting ∷ s.after)
          Caller.by_flush
          w
          w'
          succeeded
      → Stands v total w' (Task.flushed succeeded ∷ [])
  drained w w' succeeded s d =
      let standing : (before after : List Task)
          → d.left ≡ []
          → d.right ≡ before ++ Task.selecting ∷ after
          → Stands v total w' (Task.flushed succeeded ∷ []) =
        λ before after l r. record {
          system = at d.shared (d.left ++ Task.flushed succeeded ∷ d.right);
          reach = Reach-Runs s.reach (move_at d.left d.right d.runs refl Move.flush_returns);
          matches = d.matches;
          free = d.free;
          running = d.same_flag ∙ s.running;
          pushed = d.same_pushed ∙ s.pushed;
          before = before;
          after = after;
          tasks =
              ap (λ x. x ++ Task.flushed succeeded ∷ d.right) l
              ∙ ap (λ x. Task.flushed succeeded ∷ x) r;
        } in
      elim d.others [
        | inl (l, r, n) ↦ standing s.before s.after l r
        | inr (l, r) ↦
            standing (map wake s.before) (map wake s.after) l
              (r ∙ map-append_wake s.before (Task.selecting ∷ s.after))
      ]

  decides :
      (w : WalStorage) (disk : Disk)
      → Stands v total w (Task.checking ∷ [])
      → (let r = if ltb 0 w.pending_count then drain_and_flush v.codec disk w else (w, ok tt) in
          Stands v total r.0 (Task.flushed (is_ok r.1) ∷ []))
  decides w disk s = elim (Bool-cases (ltb 0 w.pending_count)) [
    | inl busy ↦
        let s' = reads s (Move.force (ground (arith, s.matches.count))) in
        rw busy (
          drained w (drain_and_flush v.codec disk w).0 (is_ok (drain_and_flush v.codec disk w).1) s'
            (drain_and_flush-Drains v.codec v.base [] (s'.before ++ Task.selecting ∷ s'.after)
              Caller.by_flush w s'.tasks s'.free s'.matches disk))
    | inr idle ↦ rw idle (reads s (Move.clear (ground (arith, s.matches.count))))
  ]

  -- Each call of `flush` is a run of steps with the same answer.
  pub flush-Stands :
      (bs : List (Option Disk)) (disk : Disk) (w : WalStorage)
      → Stands v total w (Task.polling 0 ∷ [])
      → (let r = flush v.codec bs disk w in Stands v total r.0 (Task.flushed (is_ok r.1) ∷ []))
  unfolding flush
  flush-Stands bs disk w s =
      decides (poll v.codec 100 bs w) disk (poll-Stands 100 0 bs w (omega arith) s)
