-- ===== src/Tasks/Order.antt =====
-- The order of the log, as long as no two tasks drain at the same time.
pub mod Tests
use mathlib.Core.List.{append-nil, append_assoc}
use async_wal_db.Prelude.{
  ℕ, ◌+◌, ◌≤◌, ◌≡◌, ◌≢◌, refl, sym, ap, ◌∙◌, arith, List, [], ◌∷◌, ◌++◌, map, true, length,
  length-append, ◌⊎◌, inl, inr,
}
use async_wal_db.Entry.{WalEntry}
use async_wal_db.Tasks.{Shared, Caller, Task, Move, wake, System, IsCall, Step, fresh}
use async_wal_db.Tasks.Tally.{carried, total}

-- A task that takes entries off the queue or has entries to write.
abbrev pub drains : Task → ℕ
drains (Task.draining k batch) = 1
drains (Task.locking k batch) = 1
drains (Task.writing k n rest) = 1
drains t = 0

-- What the tasks reach if at no time two of them drain.
pub data Orderly (max_queue_size : ℕ) : System → Type 0 where
  start : Orderly max_queue_size (record { shared = fresh max_queue_size; tasks = [] })
  later :
      {s t : System}
      → Orderly max_queue_size s
      → Step s t
      → total drains t.tasks ≤ 1
      → Orderly max_queue_size t

-- The entries that the tasks have popped and not yet written.
abbrev pub under_way : List Task → List WalEntry
under_way [] = []
under_way (t ∷ ts) = carried t ++ under_way ts

under_way-append : (xs ys : List Task) → under_way (xs ++ ys) ≡ under_way xs ++ under_way ys
under_way-append [] ys = refl
under_way-append (t ∷ xs) ys =
    ap (λ l. carried t ++ l) (under_way-append xs ys)
    ∙ sym (append_assoc (carried t) (under_way xs) (under_way ys))

total-append : (xs ys : List Task) → total drains (xs ++ ys) ≡ total drains xs + total drains ys
total-append [] ys = omega arith
total-append (x ∷ xs) ys = omega (arith, total-append xs ys)

idle_handed : (t : Task) → drains t ≡ 0 → carried t ≡ []
idle_handed (Task.draining k batch) h = absurd (omega arith)
idle_handed (Task.locking k batch) h = absurd (omega arith)
idle_handed (Task.writing k n rest) h = absurd (omega arith)
idle_handed t h = refl

none_under_way : (ts : List Task) → total drains ts ≡ 0 → under_way ts ≡ []
none_under_way [] h = refl
none_under_way (t ∷ ts) h = rw (idle_handed t (omega arith)) (none_under_way ts (omega arith))

drains-cases : (t : Task) → (drains t ≡ 0) ⊎ (drains t ≡ 1)
drains-cases (Task.draining k batch) = inr refl
drains-cases (Task.locking k batch) = inr refl
drains-cases (Task.writing k n rest) = inr refl
drains-cases t = inl refl

-- All that was pushed stands in the log, then with the task that drains, then in the queue.
abbrev pub InOrder : Shared → List WalEntry → Type 0
InOrder m between = m.pushed ≡ m.log ++ (between ++ m.pending)

append_ne : (xs : List WalEntry) (e : WalEntry) (ys : List WalEntry) → xs ++ e ∷ ys ≢ []
append_ne xs e ys h = omega (arith, ap (length {A = WalEntry}) h, length-append xs (e ∷ ys))

Move-lost : {m m' : Shared} {t t' : Task} → Move m t m' t' → m'.lost ≡ [] → m.lost ≡ []
Move-lost {m} (Move.write_fails {e = e} {rest = rest}) h = absurd (append_ne m.lost e rest h)
Move-lost mv h = h

-- A move of the task that drains.
drainer-InOrder :
    {m m' : Shared} {t t' : Task}
    → Move m t m' t'
    → drains t ≡ 1
    → m'.lost ≡ []
    → InOrder m (carried t)
    → InOrder m' (carried t')
drainer-InOrder {m} (Move.pop {batch = batch} e rest p) d h i =
    i
    ∙ ap (λ l. m.log ++ (batch ++ l)) p
    ∙ ap (λ l. m.log ++ l) (sym (append_assoc batch (e ∷ []) rest))
drainer-InOrder {m} (Move.write {e = e} {rest = rest}) d h i =
    i ∙ sym (append_assoc m.log (e ∷ []) (rest ++ m.pending))
drainer-InOrder {m} (Move.write_fails {e = e} {rest = rest}) d h i =
    absurd (append_ne m.lost e rest h)
drainer-InOrder Move.push d h i = absurd (omega (arith, d))
drainer-InOrder mv d h i = i

other-InOrder :
    {m m' : Shared} {t t' : Task} (between : List WalEntry)
    → Move m t m' t'
    → drains t ≡ 0
    → InOrder m between
    → InOrder m' between × (carried t' ≡ [])
other-InOrder {m} between (Move.push {e = e}) d i = (
  ap (λ l. l ++ e ∷ []) i
      ∙ append_assoc m.log (between ++ m.pending) (e ∷ [])
      ∙ ap (λ l. m.log ++ l) (append_assoc between m.pending (e ∷ [])),
  refl,
)
other-InOrder between (Move.pop e rest p) d i = absurd (omega (arith, d))
other-InOrder between (Move.drained p) d i = absurd (omega (arith, d))
other-InOrder between (Move.lock p) d i = absurd (omega (arith, d))
other-InOrder between Move.write d i = absurd (omega (arith, d))
other-InOrder between mv d i = (i, refl)

-- The task that moves, among the others.
middle :
    (front : List Task) (t : Task) (back : List Task)
    → under_way (front ++ t ∷ back) ≡ under_way front ++ (carried t ++ under_way back)
middle front t back = under_way-append front (t ∷ back)

alone :
    (front : List Task) (t : Task) (back : List Task)
    → drains t ≡ 1
    → total drains (front ++ t ∷ back) ≤ 1
    → (under_way front ≡ []) × (under_way back ≡ [])
alone front t back d one =
    let split = total-append front (t ∷ back) in
    (none_under_way front (omega (arith, split)), none_under_way back (omega (arith, split)))

moves-InOrder :
    (front : List Task) (t : Task) (back : List Task) {m m' : Shared} {t' : Task}
    → Move m t m' t'
    → total drains (front ++ t ∷ back) ≤ 1
    → m'.lost ≡ []
    → InOrder m (under_way (front ++ t ∷ back))
    → InOrder m' (under_way (front ++ t' ∷ back))
moves-InOrder front t back {m} {m'} {t'} mv one kept i = elim (drains-cases t) [
  | inl idle ↦
      let before =
        middle front t back
        ∙ ap (λ l. under_way front ++ (l ++ under_way back)) (idle_handed t idle) in
      let (after, empty) =
        other-InOrder (under_way front ++ under_way back) mv idle (rw before at i) in
      let same = middle front t' back ∙ ap (λ l. under_way front ++ (l ++ under_way back)) empty in
      rw same after
  | inr busy ↦
      let (f, b) = alone front t back busy one in
      let only : (x : Task) → under_way (front ++ x ∷ back) ≡ carried x = λ x.
        middle front x back
        ∙ ap (λ l. l ++ (carried x ++ under_way back)) f
        ∙ ap (λ l. carried x ++ l) b
        ∙ append-nil (carried x) in
      rw (only t') (drainer-InOrder mv busy kept (rw (only t) at i))
]

under_way-wake : (ts : List Task) → under_way (map wake ts) ≡ under_way ts
under_way-wake [] = refl
under_way-wake (Task.waiting e ∷ ts) = under_way-wake ts
under_way-wake (t ∷ ts) = ap (λ l. carried t ++ l) (under_way-wake ts)

begun : (t : Task) → IsCall t → carried t ≡ []
begun t (IsCall.append e) = refl
begun t c = refl

Step-InOrder :
    {s u : System}
    → Step s u
    → total drains s.tasks ≤ 1
    → u.shared.lost ≡ []
    → InOrder s.shared (under_way s.tasks)
    → InOrder u.shared (under_way u.tasks)
Step-InOrder (Step.call t c) one kept i = rw (begun t c) i
Step-InOrder {s} (Step.moves front t back e mv) one kept i =
    moves-InOrder front t back mv (rw e at one) kept (rw e at i)
Step-InOrder {s} (Step.notify front k back e) one kept i =
    let same =
      middle (map wake front) (Task.leaving k true) (map wake back)
      ∙ ap (λ l. l ++ under_way (map wake back)) (under_way-wake front)
      ∙ ap (λ l. under_way front ++ l) (under_way-wake back)
      ∙ sym (middle front (Task.notifying k) back) in
    rw same (rw e at i)
Step-InOrder {s} (Step.join front back before behind e p) one kept i =
    rw (middle front Task.stopped back ∙ sym (middle front Task.joining back)) (rw e at i)

Step-lost : {s u : System} → Step s u → u.shared.lost ≡ [] → s.shared.lost ≡ []
Step-lost (Step.call t c) h = h
Step-lost (Step.moves front t back e mv) h = Move-lost mv h
Step-lost (Step.notify front k back e) h = h
Step-lost (Step.join front back before behind e p) h = h

one_drains : {n : ℕ} {s : System} → Orderly n s → total drains s.tasks ≤ 1
one_drains start = omega arith
one_drains (later r st one) = one

-- If at no time two tasks have drained and no write has failed, then what was pushed, in the order
-- in which it was pushed, is what stands in the log, then what is on the way to it, then the queue:
-- no entry overtakes another, and a marker in the log has all earlier entries before it.
pub log_order :
    {n : ℕ} {s : System}
    → Orderly n s
    → s.shared.lost ≡ []
    → s.shared.pushed ≡ s.shared.log ++ (under_way s.tasks ++ s.shared.pending)
log_order start h = refl
log_order (later r st one) h = Step-InOrder st (one_drains r) h (log_order r (Step-lost st h))
