-- ===== src/Tasks/Reachable.antt =====
-- The tally of the tasks in every state that they can reach.
use async_wal_db.Prelude.{
  ℕ, ◌+◌, ◌^◌, ◌<◌, ◌≡◌, refl, sym, ap, ◌∙◌, arith, List, [], ◌∷◌, ◌++◌, map, true,
}
use async_wal_db.Entry.{WalEntry}
use async_wal_db.Tasks.{Shared, Caller, Task, wake, System, IsCall, Step, Reach}
use async_wal_db.Tasks.Tally.{slots, holds, unsynced, weigh, carried, total, Tally, Move-Tally}

total-append : (w : Task → ℕ) (xs ys : List Task) → total w (xs ++ ys) ≡ total w xs + total w ys
total-append w [] ys = omega arith
total-append w (x ∷ xs) ys = omega (arith, total-append w xs ys)

-- A weight that waking does not change.
total-wake :
    (w : Task → ℕ)
    → ((t : Task) → w (wake t) ≡ w t)
    → (ts : List Task) → total w (map wake ts) ≡ total w ts
total-wake w h [] = refl
total-wake w h (t ∷ ts) = omega (arith, h t, total-wake w h ts)

abbrev pub IsTallied : System → Type 0
IsTallied s =
    Tally s.shared (total slots s.tasks) (total holds s.tasks) (total unsynced s.tasks)
      (λ w. total (λ t. weigh w (carried t)) s.tasks)

-- The tally in any order of the tasks.
regroup-Tally :
    {m : Shared} {a b d a' b' d' : ℕ} {f f' : (WalEntry → ℕ) → ℕ}
    → a ≡ a'
    → b ≡ b'
    → d ≡ d'
    → ((w : WalEntry → ℕ) → f w ≡ f' w)
    → Tally m a b d f
    → Tally m a' b' d' f'
regroup-Tally p q r e i = record {
  exact = omega (arith, i.exact);
  bounded = i.bounded;
  word = i.word;
  mutex = sym q ∙ i.mutex;
  kept = λ w. omega (arith, i.kept w, e w);
  synced = omega (arith, i.synced);
  accounted = i.accounted;
}

wake-lem :
    (w : Task → ℕ)
    → ((e : WalEntry) → w (Task.waiting e) ≡ w (Task.appending e))
    → (t : Task) → w (wake t) ≡ w t
wake-lem w h (Task.waiting e) = sym (h e)
wake-lem w h t = refl

total-middle :
    (w : Task → ℕ) (front : List Task) (t : Task) (back : List Task)
    → total w (front ++ t ∷ back) ≡ total w front + total w back + w t
total-middle w front t back = omega (arith, total-append w front (t ∷ back))

-- The weights of a task by which the tally counts.
data IsWeight : (Task → ℕ) → Type 0 where
  by_slots : IsWeight slots
  by_holds : IsWeight holds
  by_unsynced : IsWeight unsynced
  by_entries : (w : WalEntry → ℕ) → IsWeight (λ t. weigh w (carried t))

-- Another list of tasks of the same weights.
retask-IsTallied :
    (m : Shared) (xs ys : List Task)
    → ((w : Task → ℕ) → IsWeight w → total w xs ≡ total w ys)
    → IsTallied (record { shared = m; tasks = xs })
    → IsTallied (record { shared = m; tasks = ys })
retask-IsTallied m xs ys h i =
    regroup-Tally (h slots by_slots) (h holds by_holds) (h unsynced by_unsynced)
      (λ w. h (λ t. weigh w (carried t)) (by_entries w)) i

call-weight : (t : Task) (w : Task → ℕ) → IsCall t → IsWeight w → w t ≡ 0
call-weight t w c by_slots = no_slots c
  where
    no_slots : {x : Task} → IsCall x → slots x ≡ 0
    no_slots (IsCall.append e) = refl
    no_slots x = refl
call-weight t w c by_holds = no_holds c
  where
    no_holds : {x : Task} → IsCall x → holds x ≡ 0
    no_holds (IsCall.append e) = refl
    no_holds x = refl
call-weight t w c by_unsynced = none_open c
  where
    none_open : {x : Task} → IsCall x → unsynced x ≡ 0
    none_open (IsCall.append e) = refl
    none_open x = refl
call-weight t w c (by_entries v) = no_entries c
  where
    no_entries : {x : Task} → IsCall x → weigh v (carried x) ≡ 0
    no_entries (IsCall.append e) = refl
    no_entries x = refl

waiting-weight :
    (w : Task → ℕ) → IsWeight w → (e : WalEntry) → w (Task.waiting e) ≡ w (Task.appending e)
waiting-weight w by_slots e = refl
waiting-weight w by_holds e = refl
waiting-weight w by_unsynced e = refl
waiting-weight w (by_entries v) e = refl

notified-weight :
    (w : Task → ℕ) → IsWeight w → (k : Caller) → w (Task.notifying k) ≡ w (Task.leaving k true)
notified-weight w by_slots k = refl
notified-weight w by_holds k = refl
notified-weight w by_unsynced k = refl
notified-weight w (by_entries v) k = refl

joined-weight : (w : Task → ℕ) → IsWeight w → w Task.joining ≡ w Task.stopped
joined-weight w by_slots = refl
joined-weight w by_holds = refl
joined-weight w by_unsynced = refl
joined-weight w (by_entries v) = refl

total-woken : (w : Task → ℕ) → IsWeight w → (ts : List Task) → total w (map wake ts) ≡ total w ts
total-woken w h = total-wake w (wake-lem w (waiting-weight w h))

focus :
    (m : Shared) (front : List Task) (t : Task) (back : List Task)
    → IsTallied (record { shared = m; tasks = front ++ t ∷ back })
    → Tally m
        (total slots front + total slots back + slots t)
        (total holds front + total holds back + holds t)
        (total unsynced front + total unsynced back + unsynced t)
        (λ w.
          total (λ x. weigh w (carried x)) front
          + total (λ x. weigh w (carried x)) back
          + weigh w (carried t))
focus m front t back i =
    regroup-Tally (total-middle slots front t back) (total-middle holds front t back)
      (total-middle unsynced front t back)
      (λ w. total-middle (λ x. weigh w (carried x)) front t back) i

unfocus :
    (m : Shared) (front : List Task) (t : Task) (back : List Task)
    → Tally m
        (total slots front + total slots back + slots t)
        (total holds front + total holds back + holds t)
        (total unsynced front + total unsynced back + unsynced t)
        (λ w.
          total (λ x. weigh w (carried x)) front
          + total (λ x. weigh w (carried x)) back
          + weigh w (carried t))
    → IsTallied (record { shared = m; tasks = front ++ t ∷ back })
unfocus m front t back i =
    regroup-Tally (sym (total-middle slots front t back)) (sym (total-middle holds front t back))
      (sym (total-middle unsynced front t back))
      (λ w. sym (total-middle (λ x. weigh w (carried x)) front t back)) i

Step-IsTallied : {s t : System} → Step s t → IsTallied s → IsTallied t
Step-IsTallied {s} (Step.call t c) i =
    retask-IsTallied s.shared s.tasks (t ∷ s.tasks) (λ w h. omega (arith, call-weight t w c h)) i
Step-IsTallied {s} (Step.moves front t back {m = m} {t' = t'} e mv) i = unfocus m front t' back (
    Move-Tally mv (total slots front + total slots back) (total holds front + total holds back)
      (total unsynced front + total unsynced back)
      (λ w. total (λ x. weigh w (carried x)) front + total (λ x. weigh w (carried x)) back)
      (focus s.shared front t back
        (retask-IsTallied s.shared s.tasks (front ++ t ∷ back) (λ w h. ap (total w) e) i)))
Step-IsTallied {s} (Step.notify front k back e) i =
    retask-IsTallied s.shared s.tasks (map wake front ++ Task.leaving k true ∷ map wake back)
      (λ w h. omega (
        arith,
        ap (total w) e,
        total-middle w front (Task.notifying k) back,
        total-middle w (map wake front) (Task.leaving k true) (map wake back),
        total-woken w h front,
        total-woken w h back,
        notified-weight w h k,
      ))
      i
Step-IsTallied {s} (Step.join front back before behind e p) i =
    retask-IsTallied s.shared s.tasks (front ++ Task.stopped ∷ back)
      (λ w h. omega (
        arith,
        ap (total w) e,
        total-middle w front Task.joining back,
        total-middle w front Task.stopped back,
        joined-weight w h,
      ))
      i

-- The tally holds in every state that any number of tasks can reach.
pub Reach-IsTallied : {n : ℕ} {s : System} → n < 2 ^ 64 → Reach n s → IsTallied s
Reach-IsTallied small Reach.start = record {
  exact = refl;
  bounded = omega arith;
  word = small;
  mutex = refl;
  kept = λ w. refl;
  synced = omega arith;
  accounted = omega arith;
}
Reach-IsTallied small (Reach.later r st) = Step-IsTallied st (Reach-IsTallied small r)
