-- ===== src/Workers/Counting.antt =====
-- The calls that are left to each task, and the turns that it gets.
use async_wal_db.Prelude.{ℕ, zero, suc, ◌+◌, ◌-◌, ◌≡◌, arith, List, [], ◌∷◌, Bool, false, ◌||◌}
use async_wal_db.Workers.{Worker, Beat, calls, passes}
use async_wal_db.Workers.Ready.{calls_left}

pub or_assoc : (a b d : Bool) → ((a || b) || d) ≡ (a || (b || d))
or_assoc a b d = ground arith

pub or_false : (a : Bool) → (a || false) ≡ a
or_false a = ground arith

pub or_swap : (a b d : Bool) → ((a || b) || d) ≡ (b || (a || d))
or_swap a b d = ground arith

-- The calls left of the task at a place.
abbrev pub left_at : ℕ → List Worker → ℕ
left_at i [] = 0
left_at zero (w ∷ ws) = calls_left w
left_at (suc i) (w ∷ ws) = left_at i ws

-- How many of the calls at a place are the task's at `j`.
abbrev pub one_at : ℕ → ℕ → ℕ
one_at zero zero = 1
one_at zero (suc i) = 0
one_at (suc j) zero = 0
one_at (suc j) (suc i) = one_at j i

-- How often the task at `j` is called.
abbrev pub times : ℕ → List Beat → ℕ
times j [] = 0
times j (calls i world ∷ beats) = one_at j i + times j beats
times j (passes b ∷ beats) = times j beats

pub first :
    (w' w : Worker) (ws : List Worker)
    → calls_left w' ≡ calls_left w - 1
    → (j : ℕ) → left_at j (w' ∷ ws) ≡ left_at j (w ∷ ws) - one_at j zero
first w' w ws h zero = h
first w' w ws h (suc j) = omega arith

pub behind :
    (w : Worker) (ws' ws : List Worker) (i : ℕ)
    → ((j : ℕ) → left_at j ws' ≡ left_at j ws - one_at j i)
    → (j : ℕ) → left_at j (w ∷ ws') ≡ left_at j (w ∷ ws) - one_at j (suc i)
behind w ws' ws i h zero = omega arith
behind w ws' ws i h (suc j) = h j
