-- ===== src/Prelude/Sort.antt =====
-- `[u64]::sort_unstable`, as insertion sort: on numbers every sort gives the same list.
use Prim.Native.Nat.{ℕ, ◌<◌, ◌≤◌}
use mathlib.Core.Path.{◌≡◌, refl, sym, ◌∙◌}
use mathlib.Core.List.{List, [], ◌∷◌, ◌++◌}
use native.Mathlib.Omega.{arith}
use mathlib.Core.Bool.{Bool, true, false, ◌||◌}
use mathlib.Core.Logic.{inl, inr}
use async_wal_db.Prelude.Tests.{leb, nat_beq, nat_beq_iff, if◌then◌else◌, Bool-cases}
use async_wal_db.Prelude.Lists.{All, All-append}

unfoldable pub insert : ℕ → List ℕ → List ℕ
insert a [] = a ∷ []
insert a (b ∷ bs) = if leb a b then a ∷ b ∷ bs else b ∷ insert a bs

unfoldable pub sort : List ℕ → List ℕ
unfolding insert
sort [] = []
sort (a ∷ as') = insert a (sort as')

-- Membership as a test.
abbrev pub has : ℕ → List ℕ → Bool
has i [] = false
has i (j ∷ js) = nat_beq j i || has i js

-- No number stands twice.
abbrev pub Distinct : List ℕ → Type 0
Distinct [] = Unit
Distinct (i ∷ is) = (has i is ≡ false) × Distinct is

-- Every number is below those behind it.
abbrev pub Ascending : List ℕ → Type 0
Ascending [] = Unit
Ascending (i ∷ is) = All (λ j. i < j) is × Ascending is

has-insert : (i a : ℕ) (l : List ℕ) → has i (insert a l) ≡ (nat_beq a i || has i l)
unfolding insert
has-insert i a [] = refl
has-insert i a (b ∷ bs) = ground (arith, has-insert i a bs)

pub has-sort : (i : ℕ) (l : List ℕ) → has i (sort l) ≡ has i l
unfolding sort
has-sort i [] = refl
has-sort i (a ∷ as') = ground (arith, has-insert i a (sort as'), has-sort i as')

All-insert : (k a : ℕ) (l : List ℕ) → k < a → All (λ j. k < j) l → All (λ j. k < j) (insert a l)
unfolding insert
All-insert k a [] h hs = (h, tt)
All-insert k a (b ∷ bs) h hs = elim (Bool-cases (leb a b)) [
  | inl before ↦ rw before (h, hs)
  | inr behind ↦ rw behind (hs.0, All-insert k a bs h hs.1)
]

All-lt_trans : (a b : ℕ) (l : List ℕ) → a < b → All (λ j. b < j) l → All (λ j. a < j) l
All-lt_trans a b [] h hs = tt
All-lt_trans a b (c ∷ cs) h hs = (omega arith, All-lt_trans a b cs h hs.1)

Ascending-insert : (a : ℕ) (l : List ℕ) → has a l ≡ false → Ascending l → Ascending (insert a l)
unfolding insert
Ascending-insert a [] n h = (tt, tt)
Ascending-insert a (b ∷ bs) n h = elim (Bool-cases (leb a b)) [
  | inl before ↦
      let below : a < b = ground arith in rw before ((below, All-lt_trans a b bs below h.0), h)
  | inr behind ↦
      let above : b < a = ground arith in
      rw behind (All-insert b a bs above h.0, Ascending-insert a bs (ground arith) h.1)
]

pub Ascending-sort : (l : List ℕ) → Distinct l → Ascending (sort l)
unfolding sort
Ascending-sort [] h = tt
Ascending-sort (a ∷ as') h =
    Ascending-insert a (sort as') (has-sort a as' ∙ h.0) (Ascending-sort as' h.1)

pub has-All : (P : ℕ → Type 0) (l : List ℕ) → All P l → (i : ℕ) → has i l ≡ true → P i
has-All P [] h i p = absurd (cc)
has-All P (j ∷ js) h i p = elim (Bool-cases (nat_beq j i)) [
  | inl same ↦ rw ((nat_beq_iff j i).0 same) at (h.0)
  | inr other ↦ has-All P js h.1 i (ground (arith, p, other))
]

pub All-has : (P : ℕ → Type 0) (l : List ℕ) → ((i : ℕ) → has i l ≡ true → P i) → All P l
All-has P [] h = tt
All-has P (j ∷ js) h = (h j (ground arith), All-has P js (λ i p. h i (ground (arith, p))))

has-head : (i : ℕ) (is : List ℕ) → has i (i ∷ is) ≡ true
has-head i is = ground arith

-- An ascending list has its head first.
has-head_le : (i k : ℕ) (is : List ℕ) → Ascending (i ∷ is) → has k (i ∷ is) ≡ true → i ≤ k
has-head_le i k is h p = elim (Bool-cases (nat_beq i k)) [
  | inl same ↦ ground arith
  | inr other ↦
      let behind : i < k = has-All (λ j. i < j) is h.0 k (ground (arith, p, other)) in omega arith
]

has-tail_lt : (i k : ℕ) (is : List ℕ) → Ascending (i ∷ is) → k ≤ i → has k is ≡ false
has-tail_lt i k is h le = elim (Bool-cases (has k is)) [
  | inl found ↦ let above : i < k = has-All (λ j. i < j) is h.0 k found in absurd (omega arith)
  | inr missing ↦ missing
]

-- Two ascending lists of the same numbers are the same list.
pub Ascending-unique :
    (is js : List ℕ) → Ascending is → Ascending js → ((k : ℕ) → has k is ≡ has k js) → is ≡ js
Ascending-unique [] [] hi hj e = refl
Ascending-unique [] (j ∷ js) hi hj e = absurd (ground (arith, e j))
Ascending-unique (i ∷ is) [] hi hj e = absurd (ground (arith, e i))
Ascending-unique (i ∷ is) (j ∷ js) hi hj e =
    let down : j ≤ i = has-head_le j i js hj (sym (e i) ∙ has-head i is) in
    let up : i ≤ j = has-head_le i j is hi (e j ∙ has-head j js) in
    let same : i ≡ j = omega arith in rw (same, Ascending-unique is js hi.1 hj.1 (tails same))
  where
    tails : i ≡ j → (k : ℕ) → has k is ≡ has k js
    tails same k = elim (Bool-cases (nat_beq i k)) [
      | inl here ↦
          let ki : k ≤ i = ground arith in
          let kj : k ≤ j = omega arith in has-tail_lt i k is hi ki ∙ sym (has-tail_lt j k js hj kj)
      | inr other ↦ ground (arith, e k, same)
    ]

pub Ascending-append_last :
    (i : ℕ) (l : List ℕ) → All (λ j. j < i) l → Ascending l → Ascending (l ++ i ∷ [])
Ascending-append_last i [] b h = (tt, tt)
Ascending-append_last i (j ∷ l) b h =
    (All-append (λ k. j < k) l (i ∷ []) h.0 (b.0, tt), Ascending-append_last i l b.1 h.1)

pub has-append_last : (k i : ℕ) (l : List ℕ) → has k (l ++ i ∷ []) ≡ (has k l || nat_beq i k)
has-append_last k i [] = ground arith
has-append_last k i (j ∷ l) = ground (arith, has-append_last k i l)
