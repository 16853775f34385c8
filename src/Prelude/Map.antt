-- ===== src/Prelude/Map.antt =====
-- `std::collections::HashMap` as an association list. The program never depends on the order in
-- which a `HashMap` is iterated: it counts, sorts or takes a maximum of what it reads.
use mathlib.Core.Path.{◌≡◌, refl}
use mathlib.Core.Option.{Option, none, some}
use mathlib.Core.List.{List, [], ◌∷◌}
use native.Mathlib.Omega.{arith}
use mathlib.Core.Logic.{inl, inr}
use async_wal_db.Prelude.Tests.{Bool-cases, PartialEq, ◌==◌, if◌then◌else◌}

abbrev pub Map {ℓ} : Type ℓ → Type ℓ → Type ℓ
Map K V = List (K × V)

module _ {ℓ} {K V : Type ℓ} ⦃e : PartialEq K⦄ where
  unfoldable pub get : K → Map K V → Option V
  get k [] = none
  get k ((j, v) ∷ m) = if j == k then some v else get k m

  -- `HashMap::insert`: a present key gets the new value
  unfoldable pub insert : K → V → Map K V → Map K V
  insert k v [] = (k, v) ∷ []
  insert k v ((j, w) ∷ m) = if j == k then (j, v) ∷ m else (j, w) ∷ insert k v m

  unfoldable pub remove : K → Map K V → Map K V
  remove k [] = []
  remove k ((j, w) ∷ m) = let rest = remove k m in if j == k then rest else (j, w) ∷ rest

  pub get-insert :
      (k j : K) (v : V) (m : Map K V) → get j (insert k v m) ≡ (if k == j then some v else get j m)
  unfolding get insert
  get-insert k j v [] = refl
  get-insert k j v ((i, w) ∷ m) =
      ground (arith, e.eq_iff k j, e.eq_iff i k, e.eq_iff i j, get-insert k j v m)

  pub get-remove : (k j : K) (m : Map K V) → get j (remove k m) ≡ (if k == j then none else get j m)
  unfolding get remove
  get-remove k j [] = ground arith
  get-remove k j ((i, w) ∷ m) =
      ground (arith, e.eq_iff k j, e.eq_iff i k, e.eq_iff i j, get-remove k j m)

unfoldable pub keys {ℓ} : {K V : Type ℓ} → Map K V → List K
keys [] = []
keys ((k, v) ∷ m) = k ∷ keys m

module _ {ℓ} {K V : Type ℓ} ⦃e : PartialEq K⦄ where
  -- No key stands twice: what `insert` makes.
  abbrev pub NoDup : Map K V → Type ℓ
  NoDup [] = Unit
  NoDup ((k, v) ∷ m) = (get k m ≡ none) × NoDup m

  pub NoDup-insert : (k : K) (v : V) (m : Map K V) → NoDup m → NoDup (insert k v m)
  unfolding insert get
  NoDup-insert k v [] h = (refl, tt)
  NoDup-insert k v ((j, w) ∷ m) h = elim (Bool-cases (j == k)) [
    | inl same ↦ rw same h
    | inr other ↦ rw other (
      ground (arith, get-insert k j v m, h.0, e.eq_iff k j, e.eq_iff j k),
      NoDup-insert k v m h.1,
    )
  ]

module _ {ℓ} {K V W : Type ℓ} ⦃e : PartialEq K⦄ where
  -- Maps with the same keys in the same places.
  pub keys-insert :
      (k : K) (v : V) (w : W) (m : Map K V) (n : Map K W)
      → keys m ≡ keys n
      → keys (insert k v m) ≡ keys (insert k w n)
  unfolding insert keys
  keys-insert k v w [] [] h = refl
  keys-insert k v w [] ((j, x) ∷ n) h = absurd (cc)
  keys-insert k v w ((j, x) ∷ m) [] h = absurd (cc)
  keys-insert k v w ((j, x) ∷ m) ((i, y) ∷ n) h = ground (arith, keys-insert k v w m n)

module _ {ℓ} {K V : Type ℓ} ⦃e : PartialEq K⦄ where
  -- An insertion at a key that is there leaves the keys.
  pub keys-insert_of_some :
      (k : K) (v x : V) (m : Map K V) → get k m ≡ some x → keys (insert k v m) ≡ keys m
  unfolding insert get keys
  keys-insert_of_some k v x [] h = absurd (cc)
  keys-insert_of_some k v x ((j, w) ∷ m) h = ground (arith, keys-insert_of_some k v x m)

pub ruleset map_laws = (get-insert, get-remove)
