-- ===== src/Prelude/Sort.antt =====
-- Python's stable sort, by a strict order.
use mathlib.Core.Path.{◌≡◌, refl}
use mathlib.Core.List.{List, [], ◌∷◌}
use mathlib.Core.Bool.{Bool, true, false, ◌||◌}
use mathlib.Core.Logic.{inl, inr}
use native.Mathlib.Omega.{arith}
use swarmstate.Prelude.Tests.{if◌then◌else◌, Bool-cases}
use swarmstate.Prelude.Eq.{Eq, ◌==◌, contains}

module _ {ℓ} {A : Type ℓ} (below : A → A → Bool) where
  -- An element goes before the first one that is not below it.
  unfoldable pub place : A → List A → List A
  place x [] = x ∷ []
  place x (y ∷ ys) = if below y x then y ∷ place x ys else x ∷ y ∷ ys

  unfoldable pub sort : List A → List A
  unfolding place
  sort [] = []
  sort (x ∷ xs) = place x (sort xs)

module _ {ℓ} {A : Type ℓ} ⦃e : Eq A⦄ (below : A → A → Bool) where
  contains-place :
      (a x : A) (ys : List A) → contains a (place below x ys) ≡ (x == a || contains a ys)
  unfolding place contains
  contains-place a x [] = refl
  contains-place a x (y ∷ ys) = ground (arith, contains-place a x ys)

  pub contains-sort : (a : A) (xs : List A) → contains a (sort below xs) ≡ contains a xs
  unfolding sort contains
  contains-sort a [] = refl
  contains-sort a (x ∷ xs) = ground (arith, contains-place a x (sort below xs), contains-sort a xs)

module _ {ℓ} {A : Type ℓ} (below : A → A → Bool) where
  abbrev pub NoneBelow : A → List A → Type 0
  NoneBelow x [] = Unit
  NoneBelow x (y ∷ ys) = (below y x ≡ false) × NoneBelow x ys

  -- No element is below one that stands before it.
  abbrev pub IsSorted : List A → Type 0
  IsSorted [] = Unit
  IsSorted (x ∷ xs) = NoneBelow x xs × IsSorted xs

  module _ (asymm : (x y : A) → below x y ≡ true → below y x ≡ false)
      (chain : (x y z : A) → below y x ≡ false → below z y ≡ false → below z x ≡ false) where
    NoneBelow-chain : (x y : A) (zs : List A) → below y x ≡ false → NoneBelow y zs → NoneBelow x zs
    NoneBelow-chain x y [] h n = tt
    NoneBelow-chain x y (z ∷ zs) h n = (chain x y z h n.0, NoneBelow-chain x y zs h n.1)

    NoneBelow-place :
        (x y : A) (ys : List A)
        → below x y ≡ false
        → NoneBelow y ys
        → NoneBelow y (place below x ys)
    unfolding place
    NoneBelow-place x y [] h n = (h, tt)
    NoneBelow-place x y (z ∷ ys) h n = elim (Bool-cases (below z x)) [
      | inl e ↦ rw e (n.0, NoneBelow-place x y ys h n.1)
      | inr e ↦ rw e (h, n)
    ]

    place-IsSorted : (x : A) (ys : List A) → IsSorted ys → IsSorted (place below x ys)
    unfolding place
    place-IsSorted x [] s = (tt, tt)
    place-IsSorted x (y ∷ ys) s = elim (Bool-cases (below y x)) [
      | inl e ↦ rw e (NoneBelow-place x y ys (asymm y x e) s.0, place-IsSorted x ys s.1)
      | inr e ↦ rw e ((e, NoneBelow-chain x y ys e s.0), s)
    ]

    pub sort-IsSorted : (xs : List A) → IsSorted (sort below xs)
    unfolding sort
    sort-IsSorted [] = tt
    sort-IsSorted (x ∷ xs) = place-IsSorted x (sort below xs) (sort-IsSorted xs)
