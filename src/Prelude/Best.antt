-- ===== src/Prelude/Best.antt =====
-- The first elements of a sorted list: no other element of the list is above them.
use mathlib.Core.List.{Memᴰ}
use mathlib.Core.List.Memᴰ
use mathlib.Core.List.Memᴰ.{head, tail}
use swarmstate.Prelude.Tests.{Bool-cases}
use swarmstate.Prelude.Lists.{length, take}
use swarmstate.Prelude.Sort.{place, sort, NoneBelow, IsSorted}
use mathlib.Core.Path.{◌≡◌, refl, ap}
use mathlib.Core.Logic.{inl, inr, ◌⊎◌}
use mathlib.Core.List.{List, [], ◌∷◌}
use mathlib.Core.Bool.{Bool, false}
use Prim.Native.Nat.{ℕ, zero, suc}

module _ {ℓ} {A : Type ℓ} where
  pub mem_of_take : (x : A) (n : ℕ) (xs : List A) → Memᴰ x (take n xs) → Memᴰ x xs
  mem_of_take x zero xs m = elim m [ ]
  mem_of_take x (suc n) [] m = m
  mem_of_take x (suc n) (y ∷ xs) (head e) = head e
  mem_of_take x (suc n) (y ∷ xs) (tail m) = tail (mem_of_take x n xs m)

module _ {ℓ} {A : Type ℓ} (below : A → A → Bool) where
  mem-place : (a x : A) (ys : List A) → Memᴰ a (x ∷ ys) → Memᴰ a (place below x ys)
  unfolding place
  mem-place a x [] m = m
  mem-place a x (y ∷ ys) m = elim (Bool-cases (below y x)) [
    | inl e ↦ rw e (later (mem-place a x ys) m)
    | inr e ↦ rw e m
  ]
    where
      later :
          (Memᴰ a (x ∷ ys) → Memᴰ a (place below x ys))
          → Memᴰ a (x ∷ y ∷ ys)
          → Memᴰ a (y ∷ place below x ys)
      later ih (head e) = tail (ih (head e))
      later ih (tail (head e)) = head e
      later ih (tail (tail m')) = tail (ih (tail m'))

  mem_of_place : (a x : A) (ys : List A) → Memᴰ a (place below x ys) → Memᴰ a (x ∷ ys)
  unfolding place
  mem_of_place a x [] m = m
  mem_of_place a x (y ∷ ys) m = elim (Bool-cases (below y x)) [
    | inl e ↦ later (mem_of_place a x ys) (rw e at m)
    | inr e ↦ rw e at m
  ]
    where
      swapped : Memᴰ a (x ∷ ys) → Memᴰ a (x ∷ y ∷ ys)
      swapped (head e) = head e
      swapped (tail m') = tail (tail m')

      later :
          (Memᴰ a (place below x ys) → Memᴰ a (x ∷ ys))
          → Memᴰ a (y ∷ place below x ys)
          → Memᴰ a (x ∷ y ∷ ys)
      later ih (head e) = tail (head e)
      later ih (tail m') = swapped (ih m')

  pub mem-sort : (a : A) (xs : List A) → Memᴰ a xs → Memᴰ a (sort below xs)
  unfolding sort
  mem-sort a [] m = m
  mem-sort a (x ∷ xs) (head e) = mem-place a x (sort below xs) (head e)
  mem-sort a (x ∷ xs) (tail m) = mem-place a x (sort below xs) (tail (mem-sort a xs m))

  pub mem_of_sort : (a : A) (xs : List A) → Memᴰ a (sort below xs) → Memᴰ a xs
  unfolding sort
  mem_of_sort a [] m = m
  mem_of_sort a (x ∷ xs) m = elim (Memᴰ.cases_cons (mem_of_place a x (sort below xs) m)) [
    | inl e ↦ head e
    | inr m' ↦ tail (mem_of_sort a xs m')
  ]

  not_below : (a y : A) (xs : List A) → NoneBelow below y xs → Memᴰ a xs → below a y ≡ false
  not_below a y [] n m = elim m [ ]
  not_below a y (x ∷ xs) n (head e) = rw e n.0
  not_below a y (x ∷ xs) n (tail m) = not_below a y xs n.1 m

  NoneBelow-take :
      (x : A) (n : ℕ) (xs : List A) → NoneBelow below x xs → NoneBelow below x (take n xs)
  NoneBelow-take x zero xs h = tt
  NoneBelow-take x (suc n) [] h = tt
  NoneBelow-take x (suc n) (y ∷ xs) h = (h.0, NoneBelow-take x n xs h.1)

  pub take-IsSorted : (n : ℕ) (xs : List A) → IsSorted below xs → IsSorted below (take n xs)
  take-IsSorted zero xs s = tt
  take-IsSorted (suc n) [] s = tt
  take-IsSorted (suc n) (x ∷ xs) s = (NoneBelow-take x n xs s.0, take-IsSorted n xs s.1)

  -- An element that is left out comes after all that are taken, and they are as many as asked for.
  abbrev pub LeftOut : A → ℕ → List A → Type ℓ
  LeftOut a n xs = (length (take n xs) ≡ n) × ((y : A) → Memᴰ y (take n xs) → below a y ≡ false)

  pub taken_or_left :
      (a : A) (n : ℕ) (xs : List A)
      → IsSorted below xs
      → Memᴰ a xs
      → Memᴰ a (take n xs) ⊎ LeftOut a n xs
  taken_or_left a zero xs s m = inr (refl, λ y h. elim h [ ])
  taken_or_left a (suc n) [] s m = elim m [ ]
  taken_or_left a (suc n) (x ∷ xs) s (head e) = inl (head e)
  taken_or_left a (suc n) (x ∷ xs) s (tail m) = elim (taken_or_left a n xs s.1 m) [
    | inl t ↦ inl (tail t)
    | inr l ↦ inr (ap suc l.0, after l.1)
  ]
    where
      after :
          ((y : A) → Memᴰ y (take n xs) → below a y ≡ false)
          → (y : A) → Memᴰ y (x ∷ take n xs)
          → below a y ≡ false
      after f y (head e) = rw e (not_below a x xs s.0 m)
      after f y (tail t) = f y t
