-- ===== src/Prelude/Distinct.antt =====
-- Lists without repetitions that have the same elements are of one length.
use swarmstate.Prelude.Tests.{if◌then◌else◌}
use swarmstate.Prelude.Lists.{length}
use swarmstate.Prelude.Eq.{Eq, ◌==◌, contains, IsDistinct}
use mathlib.Core.Path.{◌≡◌}
use mathlib.Core.List.{List, [], ◌∷◌}
use mathlib.Core.Bool.{true, false}
use Prim.Native.Nat.{suc, ◌≤◌}
use native.Mathlib.Omega.{arith}

module _ {ℓ} {A : Type ℓ} ⦃e : Eq A⦄ where
  -- The list without the first `a` in it.
  unfoldable erase : A → List A → List A
  erase a [] = []
  erase a (x ∷ xs) = if x == a then xs else x ∷ erase a xs

  length-erase :
      (a : A) (xs : List A) → contains a xs ≡ true → suc (length (erase a xs)) ≡ length xs
  unfolding erase contains
  length-erase a [] h = absurd (ground arith)
  length-erase a (x ∷ xs) h = ground (arith, length-erase a xs)

  contains-erase :
      (a b : A) (xs : List A)
      → contains b xs ≡ true
      → (a == b) ≡ false
      → contains b (erase a xs) ≡ true
  unfolding erase contains
  contains-erase a b [] h n = h
  contains-erase a b (x ∷ xs) h n =
      ground (arith, contains-erase a b xs, e.beq_iff x a, e.beq_iff x b, e.beq_iff a b)

  length-le :
      (xs ys : List A)
      → IsDistinct xs
      → ((a : A) → contains a xs ≡ true → contains a ys ≡ true)
      → length xs ≤ length ys
  unfolding contains
  length-le [] ys d h = omega arith
  length-le (x ∷ xs) ys d h =
      let here : contains x ys ≡ true = h x (ground (arith, e.beq_iff x x)) in
      let rest = length-le xs (erase x ys) d.1 (λ a m.
        contains-erase x a ys (h a (ground (arith, m))) (ground (arith, m, d.0, e.beq_iff x a))) in
      omega (arith, rest, length-erase x ys here)

  pub length-IsDistinct :
      (xs ys : List A)
      → IsDistinct xs
      → IsDistinct ys
      → ((a : A) → contains a xs ≡ contains a ys)
      → length xs ≡ length ys
  length-IsDistinct xs ys d d' h = omega (
    arith,
    length-le xs ys d (λ a m. ground (arith, m, h a)),
    length-le ys xs d' (λ a m. ground (arith, m, h a)),
  )
