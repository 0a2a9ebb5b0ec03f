-- ===== src/Prelude/Chunks.antt =====
-- `for start in range(0, len(xs), size): xs[start : start + size]`
use mathlib.Core.Path.{◌≡◌, refl, sym, ap, ◌∙◌}
use mathlib.Core.List.{List, [], ◌∷◌, ◌++◌, append_assoc}
use mathlib.Core.Bool.{Bool, false, ◌||◌}
use Prim.Native.Nat.{ℕ, zero, suc, ◌≤◌, ◌<◌}
use native.Mathlib.Omega.{arith}
use swarmstate.Prelude.Lists.{length, take, drop, take-append-drop, length-take-le, length-drop}
use swarmstate.Prelude.Eq.{Eq, contains, contains-append}

-- Each round takes at least one element, so the length of the list is enough fuel.
unfoldable pub chunks {ℓ} : {A : Type ℓ} → ℕ → ℕ → List A → List (List A)
chunks zero size xs = []
chunks (suc fuel) size [] = []
chunks (suc fuel) size (x ∷ xs) = take size (x ∷ xs) ∷ chunks fuel size (drop size (x ∷ xs))

module _ {ℓ} {A : Type ℓ} where
  unfoldable pub concat : List (List A) → List A
  concat [] = []
  concat (c ∷ cs) = c ++ concat cs

  -- The chunks are the list, in order.
  pub concat-chunks :
      (fuel size : ℕ) (xs : List A)
      → length xs ≤ fuel
      → 0 < size
      → concat (chunks fuel size xs) ≡ xs
  unfolding concat chunks
  concat-chunks zero size [] h p = refl
  concat-chunks zero size (x ∷ xs) h p = absurd (omega arith)
  concat-chunks (suc fuel) size [] h p = refl
  concat-chunks (suc fuel) size (x ∷ xs) h p =
      ap (◌++◌ (take size (x ∷ xs)))
        (concat-chunks fuel size (drop size (x ∷ xs)) (omega (arith, length-drop size (x ∷ xs))) p)
      ∙ take-append-drop size (x ∷ xs)

  pub concat-append : (xs ys : List (List A)) → concat (xs ++ ys) ≡ concat xs ++ concat ys
  unfolding concat
  concat-append [] ys = refl
  concat-append (x ∷ xs) ys =
      ap (◌++◌ x) (concat-append xs ys) ∙ sym (append_assoc x (concat xs) (concat ys))

  abbrev pub AllShort : ℕ → List (List A) → Type 0
  AllShort size [] = Unit
  AllShort size (c ∷ cs) = (length c ≤ size) × AllShort size cs

  pub chunks-AllShort : (fuel size : ℕ) (xs : List A) → AllShort size (chunks fuel size xs)
  unfolding chunks
  chunks-AllShort zero size xs = tt
  chunks-AllShort (suc fuel) size [] = tt
  chunks-AllShort (suc fuel) size (x ∷ xs) =
      (length-take-le size (x ∷ xs), chunks-AllShort fuel size (drop size (x ∷ xs)))

module _ {ℓ} {A : Type ℓ} ⦃e : Eq A⦄ where
  unfoldable pub in_chunks : A → List (List A) → Bool
  in_chunks a [] = false
  in_chunks a (c ∷ cs) = contains a c || in_chunks a cs

  contains-concat : (a : A) (cs : List (List A)) → contains a (concat cs) ≡ in_chunks a cs
  unfolding concat in_chunks contains
  contains-concat a [] = refl
  contains-concat a (c ∷ cs) = ground (arith, contains-append a c (concat cs), contains-concat a cs)

  pub in_chunks-chunks :
      (a : A) (fuel size : ℕ) (xs : List A)
      → length xs ≤ fuel
      → 0 < size
      → in_chunks a (chunks fuel size xs) ≡ contains a xs
  in_chunks-chunks a fuel size xs h p =
      sym (contains-concat a (chunks fuel size xs))
      ∙ ap (contains a) (concat-chunks fuel size xs h p)
