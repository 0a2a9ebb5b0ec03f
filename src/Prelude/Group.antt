-- ===== src/Prelude/Group.antt =====
-- `for ns, key in pairs: by_ns.setdefault(ns, []).append(key)`
use mathlib.Core.Path.{◌≡◌, refl}
use mathlib.Core.List.{List, [], ◌∷◌, ◌++◌}
use mathlib.Core.Bool.{Bool, false, ◌&&◌, ◌||◌}
use native.Mathlib.Omega.{arith}
use swarmstate.Prelude.Tests.{if◌then◌else◌}
use swarmstate.Prelude.Eq.{Eq, ◌==◌, contains, contains-append, pair_eq}
use swarmstate.Prelude.Dict.{Dict}

module _ {ℓ} {K V : Type ℓ} ⦃e : Eq K⦄ where
  -- `d.setdefault(k, []).append(v)`
  unfoldable pub append_at : K → V → Dict K (List V) → Dict K (List V)
  append_at k v [] = (k, v ∷ []) ∷ []
  append_at k v ((j, vs) ∷ d) = if j == k then (j, vs ++ v ∷ []) ∷ d else (j, vs) ∷ append_at k v d

  unfoldable pub group : Dict K (List V) → List (K × V) → Dict K (List V)
  group d [] = d
  group d ((k, v) ∷ pairs) = group (append_at k v d) pairs

module _ {ℓ} {K V : Type ℓ} ⦃e : Eq K⦄ ⦃f : Eq V⦄ where
  -- Whether the groups hold a pair.
  unfoldable pub covers : Dict K (List V) → K → V → Bool
  covers [] k v = false
  covers ((j, vs) ∷ d) k v = j == k && contains v vs || covers d k v

  covers-append_at :
      (k : K) (v : V) (d : Dict K (List V)) (k' : K) (v' : V)
      → covers (append_at k v d) k' v' ≡ (k == k' && v == v' || covers d k' v')
  unfolding covers append_at contains
  covers-append_at k v [] k' v' = ground arith
  covers-append_at k v ((j, vs) ∷ d) k' v' = ground (
    arith,
    covers-append_at k v d k' v',
    contains-append v' vs (v ∷ []),
    e.beq_iff j k,
    e.beq_iff j k',
    e.beq_iff k k',
  )

  pub covers-group :
      (d : Dict K (List V)) (pairs : List (K × V)) (k : K) (v : V)
      → covers (group d pairs) k v ≡ (contains (k, v) pairs || covers d k v)
  unfolding group contains
  covers-group d [] k v = refl
  covers-group d ((j, w) ∷ pairs) k v =
      ground (arith, covers-group (append_at j w d) pairs k v, covers-append_at j w d k v)
