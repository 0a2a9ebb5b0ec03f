-- ===== src/Prelude/Dict.antt =====
-- Python's `dict`: an association list in insertion order.
use mathlib.Core.Path.{◌≡◌, refl}
use mathlib.Core.Logic.{inl, inr}
use mathlib.Core.List.{List, [], ◌∷◌}
use mathlib.Core.Option.{Option, none, some}
use mathlib.Core.Bool.{Bool, false, ◌||◌}
use native.Mathlib.Omega.{arith}
use swarmstate.Prelude.Tests.{if◌then◌else◌, is_some, or_else, Bool-cases}
use swarmstate.Prelude.Lists.{filter}
use swarmstate.Prelude.Eq.{Eq, ◌==◌, contains, IsDistinct}

abbrev pub Dict {ℓ κ} : Type ℓ → Type κ → Type (ℓ ⊔ κ)
Dict K V = List (K × V)

module _ {ℓ κ} {K : Type ℓ} {V : Type κ} where
  abbrev pub keys : Dict K V → List K
  keys [] = []
  keys ((k, v) ∷ d) = k ∷ keys d

  -- A test on the item of a key, where there is one.
  abbrev pub test_at : (K × V → Bool) → K → Option V → Bool
  test_at t k none = false
  test_at t k (some v) = t (k, v)

module _ {ℓ κ} {K : Type ℓ} {V : Type κ} ⦃e : Eq K⦄ where
  -- `d.get(k)`, with `none` for a missing key
  unfoldable pub find : K → Dict K V → Option V
  find k [] = none
  find k ((j, v) ∷ d) = if j == k then some v else find k d

  -- `d[k] = v`: a key that is there keeps its place
  unfoldable pub insert : K → V → Dict K V → Dict K V
  insert k v [] = (k, v) ∷ []
  insert k v ((j, w) ∷ d) = if j == k then (k, v) ∷ d else (j, w) ∷ insert k v d

  -- `d.pop(k, None)`
  unfoldable pub remove : K → Dict K V → Dict K V
  remove k [] = []
  remove k ((j, v) ∷ d) = let rest = remove k d in if j == k then rest else (j, v) ∷ rest

  -- `{k: v for k, v in items}`
  unfoldable pub insert_all : Dict K V → Dict K V → Dict K V
  insert_all d [] = d
  insert_all d ((k, v) ∷ items) = insert_all (insert k v d) items

  pub find-insert :
      (k j : K) (v : V) (d : Dict K V)
      → find j (insert k v d) ≡ (if k == j then some v else find j d)
  unfolding find insert
  find-insert k j v [] = refl
  find-insert k j v ((i, w) ∷ d) =
      ground (arith, find-insert k j v d, e.beq_iff i k, e.beq_iff i j, e.beq_iff k j)

  pub find-remove :
      (k j : K) (d : Dict K V) → find j (remove k d) ≡ (if k == j then none else find j d)
  unfolding find remove
  find-remove k j [] = ground arith
  find-remove k j ((i, w) ∷ d) =
      ground (arith, find-remove k j d, e.beq_iff i k, e.beq_iff i j, e.beq_iff k j)

  pub contains-keys : (k : K) (d : Dict K V) → contains k (keys d) ≡ is_some (find k d)
  unfolding find contains
  contains-keys k [] = refl
  contains-keys k ((j, v) ∷ d) = ground (arith, contains-keys k d)

module _ {ℓ κ} {K : Type ℓ} {V : Type κ} ⦃e : Eq K⦄ where
  contains-keys-insert :
      (k j : K) (v : V) (d : Dict K V)
      → contains j (keys (insert k v d)) ≡ (k == j || contains j (keys d))
  contains-keys-insert k j v d =
      ground (arith, contains-keys j (insert k v d), contains-keys j d, find-insert k j v d)

  pub insert-IsDistinct :
      (k : K) (v : V) (d : Dict K V) → IsDistinct (keys d) → IsDistinct (keys (insert k v d))
  unfolding insert contains
  insert-IsDistinct k v [] h = (refl, tt)
  insert-IsDistinct k v ((j, w) ∷ d) h = elim (Bool-cases (j == k)) [
    | inl p ↦ rw p (rw ((e.beq_iff j k).0 p) at h)
    | inr p ↦ rw p (
      ground (arith, contains-keys-insert k j v d, e.beq_iff j k, e.beq_iff k j),
      insert-IsDistinct k v d h.1,
    )
  ]

  pub insert_all-IsDistinct :
      (d items : Dict K V) → IsDistinct (keys d) → IsDistinct (keys (insert_all d items))
  unfolding insert_all
  insert_all-IsDistinct d [] h = h
  insert_all-IsDistinct d ((k, v) ∷ items) h =
      insert_all-IsDistinct (insert k v d) items (insert-IsDistinct k v d h)

  -- Items with distinct keys all land in the dictionary.
  pub find-insert_all :
      (k : K) (d items : Dict K V)
      → IsDistinct (keys items)
      → find k (insert_all d items) ≡ or_else (find k items) (find k d)
  unfolding insert_all find
  find-insert_all k d [] h = refl
  find-insert_all k d ((j, v) ∷ items) h = ground (
    arith,
    find-insert_all k (insert j v d) items h.1,
    find-insert j k v d,
    contains-keys k items,
    contains-keys j items,
    e.beq_iff j k,
  )

  pub contains-keys-filter :
      (t : K × V → Bool) (k : K) (d : Dict K V)
      → IsDistinct (keys d)
      → contains k (keys (filter t d)) ≡ test_at t k (find k d)
  unfolding contains find
  contains-keys-filter t k [] h = refl
  contains-keys-filter t k ((j, v) ∷ d) h =
      ground (arith, contains-keys-filter t k d h.1, contains-keys j d, e.beq_iff j k)
