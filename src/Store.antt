-- ===== src/Store.antt =====
-- python/swarmstate/protocols.py: `StoreLike`, the interface that every backend has, and what a
-- store promises of it. A value is an `Option A`, whose `none` is Python's `None`.
pub mod Attempt
pub mod Packed
use swarmstate.Prelude.{
  ℕ, ◌+◌, ◌≡◌, Bool, true, not, ◌&&◌, Option, none, some, List, [], ◌∷◌, ◌++◌, arith, map, length,
  contains, ◌==◌, is_some, is_nil, get_or, or_else, if◌then◌else◌, pair_eq, IsDistinct,
}
use swarmstate.Text.{Text, text_eq, starts_with}
use swarmstate.Text.Order.{max}
use swarmstate.Prefix.{is_text}

pub record StoreLike (A : Type 0) : Type 1 where
  pub State : Type 0
  pub set : State → Text → Text → Option A → State
  pub get : State → Text → Text → Option A → Option A
  pub set_many : State → List (Text × Text × Option A) → State
  pub get_many : State → List (Text × Text) → List (Option A)
  pub has : State → Text → Text → Bool
  pub delete : State → Text → Text → State × Bool
  pub delete_many : State → List (Text × Text) → State × ℕ
  pub delete_namespace : State → Text → State × ℕ
  pub keys : State → Text → Option Text → List Text
  pub max_key : State → Text → Option Text
  pub namespaces : State → Option Text → List Text
  pub clear : State → State

module _ {ℓ} {A : Type ℓ} where
  -- The last value that a batch writes to a pair.
  unfoldable pub written : List (Text × Text × A) → Text → Text → Option A
  written [] n k = none
  written ((m, j, v) ∷ items) n k =
      or_else (written items n k) (if m == n && j == k then some v else none)

  pub written-append :
      (xs ys : List (Text × Text × A)) (n k : Text)
      → written (xs ++ ys) n k ≡ or_else (written ys n k) (written xs n k)
  unfolding written
  written-append [] ys n k = ground arith
  written-append ((m, j, v) ∷ xs) ys n k = ground (arith, written-append xs ys n k)

-- How many entries a batch of deletions removes, one after the other.
unfoldable pub existing : (Text → Text → Bool) → List (Text × Text) → ℕ
existing has [] = 0
existing has ((n, k) ∷ pairs) =
    (if has n k then 1 else 0) + existing (λ n' k'. not (n == n' && k == k') && has n' k') pairs

-- The promises, over the entries that a state holds. Python's `None` can be stored, so an entry
-- with it differs from no entry in `has`, and not in `get`.
pub record IsStore {A : Type 0} (S : StoreLike A) : Type 0 where
  pub find : S.State → Text → Text → Option (Option A)
  pub find-set :
      (s : S.State) (n k : Text) (v : Option A) (n' k' : Text)
      → find (S.set s n k v) n' k' ≡ (if n == n' && k == k' then some v else find s n' k')
  pub get_lem :
      (s : S.State) (n k : Text) (default : Option A)
      → S.get s n k default ≡ get_or (find s n k) default
  pub find-set_many :
      (s : S.State) (items : List (Text × Text × Option A)) (n k : Text)
      → find (S.set_many s items) n k ≡ or_else (written items n k) (find s n k)
  pub get_many_lem :
      (s : S.State) (pairs : List (Text × Text))
      → S.get_many s pairs ≡ map (λ p. get_or (find s p.0 p.1) none) pairs
  pub has_lem : (s : S.State) (n k : Text) → S.has s n k ≡ is_some (find s n k)
  pub find-delete :
      (s : S.State) (n k n' k' : Text)
      → find (S.delete s n k).0 n' k' ≡ (if n == n' && k == k' then none else find s n' k')
  pub delete_result : (s : S.State) (n k : Text) → (S.delete s n k).1 ≡ is_some (find s n k)
  pub find-delete_many :
      (s : S.State) (pairs : List (Text × Text)) (n k : Text)
      → find (S.delete_many s pairs).0 n k ≡ (if contains (n, k) pairs then none else find s n k)
  pub delete_many_result :
      (s : S.State) (pairs : List (Text × Text))
      → (S.delete_many s pairs).1 ≡ existing (λ n k. is_some (find s n k)) pairs
  pub find-delete_namespace :
      (s : S.State) (n n' k : Text)
      → find (S.delete_namespace s n).0 n' k ≡ (if n == n' then none else find s n' k)
  pub delete_namespace_result :
      (s : S.State) (n : Text) → (S.delete_namespace s n).1 ≡ length (S.keys s n none)
  pub contains-keys :
      (s : S.State) (n k : Text) → contains k (S.keys s n none) ≡ is_some (find s n k)
  pub keys-IsDistinct : (s : S.State) (n : Text) → IsDistinct (S.keys s n none)
  pub contains-keys_prefix :
      (s : S.State) (n p k : Text)
      → is_text k ≡ true
      → contains k (S.keys s n (some p)) ≡ (starts_with k p && is_some (find s n k))
  pub max_key_lem : (s : S.State) (n : Text) → S.max_key s n ≡ max (S.keys s n none)
  pub contains-namespaces :
      (s : S.State) (n : Text) → contains n (S.namespaces s none) ≡ not (is_nil (S.keys s n none))
  pub contains-namespaces_prefix :
      (s : S.State) (p n : Text)
      → is_text n ≡ true
      → contains n (S.namespaces s (some p)) ≡ (starts_with n p && not (is_nil (S.keys s n none)))
  pub find-clear : (s : S.State) (n k : Text) → find (S.clear s) n k ≡ none
