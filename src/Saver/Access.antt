-- ===== src/Saver/Access.antt =====
-- python/swarmstate/integrations/langgraph.py: the saver's helpers over a store that has the batch
-- methods and takes prefixes, as the bundled ones do.
use swarmstate.Prelude.{
  arith, contains, pair_eq, ◌&&◌, none, if◌then◌else◌, ◌≡◌, refl, or_else, Bool, false, Option,
  some, List, [], ◌∷◌, ◌++◌, map, filter, ◌==◌,
}
use swarmstate.Store.{StoreLike, IsStore, written}
use swarmstate.Text.{Text, text_eq}
use swarmstate.Saver.{Stored}
use swarmstate.Saver.Names.{sep, split}

-- `parts[1:2] == [thread_id]`
unfoldable pub second_is : Text → List Text → Bool
second_is thread_id [] = false
second_is thread_id (p ∷ []) = false
second_is thread_id (p ∷ q ∷ parts) = q == thread_id

-- f"{kind}{_SEP}{thread_id}{_SEP}"
abbrev pub thread_prefix : Text → Text → Text
thread_prefix kind thread_id = kind ++ (sep ∷ thread_id ++ (sep ∷ []))

pub contains_pairs :
    (ns n k : Text) (ks : List Text)
    → contains (n, k) (map {B = Text × Text} (λ j. (ns, j)) ks) ≡ (ns == n && contains k ks)
unfolding contains
contains_pairs ns n k [] = ground arith
contains_pairs ns n k (j ∷ ks) = ground (arith, contains_pairs ns n k ks)

module _ (S : StoreLike Stored) where
  -- `_get_many`
  unfoldable pub get_many : S.State → Text → List Text → List (Option Stored)
  get_many s ns keys = S.get_many s (map (λ k. (ns, k)) keys)

  -- `_set_many`
  unfoldable pub set_many : S.State → List (Text × Text × Option Stored) → S.State
  set_many s [] = s
  set_many s (item ∷ items) = S.set_many s (item ∷ items)

  -- `_delete_many`
  unfoldable pub delete_many : S.State → List (Text × Text) → S.State
  delete_many s [] = s
  delete_many s (pair ∷ pairs) = (S.delete_many s (pair ∷ pairs)).0

  -- `_delete_namespace`
  unfoldable pub delete_namespace : S.State → Text → S.State
  delete_namespace s ns = (S.delete_namespace s ns).0

  -- `_thread_namespaces`
  unfoldable pub thread_namespaces : S.State → Text → Text → List Text
  thread_namespaces s kind thread_id =
      filter (λ ns. second_is thread_id (split ns))
        (S.namespaces s (some (thread_prefix kind thread_id)))

  pub find-set_many :
      (laws : IsStore S) (s : S.State) (items : List (Text × Text × Option Stored)) (n k : Text)
      → laws.find (set_many s items) n k ≡ or_else (written items n k) (laws.find s n k)
  unfolding set_many written
  find-set_many laws s [] n k = refl
  find-set_many laws s (i ∷ items) n k = laws.find-set_many s (i ∷ items) n k

  pub find-delete_many :
      (laws : IsStore S) (s : S.State) (pairs : List (Text × Text)) (n k : Text)
      → laws.find (delete_many s pairs) n k
        ≡ (if contains (n, k) pairs then none else laws.find s n k)
  unfolding delete_many contains
  find-delete_many laws s [] n k = refl
  find-delete_many laws s (p ∷ pairs) n k = laws.find-delete_many s (p ∷ pairs) n k
