-- ===== src/Saver/Async/Listing.antt =====
-- python/swarmstate/integrations/langgraph.py: `alist`. An async generator is what it yields when it
-- is consumed at once, and how it ends.
use mathlib.Core.Path.{fun_ext}
use swarmstate.Prelude.{
  ℕ, ◌≡◌, refl, Bool, true, false, Option, none, some, List, [], ◌∷◌, if◌then◌else◌, Bool-cases,
  inl, inr,
}
use swarmstate.Prelude.Result.{Result, ok, raise, ◌>>=◌}
use swarmstate.Store.{StoreLike, IsStore}
use swarmstate.Text.{Text}
use swarmstate.Saver.{Config, Metadata, Langgraph, Stored, Options}
use swarmstate.Saver.Listing.{
  Target, Yielded, skips, yielding, entry_of, checked, metadata_if_matching, ids_of, afterwards,
  id_of, list_targets, list_ids, list_all, list,
}
use swarmstate.Saver.Async.{abuild_tuple}
use swarmstate.Saver.Async.Twins.{Fits, abuild_tuple-eq-build_tuple}

module _ {V : Type 0} (L : Langgraph V) (S : StoreLike Stored) (o : Options) where
  abbrev pub achecked :
      S.State
      → Target
      → Text
      → Option ℕ
      → (ℕ → Yielded L S o)
      → ℕ
      → Option Stored
      → Result (Option (Metadata V))
      → Yielded L S o
  achecked s target id limit rest n entry (raise e) = ([], raise e)
  achecked s target id limit rest n entry (ok none) = rest n
  achecked s target id limit rest n entry (ok (some m)) =
      yielding L S o limit rest n
        (entry_of L S o entry >>= λ row. abuild_tuple L S o s target.0 target.1 id row (some m))

  -- the inner loop
  unfoldable pub alist_ids :
      S.State
      → Target
      → Option (Metadata V)
      → Option Text
      → Option ℕ
      → List Text
      → ℕ
      → Yielded L S o
  alist_ids s target filter before_id limit [] n = ([], ok (some n))
  alist_ids s target filter before_id limit (id ∷ ids) n =
      let rest = alist_ids s target filter before_id limit ids in
      let entry = S.get s target.2 id none in
      if skips L S o before_id id
      then rest n
      else achecked s target id limit rest n entry (metadata_if_matching L S o entry filter)

  -- the outer loop
  unfoldable pub alist_all :
      S.State
      → Option Text
      → Option (Metadata V)
      → Option Text
      → Option ℕ
      → List Target
      → ℕ
      → Yielded L S o
  alist_all s want_id filter before_id limit [] n = ([], ok (some n))
  alist_all s want_id filter before_id limit (target ∷ targets) n =
      afterwards L S o
        (alist_ids s target filter before_id limit (ids_of L S o s want_id target.2) n)
        (alist_all s want_id filter before_id limit targets)

  -- a list that is read in another thread: what it raises comes before its first element
  abbrev pub collected : Yielded L S o → Yielded L S o
  collected (ts, raise e) = ([], raise e)
  collected (ts, ok n) = (ts, ok n)

  -- `alist`: `native` tells whether the store is async
  unfoldable pub alist :
      Bool
      → S.State
      → Option Config
      → Option (Metadata V)
      → Option Config
      → Option ℕ
      → Yielded L S o
  alist native s config filter before limit =
      if native
      then alist_all s (id_of L S o config) filter (id_of L S o before) limit
          (list_targets L S o s config) 0
      else collected (list L S o s config filter before limit)

  module _ (laws : IsStore S) (s : S.State)
      (fits : (t n ns id : Text) (entry : Stored)
        → S.get s ns id none ≡ some entry
        → Fits L S o s (t, n, id, entry)) where
    achecked_lem :
        (target : Target) (id : Text) (limit : Option ℕ) (rest rest' : ℕ → Yielded L S o) (n : ℕ)
        (entry : Option Stored) (m : Result (Option (Metadata V)))
        → S.get s target.2 id none ≡ entry
        → ((k : ℕ) → rest k ≡ rest' k)
        → achecked s target id limit rest n entry m
          ≡ checked L S o s target id limit rest' n entry m
    achecked_lem target id limit rest rest' n entry (raise e) h same = refl
    achecked_lem target id limit rest rest' n entry (ok none) h same = same n
    achecked_lem target id limit rest rest' n none (ok (some m)) h same = refl
    achecked_lem target id limit rest rest' n (some row) (ok (some m)) h same =
        rw
          (
            abuild_tuple-eq-build_tuple L S o laws s target.0 target.1 id row (some m)
                (fits target.0 target.1 target.2 id row h),
            fun_ext {A = ℕ} same,
          )
          refl

    alist_ids_lem :
        (target : Target) (filter : Option (Metadata V)) (before_id : Option Text)
        (limit : Option ℕ) (ids : List Text) (n : ℕ)
        → alist_ids s target filter before_id limit ids n
          ≡ list_ids L S o s target filter before_id limit ids n
    unfolding alist_ids list_ids
    alist_ids_lem target filter before_id limit [] n = refl
    alist_ids_lem target filter before_id limit (id ∷ ids) n =
        elim (Bool-cases (skips L S o before_id id)) [
          | inl e ↦ rw e (alist_ids_lem target filter before_id limit ids n)
          | inr e ↦ rw e (
              achecked_lem target id limit (alist_ids s target filter before_id limit ids)
                (list_ids L S o s target filter before_id limit ids) n (S.get s target.2 id none)
                (metadata_if_matching L S o (S.get s target.2 id none) filter) refl
                (λ k. alist_ids_lem target filter before_id limit ids k))
        ]

    alist_all_lem :
        (want_id : Option Text) (filter : Option (Metadata V)) (before_id : Option Text)
        (limit : Option ℕ) (targets : List Target) (n : ℕ)
        → alist_all s want_id filter before_id limit targets n
          ≡ list_all L S o s want_id filter before_id limit targets n
    unfolding alist_all list_all
    alist_all_lem want_id filter before_id limit [] n = refl
    alist_all_lem want_id filter before_id limit (target ∷ targets) n =
        rw
          (
            alist_ids_lem target filter before_id limit (ids_of L S o s want_id target.2) n,
            fun_ext {A = ℕ} λ k. alist_all_lem want_id filter before_id limit targets k,
          )
          refl

    -- Over a store that is async itself, `alist` yields what `list` yields and ends as it ends,
    -- where each stored checkpoint, if it was stored without values by an incremental saver, has a
    -- version, and where its pending write, if there is one only, has a key that can be sorted.
    -- Over another store it does so too, but that an exception of `list` comes before the first
    -- checkpoint is yielded.
    pub alist-eq-list :
        (config : Option Config) (filter : Option (Metadata V)) (before : Option Config)
        (limit : Option ℕ)
        → (alist true s config filter before limit ≡ list L S o s config filter before limit)
          × (alist false s config filter before limit
              ≡ collected (list L S o s config filter before limit))
    unfolding alist list
    alist-eq-list config filter before limit = (
      alist_all_lem (id_of L S o config) filter (id_of L S o before) limit
          (list_targets L S o s config) 0,
      refl,
    )
