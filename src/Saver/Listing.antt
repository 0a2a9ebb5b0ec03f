-- ===== src/Saver/Listing.antt =====
-- python/swarmstate/integrations/langgraph.py: `list`. A generator is what it yields when it is
-- consumed at once, and how it ends.
pub mod Limit
use swarmstate.Prelude.{
  ℕ, suc, Bool, true, false, not, ◌&&◌, Option, none, some, List, [], ◌∷◌, ◌++◌, map, leb, is_nil,
  if◌then◌else◌, ◌==◌,
}
use swarmstate.Prelude.Dict.{Dict, find}
use swarmstate.Prelude.Result.{Result, ok, raise, type_error, ◌>>=◌}
use swarmstate.Prelude.Sort.{sort}
use swarmstate.Store.{StoreLike}
use swarmstate.Text.{Text, text_eq}
use swarmstate.Text.Order.{le, lt}
use swarmstate.Saver.{
  Config, truthy, Metadata, Langgraph, Stored, saved, CheckpointTuple, Options, loads_metadata,
}
use swarmstate.Saver.Names.{sep, ck, split}
use swarmstate.Saver.Access.{thread_prefix}
use swarmstate.Saver.Tuple.{build_tuple}

-- `(thread_id, checkpoint_ns, ns)`
abbrev pub Target : Type 0
Target = Text × Text × Text

module _ {V : Type 0} (L : Langgraph V) (S : StoreLike Stored) (o : Options) where
  -- the parts of a namespace of checkpoints, where there are three
  abbrev pub any_target : Text → List Text → List Target
  any_target ns (kind ∷ thread_id ∷ checkpoint_ns ∷ []) = (thread_id, checkpoint_ns, ns) ∷ []
  any_target ns _ = []

  abbrev wants_ns : Option Text → Text → Bool
  wants_ns none n = true
  wants_ns (some want_ns) n = n == want_ns

  abbrev pub target_of : Text → Option Text → Text → List Text → List Target
  target_of thread want_ns ns (kind ∷ thread_id ∷ checkpoint_ns ∷ []) =
      if thread_id == thread && wants_ns want_ns checkpoint_ns
      then (thread_id, checkpoint_ns, ns) ∷ []
      else []
  target_of thread want_ns ns _ = []

  unfoldable pub gather : (Text → List Target) → List Text → List Target
  gather targets [] = []
  gather targets (ns ∷ nss) = targets ns ++ gather targets nss

  -- `_list_targets`
  unfoldable pub list_targets : S.State → Option Config → List Target
  list_targets s none =
      gather (λ ns. any_target ns (split ns)) (S.namespaces s (some (ck ++ (sep ∷ []))))
  list_targets s (some c) =
      gather (λ ns. target_of c.thread_id c.checkpoint_ns ns (split ns))
        (S.namespaces s (some (thread_prefix ck c.thread_id)))

  -- `all(metadata.get(k) == v for k, v in filter.items())`
  unfoldable pub matches : Metadata V → Metadata V → Bool
  matches m [] = true
  matches m ((k, v) ∷ filter) = L.equals (find k m) v && matches m filter

  abbrev pub matching : Option (Metadata V) → Metadata V → Option (Metadata V)
  matching none m = some m
  matching (some filter) m = if not (is_nil filter) && not (matches m filter) then none else some m

  -- `_metadata_if_matching`
  unfoldable pub metadata_if_matching :
      Option Stored → Option (Metadata V) → Result (Option (Metadata V))
  metadata_if_matching none filter = ok none
  metadata_if_matching (some (saved cp md parent)) filter = do
    m ← loads_metadata L md
    ok (matching filter m)
  metadata_if_matching (some _) filter = raise type_error

  -- What is yielded; and the counter, none where the generator has returned.
  abbrev pub Yielded : Type 0
  Yielded = List (CheckpointTuple V) × Result (Option ℕ)

  -- `if before_id and checkpoint_id >= before_id`
  abbrev pub skips : Option Text → Text → Bool
  skips none id = false
  skips (some before_id) id = le before_id id

  -- `limit is not None and n >= limit`
  abbrev pub reached : Option ℕ → ℕ → Bool
  reached none n = false
  reached (some limit) n = leb limit n

  -- `saved`, as the tuple is built
  abbrev pub entry_of : Option Stored → Result Stored
  entry_of none = raise type_error
  entry_of (some entry) = ok entry

  -- `yield`, then the rest
  abbrev pub yielding : Option ℕ → (ℕ → Yielded) → ℕ → Result (CheckpointTuple V) → Yielded
  yielding limit rest n (raise e) = ([], raise e)
  yielding limit rest n (ok t) =
      if reached limit (suc n)
      then (t ∷ [], ok none)
      else (let more = rest (suc n) in (t ∷ more.0, more.1))

  abbrev pub checked :
      S.State
      → Target
      → Text
      → Option ℕ
      → (ℕ → Yielded)
      → ℕ
      → Option Stored
      → Result (Option (Metadata V))
      → Yielded
  checked s target id limit rest n entry (raise e) = ([], raise e)
  checked s target id limit rest n entry (ok none) = rest n
  checked s target id limit rest n entry (ok (some m)) =
      yielding limit rest n
        (entry_of entry >>= λ row. build_tuple L S o s target.0 target.1 id row (some m))

  -- the inner loop
  unfoldable pub list_ids :
      S.State → Target → Option (Metadata V) → Option Text → Option ℕ → List Text → ℕ → Yielded
  list_ids s target filter before_id limit [] n = ([], ok (some n))
  list_ids s target filter before_id limit (id ∷ ids) n =
      let rest = list_ids s target filter before_id limit ids in
      let entry = S.get s target.2 id none in
      if skips before_id id
      then rest n
      else checked s target id limit rest n entry (metadata_if_matching entry filter)

  -- `[want_id] if want_id else sorted(self.store.keys(ns), reverse=True)`
  abbrev pub ids_of : S.State → Option Text → Text → List Text
  ids_of s (some want_id) ns = want_id ∷ []
  ids_of s none ns = sort (λ a b. lt b a) (S.keys s ns none)

  abbrev pub afterwards : Yielded → (ℕ → Yielded) → Yielded
  afterwards (ts, raise e) rest = (ts, raise e)
  afterwards (ts, ok none) rest = (ts, ok none)
  afterwards (ts, ok (some n)) rest = (let more = rest n in (ts ++ more.0, more.1))

  -- the outer loop
  unfoldable pub list_all :
      S.State
      → Option Text
      → Option (Metadata V)
      → Option Text
      → Option ℕ
      → List Target
      → ℕ
      → Yielded
  list_all s want_id filter before_id limit [] n = ([], ok (some n))
  list_all s want_id filter before_id limit (target ∷ targets) n =
      afterwards (list_ids s target filter before_id limit (ids_of s want_id target.2) n)
        (list_all s want_id filter before_id limit targets)

  abbrev pub id_of : Option Config → Option Text
  id_of none = none
  id_of (some c) = truthy (L.get_checkpoint_id c)

  -- `list`
  unfoldable pub list :
      S.State → Option Config → Option (Metadata V) → Option Config → Option ℕ → Yielded
  list s config filter before limit =
      list_all s (id_of config) filter (id_of before) limit (list_targets s config) 0
