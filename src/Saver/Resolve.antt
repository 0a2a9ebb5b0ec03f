-- ===== src/Saver/Resolve.antt =====
-- python/swarmstate/integrations/langgraph.py: `_resolve` and `get_tuple`.
use swarmstate.Prelude.{Option, none, some, if◌then◌else◌}
use swarmstate.Prelude.Result.{Result, ok, raise, type_error, ◌>>=◌}
use swarmstate.Store.{StoreLike}
use swarmstate.Text.{Text}
use swarmstate.Text.Order.{max}
use swarmstate.Saver.{
  Config, ns_of, truthy, Langgraph, Stored, CheckpointTuple, Options, Saver, Method,
}
use swarmstate.Saver.Names.{ckpt_ns, latest_ns, latest_key}
use swarmstate.Saver.Tuple.{build_tuple}

-- The thread, the namespace, the id and the stored record of a checkpoint.
abbrev pub Resolved : Type 0
Resolved = Text × Text × Text × Stored

module _ {V : Type 0} (L : Langgraph V) (S : StoreLike Stored) (o : Options) where
  -- `saved = self.store.get(ns, checkpoint_id)`, and the end of `_resolve`
  abbrev pub resolved : Text → Text → Text → Option Stored → Option Resolved
  resolved thread_id checkpoint_ns checkpoint_id none = none
  resolved thread_id checkpoint_ns checkpoint_id (some entry) =
      some (thread_id, checkpoint_ns, checkpoint_id, entry)

  unfoldable pub read_checkpoint : Text → Text → Text → Method S (Option Resolved)
  read_checkpoint thread_id checkpoint_ns checkpoint_id st = (
    ok (
        resolved thread_id checkpoint_ns checkpoint_id
          (S.get st.store (ckpt_ns thread_id checkpoint_ns) checkpoint_id none)),
    st,
  )

  -- no pointer, or one that dangles: scan the keys and publish the greatest
  unfoldable pub scan : Text → Text → Method S (Option Resolved)
  scan thread_id checkpoint_ns st =
      elim (max (S.keys st.store (ckpt_ns thread_id checkpoint_ns) none)) [
        | none ↦ (ok none, st)
        | some newest ↦ read_checkpoint thread_id checkpoint_ns newest (record st {
          store =
              S.set st.store latest_ns (latest_key thread_id checkpoint_ns)
                (some (Stored.pointer newest));
        })
      ]

  -- the pointer's value, in a condition
  abbrev pub pointed : Option Stored → Result (Option Text)
  pointed none = ok none
  pointed (some (Stored.pointer id)) = ok (truthy (some id))
  pointed (some _) = raise type_error

  abbrev pub found_or_scan : Text → Text → Text → Option Stored → Method S (Option Resolved)
  found_or_scan thread_id checkpoint_ns id none st = scan thread_id checkpoint_ns st
  found_or_scan thread_id checkpoint_ns id (some entry) st =
      (ok (some (thread_id, checkpoint_ns, id, entry)), st)

  -- the latest checkpoint by the pointer in the store
  unfoldable pub follow : Text → Text → Result (Option Text) → Method S (Option Resolved)
  follow thread_id checkpoint_ns (raise e) st = (raise e, st)
  follow thread_id checkpoint_ns (ok none) st = scan thread_id checkpoint_ns st
  follow thread_id checkpoint_ns (ok (some id)) st =
      found_or_scan thread_id checkpoint_ns id
        (S.get st.store (ckpt_ns thread_id checkpoint_ns) id none) st

  abbrev pub by_max_key : Text → Text → Option Text → Method S (Option Resolved)
  by_max_key thread_id checkpoint_ns none st = (ok none, st)
  by_max_key thread_id checkpoint_ns (some id) st = read_checkpoint thread_id checkpoint_ns id st

  -- the latest checkpoint
  unfoldable pub resolve_latest : Text → Text → Method S (Option Resolved)
  resolve_latest thread_id checkpoint_ns st =
      if o.store_indexes_max_key
      then by_max_key thread_id checkpoint_ns
          (truthy (S.max_key st.store (ckpt_ns thread_id checkpoint_ns))) st
      else follow thread_id checkpoint_ns
          (pointed (S.get st.store latest_ns (latest_key thread_id checkpoint_ns) none)) st

  abbrev pub resolve_id : Text → Text → Option Text → Method S (Option Resolved)
  resolve_id thread_id checkpoint_ns none st = resolve_latest thread_id checkpoint_ns st
  resolve_id thread_id checkpoint_ns (some id) st = read_checkpoint thread_id checkpoint_ns id st

  -- `_resolve`
  unfoldable pub resolve : Config → Method S (Option Resolved)
  resolve c = resolve_id c.thread_id (ns_of c) (truthy (L.get_checkpoint_id c))

  abbrev pub built :
      Result (Option Resolved) × Saver S → Result (Option (CheckpointTuple V)) × Saver S
  built (raise e, st) = (raise e, st)
  built (ok none, st) = (ok none, st)
  built (ok (some (thread_id, checkpoint_ns, id, entry)), st) =
      (build_tuple L S o st.store thread_id checkpoint_ns id entry none >>= λ t. ok (some t), st)

  -- `_get_tuple_impl`
  unfoldable pub get_tuple : Config → Method S (Option (CheckpointTuple V))
  get_tuple c st = built (resolve c st)
