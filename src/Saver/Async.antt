-- ===== src/Saver/Async.antt =====
-- python/swarmstate/integrations/langgraph.py: `aput` and `aget_tuple`, on a store that is async
-- itself. Its async methods are those of the record, as they do what the sync ones do.
pub mod Twins
pub mod Listing
use swarmstate.Prelude.{
  Bool, true, false, not, ◌&&◌, Option, none, some, List, [], ◌∷◌, map, is_nil, is_some,
  if◌then◌else◌,
}
use swarmstate.Prelude.Result.{Result, ok, raise, type_error, ◌>>=◌}
use swarmstate.Store.{StoreLike}
use swarmstate.Text.{Text}
use swarmstate.Text.Order.{max}
use swarmstate.Saver.{
  Config, config, ns_of, truthy, Checkpoint, Metadata, Langgraph, Typed, Stored, saved,
  CheckpointTuple, Options, Saver, Method, loads_checkpoint, loads_metadata,
}
use swarmstate.Saver.Names.{ckpt_ns, writes_ns, blobs_ns, latest_ns, latest_key}
use swarmstate.Saver.Tuple.{blob_key, sort_writes, attach_all, decode_writes}
use swarmstate.Saver.Resolve.{Resolved}
use swarmstate.Saver.Trim.{prune_thread}
use swarmstate.Saver.Put.{put_rows, blobs_to_store}

module _ {V : Type 0} (L : Langgraph V) (S : StoreLike Stored) (o : Options) where
  -- ------------------------------------------------------------- aput
  -- `[(bl_ns, k, v) for (k, v), done in zip(blobs, stored) if not done]`
  unfoldable pub not_done :
      Text → List (Text × Stored) → List Bool → List (Text × Text × Option Stored)
  not_done ns [] stored = []
  not_done ns (b ∷ blobs) [] = []
  not_done ns ((k, v) ∷ blobs) (done ∷ stored) =
      let rest = not_done ns blobs stored in if not done then (ns, k, some v) ∷ rest else rest

  abbrev aset_new : S.State → List (Text × Text × Option Stored) → S.State
  aset_new s new_blobs = if is_nil new_blobs then s else S.set_many s new_blobs

  unfoldable pub aput_blobs : S.State → Text → List (Text × Stored) → S.State
  aput_blobs s ns blobs =
      if is_nil blobs
      then s
      else aset_new s (not_done ns blobs (map (λ (b : Text × Stored). S.has s ns b.0) blobs))

  abbrev areturns : Config → Result (Unit {0}) × Saver S → Result Config × Saver S
  areturns c (ok u, st) = (ok c, st)
  areturns c (raise e, st) = (raise e, st)

  -- `_aput_impl`
  unfoldable pub aput : Config → Checkpoint V → Metadata V → List (Text × Text) → Method S Config
  aput c cp md new_versions st =
      let (rows, max_seen) = put_rows L o c cp md st.max_seen in
      let blobs = blobs_to_store L o cp new_versions in
      let s = aput_blobs st.store (blobs_ns c.thread_id (ns_of c)) blobs in
      let st' = record st { store = S.set_many s rows; max_seen = max_seen } in
      areturns (config c.thread_id (ns_of c) cp.id) (
        if is_some o.max_checkpoints_per_thread
        then prune_thread L S o c.thread_id (ns_of c) st'
        else (ok tt, st'))

  -- ------------------------------------------------------------- aget_tuple
  abbrev awith : Text → Text → Text → Option Stored → Option Resolved
  awith thread_id checkpoint_ns checkpoint_id none = none
  awith thread_id checkpoint_ns checkpoint_id (some entry) =
      some (thread_id, checkpoint_ns, checkpoint_id, entry)

  -- the end of `_aresolve`, with what is read so far
  abbrev aread : Text → Text → Text → Option Stored → Method S (Option Resolved)
  aread thread_id checkpoint_ns checkpoint_id (some entry) st =
      (ok (some (thread_id, checkpoint_ns, checkpoint_id, entry)), st)
  aread thread_id checkpoint_ns checkpoint_id none st = (
    ok (
        awith thread_id checkpoint_ns checkpoint_id
          (S.get st.store (ckpt_ns thread_id checkpoint_ns) checkpoint_id none)),
    st,
  )

  -- `if saved is None`, behind the pointer
  abbrev arescan : Text → Text → Text → Option Stored → Method S (Option Resolved)
  arescan thread_id checkpoint_ns checkpoint_id (some entry) st =
      aread thread_id checkpoint_ns checkpoint_id (some entry) st
  arescan thread_id checkpoint_ns checkpoint_id none st =
      elim (max (S.keys st.store (ckpt_ns thread_id checkpoint_ns) none)) [
        | none ↦ (ok none, st)
        | some newest ↦ aread thread_id checkpoint_ns newest none (record st {
          store =
              S.set st.store latest_ns (latest_key thread_id checkpoint_ns)
                (some (Stored.pointer newest));
        })
      ]

  -- the pointer as it was read
  abbrev afollow : Text → Text → Option Stored → Method S (Option Resolved)
  afollow thread_id checkpoint_ns none st = arescan thread_id checkpoint_ns [] none st
  afollow thread_id checkpoint_ns (some (Stored.pointer [])) st =
      arescan thread_id checkpoint_ns [] none st
  afollow thread_id checkpoint_ns (some (Stored.pointer (a ∷ id))) st =
      arescan thread_id checkpoint_ns (a ∷ id)
        (S.get st.store (ckpt_ns thread_id checkpoint_ns) (a ∷ id) none) st
  afollow thread_id checkpoint_ns (some _) st = (raise type_error, st)

  abbrev aby_max_key : Text → Text → Option Text → Method S (Option Resolved)
  aby_max_key thread_id checkpoint_ns none st = (ok none, st)
  aby_max_key thread_id checkpoint_ns (some id) st = aread thread_id checkpoint_ns id none st

  abbrev aby_id : Text → Text → Option Text → Method S (Option Resolved)
  aby_id thread_id checkpoint_ns (some id) st = aread thread_id checkpoint_ns id none st
  aby_id thread_id checkpoint_ns none st =
      if o.store_indexes_max_key
      then aby_max_key thread_id checkpoint_ns
          (truthy (S.max_key st.store (ckpt_ns thread_id checkpoint_ns))) st
      else afollow thread_id checkpoint_ns
          (S.get st.store latest_ns (latest_key thread_id checkpoint_ns) none) st

  -- `_aresolve`
  unfoldable pub aresolve : Config → Method S (Option Resolved)
  aresolve c st = aby_id c.thread_id (ns_of c) (truthy (L.get_checkpoint_id c)) st

  -- `_decode_checkpoint`
  unfoldable pub decode_checkpoint : Typed → Result (Checkpoint V × List (Text × Text))
  decode_checkpoint cp = do
    c ← loads_checkpoint L cp
    ok (c, if o.incremental && not (is_some c.channel_values) then c.channel_versions else [])

  -- the blobs, where there are versions
  unfoldable pub aattach :
      S.State → Text → Checkpoint V → List (Text × Text) → Result (Checkpoint V)
  aattach s bl_ns c [] = ok c
  aattach s bl_ns c (v ∷ versions) = do
    let blobs = S.get_many s (map (λ i. (bl_ns, blob_key i)) (v ∷ versions))
    values ← attach_all L [] (v ∷ versions) blobs
    ok (record c { channel_values = some values })

  abbrev ametadata : Option (Metadata V) → Typed → Result (Metadata V)
  ametadata (some m) md = ok m
  ametadata none md = loads_metadata L md

  unfoldable pub araw : S.State → Text → List Text → List (Option Stored)
  araw s ns [] = []
  araw s ns (k ∷ keys) = S.get_many s (map (λ k. (ns, k)) (k ∷ keys))

  -- `_abuild_tuple`, with `_tuple`
  unfoldable pub abuild_tuple :
      S.State → Text → Text → Text → Stored → Option (Metadata V) → Result (CheckpointTuple V)
  abuild_tuple s thread_id checkpoint_ns checkpoint_id (saved cp md parent) known = do
    decoded ← decode_checkpoint cp
    c ← aattach s (blobs_ns thread_id checkpoint_ns) decoded.0 decoded.1
    m ← ametadata known md
    let ns = writes_ns thread_id checkpoint_ns checkpoint_id
    keys ← sort_writes (S.keys s ns none)
    writes ← decode_writes L none (araw s ns keys)
    ok (record {
      config = config thread_id checkpoint_ns checkpoint_id;
      checkpoint = c;
      metadata = m;
      parent_config = (elim (truthy parent) [
        | none ↦ none
        | some id ↦ some (config thread_id checkpoint_ns id)
      ]);
      pending_writes = writes;
    })
  abuild_tuple s thread_id checkpoint_ns checkpoint_id _ known = raise type_error

  abbrev abuilt : Result (Option Resolved) × Saver S → Result (Option (CheckpointTuple V)) × Saver S
  abuilt (raise e, st) = (raise e, st)
  abuilt (ok none, st) = (ok none, st)
  abuilt (ok (some (thread_id, checkpoint_ns, id, entry)), st) =
      (abuild_tuple st.store thread_id checkpoint_ns id entry none >>= λ t. ok (some t), st)

  -- `_aget_tuple_impl`
  unfoldable pub aget_tuple : Config → Method S (Option (CheckpointTuple V))
  aget_tuple c st = abuilt (aresolve c st)
