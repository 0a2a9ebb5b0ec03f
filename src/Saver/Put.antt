-- ===== src/Saver/Put.antt =====
-- python/swarmstate/integrations/langgraph.py: `put`, by the sync and by the async path.
pub mod Roundtrip
pub mod Pointer
pub mod Latest
pub mod Stale
pub mod Blobs
pub mod Incremental
use swarmstate.Prelude.{
  ℕ, Bool, true, false, not, ◌&&◌, Option, none, some, List, [], ◌∷◌, ◌++◌, map, filter, length,
  leb, get_or, is_nil, is_some, if◌then◌else◌, contains, ◌==◌, pair_eq,
}
use swarmstate.Prelude.Dict.{Dict, find, insert}
use swarmstate.Prelude.Result.{Result, ok, raise}
use swarmstate.Store.{StoreLike}
use swarmstate.Text.{Text, text_eq}
use swarmstate.Text.Order.{lt}
use swarmstate.Saver.{
  Config, config, ns_of, Checkpoint, Metadata, Langgraph, checkpoint, metadata, value, Stored,
  saved, pointer, blob, empty, Options, Saver, Method, max_hints,
}
use swarmstate.Saver.Names.{ckpt_ns, blobs_ns, latest_ns, latest_key}
use swarmstate.Saver.Access.{set_many}
use swarmstate.Saver.Tuple.{blob_key}
use swarmstate.Saver.Trim.{prune_thread}

module _ {V : Type 0} (L : Langgraph V) (o : Options) where
  -- the channel blobs of `_put_rows`, for the new versions
  unfoldable pub new_blobs : Dict Text V → List (Text × Text) → List (Text × Stored)
  new_blobs values [] = []
  new_blobs values ((ch, ver) ∷ versions) =
      (
        blob_key (ch, ver),
        (elim (find ch values) [ none ↦ empty | some v ↦ blob (L.dumps_typed (value v)) ]),
      )
      ∷ new_blobs values versions

  -- what is serialized: the checkpoint, without its values if they go into blobs
  unfoldable pub stripped : Checkpoint V → Checkpoint V
  stripped c = if o.incremental then record c { channel_values = none } else c

  unfoldable pub blobs_to_store : Checkpoint V → List (Text × Text) → List (Text × Stored)
  blobs_to_store c new_versions =
      if o.incremental then new_blobs (get_or c.channel_values []) new_versions else []

  -- the row of the checkpoint
  unfoldable pub checkpoint_row : Config → Checkpoint V → Metadata V → Text × Text × Option Stored
  checkpoint_row c cp md = (
    ckpt_ns c.thread_id (ns_of c),
    cp.id,
    some (
        saved (L.dumps_typed (checkpoint (stripped cp)))
          (L.dumps_typed (metadata (L.get_checkpoint_metadata c md))) c.checkpoint_id),
  )

  -- `seen is None or checkpoint_id > seen`
  abbrev pub is_newer : Text → Option Text → Bool
  is_newer id none = true
  is_newer id (some seen) = lt seen id

  -- whether `_put_rows` publishes the pointer, by the hint
  unfoldable pub publishes : Config → Checkpoint V → Dict (Text × Text) Text → Bool
  publishes c cp max_seen =
      not o.store_indexes_max_key && is_newer cp.id (find (c.thread_id, ns_of c) max_seen)

  -- the rows of `_put_rows`, and the hints afterwards
  unfoldable pub put_rows :
      Config
      → Checkpoint V
      → Metadata V
      → Dict (Text × Text) Text
      → List (Text × Text × Option Stored) × Dict (Text × Text) Text
  put_rows c cp md max_seen =
      if publishes c cp max_seen
      then (
        checkpoint_row c cp md
            ∷ (latest_ns, latest_key c.thread_id (ns_of c), some (pointer cp.id))
            ∷ [],
        insert (c.thread_id, ns_of c) cp.id
            (if leb max_hints (length max_seen) then [] else max_seen),
      )
      else (checkpoint_row c cp md ∷ [], max_seen)

  module _ (S : StoreLike Stored) where
    -- the blobs that are not stored yet: the same channel and version is the same value
    unfoldable pub missing_blobs :
        S.State → Text → List (Text × Stored) → List (Text × Text × Option Stored)
    missing_blobs s ns [] = []
    missing_blobs s ns ((k, v) ∷ blobs) =
        let rest = missing_blobs s ns blobs in
        if not (S.has s ns k) then (ns, k, some v) ∷ rest else rest

    abbrev pub returns : Config → Result (Unit {0}) × Saver S → Result Config × Saver S
    returns c (ok u, st) = (ok c, st)
    returns c (raise e, st) = (raise e, st)

    -- `_put_impl` up to the retention: what the rows leave in the store and the hints
    unfoldable pub written_put :
        Config → Checkpoint V → Metadata V → List (Text × Text) → Saver S → Saver S
    written_put c cp md new_versions st =
        let (rows, max_seen) = put_rows c cp md st.max_seen in
        let blobs = blobs_to_store cp new_versions in
        record st {
          store =
              set_many S
                (set_many S st.store
                  (missing_blobs st.store (blobs_ns c.thread_id (ns_of c)) blobs))
                rows;
          max_seen = max_seen;
        }

    -- `_put_impl`
    unfoldable pub put : Config → Checkpoint V → Metadata V → List (Text × Text) → Method S Config
    put c cp md new_versions st =
        returns (config c.thread_id (ns_of c) cp.id)
          (prune_thread L S o c.thread_id (ns_of c) (written_put c cp md new_versions st))
