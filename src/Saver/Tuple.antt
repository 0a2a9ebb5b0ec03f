-- ===== src/Saver/Tuple.antt =====
-- python/swarmstate/integrations/langgraph.py: decoding what is stored, and `_build_tuple`.
pub mod Fuel
use swarmstate.Prelude.{
  Bool, true, not, ◌&&◌, Option, none, some, List, [], ◌∷◌, ◌++◌, map, filter, length, ltb, is_some,
  if◌then◌else◌, contains,
}
use swarmstate.Prelude.Decimal.{ℤ}
use swarmstate.Prelude.Dict.{Dict, insert}
use swarmstate.Prelude.Result.{Result, ok, raise, type_error, ◌>>=◌}
use swarmstate.Prelude.Sort.{sort}
use swarmstate.Store.{StoreLike}
use swarmstate.Text.{Text, text_eq}
use swarmstate.Saver.{
  config, truthy, Checkpoint, Metadata, Langgraph, Typed, Stored, saved, write, blob, empty,
  CheckpointTuple, Options, loads_checkpoint, loads_metadata, loads_value,
}
use swarmstate.Saver.Names.{sep, writes_ns, blobs_ns, write_order, below}
use swarmstate.Saver.Access.{get_many}

-- f"{ch}{_SEP}{ver}"
abbrev pub blob_key : Text × Text → Text
blob_key v = v.0 ++ (sep ∷ v.1)

abbrev or_empty {ℓ} : {A : Type ℓ} → Option (List A) → List A
or_empty none = []
or_empty (some xs) = xs

-- `sorted(keys, key=_write_order)`: all sort keys are computed first
unfoldable pub keyed : List Text → Result (List ((Text × ℤ) × Text))
keyed [] = ok []
keyed (k ∷ ks) = do o ← write_order k; rest ← keyed ks; ok ((o, k) ∷ rest)

unfoldable pub sort_writes : List Text → Result (List Text)
sort_writes keys = do pairs ← keyed keys; ok (map (λ p. p.1) (sort (λ p q. below p.0 q.0) pairs))

module _ {V : Type 0} (L : Langgraph V) where
  -- `if blob and blob[0] == "v": values[ch] = loads_typed(...)`
  unfoldable pub attach : Dict Text V → Text → Option Stored → Result (Dict Text V)
  attach values ch none = ok values
  attach values ch (some empty) = ok values
  attach values ch (some (blob t)) = do v ← loads_value L t; ok (insert ch v values)
  attach values ch (some _) = raise type_error

  unfoldable pub attach_all :
      Dict Text V → List (Text × Text) → List (Option Stored) → Result (Dict Text V)
  attach_all values [] blobs = ok values
  attach_all values (v ∷ versions) [] = ok values
  attach_all values ((ch, ver) ∷ versions) (b ∷ blobs) =
      attach values ch b >>= λ more. attach_all more versions blobs

  -- `_decode_writes`, with `None` for `channels` where all are wanted
  abbrev pub wanted : Option (List Text) → Text → Bool
  wanted none ch = true
  wanted (some channels) ch = contains ch channels

  unfoldable pub decode_writes :
      Option (List Text) → List (Option Stored) → Result (List (Text × Text × V))
  decode_writes channels [] = ok []
  decode_writes channels (none ∷ raw) = decode_writes channels raw
  decode_writes channels (some (write task_id ch t path) ∷ raw) =
      let rest = decode_writes channels raw in
      if wanted channels ch
      then (do v ← loads_value L t; more ← rest; ok ((task_id, ch, v) ∷ more))
      else rest
  decode_writes channels (some _ ∷ raw) = raise type_error

  module _ (S : StoreLike Stored) (o : Options) where
    -- the `channel_values` of a decoded checkpoint, from the blobs if it was stored without
    unfoldable pub attach_values : S.State → Text → Text → Checkpoint V → Result (Checkpoint V)
    attach_values s thread_id checkpoint_ns c =
        if o.incremental && not (is_some c.channel_values)
        then (do
          let blobs =
              get_many S s (blobs_ns thread_id checkpoint_ns) (map blob_key c.channel_versions)
          values ← attach_all [] c.channel_versions blobs
          ok (record c { channel_values = some values }))
        else ok c

    -- `_channel_values`: the values that a record holds for some channels
    unfoldable pub channel_values : S.State → Text → Text → Typed → List Text → Result (Dict Text V)
    channel_values s thread_id checkpoint_ns cp channels = do
      c ← loads_checkpoint L cp
      elim c.channel_values [
        | some stored ↦ ok (filter (λ p. contains p.0 channels) stored)
        | none ↦
            let versions = filter (λ p. contains p.0 channels) c.channel_versions in
            attach_all [] versions
              (get_many S s (blobs_ns thread_id checkpoint_ns) (map blob_key versions))
      ]

    -- the pending writes of a checkpoint, in order
    unfoldable pub pending_writes :
        S.State → Text → Text → Text → Option (List Text) → Result (List (Text × Text × V))
    pending_writes s thread_id checkpoint_ns checkpoint_id channels = do
      let ns = writes_ns thread_id checkpoint_ns checkpoint_id
      keys ← sort_writes (S.keys s ns none)
      decode_writes channels (get_many S s ns keys)

    -- `if len(keys) > 1: keys.sort(key=_write_order)`
    unfoldable pub sort_if_many : List Text → Result (List Text)
    sort_if_many keys = if ltb 1 (length keys) then sort_writes keys else ok keys

    abbrev pub metadata_of : Option (Metadata V) → Typed → Result (Metadata V)
    metadata_of (some m) md = ok m
    metadata_of none md = loads_metadata L md

    -- `_build_tuple`; a record of another shape is a `TypeError`
    unfoldable pub build_tuple :
        S.State → Text → Text → Text → Stored → Option (Metadata V) → Result (CheckpointTuple V)
    build_tuple s thread_id checkpoint_ns checkpoint_id (saved cp md parent) known = do
      decoded ← loads_checkpoint L cp
      c ← attach_values s thread_id checkpoint_ns decoded
      m ← metadata_of known md
      let ns = writes_ns thread_id checkpoint_ns checkpoint_id
      keys ← sort_if_many (S.keys s ns none)
      writes ← decode_writes none (get_many S s ns keys)
      ok (record {
        config = config thread_id checkpoint_ns checkpoint_id;
        checkpoint = c;
        metadata = m;
        parent_config = (elim (truthy parent) [
          | none ↦ none
          | some id ↦ some (config thread_id checkpoint_ns id)
        ]);
        pending_writes = writes;
      })
    build_tuple s thread_id checkpoint_ns checkpoint_id _ known = raise type_error
