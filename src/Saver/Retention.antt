-- ===== src/Saver/Retention.antt =====
-- python/swarmstate/integrations/langgraph.py: dropping checkpoints, `_trim` and `_prune_thread`.
pub mod Drop
use swarmstate.Prelude.{
  ℕ, Bool, false, not, ◌&&◌, Option, none, some, List, [], ◌∷◌, ◌++◌, map, filter, length, leb,
  get_or, if◌then◌else◌, contains, pair_eq,
}
use swarmstate.Prelude.Dict.{Dict, find, insert, remove, keys}
use swarmstate.Prelude.Result.{Result, ok, raise, type_error, ◌>>=◌}
use swarmstate.Store.{StoreLike}
use swarmstate.Text.{Text, text_eq}
use swarmstate.Text.Order.{max as max_text}
use swarmstate.Saver.{
  Langgraph, Stored, saved, pointer, Options, Saver, Method, max_hints, loads_checkpoint,
}
use swarmstate.Saver.Names.{ckpt_ns, writes_ns, blobs_ns, latest_ns, latest_key}
use swarmstate.Saver.Access.{get_many, delete_many, delete_namespace}
use swarmstate.Saver.Tuple.{blob_key}

-- `_PRUNE_SLACK`
abbrev pub prune_slack : ℕ
prune_slack = 8

-- `_DELTA_COUNTERS`, "counters_since_delta_snapshot"
abbrev pub delta_counters : Text
delta_counters =
    99 ∷ 111 ∷ 117 ∷ 110 ∷ 116 ∷ 101 ∷ 114 ∷ 115 ∷ 95 ∷ 115 ∷ 105 ∷ 110 ∷ 99 ∷ 101 ∷ 95 ∷ 100 ∷ 101
    ∷ 108 ∷ 116 ∷ 97 ∷ 95 ∷ 115 ∷ 110 ∷ 97 ∷ 112 ∷ 115 ∷ 104 ∷ 111 ∷ 116 ∷ []

-- `_bounded_set`
unfoldable pub bounded_set {ℓ} :
    {A : Type ℓ} → Dict (Text × Text) A → Text × Text → A → Dict (Text × Text) A
bounded_set hints key v = insert key v (if leb max_hints (length hints) then [] else hints)

-- The rows of some checkpoints, as far as they were read.
abbrev pub Records : Type 0
Records = Dict Text (Option Stored)

-- `dict(zip(ids, values))`
unfoldable pub zip_records : Records → List Text → List (Option Stored) → Records
zip_records records [] values = records
zip_records records (i ∷ ids) [] = records
zip_records records (i ∷ ids) (v ∷ values) = zip_records (insert i v records) ids values

module _ {V : Type 0} (L : Langgraph V) (S : StoreLike Stored) (o : Options) where
  -- one checkpoint of `_referenced_blobs`
  abbrev blobs_of : Option Stored → Result (List Text)
  blobs_of none = ok []
  blobs_of (some (saved cp md parent)) =
      loads_checkpoint L cp >>= λ c. ok (map blob_key c.channel_versions)
  blobs_of (some _) = raise type_error

  unfoldable pub blobs_of_all : Records → List Text → Result (List Text)
  blobs_of_all records [] = ok []
  blobs_of_all records (i ∷ ids) = do
    here ← blobs_of (get_or (find i records) none)
    rest ← blobs_of_all records ids
    ok (here ++ rest)

  -- `_referenced_blobs`
  unfoldable pub referenced_blobs : S.State → Text → Text → List Text → Records → Result (List Text)
  referenced_blobs s thread_id checkpoint_ns ids records =
      let missing = filter (λ i. not (contains i (keys records))) ids in
      let read = get_many S s (ckpt_ns thread_id checkpoint_ns) missing in
      blobs_of_all (zip_records records missing read) ids

  -- `for checkpoint_id in doomed: self._delete_namespace(...)`
  unfoldable pub drop_writes : S.State → Text → Text → List Text → S.State
  drop_writes s thread_id checkpoint_ns [] = s
  drop_writes s thread_id checkpoint_ns (i ∷ doomed) =
      drop_writes (delete_namespace S s (writes_ns thread_id checkpoint_ns i)) thread_id
        checkpoint_ns doomed

  -- whether the pointer names a checkpoint that goes
  abbrev points_into : List Text → Option Stored → Bool
  points_into doomed none = false
  points_into doomed (some (pointer id)) = contains id doomed
  points_into doomed (some _) = false

  abbrev repointed : S.State → Text → Option Text → S.State
  repointed s key none = (S.delete s latest_ns key).0
  repointed s key (some newest) = S.set s latest_ns key (some (pointer newest))

  -- the end of `_drop_checkpoints`: where the pointer goes
  unfoldable pub move_pointer : Text → Text → List Text → List Text → Saver S → Saver S
  move_pointer thread_id checkpoint_ns doomed kept st =
      let key = latest_key thread_id checkpoint_ns in
      if not o.store_indexes_max_key && points_into doomed (S.get st.store latest_ns key none)
      then record st {
        store = repointed st.store key (max_text kept);
        max_seen = remove (thread_id, checkpoint_ns) st.max_seen;
      }
      else st

  abbrev dropped_blobs : S.State → Text → List Text → S.State
  dropped_blobs s ns keep =
      delete_many S s (map (λ b. (ns, b)) (filter (λ b. not (contains b keep)) (S.keys s ns none)))

  -- `_drop_checkpoints`
  unfoldable pub drop_checkpoints : Text → Text → List Text → List Text → Records → Method S Unit
  drop_checkpoints thread_id checkpoint_ns doomed kept records st =
      let finish = λ (s : S.State).
        (let cleared = drop_writes s thread_id checkpoint_ns doomed in
          let ns = ckpt_ns thread_id checkpoint_ns in
          move_pointer thread_id checkpoint_ns doomed kept
            (record st { store = delete_many S cleared (map (λ i. (ns, i)) doomed) })) in
      if o.incremental
      then elim (referenced_blobs st.store thread_id checkpoint_ns kept records) [
        | raise e ↦ (raise e, st)
        | ok keep ↦ (ok tt, finish (dropped_blobs st.store (blobs_ns thread_id checkpoint_ns) keep))
      ]
      else (ok tt, finish st.store)
