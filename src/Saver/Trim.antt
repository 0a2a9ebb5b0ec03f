-- ===== src/Saver/Trim.antt =====
-- python/swarmstate/integrations/langgraph.py: which checkpoints a trim keeps.
pub mod Rows
pub mod Keeps
use Prim.Native.Nat.{max}
use swarmstate.Prelude.{
  ℕ, zero, suc, ◌+◌, ◌-◌, ◌/◌, not, Option, none, some, List, [], ◌∷◌, ◌++◌, filter, length, drop,
  leb, get_or, is_nil, if◌then◌else◌, contains, pair_eq,
}
use swarmstate.Prelude.Dict.{find, insert, keys}
use swarmstate.Prelude.Result.{Result, ok, raise, type_error, out_of_fuel, ◌>>=◌}
use swarmstate.Prelude.Sort.{sort}
use swarmstate.Store.{StoreLike}
use swarmstate.Text.{Text, text_eq}
use swarmstate.Text.Order.{lt}
use swarmstate.Saver.{
  truthy, Typed, Metadata, Langgraph, Stored, saved, Options, Saver, Method, loads_metadata,
}
use swarmstate.Saver.Names.{ckpt_ns}
use swarmstate.Saver.Access.{get_many}
use swarmstate.Saver.Tuple.{channel_values}
use swarmstate.Saver.Retention.{
  Records, zip_records, delta_counters, prune_slack, bounded_set, drop_checkpoints,
}

-- `ids[-keep:]` for a positive `keep`
unfoldable pub last_of : ℕ → List Text → List Text
last_of keep ids = drop (length ids - keep) ids

-- `a - set(b)`
abbrev pub minus : List Text → List Text → List Text
minus a b = filter (λ x. not (contains x b)) a

module _ {V : Type 0} (L : Langgraph V) (S : StoreLike Stored) (o : Options) where
  -- `if cursor not in records: records[cursor] = self.store.get(ck_ns, cursor)`
  unfoldable pub cached : S.State → Text → Text → Records → Records
  cached s ns cursor records =
      if contains cursor (keys records)
      then records
      else insert cursor (S.get s ns cursor none) records

  -- a round of the loop: it ends where there is no row
  abbrev at_row :
      Option Stored
      → List Text × Records
      → (Typed → Option Text → Result (List Text × Records))
      → Result (List Text × Records)
  at_row none stop next = ok stop
  at_row (some (saved cp md parent)) stop next = next cp parent
  at_row (some _) stop next = raise type_error

  -- The loop of `_delta_ancestors` up the parents: the checkpoints that are needed, and the rows
  -- that were read. The fuel bounds the length of the chain.
  unfoldable pub walk :
      ℕ
      → S.State
      → Text
      → Text
      → List Text
      → Option Text
      → List Text
      → Records
      → Result (List Text × Records)
  walk fuel s thread_id checkpoint_ns [] cursor needed records = ok (needed, records)
  walk fuel s thread_id checkpoint_ns (m ∷ missing) none needed records = ok (needed, records)
  walk zero s thread_id checkpoint_ns (m ∷ missing) (some cursor) needed records = raise out_of_fuel
  walk (suc fuel) s thread_id checkpoint_ns (m ∷ missing) (some cursor) needed records =
      let records' = cached s (ckpt_ns thread_id checkpoint_ns) cursor records in
      at_row (get_or (find cursor records') none) (needed, records')
        (λ cp parent. (do
          values ← channel_values L S o s thread_id checkpoint_ns cp (m ∷ missing)
          walk fuel s thread_id checkpoint_ns (minus (m ∷ missing) (keys values)) (truthy parent)
              (cursor ∷ needed) records'))

  -- the delta channels that a checkpoint's metadata names
  unfoldable pub delta_channels : Metadata V → List Text
  delta_channels m = elim (find delta_counters m) [ none ↦ [] | some v ↦ L.dict_keys v ]

  -- one survivor
  unfoldable pub survivor_needs :
      S.State → Text → Text → Option Stored → List Text → Records → Result (List Text × Records)
  survivor_needs s thread_id checkpoint_ns none needed records = ok (needed, records)
  survivor_needs s thread_id checkpoint_ns (some (saved cp md parent)) needed records = do
    m ← loads_metadata L md
    let delta = delta_channels m
    if is_nil delta then ok (needed, records) else do
      values ← channel_values L S o s thread_id checkpoint_ns cp delta
      walk (suc (length (S.keys s (ckpt_ns thread_id checkpoint_ns) none))) s thread_id
          checkpoint_ns (minus delta (keys values)) (truthy parent) needed records
  survivor_needs s thread_id checkpoint_ns (some _) needed records = raise type_error

  -- `_delta_ancestors`
  unfoldable pub delta_ancestors :
      S.State → Text → Text → List Text → List Text → Records → Result (List Text × Records)
  delta_ancestors s thread_id checkpoint_ns [] needed records = ok (needed, records)
  delta_ancestors s thread_id checkpoint_ns (i ∷ survivors) needed records =
      survivor_needs s thread_id checkpoint_ns (get_or (find i records) none) needed records
      >>= λ r. delta_ancestors s thread_id checkpoint_ns survivors r.0 r.1

  -- `a | b` of two sets, as a list without repetitions
  unfoldable pub union : List Text → List Text → List Text
  union a [] = a
  union a (x ∷ b) = union (if contains x a then a else a ++ x ∷ []) b

  abbrev dropped : ℕ → Result (Unit {0}) × Saver S → Result ℕ × Saver S
  dropped n (ok u, st) = (ok n, st)
  dropped n (raise e, st) = (raise e, st)

  -- `_trim`: how many checkpoints were kept
  unfoldable pub trim : Text → Text → List Text → ℕ → Method S ℕ
  trim thread_id checkpoint_ns ids keep st =
      let survivors = last_of keep ids in
      let read = get_many S st.store (ckpt_ns thread_id checkpoint_ns) survivors in
      elim (delta_ancestors st.store thread_id checkpoint_ns survivors []
        (zip_records [] survivors read)) [
          | raise e ↦ (raise e, st)
          | ok (needed, records) ↦
              let kept = union survivors needed in
              let doomed = minus ids kept in
              dropped (length kept) (
                if is_nil doomed
                then (ok tt, st)
                else drop_checkpoints L S o thread_id checkpoint_ns doomed (sort lt kept) records
                    st)
        ]

  abbrev remembered : Text → Text → Result ℕ × Saver S → Result (Unit {0}) × Saver S
  remembered thread_id checkpoint_ns (raise e, st) = (raise e, st)
  remembered thread_id checkpoint_ns (ok kept, st) = (
    ok tt,
    record st { prune_floor = bounded_set st.prune_floor (thread_id, checkpoint_ns) kept },
  )

  -- `_prune_thread`
  unfoldable pub prune_to : ℕ → Text → Text → Method S Unit
  prune_to limit thread_id checkpoint_ns st =
      let floor = max limit (get_or (find (thread_id, checkpoint_ns) st.prune_floor) limit) in
      let ids = S.keys st.store (ckpt_ns thread_id checkpoint_ns) none in
      if leb (length ids) (floor + max prune_slack (floor / 4))
      then (ok tt, st)
      else remembered thread_id checkpoint_ns (trim thread_id checkpoint_ns (sort lt ids) limit st)

  unfoldable pub prune_thread : Text → Text → Method S Unit
  prune_thread thread_id checkpoint_ns st = elim o.max_checkpoints_per_thread [
    | none ↦ (ok tt, st)
    | some limit ↦ prune_to limit thread_id checkpoint_ns st
  ]
