-- ===== src/Saver/Threads/Manage.antt =====
-- python/swarmstate/integrations/langgraph.py: copying and pruning threads, and deleting runs.
use swarmstate.Prelude.{
  ℕ, Bool, true, false, not, ◌||◌, Option, none, some, List, [], ◌∷◌, filter, is_nil, if◌then◌else◌,
  contains, ◌==◌, pair_eq,
}
use swarmstate.Prelude.Dict.{find, insert}
use swarmstate.Prelude.Result.{Result, ok, raise, type_error, index_error, value_error, ◌>>=◌}
use swarmstate.Prelude.Sort.{sort}
use swarmstate.Store.{StoreLike}
use swarmstate.Text.{Text, text_eq}
use swarmstate.Text.Order.{lt}
use swarmstate.Saver.{
  truthy, Metadata, Langgraph, metadata, checkpoint, value, Stored, saved, pointer, Options, Saver,
  Method, Object,
}
use swarmstate.Saver.Names.{ck, wr, bl, latest_ns, latest_key, split}
use swarmstate.Saver.Names.Parts.{join}
use swarmstate.Saver.Access.{thread_namespaces, get_many, set_many}
use swarmstate.Saver.Listing.{Target, list_targets}
use swarmstate.Saver.Retention.{bounded_set, drop_checkpoints}
use swarmstate.Saver.Trim.{trim}
use swarmstate.Saver.Threads.{delete_thread}

-- `parts[1] = target`
unfoldable pub renamed : Text → List Text → Result (List Text)
renamed target (kind ∷ thread_id ∷ parts) = ok (kind ∷ target ∷ parts)
renamed target _ = raise index_error

-- `parts[2]`
unfoldable pub third : List Text → Result Text
third (kind ∷ thread_id ∷ checkpoint_ns ∷ parts) = ok checkpoint_ns
third _ = raise index_error

-- "thread_id" and "run_id"
abbrev pub thread_key : Text
thread_key = 116 ∷ 104 ∷ 114 ∷ 101 ∷ 97 ∷ 100 ∷ 95 ∷ 105 ∷ 100 ∷ []

abbrev pub run_key : Text
run_key = 114 ∷ 117 ∷ 110 ∷ 95 ∷ 105 ∷ 100 ∷ []

module _ {V : Type 0} (L : Langgraph V) (S : StoreLike Stored) (o : Options) where
  -- ------------------------------------------------------------- copy_thread
  -- `_retarget`, on what the metadata decodes to
  unfoldable pub retarget : Stored → Text → Text → Result Stored
  retarget (saved cp md parent) source target = L.loads_typed md >>= λ decoded. elim decoded [
    | checkpoint c ↦ ok (saved cp md parent)
    | value v ↦ ok (saved cp md parent)
    | metadata m ↦
        if not (L.equals (find thread_key m) (L.text source))
        then ok (saved cp md parent)
        else ok (saved cp (L.dumps_typed (metadata (insert thread_key (L.text target) m))) parent)
  ]
  retarget _ source target = raise type_error

  abbrev pub copied_value : Bool → Text → Text → Stored → Result Stored
  copied_value true source target v = retarget v source target
  copied_value false source target v = ok v

  -- the rows of one namespace
  unfoldable pub copied_rows :
      Bool
      → Text
      → Text
      → Text
      → List Text
      → List (Option Stored)
      → Result (List (Text × Text × Option Stored))
  copied_rows is_ck source target target_ns [] values = ok []
  copied_rows is_ck source target target_ns (key ∷ keys) [] = ok []
  copied_rows is_ck source target target_ns (key ∷ keys) (none ∷ values) =
      copied_rows is_ck source target target_ns keys values
  copied_rows is_ck source target target_ns (key ∷ keys) (some v ∷ values) = do
    v' ← copied_value is_ck source target v
    rows ← copied_rows is_ck source target target_ns keys values
    ok ((target_ns, key, some v') ∷ rows)

  abbrev pub rows_of_ns :
      S.State → Bool → Text → Text → Text → Result (List (Text × Text × Option Stored))
  rows_of_ns s is_ck source target ns = do
    parts ← renamed target (split ns)
    let keys = S.keys s ns none
    copied_rows is_ck source target (join parts) keys (get_many S s ns keys)

  -- what a loop wrote before it raised stays written
  abbrev pub wrote :
      S.State → Result (List (Text × Text × Option Stored)) → Result (Unit {0}) × S.State
  wrote s (raise e) = (raise e, s)
  wrote s (ok rows) = (ok tt, set_many S s rows)

  abbrev pub and_then :
      {T : Type 0} → Result (Unit {0}) × T → (T → Result (Unit {0}) × T) → Result (Unit {0}) × T
  and_then (raise e, s) next = (raise e, s)
  and_then (ok u, s) next = next s

  unfoldable pub copy_namespaces :
      Bool → Text → Text → List Text → S.State → Result (Unit {0}) × S.State
  copy_namespaces is_ck source target [] s = (ok tt, s)
  copy_namespaces is_ck source target (ns ∷ nss) s =
      and_then (wrote s (rows_of_ns s is_ck source target ns))
        (copy_namespaces is_ck source target nss)

  -- the round of the loop for a kind
  unfoldable pub copy_kind : Text → Text → Text → S.State → Result (Unit {0}) × S.State
  copy_kind kind source target s =
      copy_namespaces (kind == ck) source target (thread_namespaces S s kind source) s

  abbrev pub pointed_at : Text → Text → Text → Result Text → Saver S → Result (Unit {0}) × Saver S
  pointed_at target ns newest (raise e) st = (raise e, st)
  pointed_at target ns newest (ok checkpoint_ns) st = (
    ok tt,
    record st {
      store = S.set st.store latest_ns (latest_key target checkpoint_ns) (some (pointer newest));
      max_seen = bounded_set st.max_seen (target, checkpoint_ns) newest;
    },
  )

  abbrev pub point_at : Text → Text → Option Text → Saver S → Result (Unit {0}) × Saver S
  point_at target ns none st = (ok tt, st)
  point_at target ns (some newest) st = pointed_at target ns newest (third (split ns)) st

  -- the pointers of the target, each to its newest checkpoint
  unfoldable pub point_all : Text → List Text → Method S Unit
  point_all target [] st = (ok tt, st)
  point_all target (ns ∷ nss) st =
      and_then (point_at target ns (truthy (S.max_key st.store ns)) st) (point_all target nss)

  abbrev pub with_store : Saver S → Result (Unit {0}) × S.State → Result (Unit {0}) × Saver S
  with_store st (r, s) = (r, record st { store = s })

  -- `copy_thread`
  unfoldable pub copy_thread : Text → Text → Method S Unit
  copy_thread source target st =
      if source == target
      then (ok tt, st)
      else and_then
          (with_store st (
            and_then (and_then (copy_kind ck source target st.store) (copy_kind wr source target))
              (copy_kind bl source target)))
          (λ st'.
            if not o.store_indexes_max_key
            then point_all target (thread_namespaces S st'.store ck target) st'
            else (ok tt, st'))

  -- ------------------------------------------------------------- delete_for_runs
  -- `metadata.get("run_id") in wanted`
  abbrev is_wanted : Metadata V → List Text → Bool
  is_wanted m [] = false
  is_wanted m (run ∷ runs) = L.equals (find run_key m) (L.text run) || is_wanted m runs

  -- `isinstance(metadata, dict) and metadata.get("run_id") in wanted`
  abbrev is_run : List Text → Object V → Bool
  is_run wanted (metadata m) = is_wanted m wanted
  is_run wanted (checkpoint c) = false
  is_run wanted (value v) = false

  unfoldable pub doomed_of : List Text → List Text → List (Option Stored) → Result (List Text)
  doomed_of wanted [] values = ok []
  doomed_of wanted (id ∷ ids) [] = ok []
  doomed_of wanted (id ∷ ids) (none ∷ values) = doomed_of wanted ids values
  doomed_of wanted (id ∷ ids) (some (saved cp md parent) ∷ values) = do
    decoded ← L.loads_typed md
    rest ← doomed_of wanted ids values
    ok (if is_run wanted decoded then id ∷ rest else rest)
  doomed_of wanted (id ∷ ids) (some _ ∷ values) = raise type_error

  abbrev drop_doomed : Target → List Text → Result (List Text) → Method S Unit
  drop_doomed target ids (raise e) st = (raise e, st)
  drop_doomed target ids (ok doomed) st =
      if is_nil doomed
      then (ok tt, st)
      else drop_checkpoints L S o target.0 target.1 (sort lt doomed)
          (filter (λ i. not (contains i doomed)) ids) [] st

  unfoldable pub delete_runs : List Text → List Target → Method S Unit
  delete_runs wanted [] st = (ok tt, st)
  delete_runs wanted (target ∷ targets) st =
      let ids = S.keys st.store target.2 none in
      and_then (drop_doomed target ids (doomed_of wanted ids (get_many S st.store target.2 ids)) st)
        (delete_runs wanted targets)

  -- `delete_for_runs`
  unfoldable pub delete_for_runs : List Text → Method S Unit
  delete_for_runs run_ids st =
      if is_nil run_ids
      then (ok tt, st)
      else delete_runs run_ids (list_targets L S o st.store none) st

  -- ------------------------------------------------------------- prune
  -- "keep_latest" and "delete"
  abbrev pub keep_latest : Text
  keep_latest = 107 ∷ 101 ∷ 101 ∷ 112 ∷ 95 ∷ 108 ∷ 97 ∷ 116 ∷ 101 ∷ 115 ∷ 116 ∷ []

  abbrev pub delete_strategy : Text
  delete_strategy = 100 ∷ 101 ∷ 108 ∷ 101 ∷ 116 ∷ 101 ∷ []

  abbrev forget : Result ℕ × Saver S → Result (Unit {0}) × Saver S
  forget (ok n, st) = (ok tt, st)
  forget (raise e, st) = (raise e, st)

  abbrev trim_ns : Text → Text → Result Text → Method S Unit
  trim_ns thread_id ns (raise e) st = (raise e, st)
  trim_ns thread_id ns (ok checkpoint_ns) st =
      forget (trim L S o thread_id checkpoint_ns (sort lt (S.keys st.store ns none)) 1 st)

  unfoldable pub trim_all : Text → List Text → Method S Unit
  trim_all thread_id [] st = (ok tt, st)
  trim_all thread_id (ns ∷ nss) st =
      and_then (trim_ns thread_id ns (third (split ns)) st) (trim_all thread_id nss)

  unfoldable pub prune_threads : Text → List Text → Method S Unit
  prune_threads strategy [] st = (ok tt, st)
  prune_threads strategy (thread_id ∷ thread_ids) st =
      and_then
        (if strategy == delete_strategy
          then (ok tt, delete_thread S o thread_id st)
          else trim_all thread_id (thread_namespaces S st.store ck thread_id) st)
        (prune_threads strategy thread_ids)

  -- `prune`
  unfoldable pub prune : List Text → Text → Method S Unit
  prune thread_ids strategy st =
      if not (contains strategy (keep_latest ∷ delete_strategy ∷ []))
      then (raise value_error, st)
      else prune_threads strategy thread_ids st
