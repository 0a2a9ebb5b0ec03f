-- ===== src/Saver/Writes.antt =====
-- python/swarmstate/integrations/langgraph.py: `put_writes`, by the sync and by the async path.
pub mod Keys
pub mod Twins
pub mod Once
use swarmstate.Prelude.{
  ℕ, suc, zero, ◌+◌, Bool, true, false, not, ◌&&◌, ◌||◌, Option, none, some, List, [], ◌∷◌, ◌++◌,
  map, if◌then◌else◌, contains, is_nil,
}
use swarmstate.Prelude.Decimal.{ℤ, pos, negsuc, str}
use swarmstate.Prelude.Result.{Result, Error, ok, raise, key_error, ◌>>=◌}
use swarmstate.Store.{StoreLike}
use swarmstate.Text.{Text, text_eq}
use swarmstate.Saver.{Config, ns_of, Langgraph, value, Typed, Stored, write, Saver, Method}
use swarmstate.Saver.Names.{sep, writes_ns}
use swarmstate.Saver.Access.{set_many}

-- f"{task_id}{_SEP}{widx}"
unfoldable pub write_key : Text → ℤ → Text
write_key task_id widx = task_id ++ (sep ∷ str widx)

-- `widx >= 0`: a special write has a negative index
abbrev pub is_positional : ℤ → Bool
is_positional (pos i) = true
is_positional (negsuc i) = false

module _ {V : Type 0} (L : Langgraph V) where
  abbrev unless_refused : V → Option Error → Result Typed
  unless_refused v none = ok (L.dumps_typed (value v))
  unless_refused v (some e) = raise e

  -- `self.serde.dumps_typed(value)`
  abbrev pub dump_value : V → Result Typed
  dump_value v = unless_refused v (L.refuses v)

  -- `_write_rows`: the key, the value and whether the write is positional; `idx` is the counter of
  -- `enumerate`
  unfoldable pub rows_from :
      Text → Text → ℕ → List (Text × V) → Result (List (Text × Stored × Bool))
  rows_from task_id task_path idx [] = ok []
  rows_from task_id task_path idx ((channel, v) ∷ writes) =
      let widx = L.writes_idx channel idx in
      do
        typed ← dump_value v
        rows ← rows_from task_id task_path (idx + 1) writes
        ok (
            (write_key task_id widx, write task_id channel typed task_path, is_positional widx)
            ∷ rows)

  abbrev pub write_rows : Text → Text → List (Text × V) → Result (List (Text × Stored × Bool))
  write_rows task_id task_path writes = rows_from task_id task_path 0 writes

  module _ (S : StoreLike Stored) where
    -- the loop of `_put_writes_impl`: a positional write that is stored already is skipped
    unfoldable pub batch_from :
        S.State
        → Text
        → Text
        → Text
        → ℕ
        → List (Text × V)
        → Result (List (Text × Text × Option Stored))
    batch_from s ns task_id task_path idx [] = ok []
    batch_from s ns task_id task_path idx ((channel, v) ∷ writes) =
        let widx = L.writes_idx channel idx in
        let key = write_key task_id widx in
        let rest = batch_from s ns task_id task_path (idx + 1) writes in
        if is_positional widx && S.has s ns key
        then rest
        else (dump_value v >>= λ typed.
            rest >>= λ batch. ok ((ns, key, some (write task_id channel typed task_path)) ∷ batch))

    -- `cfg["checkpoint_id"]`, which is a `KeyError` where it is missing
    abbrev at_checkpoint : Config → (Text → Saver S → Result (Unit {0}) × Saver S) → Method S Unit
    at_checkpoint c body st = elim c.checkpoint_id [
      | none ↦ (raise key_error, st)
      | some id ↦ body (writes_ns c.thread_id (ns_of c) id) st
    ]

    -- what follows the batch, if no exception ended it
    abbrev with_batch :
        {B : Type 0} → Result B → (B → S.State → S.State) → Saver S → Result (Unit {0}) × Saver S
    with_batch (raise e) store_batch st = (raise e, st)
    with_batch (ok b) store_batch st = (ok tt, record st { store = store_batch b st.store })

    -- `_put_writes_impl`
    unfoldable pub put_writes : Config → List (Text × V) → Text → Text → Method S Unit
    put_writes c writes task_id task_path = at_checkpoint c λ ns st.
        with_batch (batch_from st.store ns task_id task_path 0 writes)
          (λ batch s. set_many S s batch) st

    -- `any(positional for _, _, positional in rows)`
    unfoldable pub any_positional : List (Text × Stored × Bool) → Bool
    any_positional [] = false
    any_positional ((k, v, positional) ∷ rows) = positional || any_positional rows

    -- the rows that are not positional and stored already
    unfoldable pub fresh_rows :
        Text → List Text → List (Text × Stored × Bool) → List (Text × Text × Option Stored)
    fresh_rows ns existing [] = []
    fresh_rows ns existing ((k, v, positional) ∷ rows) =
        let rest = fresh_rows ns existing rows in
        if not (positional && contains k existing) then (ns, k, some v) ∷ rest else rest

    -- `_aput_writes_impl`
    unfoldable pub aput_writes : Config → List (Text × V) → Text → Text → Method S Unit
    aput_writes c writes task_id task_path = at_checkpoint c λ ns st.
        with_batch (write_rows task_id task_path writes)
          (λ rows s.
            (let existing =
                if any_positional rows then S.keys s ns (some (task_id ++ (sep ∷ []))) else [] in
              let batch = fresh_rows ns existing rows in
              if is_nil batch then s else S.set_many s batch))
          st
