-- ===== src/Saver/History.antt =====
-- python/swarmstate/integrations/langgraph.py: `get_delta_channel_history`.
pub mod Fuel
use swarmstate.Prelude.{
  ℕ, zero, suc, ◌+◌, ◌&&◌, Bool, Option, none, some, List, [], ◌∷◌, ◌++◌, filter, length, contains,
  ◌==◌, if◌then◌else◌, is_nil, get_or,
}
use swarmstate.Prelude.Dict.{Dict, find, insert, insert_all, keys}
use swarmstate.Prelude.Result.{Result, ok, raise, type_error, out_of_fuel, ◌>>=◌}
use swarmstate.Store.{StoreLike}
use swarmstate.Text.{Text, text_eq}
use swarmstate.Saver.{Config, truthy, Langgraph, Typed, Stored, saved, Options, Saver, Method}
use swarmstate.Saver.Names.{ckpt_ns}
use swarmstate.Saver.Tuple.{channel_values, pending_writes}
use swarmstate.Saver.Resolve.{Resolved, resolve}
use swarmstate.Saver.Trim.{minus}

-- A pending write: the task, the channel and the value.
abbrev pub Write : Type 0 → Type 0
Write V = Text × Text × V

-- What is returned for a channel: its writes, and the seed where there is one.
abbrev pub Entry : Type 0 → Type 0
Entry V = List (Write V) × Option V

module _ {V : Type 0} (L : Langgraph V) (S : StoreLike Stored) (o : Options) where
  -- What the walk has found: the writes from the oldest on, and the seeds.
  abbrev pub Found : Type 0
  Found = List (Write V) × Dict Text V

  abbrev at_row : Option Stored → Found → (Typed → Option Text → Result Found) → Result Found
  at_row none found next = ok found
  at_row (some (saved cp md parent)) found next = next cp parent
  at_row (some _) found next = raise type_error

  -- The loop up the parents. The fuel bounds the length of the chain.
  unfoldable pub collect :
      ℕ → S.State → Text → Text → List Text → Option Text → Found → Result Found
  collect fuel s thread_id checkpoint_ns [] cursor found = ok found
  collect fuel s thread_id checkpoint_ns (r ∷ remaining) none found = ok found
  collect zero s thread_id checkpoint_ns (r ∷ remaining) (some cursor) found = raise out_of_fuel
  collect (suc fuel) s thread_id checkpoint_ns (r ∷ remaining) (some cursor) (writes, seeds) =
      at_row (S.get s (ckpt_ns thread_id checkpoint_ns) cursor none) (writes, seeds)
        (λ cp parent. (do
          here ← pending_writes L S o s thread_id checkpoint_ns cursor (some (r ∷ remaining))
          present ← channel_values L S o s thread_id checkpoint_ns cp (r ∷ remaining)
          collect fuel s thread_id checkpoint_ns (minus (r ∷ remaining) (keys present))
              (truthy parent) (here ++ writes, insert_all seeds present)))

  -- `result`
  unfoldable pub entries : List Text → Found → Dict Text (Entry V)
  entries [] found = []
  entries (ch ∷ channels) found =
      insert ch (filter (λ w. w.1 == ch) found.0, find ch found.1) (entries channels found)

  abbrev answer : Saver S → List Text → Result Found → Result (Dict Text (Entry V)) × Saver S
  answer st channels (raise e) = (raise e, st)
  answer st channels (ok found) = (ok (entries channels found), st)

  abbrev collected : List Text → Result (Option Resolved) × Saver S → Result Found
  collected channels (raise e, st) = raise e
  collected channels (ok none, st) = ok ([], [])
  collected channels (ok (some (thread_id, checkpoint_ns, id, saved cp md parent)), st) =
      collect (suc (length (S.keys st.store (ckpt_ns thread_id checkpoint_ns) none))) st.store
        thread_id checkpoint_ns channels (truthy parent) ([], [])
  collected channels (ok (some _), st) = raise type_error

  -- `get_delta_channel_history`
  unfoldable pub get_delta_channel_history : Config → List Text → Method S (Dict Text (Entry V))
  get_delta_channel_history c channels st =
      if is_nil channels
      then (ok [], st)
      else (let r = resolve L S o c st in answer r.1 channels (collected channels r))
