-- ===== src/Saver.antt =====
-- python/swarmstate/integrations/langgraph.py: `SwarmStateSaver`, its state and the values that it
-- passes and stores. What LangGraph supplies is the parameter `Langgraph`.
pub mod Names
pub mod Access
pub mod Tuple
pub mod Resolve
pub mod Writes
pub mod Retention
pub mod Trim
pub mod Put
pub mod Threads
pub mod Listing
pub mod Async
pub mod History
pub mod Measured
use swarmstate.Prelude.{ℕ, zero, ◌≡◌, Bool, Option, none, some, List, [], ◌∷◌}
use swarmstate.Prelude.Dict.{Dict}
use swarmstate.Prelude.Decimal.{ℤ}
use swarmstate.Prelude.Eq.{Eq}
use swarmstate.Prelude.Result.{Result, Error, ok, raise, type_error, ◌>>=◌}
use swarmstate.Store.{StoreLike}
use swarmstate.Snapshot.{Bytes}
use swarmstate.Text.{Text}

-- `RunnableConfig`: the entries of "configurable", of which only the thread must be there
pub record Config : Type 0 where
  pub thread_id : Text
  pub checkpoint_ns : Option Text
  pub checkpoint_id : Option Text

-- `cfg.get("checkpoint_ns", "")`
abbrev pub ns_of : Config → Text
ns_of c = elim c.checkpoint_ns [ none ↦ [] | some n ↦ n ]

-- `_config`
unfoldable pub config : Text → Text → Text → Config
config thread_id checkpoint_ns checkpoint_id = record {
  thread_id = thread_id;
  checkpoint_ns = some checkpoint_ns;
  checkpoint_id = some checkpoint_id;
}

-- A value in a condition: an empty text is false.
abbrev pub truthy : Option Text → Option Text
truthy none = none
truthy (some []) = none
truthy (some (c ∷ s)) = some (c ∷ s)

-- A checkpoint: the entries that the saver reads, and the others. A channel's version is the text
-- that it has in a key. `channel_values` is absent from an incremental checkpoint.
pub record Checkpoint (V : Type 0) : Type 0 where
  pub id : Text
  pub channel_versions : Dict Text Text
  pub channel_values : Option (Dict Text V)
  pub others : V

abbrev pub Metadata : Type 0 → Type 0
Metadata V = Dict Text V

-- What the serializer is given.
pub data Object (V : Type 0) : Type 0 where
  checkpoint : Checkpoint V → Object V
  metadata : Metadata V → Object V
  value : V → Object V

-- A serialized object: its type tag and its bytes.
abbrev pub Typed : Type 0
Typed = Text × Bytes

pub record Langgraph (V : Type 0) : Type 0 where
  -- `serde.dumps_typed`, of what it can serialize, and `serde.loads_typed`
  pub dumps_typed : Object V → Typed
  pub loads_typed : Typed → Result (Object V)
  pub loads-dumps : (o : Object V) → loads_typed (dumps_typed o) ≡ ok o
  -- the exception that `serde.dumps_typed` raises for a value that it cannot serialize
  pub refuses : V → Option Error
  pub get_checkpoint_id : Config → Option Text
  pub get_checkpoint_id_lem : (c : Config) → get_checkpoint_id c ≡ c.checkpoint_id
  pub get_checkpoint_metadata : Config → Metadata V → Metadata V
  -- `==` on values, with none for a missing one; and a text as a value
  pub equals : Option V → V → Bool
  pub text : Text → V
  -- `WRITES_IDX_MAP.get(channel, idx)`
  pub writes_idx : Text → ℕ → ℤ
  -- the keys of a value that is a dictionary; none where it is missing or empty
  pub dict_keys : V → List Text

-- The values under the saver's namespaces: a checkpoint record, the pointer to the latest
-- checkpoint, a pending write, and a channel blob with a value or without.
pub data Stored : Type 0 where
  saved : Typed → Typed → Option Text → Stored
  pointer : Text → Stored
  write : Text → Text → Typed → Text → Stored
  blob : Typed → Stored
  empty : Stored

-- `CheckpointTuple`
pub record CheckpointTuple (V : Type 0) : Type 0 where
  pub config : Config
  pub checkpoint : Checkpoint V
  pub metadata : Metadata V
  pub parent_config : Option Config
  pub pending_writes : List (Text × Text × V)

-- The arguments of the constructor, and whether the store answers `max_key` from an index.
pub record Options : Type 0 where
  pub incremental : Bool
  pub max_checkpoints_per_thread : Option ℕ
  pub store_indexes_max_key : Bool

-- The store, and the saver's hints.
pub record Saver (S : StoreLike Stored) : Type 0 where
  pub store : S.State
  pub max_seen : Dict (Text × Text) Text
  pub prune_floor : Dict (Text × Text) ℕ

-- `_MAX_HINTS`
abbrev pub max_hints : ℕ
max_hints = 4096

-- A method that may raise; what it changed before stays changed.
abbrev pub Method : StoreLike Stored → Type 0 → Type 0
Method S B = Saver S → Result B × Saver S

module _ {V : Type 0} (L : Langgraph V) where
  unfoldable pub loads_checkpoint : Typed → Result (Checkpoint V)
  loads_checkpoint t = L.loads_typed t >>= λ o. elim o [
    | checkpoint c ↦ ok c
    | metadata m ↦ raise type_error
    | value v ↦ raise type_error
  ]

  unfoldable pub loads_metadata : Typed → Result (Metadata V)
  loads_metadata t = L.loads_typed t >>= λ o. elim o [
    | checkpoint c ↦ raise type_error
    | metadata m ↦ ok m
    | value v ↦ raise type_error
  ]

  unfoldable pub loads_value : Typed → Result V
  loads_value t = L.loads_typed t >>= λ o. elim o [
    | checkpoint c ↦ raise type_error
    | metadata m ↦ raise type_error
    | value v ↦ ok v
  ]
