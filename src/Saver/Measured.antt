-- ===== src/Saver/Measured.antt =====
-- python/swarmstate/integrations/langgraph.py: the instrumentation of a method of the saver, by
-- `_measure`, and the methods that are instrumented, by the sync and by the async path.
pub mod Plain
pub mod Counted
use mathlib.Core.Option
use swarmstate.Prelude.{
  ℕ, Bool, true, false, not, ◌&&◌, Option, none, some, List, [], ◌∷◌, ◌++◌, length, is_some,
  if◌then◌else◌,
}
use swarmstate.Prelude.Result.{Error, Result, ok, raise}
use swarmstate.Store.{StoreLike}
use swarmstate.Text.{Text}
use swarmstate.Observability.{MetricsSink}
use swarmstate.Saver.{
  Config, ns_of, Checkpoint, Metadata, Langgraph, Stored, CheckpointTuple, Options, Saver, Method,
}
use swarmstate.Saver.Put.{put}
use swarmstate.Saver.Writes.{put_writes, aput_writes}
use swarmstate.Saver.Resolve.{get_tuple}
use swarmstate.Saver.Async.{aput, aget_tuple}

-- The value of a span's attribute.
pub data Attribute : Type 0 where
  text : Text → Attribute
  flag : Bool → Attribute
  number : ℕ → Attribute

abbrev pub Attributes : Type 0
Attributes = List (Text × Option Attribute)

-- An OpenTelemetry tracer, and the span that is current: every call may raise.
pub record Tracer : Type 1 where
  pub State : Type 0
  -- `start_as_current_span(name)`, entered
  pub start : Text → State → Result (Unit {0}) × State
  pub set_attribute : Text → Attribute → State → Result (Unit {0}) × State
  pub record_exception : Error → State → Result (Unit {0}) × State
  -- `set_status(Status(StatusCode.ERROR, str(exc)))`
  pub set_status : Error → State → Result (Unit {0}) × State
  -- the span is left, with the exception that leaves it
  pub finish : Option Error → State → Result (Unit {0}) × State

-- "swarmstate."
abbrev prefix : Text
prefix = 115 ∷ 119 ∷ 97 ∷ 114 ∷ 109 ∷ 115 ∷ 116 ∷ 97 ∷ 116 ∷ 101 ∷ 46 ∷ []

-- "swarmstate.checkpoint."
abbrev checkpoint_prefix : Text
checkpoint_prefix =
    115 ∷ 119 ∷ 97 ∷ 114 ∷ 109 ∷ 115 ∷ 116 ∷ 97 ∷ 116 ∷ 101 ∷ 46 ∷ 99 ∷ 104 ∷ 101 ∷ 99 ∷ 107 ∷ 112
    ∷ 111 ∷ 105 ∷ 110 ∷ 116 ∷ 46 ∷ []

-- "put"
abbrev pub put_op : Text
put_op = 112 ∷ 117 ∷ 116 ∷ []

-- "put_writes"
abbrev pub put_writes_op : Text
put_writes_op = 112 ∷ 117 ∷ 116 ∷ 95 ∷ 119 ∷ 114 ∷ 105 ∷ 116 ∷ 101 ∷ 115 ∷ []

-- "get_tuple"
abbrev pub get_tuple_op : Text
get_tuple_op = 103 ∷ 101 ∷ 116 ∷ 95 ∷ 116 ∷ 117 ∷ 112 ∷ 108 ∷ 101 ∷ []

-- "thread_id"
abbrev thread_id_key : Text
thread_id_key = 116 ∷ 104 ∷ 114 ∷ 101 ∷ 97 ∷ 100 ∷ 95 ∷ 105 ∷ 100 ∷ []

-- "checkpoint_ns"
abbrev checkpoint_ns_key : Text
checkpoint_ns_key = 99 ∷ 104 ∷ 101 ∷ 99 ∷ 107 ∷ 112 ∷ 111 ∷ 105 ∷ 110 ∷ 116 ∷ 95 ∷ 110 ∷ 115 ∷ []

-- "checkpoint_id"
abbrev checkpoint_id_key : Text
checkpoint_id_key = 99 ∷ 104 ∷ 101 ∷ 99 ∷ 107 ∷ 112 ∷ 111 ∷ 105 ∷ 110 ∷ 116 ∷ 95 ∷ 105 ∷ 100 ∷ []

-- "incremental"
abbrev incremental_key : Text
incremental_key = 105 ∷ 110 ∷ 99 ∷ 114 ∷ 101 ∷ 109 ∷ 101 ∷ 110 ∷ 116 ∷ 97 ∷ 108 ∷ []

-- "task_id"
abbrev task_id_key : Text
task_id_key = 116 ∷ 97 ∷ 115 ∷ 107 ∷ 95 ∷ 105 ∷ 100 ∷ []

-- "writes"
abbrev writes_key : Text
writes_key = 119 ∷ 114 ∷ 105 ∷ 116 ∷ 101 ∷ 115 ∷ []

-- The exception that leaves a block.
abbrev pub error_of {ℓ} : {B : Type ℓ} → Result B → Option Error
error_of (raise e) = some e
error_of (ok b) = none

-- An exception of a clean-up takes the place of the result.
abbrev pub instead {ℓ} : {B : Type ℓ} → Result (Unit {0}) → Result B → Result B
instead (raise e) r = raise e
instead (ok u) r = r

module _ (T : Tracer) {F : Type 0} (M : MetricsSink F) where
  -- `self._tracer` and `self._metrics`, with their states
  pub record Hooks : Type 0 where
    pub tracer : Option T.State
    pub metrics : Option M.State

  -- the loop over the attributes; its first exception ends it and is dropped
  unfoldable pub set_attributes : Attributes → T.State → T.State
  set_attributes [] s = s
  set_attributes ((key, none) ∷ attrs) s = set_attributes attrs s
  set_attributes ((key, some v) ∷ attrs) s =
      let (r, s') = T.set_attribute (prefix ++ key) v s in
      let rest = set_attributes attrs s' in elim r [ raise e ↦ s' | ok u ↦ rest ]

  -- `_mark_span_error`: what either call raises is dropped
  unfoldable pub mark_span_error : Error → T.State → T.State
  mark_span_error e s = (T.set_status e (T.record_exception e s).1).1

  abbrev pub start_span : Text → Option T.State → Result (Unit {0}) × Option T.State
  start_span op none = (ok tt, none)
  start_span op (some s) = let (r, s') = T.start (checkpoint_prefix ++ op) s in (r, some s')

  abbrev pub finish_span : Option Error → Option T.State → Result (Unit {0}) × Option T.State
  finish_span e none = (ok tt, none)
  finish_span e (some s) = let (r, s') = T.finish e s in (r, some s')

  abbrev pub report : Text → F → Text → Bool → Option M.State → Result (Unit {0}) × Option M.State
  report op elapsed thread_id succeeded none = (ok tt, none)
  report op elapsed thread_id succeeded (some m) =
      let (r, m') = M.report op elapsed thread_id succeeded m in (r, some m')

  abbrev pub mark : Option Error → Option T.State → Option T.State
  mark none spans = spans
  mark (some e) spans = Option.map (mark_span_error e) spans

  module _ {A B : Type 0} where
    -- the block under the span, which was entered or not
    unfoldable pub in_span :
        Text
        → Text
        → Attributes
        → F
        → (A → Result B × A)
        → A × Hooks
        → Result (Unit {0}) × Option T.State
        → Result B × (A × Hooks)
    in_span op thread_id attrs elapsed body (a, h) (raise e, spans) =
        (raise e, (a, record h { tracer = spans }))
    in_span op thread_id attrs elapsed body (a, h) (ok u, spans) =
        let opened = Option.map (set_attributes attrs) spans in
        let (r, a') = body a in
        let marked = mark (error_of r) opened in
        let (reported, metrics) =
          report op elapsed thread_id (not (is_some (error_of r))) h.metrics in
        let (finished, closed) = finish_span (error_of (instead reported r)) marked in
        (instead finished (instead reported r), (a', record { tracer = closed; metrics = metrics }))

    -- `_measure`, around a block that takes the time `elapsed`
    unfoldable pub measure :
        Text → Text → Attributes → F → (A → Result B × A) → A × Hooks → Result B × (A × Hooks)
    measure op thread_id attrs elapsed body (a, h) =
        in_span op thread_id attrs elapsed body (a, h) (start_span op h.tracer)

    -- the guard of an instrumented method
    unfoldable pub guarded :
        Text → Text → Attributes → F → (A → Result B × A) → A × Hooks → Result B × (A × Hooks)
    guarded op thread_id attrs elapsed body (a, h) =
        if not (is_some h.metrics) && not (is_some h.tracer)
        then (let (r, a') = body a in (r, (a', h)))
        else measure op thread_id attrs elapsed body (a, h)

-- `_get_attrs`, for the id that LangGraph finds in the configuration
abbrev pub get_attrs : Config → Option Text → Attributes
get_attrs c id =
    (thread_id_key, some (Attribute.text c.thread_id))
    ∷ (checkpoint_ns_key, some (Attribute.text (ns_of c)))
    ∷ (checkpoint_id_key, Option.map Attribute.text id)
    ∷ []

module _ {V : Type 0} (o : Options) where
  -- `_put_attrs`
  abbrev pub put_attrs : Config → Checkpoint V → Attributes
  put_attrs c cp =
      get_attrs c (some cp.id) ++ ((incremental_key, some (Attribute.flag o.incremental)) ∷ [])

  -- `_writes_attrs`
  abbrev pub writes_attrs : Config → List (Text × V) → Text → Attributes
  writes_attrs c writes task_id =
      get_attrs c c.checkpoint_id
      ++ ((task_id_key, some (Attribute.text task_id))
          ∷ (writes_key, some (Attribute.number (length writes)))
          ∷ [])

-- A call of a method that is instrumented, and what it returns.
pub data Request (V : Type 0) : Type 0 where
  to_put : Config → Checkpoint V → Metadata V → List (Text × Text) → Request V
  to_write : Config → List (Text × V) → Text → Text → Request V
  to_get : Config → Request V

pub data Reply (V : Type 0) : Type 0 where
  stored : Config → Reply V
  written : Reply V
  found : Option (CheckpointTuple V) → Reply V

module _ {V : Type 0} (L : Langgraph V) (o : Options) (S : StoreLike Stored) where
  abbrev reply : {B : Type 0} → (B → Reply V) → Result B × Saver S → Result (Reply V) × Saver S
  reply f (raise e, st) = (raise e, st)
  reply f (ok b, st) = (ok (f b), st)

  -- The method without the instrumentation: `_put_impl`, `_put_writes_impl`, `_get_tuple_impl`.
  unfoldable pub plain : Request V → Method S (Reply V)
  plain (to_put c cp md versions) st = reply stored (put L o S c cp md versions st)
  plain (to_write c writes task_id path) st =
      reply (λ u. written) (put_writes L S c writes task_id path st)
  plain (to_get c) st = reply found (get_tuple L S o c st)

  -- `_aput_impl`, `_aput_writes_impl`, `_aget_tuple_impl`
  unfoldable pub aplain : Request V → Method S (Reply V)
  aplain (to_put c cp md versions) st = reply stored (aput L S o c cp md versions st)
  aplain (to_write c writes task_id path) st =
      reply (λ u. written) (aput_writes L S c writes task_id path st)
  aplain (to_get c) st = reply found (aget_tuple L S o c st)

  abbrev pub op_of : Request V → Text
  op_of (to_put c cp md versions) = put_op
  op_of (to_write c writes task_id path) = put_writes_op
  op_of (to_get c) = get_tuple_op

  abbrev pub thread_of : Request V → Text
  thread_of (to_put c cp md versions) = c.thread_id
  thread_of (to_write c writes task_id path) = c.thread_id
  thread_of (to_get c) = c.thread_id

  abbrev pub attrs_of : Request V → Attributes
  attrs_of (to_put c cp md versions) = put_attrs o c cp
  attrs_of (to_write c writes task_id path) = writes_attrs o c writes task_id
  attrs_of (to_get c) = get_attrs c (L.get_checkpoint_id c)

  module _ (T : Tracer) {F : Type 0} (M : MetricsSink F) where
    -- `put`, `put_writes`, `get_tuple`
    unfoldable pub perform :
        Request V → F → Saver S × Hooks T M → Result (Reply V) × (Saver S × Hooks T M)
    perform q elapsed = guarded T M (op_of q) (thread_of q) (attrs_of q) elapsed (plain q)

    -- `aput`, `aput_writes`, `aget_tuple`: `native` tells whether the store is async
    unfoldable pub aperform :
        Bool → Request V → F → Saver S × Hooks T M → Result (Reply V) × (Saver S × Hooks T M)
    aperform native q elapsed =
        if not native
        then perform q elapsed
        else guarded T M (op_of q) (thread_of q) (attrs_of q) elapsed (aplain q)
