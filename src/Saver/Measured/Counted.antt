-- ===== src/Saver/Measured/Counted.antt =====
-- python/swarmstate/integrations/langgraph.py and observability.py: a saver that reports to an
-- in-memory sink, over any sequence of requests.
use mathlib.Core.Option
use mathlib.Core.Path.{ap₂}
use swarmstate.Prelude.{
  ℕ, ◌+◌, ◌≡◌, ◌∙◌, sym, refl, Bool, false, not, Option, none, some, List, [], ◌∷◌, is_some,
  if◌then◌else◌, arith, ap, Bool-cases, Option-cases, inl, inr, ltb, ◌==◌, ◌&&◌,
}
use swarmstate.Prelude.Dict.{Dict, find}
use swarmstate.Prelude.Result.{Error, Result, ok}
use swarmstate.Store.{StoreLike}
use swarmstate.Text.{Text, text_eq}
use swarmstate.Observability.{
  MetricsSink, Floats, InMemoryMetrics, Stats, in_memory_metrics, fresh, summary,
}
use swarmstate.Observability.Tallies.{Use, Call, used, recent, calls, failures, counts, reported}
use swarmstate.Observability.Summary.{summary-used}
use swarmstate.Saver.{Langgraph, Stored, Options, Saver}
use swarmstate.Saver.Measured.{
  Tracer, Hooks, Request, Reply, error_of, perform, aperform, op_of, thread_of,
}
use swarmstate.Saver.Measured.Plain.{Agrees, served, aperform-Agrees}

-- A request, to the sync method or the async one, and the time that it takes.
pub record Step (V F : Type 0) : Type 0 where
  pub request : Request V
  pub asynchronous : Bool
  pub elapsed : F

module _ {V F : Type 0} (L : Langgraph V) (o : Options) (S : StoreLike Stored) (native : Bool) where
  -- The requests for an operation, and those of them whose reply is an exception.
  unfoldable pub asked : Text → List (Step V F) → ℕ
  asked op [] = 0
  asked op (s ∷ steps) = (if op_of L o S s.request == op then 1 else 0) + asked op steps

  unfoldable pub raised : Text → List (Step V F) → List (Result (Reply V)) → ℕ
  raised op [] replies = 0
  raised op (s ∷ steps) [] = 0
  raised op (s ∷ steps) (r ∷ replies) =
      (if op_of L o S s.request == op then (if is_some (error_of r) then 1 else 0) else 0)
      + raised op steps replies

  -- The requests one after the other, without the instrumentation and with it.
  unfoldable pub serve_all : List (Step V F) → Saver S → List (Result (Reply V)) × Saver S
  serve_all [] st = ([], st)
  serve_all (s ∷ steps) st =
      let (r, st') = served L o S (s.asynchronous && native) s.request st in
      let (replies, last) = serve_all steps st' in (r ∷ replies, last)

  module _ (T : Tracer) (M : MetricsSink F) where
    unfoldable pub perform_all :
        List (Step V F) → Saver S × Hooks T M → List (Result (Reply V)) × (Saver S × Hooks T M)
    perform_all [] p = ([], p)
    perform_all (s ∷ steps) p =
        let (r, p') =
          (if s.asynchronous
            then aperform L o S T M native s.request s.elapsed p
            else perform L o S T M s.request s.elapsed p) in
        let (replies, last) = perform_all steps p' in (r ∷ replies, last)

module _ {V F : Type 0} (L : Langgraph V) (o : Options) (S : StoreLike Stored) (native : Bool)
    (T : Tracer) (N : Floats F) (starts : (name : Text) (s : T.State) → (T.start name s).0 ≡ ok tt)
    (finishes : (e : Option Error) (s : T.State) → (T.finish e s).0 ≡ ok tt) where
  abbrev sink : MetricsSink F
  sink = in_memory_metrics N

  -- The call of the sink for a step, by its reply.
  abbrev call_of : Step V F → Result (Reply V) → Call F
  call_of s r = record {
    op = op_of L o S s.request;
    duration_s = s.elapsed;
    thread_id = thread_of L o S s.request;
    succeeded = not (is_some (error_of r));
  }

  unfoldable uses_of : List (Step V F) → List (Result (Reply V)) → List (Use F)
  uses_of [] replies = []
  uses_of (s ∷ steps) [] = []
  uses_of (s ∷ steps) (r ∷ replies) = Use.recorded (call_of s r) ∷ uses_of steps replies

  -- The instrumented method of a step.
  abbrev performed : Step V F → Saver S × Hooks T sink → Result (Reply V) × (Saver S × Hooks T sink)
  performed s p =
      if s.asynchronous
      then aperform L o S T sink native s.request s.elapsed p
      else perform L o S T sink s.request s.elapsed p

  abbrev bare : Step V F → Saver S → Result (Reply V) × Saver S
  bare s st = served L o S (s.asynchronous && native) s.request st

  step-Agrees :
      (s : Step V F) (st : Saver S) (h : Hooks T sink)
      → Agrees T sink starts finishes
          (λ op d t b m. refl)
          (op_of L o S s.request)
          (thread_of L o S s.request)
          s.elapsed
          (bare s)
          st
          h
          (performed s (st, h))
  unfolding aperform
  step-Agrees s st h = elim (Bool-cases s.asynchronous) [
    | inl e ↦ rw e (
        aperform-Agrees T sink starts finishes (λ op d t b m. refl) L o S native s.request s.elapsed
          st h)
    | inr e ↦ rw e (
        aperform-Agrees T sink starts finishes (λ op d t b m. refl) L o S false s.request s.elapsed
          st h)
  ]

  map-used :
      (c : Call F) (uses : List (Use F)) (m : Option sink.State)
      → Option.map (used N (Use.recorded c ∷ uses)) m
        ≡ Option.map
            (used N uses)
            (Option.map (λ s. (sink.report c.op c.duration_s c.thread_id c.succeeded s).1) m)
  unfolding used
  map-used c uses none = refl
  map-used c uses (some m) = refl

  -- Every reply and the saver are as without the instrumentation, and the sink has every call.
  perform_all-serve_all :
      (steps : List (Step V F)) (st : Saver S) (h : Hooks T sink)
      → ((perform_all L o S native T sink steps (st, h)).0 ≡ (serve_all L o S native steps st).0)
        × ((perform_all L o S native T sink steps (st, h)).1.0
            ≡ (serve_all L o S native steps st).1)
        × ((perform_all L o S native T sink steps (st, h)).1.1.metrics
            ≡ Option.map (used N (uses_of steps (serve_all L o S native steps st).0)) h.metrics)
  unfolding perform_all serve_all uses_of used
  perform_all-serve_all [] st h =
      (refl, refl, elim (Option-cases h.metrics) [ inl e ↦ rw e refl | inr (m, e) ↦ rw e refl ])
  perform_all-serve_all (s ∷ steps) st h =
      let a = step-Agrees s st h in
      let p = performed s (st, h) in
      let ih = perform_all-serve_all steps p.1.0 p.1.1 in
      let after = (bare s st).1 in
      (
        ap₂ ◌∷◌ a.0 (ih.0 ∙ ap (λ x. (serve_all L o S native steps x).0) a.1),
        ih.1 ∙ ap (λ x. (serve_all L o S native steps x).1) a.1,
        ih.2
            ∙ ap₂ (λ x m. Option.map (used N (uses_of steps (serve_all L o S native steps x).0)) m)
                a.1 a.2
            ∙ sym (
                map-used (call_of s (bare s st).0)
                  (uses_of steps (serve_all L o S native steps after).0) h.metrics),
      )

  calls-uses_of :
      (op : Text) (steps : List (Step V F)) (st : Saver S) (cs : List (Call F))
      → calls op (recent N cs (uses_of steps (serve_all L o S native steps st).0))
        ≡ calls op cs + asked L o S native op steps
  unfolding uses_of recent calls asked serve_all
  calls-uses_of op [] st cs = omega arith
  calls-uses_of op (s ∷ steps) st cs =
      ground (arith, calls-uses_of op steps (bare s st).1 (call_of s (bare s st).0 ∷ cs))

  failures-uses_of :
      (op : Text) (steps : List (Step V F)) (replies : List (Result (Reply V))) (cs : List (Call F))
      → failures op (recent N cs (uses_of steps replies))
        ≡ failures op cs + raised L o S native op steps replies
  unfolding uses_of recent failures raised
  failures-uses_of op [] replies cs = omega arith
  failures-uses_of op (s ∷ steps) [] cs = omega arith
  failures-uses_of op (s ∷ steps) (r ∷ replies) cs =
      ground (arith, failures-uses_of op steps replies (call_of s r ∷ cs))

  -- What the summary says of an operation after the steps.
  abbrev pub expected : Text → List (Step V F) → List (Result (Reply V)) → Option (ℕ × ℕ)
  expected op steps replies =
      if ltb 0 (asked L o S native op steps)
      then some (asked L o S native op steps, raised L o S native op steps replies)
      else none

  reported-uses_of :
      (op : Text) (steps : List (Step V F)) (st : Saver S)
      → reported op (recent N [] (uses_of steps (serve_all L o S native steps st).0))
        ≡ expected op steps (serve_all L o S native steps st).0
  unfolding calls failures
  reported-uses_of op steps st =
      ap₂ (λ n m. if ltb 0 n then some (n, m) else none)
        (ground (arith, calls-uses_of op steps st []))
        (ground (arith, failures-uses_of op steps (serve_all L o S native steps st).0 []))

  -- A saver with an in-memory sink serves any sequence of puts, pending writes and reads, by the
  -- sync methods or the async ones, under any tracer, or none, whose spans open and close without
  -- an exception. Every reply, exceptions included, and the saver are as without the
  -- instrumentation; and `summary` then returns and counts, for each operation that was asked for,
  -- the requests and those whose reply is an exception, and has no entry for another operation,
  -- where the mean and the median of samples that are not empty return.
  pub summary-perform_all :
      (mean : (x : F) (xs : List F) → (y : F) × (N.fmean (x ∷ xs) ≡ ok y))
      (middle : (x : F) (xs : List F) → (y : F) × (N.median (x ∷ xs) ≡ ok y))
      (steps : List (Step V F)) (st : Saver S) (spans : Option T.State)
      → let p =
          perform_all L o S native T sink steps
            (st, record { tracer = spans; metrics = some (fresh N) }) in
        let q = serve_all L o S native steps st in
        (p.0 ≡ q.0)
        × (p.1.0 ≡ q.1)
        × (m : InMemoryMetrics F) × (p.1.1.metrics ≡ some m)
        × (res : Dict Text (Stats F)) × (summary N m ≡ ok res)
        × ((op : Text) → Option.map counts (find op res) ≡ expected op steps q.0)
  summary-perform_all mean middle steps st spans =
      let (a, b, c) =
        perform_all-serve_all steps st (record { tracer = spans; metrics = some (fresh N) }) in
      let uses = uses_of steps (serve_all L o S native steps st).0 in
      let (res, p, t) = summary-used N mean middle uses in
      (a, b, used N uses (fresh N), c, res, p, λ op. t op ∙ reported-uses_of op steps st)
