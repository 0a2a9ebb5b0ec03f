-- ===== src/Saver/Measured/Plain.antt =====
-- python/swarmstate/integrations/langgraph.py: what the instrumentation changes of a method.
use mathlib.Core.Option
use swarmstate.Prelude.{
  ◌≡◌, refl, Bool, true, false, not, ◌&&◌, Option, none, some, is_some, if◌then◌else◌, arith,
  Bool-cases, inl, inr, ap,
}
use swarmstate.Prelude.Result.{Error, Result, ok, raise}
use swarmstate.Store.{StoreLike}
use swarmstate.Text.{Text}
use swarmstate.Observability.{MetricsSink}
use swarmstate.Saver.{Langgraph, Stored, Options, Saver}
use swarmstate.Saver.Measured.{
  Attributes, Tracer, Hooks, Request, Reply, error_of, report, start_span, finish_span, measure,
  in_span, guarded, perform, aperform, plain, aplain, op_of, thread_of, attrs_of,
}

module _ {V : Type 0} (L : Langgraph V) (o : Options) (S : StoreLike Stored) where
  -- The method that serves a request, without the instrumentation.
  abbrev pub served : Bool → Request V → Saver S → Result (Reply V) × Saver S
  served native q = if native then aplain L o S q else plain L o S q

module _ (T : Tracer) {F : Type 0} (M : MetricsSink F)
    (starts : (name : Text) (s : T.State) → (T.start name s).0 ≡ ok tt)
    (finishes : (e : Option Error) (s : T.State) → (T.finish e s).0 ≡ ok tt)
    (reports : (op : Text) (d : F) (t : Text) (b : Bool) (m : M.State)
      → (M.report op d t b m).0 ≡ ok tt) where
  -- The sink after one record.
  abbrev pub sunk : Text → F → Text → Bool → Option M.State → Option M.State
  sunk op d t b m = Option.map (λ s. (M.report op d t b s).1) m

  start_span-ok : (op : Text) (s : Option T.State) → (start_span T M op s).0 ≡ ok tt
  start_span-ok op none = refl
  start_span-ok op (some s) = starts _ s

  finish_span-ok : (e : Option Error) (s : Option T.State) → (finish_span T M e s).0 ≡ ok tt
  finish_span-ok e none = refl
  finish_span-ok e (some s) = finishes e s

  report-sunk :
      (op : Text) (d : F) (t : Text) (b : Bool) (m : Option M.State)
      → report T M op d t b m ≡ (ok tt, sunk op d t b m)
  report-sunk op d t b none = refl
  report-sunk op d t b (some m) = ap (λ r. (r, some (M.report op d t b m).1)) (reports op d t b m)

  sunk-none :
      (op : Text) (d : F) (t : Text) (b : Bool) (m : Option M.State)
      → is_some m ≡ false
      → m ≡ sunk op d t b m
  sunk-none op d t b none e = refl
  sunk-none op d t b (some m) e = absurd (ground (arith, e))

  module _ {A B : Type 0} where
    -- The instrumented block and the plain one.
    abbrev pub Agrees :
        Text → Text → F → (A → Result B × A) → A → Hooks T M → Result B × (A × Hooks T M) → Type 0
    Agrees op t d body a h p =
        (p.0 ≡ (body a).0)
        × (p.1.0 ≡ (body a).1)
        × (p.1.1.metrics ≡ sunk op d t (not (is_some (error_of (body a).0))) h.metrics)

    in_span-Agrees :
        (op t : Text) (attrs : Attributes) (d : F) (body : A → Result B × A) (a : A) (h : Hooks T M)
        (p : Result (Unit {0}) × Option T.State)
        → p.0 ≡ ok tt
        → Agrees op t d body a h (in_span T M op t attrs d body (a, h) p)
    unfolding in_span
    in_span-Agrees op t attrs d body a h (raise e, spans) q = absurd (ground (arith, q))
    in_span-Agrees op t attrs d body a h (ok u, spans) q =
        rw (report-sunk op d t (not (is_some (error_of (body a).0))) h.metrics)
          (rw (finish_span-ok) (refl, refl, refl))

    measure-Agrees :
        (op t : Text) (attrs : Attributes) (d : F) (body : A → Result B × A) (a : A) (h : Hooks T M)
        → Agrees op t d body a h (measure T M op t attrs d body (a, h))
    unfolding measure
    measure-Agrees op t attrs d body a h =
        in_span-Agrees op t attrs d body a h (start_span T M op h.tracer)
          (start_span-ok op h.tracer)

    guarded-Agrees :
        (op t : Text) (attrs : Attributes) (d : F) (body : A → Result B × A) (a : A) (h : Hooks T M)
        → Agrees op t d body a h (guarded T M op t attrs d body (a, h))
    unfolding guarded
    guarded-Agrees op t attrs d body a h =
        elim (Bool-cases (not (is_some h.metrics) && not (is_some h.tracer))) [
          | inl e ↦ rw e (
            refl,
            refl,
            sunk-none op d t (not (is_some (error_of (body a).0))) h.metrics (ground (arith, e)),
          )
          | inr e ↦ rw e (measure-Agrees op t attrs d body a h)
        ]

  module _ {V : Type 0} (L : Langgraph V) (o : Options) (S : StoreLike Stored) where
    -- With a sink whose `record` returns and a tracer whose spans open and close without an
    -- exception, or without either, an instrumented method returns, raises and changes what the
    -- plain one does, whatever the calls raise that set attributes or mark an error on the span;
    -- and the sink, if there is one, gets one record, with the operation, its thread and whether it
    -- returned.
    pub aperform-Agrees :
        (native : Bool) (q : Request V) (d : F) (st : Saver S) (h : Hooks T M)
        → Agrees
            (op_of L o S q)
            (thread_of L o S q)
            d
            (served L o S native q)
            st
            h
            (aperform L o S T M native q d (st, h))
    unfolding aperform perform
    aperform-Agrees true q d st h =
        guarded-Agrees (op_of L o S q) (thread_of L o S q) (attrs_of L o S q) d (aplain L o S q) st
          h
    aperform-Agrees false q d st h =
        guarded-Agrees (op_of L o S q) (thread_of L o S q) (attrs_of L o S q) d (plain L o S q) st h
