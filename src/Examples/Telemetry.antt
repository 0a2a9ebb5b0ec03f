-- ===== src/Examples/Telemetry.antt =====
-- The theorems about the metrics and the instrumentation of a saver, at concrete inputs: numbers
-- for floats, and a tracer that counts its calls.
use mathlib.Core.Option
use swarmstate.Prelude.{
  ℕ, suc, ◌+◌, ◌*◌, ◌/◌, ◌≡◌, refl, Bool, true, false, none, some, List, [], ◌∷◌, ltb,
}
use swarmstate.Prelude.Dict.{Dict, find}
use swarmstate.Prelude.Result.{Result, ok, raise, value_error}
use swarmstate.Text.{Text, text_eq}
use swarmstate.Observability.{
  Floats, MetricsSink, InMemoryMetrics, Stats, in_memory_metrics, fresh, summary,
}
use swarmstate.Observability.Tallies.{Use, Call, used, recent, counts, reported}
use swarmstate.Observability.Summary.{summary-used}
use swarmstate.Saver.Measured.{Tracer, Hooks, Request, op_of, thread_of, aperform, put_op}
use swarmstate.Saver.Measured.Plain.{Agrees, served, aperform-Agrees}
use swarmstate.Saver.Measured.Counted.{Step, expected, perform_all, serve_all, summary-perform_all}
use swarmstate.Examples.Format.{text_langgraph}
use swarmstate.Examples.Saving.{store, fresh as fresh_saver, thread, cp1, md, options}

abbrev first : List ℕ → Result ℕ
first [] = raise value_error
first (x ∷ xs) = ok x

abbrev numbers : Floats ℕ
numbers = record {
  milliseconds = λ x. x * 1000;
  below = ltb;
  fmean = first;
  median = first;
  round5 = λ x. x;
  rank = λ n. (99 * n + 50) / 100;
}

first-returns : (x : ℕ) (xs : List ℕ) → (y : ℕ) × (first (x ∷ xs) ≡ ok y)
first-returns x xs = (x, refl)

abbrev call : Bool → Call ℕ
call b = record { op = put_op; duration_s = 3; thread_id = thread.thread_id; succeeded = b }

-- Two calls, one of which failed, after a `reset`.
abbrev uses : List (Use ℕ)
uses =
    Use.recorded (call true)
    ∷ Use.cleared
    ∷ Use.recorded (call false)
    ∷ Use.recorded (call true)
    ∷ []

summary-used_example :
    (res : Dict Text (Stats ℕ)) × (summary numbers (used numbers uses (fresh numbers)) ≡ ok res)
    × ((op : Text) → Option.map counts (find op res) ≡ reported op (recent numbers [] uses))
summary-used_example = summary-used numbers first-returns first-returns uses

-- A tracer that counts its calls.
abbrev counting : Tracer
counting = record {
  State = ℕ;
  start = λ name s. (ok tt, suc s);
  set_attribute = λ key v s. (raise value_error, suc s);
  record_exception = λ e s. (ok tt, suc s);
  set_status = λ e s. (ok tt, suc s);
  finish = λ e s. (ok tt, suc s);
}

abbrev sink : MetricsSink ℕ
sink = in_memory_metrics numbers

abbrev hooks : Hooks counting sink
hooks = record { tracer = some 0; metrics = some (fresh numbers) }

abbrev to_put : Request Text
to_put = Request.to_put thread cp1 md []

-- A configuration without the id of a checkpoint raises a `KeyError` in `put_writes`.
abbrev to_write : Request Text
to_write = Request.to_write (record thread { checkpoint_id = none }) [] (107 ∷ []) []

aperform-Agrees_example :
    Agrees counting sink
      (λ name s. refl)
      (λ e s. refl)
      (λ op d t b m. refl)
      (op_of text_langgraph options store to_put)
      (thread_of text_langgraph options store to_put)
      3
      (served text_langgraph options store true to_put)
      fresh_saver
      hooks
      (aperform text_langgraph options store counting sink true to_put 3 (fresh_saver, hooks))
aperform-Agrees_example =
    aperform-Agrees counting sink (λ name s. refl) (λ e s. refl) (λ op d t b m. refl) text_langgraph
      options store true to_put 3 fresh_saver hooks

abbrev steps : List (Step Text ℕ)
steps =
    record { request = to_put; asynchronous = false; elapsed = 3 }
    ∷ record { request = to_write; asynchronous = true; elapsed = 1 }
    ∷ record { request = Request.to_get thread; asynchronous = true; elapsed = 2 }
    ∷ []

summary-perform_all_example :
    let p =
      perform_all text_langgraph options store true counting sink steps (fresh_saver, hooks) in
    let q = serve_all text_langgraph options store true steps fresh_saver in
    (p.0 ≡ q.0)
    × (p.1.0 ≡ q.1)
    × (m : InMemoryMetrics ℕ) × (p.1.1.metrics ≡ some m)
    × (res : Dict Text (Stats ℕ)) × (summary numbers m ≡ ok res)
    × ((op : Text)
        → Option.map counts (find op res)
          ≡ expected text_langgraph options store true counting numbers
              (λ name s. refl)
              (λ e s. refl)
              op
              steps
              q.0)
summary-perform_all_example =
    summary-perform_all text_langgraph options store true counting numbers (λ name s. refl)
      (λ e s. refl) first-returns first-returns steps fresh_saver (some 0)
