-- ===== src/Observability.antt =====
-- python/swarmstate/observability.py: the metrics sinks, and what a tracer is for the saver.
pub mod Tallies
pub mod Summary
use swarmstate.Prelude.{
  ℕ, zero, suc, ◌+◌, ◌-◌, Bool, true, false, Option, none, some, List, [], ◌∷◌, length, get_or,
  if◌then◌else◌,
}
use Prim.Native.Nat.{max, min}
use swarmstate.Prelude.Dict.{Dict, find, insert}
use swarmstate.Prelude.Group.{append_at}
use swarmstate.Prelude.Result.{Error, Result, ok, raise, index_error, ◌>>=◌}
use swarmstate.Prelude.Sort.{sort}
use swarmstate.Text.{Text, text_eq}

-- Python's floats and the functions of `statistics` on them.
pub record Floats (F : Type 0) : Type 0 where
  -- `seconds * 1000.0`
  pub milliseconds : F → F
  pub below : F → F → Bool
  pub fmean : List F → Result F
  pub median : List F → Result F
  -- `round(x, 5)`
  pub round5 : F → F
  -- `round(0.99 * n)`
  pub rank : ℕ → ℕ

-- `MetricsSink`: `record` may raise, and what it changed before stays changed.
pub record MetricsSink (F : Type 0) : Type 1 where
  pub State : Type 0
  pub report : Text → F → Text → Bool → State → Result (Unit {0}) × State

module _ {F : Type 0} where
  -- `NullMetrics`
  abbrev pub null_metrics : MetricsSink F
  null_metrics = record {
    State = Unit {0};
    report = λ op duration_s thread_id succeeded s. (ok tt, s);
  }

-- `OpenTelemetryMetrics`: a histogram and a counter of the meter, whose calls may raise.
pub record Meter (F : Type 0) : Type 1 where
  pub State : Type 0
  pub record_duration : F → Text × Bool → State → Result (Unit {0}) × State
  pub add : ℕ → Text × Bool → State → Result (Unit {0}) × State

module _ {F : Type 0} (M : Floats F) (meter : Meter F) where
  unfoldable pub then_add :
      Text × Bool → Result (Unit {0}) × meter.State → Result (Unit {0}) × meter.State
  then_add attrs (raise e, s) = (raise e, s)
  then_add attrs (ok u, s) = meter.add 1 attrs s

  abbrev pub open_telemetry_metrics : MetricsSink F
  open_telemetry_metrics = record {
    State = meter.State;
    report = λ op duration_s thread_id succeeded s.
        then_add (op, succeeded)
          (meter.record_duration (M.milliseconds duration_s) (op, succeeded) s);
  }

pub record InMemoryMetrics (F : Type 0) : Type 0 where
  pub samples : Dict Text (List F)
  pub errors : Dict Text ℕ

-- One entry of a summary.
pub record Stats (F : Type 0) : Type 0 where
  pub count : ℕ
  pub errors : ℕ
  pub mean_ms : F
  pub p50_ms : F
  pub p99_ms : F

-- `s[i]`
unfoldable pub item {ℓ} : {A : Type ℓ} → List A → ℕ → Result A
item [] i = raise index_error
item (x ∷ xs) zero = ok x
item (x ∷ xs) (suc i) = item xs i

module _ {F : Type 0} (M : Floats F) where
  abbrev pub fresh : InMemoryMetrics F
  fresh = record { samples = []; errors = [] }

  -- `record`
  unfoldable pub measure : Text → F → Bool → InMemoryMetrics F → InMemoryMetrics F
  measure op duration_s succeeded m = record {
    samples = append_at op (M.milliseconds duration_s) m.samples;
    errors = (if succeeded then m.errors else insert op (get_or (find op m.errors) 0 + 1) m.errors);
  }

  -- the index of the 99th percentile in a sorted list
  abbrev pub p99_index : ℕ → ℕ
  p99_index n = min (n - 1) (max 0 (M.rank n - 1))

  -- the body of the loop of `summary`, for the sorted samples `s`; of an empty list `s[-1]` is
  -- taken, which raises as `s[0]` does
  unfoldable pub stats : ℕ → List F → Result (Stats F)
  stats errors s = do
    p99 ← item s (p99_index (length s))
    mean ← M.fmean s
    p50 ← M.median s
    ok (record {
      count = length s;
      errors = errors;
      mean_ms = M.round5 mean;
      p50_ms = M.round5 p50;
      p99_ms = M.round5 p99;
    })

  unfoldable pub summarize :
      Dict Text ℕ → Dict Text (List F) → Dict Text (Stats F) → Result (Dict Text (Stats F))
  summarize errors [] out = ok out
  summarize errors ((op, ms) ∷ samples) out =
      stats (get_or (find op errors) 0) (sort M.below ms) >>= λ entry.
      summarize errors samples (insert op entry out)

  -- `summary`
  unfoldable pub summary : InMemoryMetrics F → Result (Dict Text (Stats F))
  summary m = summarize m.errors m.samples []

  -- `reset`
  unfoldable pub reset : InMemoryMetrics F → InMemoryMetrics F
  reset m = fresh

  abbrev pub in_memory_metrics : MetricsSink F
  in_memory_metrics = record {
    State = InMemoryMetrics F;
    report = λ op duration_s thread_id succeeded m. (ok tt, measure op duration_s succeeded m);
  }
