-- ===== src/Observability/Summary.antt =====
-- python/swarmstate/observability.py: `InMemoryMetrics.summary` after any use of the sink.
use mathlib.Core.Option
use swarmstate.Prelude.{
  ℕ, ◌≡◌, ◌∙◌, ap, refl, arith, false, Option, none, some, List, [], ◌∷◌, length, inl, inr, get_or,
  or_else, ◌==◌, is_nil, Bool-cases, Option-cases, contains, IsDistinct,
}
use swarmstate.Prelude.Dict.{Dict, find, insert, keys, find-insert, contains-keys}
use swarmstate.Prelude.Result.{ok, ◌>>=◌}
use swarmstate.Prelude.Sort.{sort}
use swarmstate.Text.{Text, text_eq}
use swarmstate.Observability.{
  Floats, InMemoryMetrics, Stats, fresh, p99_index, stats, summarize, summary,
}
use swarmstate.Observability.Tallies.{
  Call, Use, used, recent, reported, counts, sampled, Tallies, length-sort, item_in, fresh-Tallies,
  used-Tallies,
}

module _ {F : Type 0} (M : Floats F)
    (mean : (x : F) (xs : List F) → (y : F) × (M.fmean (x ∷ xs) ≡ ok y))
    (middle : (x : F) (xs : List F) → (y : F) × (M.median (x ∷ xs) ≡ ok y)) where
  -- The entry of an operation that has a sample.
  stats-counts :
      (errors : ℕ) (s : List F)
      → is_nil s ≡ false
      → (entry : Stats F) × (stats M errors s ≡ ok entry) × (counts entry ≡ (length s, errors))
  unfolding stats
  stats-counts errors [] h = absurd (ground arith)
  stats-counts errors (x ∷ xs) h =
      let (p99, p) = item_in (x ∷ xs) (p99_index M (length (x ∷ xs))) (ground arith) in
      let (y, q) = mean x xs in
      let (z, r) = middle x xs in
      (
        record {
          count = length (x ∷ xs);
          errors = errors;
          mean_ms = M.round5 y;
          p50_ms = M.round5 z;
          p99_ms = M.round5 p99;
        },
        rw p (rw q (rw r refl)),
        refl,
      )

  is_nil-sort : (ms : List F) → is_nil ms ≡ false → is_nil (sort M.below ms) ≡ false
  is_nil-sort ms h = ground (arith, length-sort M.below ms)

  -- What a summary says of an operation.
  abbrev tally : Dict Text ℕ → Text → Option (List F) → Option (ℕ × ℕ)
  tally errors op none = none
  tally errors op (some ms) = some (length ms, get_or (find op errors) 0)

  tally-head :
      (errors : Dict Text ℕ) (op : Text) (ms : List F) (samples : Dict Text (List F))
      (out : Dict Text (Stats F)) (entry : Stats F)
      → contains op (keys samples) ≡ false
      → counts entry ≡ (length (sort M.below ms), get_or (find op errors) 0)
      → (j : Text)
      → or_else (tally errors j (find j samples)) (Option.map counts (find j (insert op entry out)))
        ≡ or_else (tally errors j (find j ((op, ms) ∷ samples))) (Option.map counts (find j out))
  unfolding find
  tally-head errors op ms samples out entry d q j = elim (Bool-cases (op == j)) [
    | inl e ↦ ground (
      arith,
      e,
      q,
      d,
      contains-keys op samples,
      find-insert op j entry out,
      length-sort M.below ms,
      text_eq.beq_iff op j,
    )
    | inr e ↦ rw e (rw (find-insert op j entry out, e) refl)
  ]

  summarize-counts :
      (errors : Dict Text ℕ) (samples : Dict Text (List F)) (out : Dict Text (Stats F))
      → IsDistinct (keys samples)
      → ((op : Text) (ms : List F) → find op samples ≡ some ms → is_nil ms ≡ false)
      → (res : Dict Text (Stats F)) × (summarize M errors samples out ≡ ok res)
        × ((op : Text)
            → Option.map counts (find op res)
              ≡ or_else (tally errors op (find op samples)) (Option.map counts (find op out)))
  unfolding summarize find
  summarize-counts errors [] out d h = (out, refl, λ op. refl)
  summarize-counts errors ((op, ms) ∷ samples) out d h =
      let (entry, p, q) =
        stats-counts (get_or (find op errors) 0) (sort M.below ms)
          (is_nil-sort ms (h op ms (ground (arith, text_eq.beq_iff op op)))) in
      let (res, r, t) = summarize-counts errors samples (insert op entry out) d.1 (λ j vs e.
        h j vs (ground (arith, e, contains-keys op samples, d.0, text_eq.beq_iff op j))) in
      (
        res,
        ap (λ r. r >>= λ e. summarize M errors samples (insert op e out)) p ∙ r,
        λ j. t j ∙ tally-head errors op ms samples out entry d.0 q j,
      )

  tally-reported :
      (m : InMemoryMetrics F) (cs : List (Call F))
      → Tallies m cs
      → (op : Text) → or_else (tally m.errors op (find op m.samples)) none ≡ reported op cs
  tally-reported m cs h op = elim (Option-cases (find op m.samples)) [
    | inl e ↦ rw e (ground (arith, ap (λ o. sampled o) e, h.tallied op))
    | inr (ms, e) ↦
        rw e (ground (arith, ap (λ o. sampled o) e, h.tallied op, h.failed op, h.nonempty op ms e))
  ]

  -- After any calls of `record` and `reset` on a fresh `InMemoryMetrics`, `summary` returns, where
  -- the mean and the median of samples that are not empty do: the index of the 99th percentile is
  -- always in range. For each operation it reports how many calls there were since the last `reset`
  -- and how many of them failed, and no entry for an operation without one.
  pub summary-used :
      (uses : List (Use F))
      → (res : Dict Text (Stats F)) × (summary M (used M uses (fresh M)) ≡ ok res)
        × ((op : Text) → Option.map counts (find op res) ≡ reported op (recent M [] uses))
  unfolding summary find
  summary-used uses =
      let m = used M uses (fresh M) in
      let h = used-Tallies M uses (fresh M) [] (fresh-Tallies M) in
      let (res, p, t) = summarize-counts m.errors m.samples [] h.distinct h.nonempty in
      (res, p, λ op. t op ∙ tally-reported m (recent M [] uses) h op)
