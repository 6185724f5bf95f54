-- ===== src/Cicd/Gates/Verdict.antt =====
-- When a performance gate of internal/cicd/gates.go passes.
use redis_meter.Base.{
  Bool, true, false, not, ◌&&◌, ◌||◌, Option, none, some, List, [], ◌∷◌, map, ◌≡◌, ◌↔◌, refl, sym,
  ap, ◌∙◌, if◌then◌else◌, All, arith, inl, inr, Option-cases,
}
use redis_meter.Analysis.Model.{Arithmetic, SummaryMetrics, BenchmarkRun}
use redis_meter.Analysis.Comparison.{RunComparison, percent_change, compare_metrics, compare}
use redis_meter.Base.Dict.{get}
use redis_meter.Cicd.Gates.Tables.{metrics, relations, actual_value_lem, compare_value_lem}
use redis_meter.Cicd.Gates.{
  GateCheck, BaselineReference, PerformanceGate, GateResult, actual_value, evaluate_check,
  evaluate_checks, gate_result, evaluate_gate, evaluate, deviation_limit, check_latencies,
  check_baseline_deviation, with_comparison, compared_with, evaluate_with_baseline,
}

module _ (F : Arithmetic) where
  -- The table of metrics has the check's metric, and the table of relations says that its value
  -- stands in the relation that the operator names to the threshold.
  abbrev pub Meets : SummaryMetrics F → GateCheck F → Type 0
  Meets s c =
      (v : F.Float) × (get (metrics F s) c.metric ≡ some v)
      × (get (relations F v c.value) c.operator ≡ some true)

  check-Meets :
      (s : SummaryMetrics F) (c : GateCheck F) → (evaluate_check F s c).passed ≡ true ↔ Meets s c
  unfolding evaluate_check
  check-Meets s c = (
    λ e. elim (Option-cases (actual_value F s c.metric)) [
      | inl x ↦ absurd (ground (arith, e, x))
      | inr (v, x) ↦ (
        v,
        sym (actual_value_lem F s c.metric) ∙ x,
        (compare_value_lem F v c.value c.operator).0 (ground (arith, e, x)),
      )
    ],
    λ (v, x, y).
        let found = actual_value_lem F s c.metric ∙ x in
        rw (found, evaluate_check) ((compare_value_lem F v c.value c.operator).1 y),
  )

  still_passes :
      (p r b : Bool) → (if not p && r then false else b) ≡ true → (b ≡ true) × (r ≡ true → p ≡ true)
  still_passes p r b e = (ground (arith, e), λ h. ground (arith, e, h))

  passes_still :
      (p r b : Bool) → b ≡ true → (r ≡ true → p ≡ true) → (if not p && r then false else b) ≡ true
  passes_still p true b e h = ground (arith, e, h refl)
  passes_still p false b e h = ground (arith, e)

  passed-evaluate_checks :
      (s : SummaryMetrics F) (cs : List (GateCheck F)) (b : Bool)
      → (evaluate_checks F s cs b).0 ≡ true
        ↔ (b ≡ true) × All (λ c. c.required ≡ true → Meets s c) cs
  unfolding evaluate_checks
  passed-evaluate_checks s [] b = (λ e. (e, tt), λ h. h.0)
  passed-evaluate_checks s (c ∷ cs) b =
      let (to, from) = passed-evaluate_checks s cs _ in
      (
        λ e.
            let (a, h) = to e in
            let (x, y) = still_passes (evaluate_check F s c).passed c.required b a in
            (x, ((λ r. (check-Meets s c).0 (y r)), h)),
        λ (e, (h, hs)). from (
          passes_still (evaluate_check F s c).passed c.required b e
              (λ r. (check-Meets s c).1 (h r)),
          hs,
        ),
      )

  results-evaluate_checks :
      (s : SummaryMetrics F) (cs : List (GateCheck F)) (b : Bool)
      → (evaluate_checks F s cs b).1 ≡ map (evaluate_check F s) cs
  unfolding evaluate_checks
  results-evaluate_checks s [] b = refl
  results-evaluate_checks s (c ∷ cs) b =
      ap (λ rs. evaluate_check F s c ∷ rs) (results-evaluate_checks s cs _)

  -- A gate passes exactly if the run has a summary and each required check names a metric of the table
  -- of metrics and an operator of the table of relations, and the metric's value stands in that
  -- relation to the threshold; a name that is in no table never passes.
  pub evaluate_gate_iff :
      (gate : PerformanceGate F) (run : BenchmarkRun F)
      → (evaluate_gate F gate run).passed ≡ true
        ↔ (s : SummaryMetrics F) × (run.summary ≡ some s)
          × All (λ c. c.required ≡ true → Meets s c) gate.checks
  unfolding evaluate_gate
  evaluate_gate_iff gate run = (
    λ e. elim (Option-cases run.summary) [
      | inl x ↦ absurd (ground (arith, e, x))
      | inr (s, x) ↦
          let y : evaluate_gate F gate run
              ≡ gate_result F gate (evaluate_checks F s gate.checks true) =
            rw (x, evaluate_gate) refl in
          (s, x, ((passed-evaluate_checks s gate.checks true).0 (sym (ap (λ r. r.passed) y) ∙ e)).1)
    ],
    λ (s, x, h). rw (x, evaluate_gate) ((passed-evaluate_checks s gate.checks true).1 (refl, h)),
  )

  -- The four comparisons of a run with a baseline, each from the run's value to the baseline's.
  unfoldable pub deviates : BaselineReference F → SummaryMetrics F → SummaryMetrics F → Bool
  deviates b run base =
      let limit = deviation_limit F b in
      F.less (percent_change F run.ops_per_second base.ops_per_second) (F.neg limit)
      || (F.less limit (percent_change F run.avg_latency_ms base.avg_latency_ms)
          || (F.less limit (percent_change F run.p50_latency_ms base.p50_latency_ms)
              || F.less limit (percent_change F run.p99_latency_ms base.p99_latency_ms)))

  passed-check_baseline_deviation :
      (b : BaselineReference F) (run base : BenchmarkRun F) (s t : SummaryMetrics F)
      → run.summary ≡ some s
      → base.summary ≡ some t
      → (check_baseline_deviation F b (compare F run base)).passed ≡ not (deviates b s t)
  unfolding check_baseline_deviation compare compare_metrics check_latencies deviates
  passed-check_baseline_deviation b run base s t e f = ground (arith, e, f)

  -- What a gate's result should be with a baseline.
  abbrev pub clears :
      BenchmarkRun F → SummaryMetrics F → SummaryMetrics F → PerformanceGate F → Bool
  clears run s t gate =
      let alone = (evaluate_gate F gate run).passed in
      elim gate.baseline [ none ↦ alone | some b ↦ alone && not (deviates b s t) ]

  passed-with_comparison :
      (run base : BenchmarkRun F) (s t : SummaryMetrics F) (gate : PerformanceGate F)
      → run.summary ≡ some s
      → base.summary ≡ some t
      → (with_comparison F gate (compared_with F run (some base)) (evaluate_gate F gate run)).passed
        ≡ clears run s t gate
  passed-with_comparison run base s t gate e f = elim (Option-cases gate.baseline) [
    | inl x ↦ ground (arith, x)
    | inr (b, x) ↦ ground (arith, x, passed-check_baseline_deviation b run base s t e f)
  ]

  -- Of gates on a run with a summary against a baseline with one: a gate without a reference to the
  -- baseline is judged as without a baseline, and one with a reference must also not deviate. The
  -- deviations are changes from the run's values to the baseline's: the gate fails where the
  -- baseline's throughput is below the run's by more than the limit, or a latency of the baseline is
  -- above the run's by more than the limit.
  pub evaluate_with_baseline_iff :
      (run base : BenchmarkRun F) (s t : SummaryMetrics F) (gates : List (PerformanceGate F))
      → run.summary ≡ some s
      → base.summary ≡ some t
      → map (λ r. r.passed) (evaluate_with_baseline F gates run (some base))
        ≡ map (clears run s t) gates
  unfolding evaluate_with_baseline
  evaluate_with_baseline_iff run base s t [] e f = refl
  evaluate_with_baseline_iff run base s t (gate ∷ gates) e f =
      ap (λ p. p ∷ map (λ r. r.passed) (evaluate_with_baseline F gates run (some base)))
        (passed-with_comparison run base s t gate e f)
      ∙ ap (λ ps. clears run s t gate ∷ ps) (evaluate_with_baseline_iff run base s t gates e f)

  summary-with_comparison :
      (gate : PerformanceGate F) (c : Option (RunComparison F)) (r : GateResult F)
      → (with_comparison F gate c r).summary ≡ r.summary
  summary-with_comparison gate none r = refl
  summary-with_comparison gate (some c) r = ground arith

  -- The comparison with a baseline leaves every summary as the evaluation without one writes it, also
  -- where a gate fails by the comparison alone: its summary still says that all checks passed.
  pub evaluate_with_baseline_summary :
      (run : BenchmarkRun F) (base : Option (BenchmarkRun F)) (gates : List (PerformanceGate F))
      → map (λ r. r.summary) (evaluate_with_baseline F gates run base)
        ≡ map (λ r. r.summary) (evaluate F gates run)
  unfolding evaluate_with_baseline evaluate
  evaluate_with_baseline_summary run base [] = refl
  evaluate_with_baseline_summary run base (gate ∷ gates) =
      ap (λ x. x ∷ map (λ r. r.summary) (evaluate_with_baseline F gates run base))
        (summary-with_comparison gate _ (evaluate_gate F gate run))
      ∙ ap (λ xs. (evaluate_gate F gate run).summary ∷ xs)
          (evaluate_with_baseline_summary run base gates)
