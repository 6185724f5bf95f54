-- ===== src/Analysis/Baselines.antt =====
-- internal/analysis/comparison.go: CompareRunToBaselineMetrics, compareRunToBaseline,
-- calculateMetricsComparison and checkThresholds. The P90 and P95 changes are never set.
use redis_meter.Base.{
  Bool, true, false, ◌&&◌, Option, none, some, List, [], ◌∷◌, ◌++◌, String, str_eq, any,
  if◌then◌else◌,
}
use redis_meter.Analysis.Model.{Arithmetic, SummaryMetrics, BenchmarkRun}
use redis_meter.Analysis.Comparison.{percent_change}

pub data Verdict : Type 0 where
  pass fail warning : Verdict

abbrev pub is_clean {ℓ} : {A : Type ℓ} → List A → Bool
is_clean [] = true
is_clean (x ∷ xs) = false

module _ (F : Arithmetic) where
  pub record BaselineThresholds : Type 0 where
    pub max_throughput_regression : F.Float
    pub max_latency_regression : F.Float
    pub max_p99_regression : F.Float
    pub max_error_rate_increase : F.Float

  pub record MetricsComparison : Type 0 where
    pub throughput_change : F.Float
    pub avg_latency_change : F.Float
    pub p50_latency_change : F.Float
    pub p99_latency_change : F.Float
    pub error_rate_change : F.Float

  pub record ThresholdViolation : Type 0 where
    pub metric : String
    pub threshold : F.Float
    pub actual : F.Float
    pub severity : String

  -- What the comparison reads of a baseline.
  pub record Baseline : Type 0 where
    pub id : String
    pub metrics : Option (SummaryMetrics F)
    pub thresholds : Option BaselineThresholds

  -- The environment always matches.
  pub record ComparisonResult : Type 0 where
    pub run_id : String
    pub baseline_id : String
    pub passes : Bool
    pub verdict : Verdict
    pub metrics : Option MetricsComparison
    pub violations : List ThresholdViolation

  unfoldable pub calculate_metrics_comparison :
      SummaryMetrics F → SummaryMetrics F → MetricsComparison
  calculate_metrics_comparison baseline run = record {
    throughput_change = percent_change F baseline.ops_per_second run.ops_per_second;
    avg_latency_change = percent_change F baseline.avg_latency_ms run.avg_latency_ms;
    p50_latency_change = percent_change F baseline.p50_latency_ms run.p50_latency_ms;
    p99_latency_change = percent_change F baseline.p99_latency_ms run.p99_latency_ms;
    error_rate_change = percent_change F baseline.error_rate run.error_rate;
  }

  abbrev pub error_if : Bool → String → F.Float → F.Float → List ThresholdViolation
  error_if true metric limit actual =
      record { metric = metric; threshold = limit; actual = actual; severity = "error" } ∷ []
  error_if false metric limit actual = []

  abbrev pub percent : F.Float → F.Float
  percent x = F.mul x (F.literal 100 0)

  -- A change upwards by more than a limit that is set.
  abbrev pub exceeds : F.Float → F.Float → Bool
  exceeds limit change = F.less F.nought limit && F.less (percent limit) change

  unfoldable pub check_thresholds : MetricsComparison → BaselineThresholds → List ThresholdViolation
  check_thresholds m t =
      let lost = percent (F.neg t.max_throughput_regression) in
      error_if (F.less F.nought t.max_throughput_regression && F.less m.throughput_change lost)
        "throughput" lost m.throughput_change
      ++ (error_if (exceeds t.max_latency_regression m.avg_latency_change) "avg_latency"
            (percent t.max_latency_regression) m.avg_latency_change
          ++ (error_if (exceeds t.max_p99_regression m.p99_latency_change) "p99_latency"
                (percent t.max_p99_regression) m.p99_latency_change
              ++ error_if (exceeds t.max_error_rate_increase m.error_rate_change) "error_rate"
                  (percent t.max_error_rate_increase) m.error_rate_change))

  abbrev pub changes_of :
      Option (SummaryMetrics F) → Option (SummaryMetrics F) → Option MetricsComparison
  changes_of (some run) (some baseline) = some (calculate_metrics_comparison baseline run)
  changes_of _ _ = none

  abbrev pub violations_of :
      Option MetricsComparison → Option BaselineThresholds → List ThresholdViolation
  violations_of (some m) (some t) = check_thresholds m t
  violations_of _ _ = []

  unfoldable pub has_error : List ThresholdViolation → Bool
  has_error vs = any (λ v. str_eq v.severity "error") vs

  unfoldable pub verdict_of : List ThresholdViolation → Verdict
  verdict_of vs =
      if is_clean vs then Verdict.pass else (if has_error vs then Verdict.fail else Verdict.warning)

  unfoldable pub compare_run_to_baseline : BenchmarkRun F → Baseline → ComparisonResult
  compare_run_to_baseline run baseline =
      let metrics = changes_of run.summary baseline.metrics in
      let violations = violations_of metrics baseline.thresholds in
      record {
        run_id = run.id;
        baseline_id = baseline.id;
        passes = is_clean violations;
        verdict = verdict_of violations;
        metrics = metrics;
        violations = violations;
      }
