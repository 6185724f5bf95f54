-- ===== src/Analysis/Verdicts.antt =====
-- The verdict of internal/analysis/comparison.go on a run against a baseline.
use redis_meter.Base.{Bool, not, ◌&&◌, ◌||◌, some, ◌≡◌, eq_refl, any, if◌then◌else◌, arith}
use redis_meter.Analysis.Model.{Arithmetic, SummaryMetrics, BenchmarkRun}
use redis_meter.Analysis.Comparison.{percent_change}
use redis_meter.Analysis.Baselines.{
  Verdict, BaselineThresholds, Baseline, percent, calculate_metrics_comparison, check_thresholds,
  has_error, verdict_of, compare_run_to_baseline,
}

module _ (F : Arithmetic) where
  -- Each change stays within its limit, where the limit is above 0.
  unfoldable pub keeps : F.Float → Bool → Bool
  keeps limit exceeded = not (F.less F.nought limit) || not exceeded

  unfoldable pub within : BaselineThresholds F → SummaryMetrics F → SummaryMetrics F → Bool
  within t base run =
      keeps t.max_throughput_regression (
        F.less (percent_change F base.ops_per_second run.ops_per_second)
          (percent F (F.neg t.max_throughput_regression)))
      && (keeps t.max_latency_regression (
            F.less (percent F t.max_latency_regression)
              (percent_change F base.avg_latency_ms run.avg_latency_ms))
          && (keeps t.max_p99_regression (
                F.less (percent F t.max_p99_regression)
                  (percent_change F base.p99_latency_ms run.p99_latency_ms))
              && keeps t.max_error_rate_increase (
                  F.less (percent F t.max_error_rate_increase)
                    (percent_change F base.error_rate run.error_rate))))

  verdict_of-check_thresholds :
      (t : BaselineThresholds F) (base run : SummaryMetrics F)
      → verdict_of F (check_thresholds F (calculate_metrics_comparison F base run) t)
        ≡ (if within t base run then Verdict.pass else Verdict.fail)
  unfolding check_thresholds verdict_of has_error any within keeps calculate_metrics_comparison
  verdict_of-check_thresholds t base run = ground (arith, eq_refl "error")

  -- A run with a summary passes against a baseline with metrics and thresholds exactly if no change
  -- from the baseline's value to the run's exceeds its threshold: the throughput falls by at most its
  -- threshold, and the average and P99 latency and the error rate rise by at most theirs; a threshold
  -- that is not above 0 does not count. The verdict is else a failure.
  pub compare_run_to_baseline_iff :
      (run : BenchmarkRun F) (b : Baseline F) (s m : SummaryMetrics F) (t : BaselineThresholds F)
      → run.summary ≡ some s
      → b.metrics ≡ some m
      → b.thresholds ≡ some t
      → (compare_run_to_baseline F run b).verdict
        ≡ (if within t m s then Verdict.pass else Verdict.fail)
  unfolding compare_run_to_baseline
  compare_run_to_baseline_iff run b s m t e f g =
      rw (e, f, g, compare_run_to_baseline) (verdict_of-check_thresholds t m s)
