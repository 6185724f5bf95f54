-- ===== src/Examples/Gates.antt =====
-- The theorems on internal/analysis and internal/cicd at one run, with numbers without a fraction.
use redis_meter.Base.{
  ℕ, ◌*◌, ◌-◌, ◌/◌, ◌≡◌, ◌↔◌, refl, true, none, some, [], ◌∷◌, map, ◌==◌, ltb, if◌then◌else◌, All,
}
use redis_meter.Base.Int.{pos, pos_part}
use redis_meter.Analysis.Model.{Arithmetic, SummaryMetrics, BenchmarkRun}
use redis_meter.Analysis.Baselines.{Baseline, BaselineThresholds, Verdict, compare_run_to_baseline}
use redis_meter.Analysis.Verdicts.{within, compare_run_to_baseline_iff}
use redis_meter.Cicd.Gates.{GateCheck, PerformanceGate, evaluate_gate, evaluate_with_baseline}
use redis_meter.Cicd.Gates.Verdict.{Meets, clears, evaluate_gate_iff, evaluate_with_baseline_iff}

abbrev whole : Arithmetic
whole = record {
  floats = record {
    Float = ℕ;
    less = λ a b. ltb a b;
    equal = λ a b. a == b;
    nought = 0;
    of_int = λ z. pos_part z;
  };
  neg = λ n. 0 - n;
  sub = λ a b. a - b;
  mul = λ a b. a * b;
  div = λ a b. a / b;
  literal = λ n d. n;
}

abbrev summary : ℕ → SummaryMetrics whole
summary ops = record {
  ops_per_second = ops;
  avg_latency_ms = 4;
  p50_latency_ms = 4;
  p90_latency_ms = 5;
  p95_latency_ms = 5;
  p99_latency_ms = 6;
  p999_latency_ms = 9;
  errors = pos 0;
  error_rate = 0;
}

abbrev run_of : ℕ → BenchmarkRun whole
run_of ops = record { id = "r1"; workload = none; environment = none; summary = some (summary ops) }

abbrev fast_enough : GateCheck whole
fast_enough = record {
  metric = "throughput";
  operator = "gte";
  value = 500;
  required = true;
  description = "throughput";
}

abbrev gate : PerformanceGate whole
gate = record {
  name = "release";
  description = "";
  checks = fast_enough ∷ [];
  baseline = some (record { kind = "tag"; value = "v1"; max_deviation = 20 });
}

evaluate_gate_iff_example :
    (evaluate_gate whole gate (run_of 900)).passed ≡ true
    ↔ (s : SummaryMetrics whole) × ((run_of 900).summary ≡ some s)
      × All (λ c. c.required ≡ true → Meets whole s c) (fast_enough ∷ [])
evaluate_gate_iff_example = evaluate_gate_iff whole gate (run_of 900)

evaluate_with_baseline_iff_example :
    map (λ r. r.passed) (evaluate_with_baseline whole (gate ∷ []) (run_of 900) (some (run_of 600)))
    ≡ map (clears whole (run_of 900) (summary 900) (summary 600)) (gate ∷ [])
evaluate_with_baseline_iff_example =
    evaluate_with_baseline_iff whole (run_of 900) (run_of 600) (summary 900) (summary 600)
      (gate ∷ []) refl refl

abbrev thresholds : BaselineThresholds whole
thresholds = record {
  max_throughput_regression = 0;
  max_latency_regression = 1;
  max_p99_regression = 1;
  max_error_rate_increase = 1;
}

abbrev baseline : Baseline whole
baseline = record { id = "b1"; metrics = some (summary 600); thresholds = some thresholds }

compare_run_to_baseline_iff_example :
    (compare_run_to_baseline whole (run_of 900) baseline).verdict
    ≡ (if within whole thresholds (summary 600) (summary 900) then Verdict.pass else Verdict.fail)
compare_run_to_baseline_iff_example =
    compare_run_to_baseline_iff whole (run_of 900) baseline (summary 900) (summary 600) thresholds
      refl refl refl
