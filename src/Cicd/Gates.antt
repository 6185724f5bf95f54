-- ===== src/Cicd/Gates.antt =====
-- internal/cicd/gates.go: GateEvaluator and AllPassed. A message or summary that is formatted from
-- values is a constructor with these values. The latency changes are visited in the order they are
-- written; Go may visit their map in another.
pub mod Tables
pub mod Verdict
use redis_meter.Base.{
  ℕ, Bool, true, false, not, ◌&&◌, ◌||◌, Option, none, some, List, [], ◌∷◌, ◌++◌, map, String,
  str_eq, if◌then◌else◌, length, select,
}
use redis_meter.Analysis.Model.{Arithmetic, SummaryMetrics, BenchmarkRun}
use redis_meter.Analysis.Comparison.{MetricsDiff, RunComparison, compare}

abbrev pub one_of : String → String → String → Bool
one_of s a b = str_eq s a || str_eq s b

module _ (F : Arithmetic) where
  pub record GateCheck : Type 0 where
    pub metric : String
    pub operator : String
    pub value : F.Float
    pub required : Bool
    pub description : String

  pub record BaselineReference : Type 0 where
    pub kind : String
    pub value : String
    pub max_deviation : F.Float

  pub record PerformanceGate : Type 0 where
    pub name : String
    pub description : String
    pub checks : List GateCheck
    pub baseline : Option BaselineReference

  pub data CheckMessage : Type 0 where
    unknown_metric : String → CheckMessage
    met unmet :
        (metric : String) → (actual : F.Float) → (operator : String) → F.Float → CheckMessage
    throughput_regression : F.Float → F.Float → CheckMessage
    within_deviation : F.Float → CheckMessage
    increased : String → F.Float → F.Float → CheckMessage

  pub record CheckResult : Type 0 where
    pub check : GateCheck
    pub passed : Bool
    pub actual_value : F.Float
    pub message : CheckMessage

  pub data GateSummary : Type 0 where
    no_results : GateSummary
    all_checks_passed : (results checks : ℕ) → GateSummary
    failed : (count checks : ℕ) → GateSummary

  pub record GateResult : Type 0 where
    pub gate : PerformanceGate
    pub passed : Bool
    pub check_results : List CheckResult
    pub comparison : Option (RunComparison F)
    pub summary : GateSummary

  -- `GateEvaluator` holds its gates and nothing else.
  unfoldable pub add_gate : List PerformanceGate → PerformanceGate → List PerformanceGate
  add_gate gates gate = gates ++ (gate ∷ [])

  unfoldable pub actual_value : SummaryMetrics F → String → Option F.Float
  actual_value s metric =
      if one_of metric "throughput" "ops_per_second"
      then some s.ops_per_second
      else if one_of metric "avg_latency" "avg_latency_ms"
      then some s.avg_latency_ms
      else if one_of metric "p50_latency" "p50_latency_ms"
      then some s.p50_latency_ms
      else if one_of metric "p90_latency" "p90_latency_ms"
      then some s.p90_latency_ms
      else if one_of metric "p95_latency" "p95_latency_ms"
      then some s.p95_latency_ms
      else if one_of metric "p99_latency" "p99_latency_ms"
      then some s.p99_latency_ms
      else if str_eq metric "error_rate"
      then some s.error_rate
      else if str_eq metric "errors"
      then some (F.of_int s.errors)
      else none

  unfoldable pub compare_value : F.Float → String → F.Float → Bool
  compare_value actual operator threshold =
      if one_of operator "gt" ">"
      then F.less threshold actual
      else if one_of operator "lt" "<"
      then F.less actual threshold
      else if one_of operator "gte" ">="
      then F.less threshold actual || F.equal actual threshold
      else if one_of operator "lte" "<="
      then F.less actual threshold || F.equal actual threshold
      else if one_of operator "eq" "=="
      then F.equal actual threshold
      else if one_of operator "neq" "!="
      then not (F.equal actual threshold)
      else false

  abbrev pub compared : GateCheck → F.Float → Bool → CheckResult
  compared c v passed = record {
    check = c;
    passed = passed;
    actual_value = v;
    message =
        if passed
        then CheckMessage.met c.metric v c.operator c.value
        else CheckMessage.unmet c.metric v c.operator c.value;
  }

  abbrev pub check_result : GateCheck → Option F.Float → CheckResult
  check_result c none = record {
    check = c;
    passed = false;
    actual_value = F.nought;
    message = CheckMessage.unknown_metric c.metric;
  }
  check_result c (some v) = compared c v (compare_value v c.operator c.value)

  unfoldable pub evaluate_check : SummaryMetrics F → GateCheck → CheckResult
  evaluate_check s c = check_result c (actual_value s c.metric)

  -- The loop over the checks, from `passed` on.
  unfoldable pub evaluate_checks :
      SummaryMetrics F → List GateCheck → Bool → Bool × List CheckResult
  evaluate_checks s [] passed = (passed, [])
  evaluate_checks s (c ∷ cs) passed =
      let r = evaluate_check s c in
      let rest = evaluate_checks s cs (if not r.passed && c.required then false else passed) in
      (rest.0, r ∷ rest.1)

  unfoldable pub failed_count : List CheckResult → ℕ
  failed_count results = length (select (λ r. not r.passed) results)

  abbrev pub summary_of : Bool → List CheckResult → List GateCheck → GateSummary
  summary_of true results checks = GateSummary.all_checks_passed (length results) (length checks)
  summary_of false results checks = GateSummary.failed (failed_count results) (length checks)

  abbrev pub gate_result : PerformanceGate → Bool × List CheckResult → GateResult
  gate_result gate (passed, results) = record {
    gate = gate;
    passed = passed;
    check_results = results;
    comparison = none;
    summary = summary_of passed results gate.checks;
  }

  unfoldable pub evaluate_gate : PerformanceGate → BenchmarkRun F → GateResult
  evaluate_gate gate run = elim run.summary [
    | none ↦ record {
      gate = gate;
      passed = false;
      check_results = [];
      comparison = none;
      summary = GateSummary.no_results;
    }
    | some s ↦ gate_result gate (evaluate_checks s gate.checks true)
  ]

  unfoldable pub evaluate : List PerformanceGate → BenchmarkRun F → List GateResult
  evaluate gates run = map (λ gate. evaluate_gate gate run) gates

  unfoldable pub deviation_limit : BaselineReference → F.Float
  deviation_limit b = if F.equal b.max_deviation F.nought then F.literal 10 0 else b.max_deviation

  unfoldable pub deviation_check : GateCheck
  deviation_check = record {
    metric = "baseline_deviation";
    operator = "";
    value = F.nought;
    required = true;
    description = "Baseline deviation check";
  }

  abbrev pub deviation : Bool → F.Float → CheckMessage → CheckResult
  deviation passed actual message = record {
    check = deviation_check;
    passed = passed;
    actual_value = actual;
    message = message;
  }

  -- The loop over the latency changes.
  unfoldable pub check_latencies : F.Float → List (String × F.Float) → CheckResult
  check_latencies limit [] = deviation true F.nought (CheckMessage.within_deviation limit)
  check_latencies limit ((metric, change) ∷ rest) =
      let later = check_latencies limit rest in
      if F.less limit change
      then deviation false change (CheckMessage.increased metric change limit)
      else later

  abbrev pub check_changes : F.Float → Option (MetricsDiff F) → CheckResult
  check_changes limit none = deviation true F.nought (CheckMessage.within_deviation limit)
  check_changes limit (some m) =
      let latencies = check_latencies limit (
        ("avg_latency", m.avg_latency_diff)
        ∷ ("p50_latency", m.p50_latency_diff)
        ∷ ("p99_latency", m.p99_latency_diff)
        ∷ []) in
      if F.less m.throughput_diff (F.neg limit)
      then deviation false m.throughput_diff
          (CheckMessage.throughput_regression m.throughput_diff limit)
      else latencies

  unfoldable pub check_baseline_deviation : BaselineReference → RunComparison F → CheckResult
  check_baseline_deviation b comparison = check_changes (deviation_limit b) comparison.metrics

  abbrev pub with_deviation : GateResult → CheckResult → GateResult
  with_deviation result d =
      if not d.passed
      then record result { passed = false; check_results = result.check_results ++ (d ∷ []) }
      else result

  abbrev pub with_comparison : PerformanceGate → Option (RunComparison F) → GateResult → GateResult
  with_comparison gate none result = result
  with_comparison gate (some comparison) result = elim gate.baseline [
    | none ↦ record result { comparison = some comparison }
    | some b ↦
        with_deviation (record result { comparison = some comparison })
          (check_baseline_deviation b comparison)
  ]

  abbrev pub compared_with : BenchmarkRun F → Option (BenchmarkRun F) → Option (RunComparison F)
  compared_with run none = none
  compared_with run (some baseline) = some (compare F run baseline)

  unfoldable pub evaluate_with_baseline :
      List PerformanceGate → BenchmarkRun F → Option (BenchmarkRun F) → List GateResult
  evaluate_with_baseline gates run baseline =
      map (λ gate. with_comparison gate (compared_with run baseline) (evaluate_gate gate run)) gates

  unfoldable pub all_passed : List GateResult → Bool
  all_passed [] = true
  all_passed (r ∷ rs) = let rest = all_passed rs in if not r.passed then false else rest
