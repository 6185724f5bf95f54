-- ===== src/Analysis/Comparison.antt =====
-- internal/analysis/comparison.go: Compare, compareRunData, compareMetrics, compareEnvironments,
-- compareWorkloads, percentChange and determineBetterRun. A text that is formatted from values is a
-- constructor with these values.
use redis_meter.Base.{
  ℕ, suc, Bool, true, false, Option, none, some, List, [], ◌∷◌, ◌++◌, String, str_eq, ltb, ◌==◌,
  if◌then◌else◌,
}
use redis_meter.Base.Int.{ℤ, pos, negsuc}
use redis_meter.Analysis.Model.{
  Arithmetic, SummaryMetrics, HostInfo, RedisInfo, Environment, Workload, BenchmarkRun,
}

abbrev pub int_eq : ℤ → ℤ → Bool
int_eq (pos a) (pos b) = a == b
int_eq (negsuc a) (negsuc b) = a == b
int_eq _ _ = false

pub data Better : Type 0 where
  run1 run2 equal unknown : Better

pub data WorkloadDiff : Type 0 where
  same one_missing : WorkloadDiff
  different : String → String → WorkloadDiff

module _ (F : Arithmetic) where
  unfoldable pub percent_change : F.Float → F.Float → F.Float
  percent_change old new =
      if F.equal old F.nought
      then (if F.equal new F.nought then F.nought else F.literal 100 0)
      else F.mul (F.div (F.sub new old) old) (F.literal 100 0)

  pub record MetricsDiff : Type 0 where
    pub ops_per_second1 : F.Float
    pub ops_per_second2 : F.Float
    pub throughput_diff : F.Float
    pub avg_latency1 : F.Float
    pub avg_latency2 : F.Float
    pub avg_latency_diff : F.Float
    pub p50_latency1 : F.Float
    pub p50_latency2 : F.Float
    pub p50_latency_diff : F.Float
    pub p99_latency1 : F.Float
    pub p99_latency2 : F.Float
    pub p99_latency_diff : F.Float
    pub p999_latency1 : F.Float
    pub p999_latency2 : F.Float
    pub p999_latency_diff : F.Float
    pub error_rate1 : F.Float
    pub error_rate2 : F.Float
    pub error_rate_diff : F.Float

  pub data EnvironmentDiff : Type 0 where
    one_missing : EnvironmentDiff
    hostname os redis_version : String → String → EnvironmentDiff
    cpu_cores : ℤ → ℤ → EnvironmentDiff
    memory_gb : F.Float → F.Float → EnvironmentDiff

  -- `Statistics` is never set.
  pub record RunComparison : Type 0 where
    pub run1_id : String
    pub run2_id : String
    pub better_run : Better
    pub metrics : Option MetricsDiff
    pub environment_match : Bool
    pub environment_diffs : List EnvironmentDiff
    pub workload_match : Bool
    pub workload_diff : WorkloadDiff

  unfoldable pub compare_metrics : SummaryMetrics F → SummaryMetrics F → MetricsDiff
  compare_metrics m1 m2 = record {
    ops_per_second1 = m1.ops_per_second;
    ops_per_second2 = m2.ops_per_second;
    throughput_diff = percent_change m1.ops_per_second m2.ops_per_second;
    avg_latency1 = m1.avg_latency_ms;
    avg_latency2 = m2.avg_latency_ms;
    avg_latency_diff = percent_change m1.avg_latency_ms m2.avg_latency_ms;
    p50_latency1 = m1.p50_latency_ms;
    p50_latency2 = m2.p50_latency_ms;
    p50_latency_diff = percent_change m1.p50_latency_ms m2.p50_latency_ms;
    p99_latency1 = m1.p99_latency_ms;
    p99_latency2 = m2.p99_latency_ms;
    p99_latency_diff = percent_change m1.p99_latency_ms m2.p99_latency_ms;
    p999_latency1 = m1.p999_latency_ms;
    p999_latency2 = m2.p999_latency_ms;
    p999_latency_diff = percent_change m1.p999_latency_ms m2.p999_latency_ms;
    error_rate1 = m1.error_rate;
    error_rate2 = m2.error_rate;
    error_rate_diff = percent_change m1.error_rate m2.error_rate;
  }

  -- `if a { score1++ } else if b { score2++ }`
  abbrev pub score : Bool → Bool → ℕ × ℕ → ℕ × ℕ
  score true b (s1, s2) = (suc s1, s2)
  score false true (s1, s2) = (s1, suc s2)
  score false false (s1, s2) = (s1, s2)

  abbrev pub winner : ℕ × ℕ → Better
  winner (s1, s2) =
      if ltb s2 s1 then Better.run1 else (if ltb s1 s2 then Better.run2 else Better.equal)

  unfoldable pub scores : MetricsDiff → ℕ × ℕ
  scores m =
      let more = λ (x y : F.Float). F.less (F.mul y (F.literal 101 2)) x in
      let fewer = λ (x y : F.Float). F.less x (F.mul y (F.literal 99 2)) in
      score (F.less m.error_rate1 m.error_rate2) (F.less m.error_rate2 m.error_rate1) (
        score (fewer m.avg_latency1 m.avg_latency2) (fewer m.avg_latency2 m.avg_latency1) (
          score (fewer m.p99_latency1 m.p99_latency2) (fewer m.p99_latency2 m.p99_latency1) (
            score (more m.ops_per_second1 m.ops_per_second2)
              (more m.ops_per_second2 m.ops_per_second1) (0, 0))))

  unfoldable pub determine_better_run : Option MetricsDiff → Better
  determine_better_run none = Better.unknown
  determine_better_run (some m) = winner (scores m)

  abbrev pub unless_same : Bool → EnvironmentDiff → List EnvironmentDiff
  unless_same true d = []
  unless_same false d = d ∷ []

  abbrev pub host_diffs : Option (HostInfo F) → Option (HostInfo F) → List EnvironmentDiff
  host_diffs (some a) (some b) =
      unless_same (str_eq a.hostname b.hostname) (hostname a.hostname b.hostname)
      ++ (unless_same (str_eq a.os b.os) (os a.os b.os)
          ++ (unless_same (int_eq a.cpus b.cpus) (cpu_cores a.cpus b.cpus)
              ++ unless_same (F.equal a.memory_gb b.memory_gb) (memory_gb a.memory_gb b.memory_gb)))
  host_diffs _ _ = []

  abbrev pub redis_diffs : Option (RedisInfo F) → Option (RedisInfo F) → List EnvironmentDiff
  redis_diffs (some a) (some b) =
      unless_same (str_eq a.version b.version) (redis_version a.version b.version)
  redis_diffs _ _ = []

  abbrev pub no_diffs : List EnvironmentDiff → Bool
  no_diffs [] = true
  no_diffs (d ∷ ds) = false

  unfoldable pub compare_environments :
      Option (Environment F) → Option (Environment F) → Bool × List EnvironmentDiff
  compare_environments none none = (true, [])
  compare_environments none (some b) = (false, one_missing ∷ [])
  compare_environments (some a) none = (false, one_missing ∷ [])
  compare_environments (some a) (some b) =
      let diffs = host_diffs a.host b.host ++ redis_diffs a.redis b.redis in (no_diffs diffs, diffs)

  unfoldable pub compare_workloads : Option (Workload F) → Option (Workload F) → Bool × WorkloadDiff
  compare_workloads none none = (true, WorkloadDiff.same)
  compare_workloads none (some b) = (false, WorkloadDiff.one_missing)
  compare_workloads (some a) none = (false, WorkloadDiff.one_missing)
  compare_workloads (some a) (some b) =
      if str_eq a.name b.name
      then (true, WorkloadDiff.same)
      else (false, WorkloadDiff.different a.name b.name)

  abbrev pub metrics_of : Option (SummaryMetrics F) → Option (SummaryMetrics F) → Option MetricsDiff
  metrics_of (some m1) (some m2) = some (compare_metrics m1 m2)
  metrics_of _ _ = none

  unfoldable pub compare : BenchmarkRun F → BenchmarkRun F → RunComparison
  compare r1 r2 =
      let metrics = metrics_of r1.summary r2.summary in
      let (environment_match, environment_diffs) =
        compare_environments r1.environment r2.environment in
      let (workload_match, workload_diff) = compare_workloads r1.workload r2.workload in
      record {
        run1_id = r1.id;
        run2_id = r2.id;
        better_run = determine_better_run metrics;
        metrics = metrics;
        environment_match = environment_match;
        environment_diffs = environment_diffs;
        workload_match = workload_match;
        workload_diff = workload_diff;
      }
