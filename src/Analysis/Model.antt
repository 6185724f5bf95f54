-- ===== src/Analysis/Model.antt =====
-- The parts of a run in internal/domain that internal/analysis and internal/cicd read, and the
-- arithmetic of `float64` as an interface.
use redis_meter.Base.{ℕ, Option, String}
use redis_meter.Base.Int.{ℤ}
use redis_meter.Alerting.Model.{Floats}

-- `float64` with its tests (Floats) and its operations. `literal n d` is the literal n / 10 ^ d.
pub record Arithmetic : Type 1 where
  pub floats : Floats
  pub open floats use *
  pub neg : floats.Float → floats.Float
  pub sub : floats.Float → floats.Float → floats.Float
  pub mul : floats.Float → floats.Float → floats.Float
  pub div : floats.Float → floats.Float → floats.Float
  pub literal : ℕ → ℕ → floats.Float

module _ (F : Arithmetic) where
  pub record SummaryMetrics : Type 0 where
    pub ops_per_second : F.Float
    pub avg_latency_ms : F.Float
    pub p50_latency_ms : F.Float
    pub p90_latency_ms : F.Float
    pub p95_latency_ms : F.Float
    pub p99_latency_ms : F.Float
    pub p999_latency_ms : F.Float
    pub errors : ℤ
    pub error_rate : F.Float

  pub record HostInfo : Type 0 where
    pub hostname : String
    pub os : String
    pub cpus : ℤ
    pub memory_gb : F.Float

  pub record RedisInfo : Type 0 where
    pub version : String

  pub record Environment : Type 0 where
    pub host : Option HostInfo
    pub redis : Option RedisInfo

  pub record Workload : Type 0 where
    pub name : String

  -- `summary` is `none` if the run has no results or they have no summary.
  pub record BenchmarkRun : Type 0 where
    pub id : String
    pub workload : Option Workload
    pub environment : Option Environment
    pub summary : Option SummaryMetrics
