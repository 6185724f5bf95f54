-- ===== src/Examples/Alerts.antt =====
-- The theorems on internal/alerting/alerting.go and internal/plugin/registry.go at concrete inputs.
use redis_meter.Base.{ℕ, ◌+◌, ◌≡◌, true, none, some, [], ◌∷◌, map, select, ltb, ◌==◌, if◌then◌else◌}
use redis_meter.Base.Int.{pos, pos_part}
use redis_meter.Base.Text.{Text, codes}
use redis_meter.Alerting.Model.{Floats, BenchmarkRun, Alert, World, AlertManager}
use redis_meter.Alerting.Rules.{AlertRule, Engine, evaluate}
use redis_meter.Alerting.Rules.Fires.{alert_line, rule_line, fires, evaluate_lines}
use redis_meter.Plugin.{Metadata}

-- Numbers without a fraction.
abbrev numbers : Floats
numbers = record {
  Float = ℕ;
  less = λ a b. ltb a b;
  equal = λ a b. a == b;
  nought = 0;
  of_int = λ z. pos_part z;
}

abbrev slow_run : BenchmarkRun numbers
slow_run = record {
  id = "r1";
  summary = some (record {
    ops_per_second = 100;
    avg_latency_ms = 9;
    p50_latency_ms = 9;
    p90_latency_ms = 9;
    p95_latency_ms = 9;
    p99_latency_ms = 9;
    error_rate = 0;
    errors = pos 0;
  });
}

abbrev slow : AlertRule numbers
slow = record {
  name = "slow";
  description = "throughput is low";
  kind = "threshold";
  enabled = true;
  severity = "warning";
  conditions =
      record { metric = "throughput"; operator = "lt"; value = 500; value_type = "absolute" } ∷ [];
  actions = [];
  tags = [];
}

abbrev manager : AlertManager numbers
manager = record { notifiers = ("mail", 0) ∷ ("chat", 1) ∷ []; default_notifiers = [] }

abbrev engine : Engine numbers
engine = record { rules = slow ∷ []; manager = manager; sent = []; alert_counter = pos 0 }

abbrev world : World numbers
world = record { time = λ n. 50 + n; answer = λ n. if n == 0 then some "refused" else none }

abbrev alert : Alert numbers
alert = record {
  id = codes "alert-1";
  kind = "threshold";
  severity = "warning";
  title = "slow";
  message = "throughput is low";
  run = none;
  timestamp = 0;
  tags = [];
  source = "test";
}

abbrev clock_text : ℕ → Text
clock_text n = []

evaluate_lines_example :
    map (alert_line numbers) (evaluate numbers world clock_text engine slow_run).1
    ≡ map (rule_line numbers) (select (fires numbers slow_run) (slow ∷ []))
evaluate_lines_example = evaluate_lines numbers world clock_text engine slow_run

-- A plugin as its metadata.
abbrev exporter : Metadata
exporter = record {
  name = "csv";
  version = "1";
  kind = "exporter";
  description = "";
  author = "";
  license = "";
  dependencies = [];
}

abbrev same : Metadata → Metadata
same m = m
