-- ===== src/Workloads/Builtins.antt =====
-- internal/workload/registry.go: the workloads of registerBuiltins.
use redis_meter.Base.{ℕ, some, List, [], ◌∷◌, String}
use redis_meter.Base.Int.{pos}
use redis_meter.Domain.{Workload, Operation}

-- An operation with its ratio, u / 10 ^ p.
abbrev operation : String → ℕ → ℕ → Operation
operation command u p = record { command = command; ratio = record { units = pos u; places = p } }

abbrev pub cache : Workload
cache = record {
  name = "cache";
  description = "Balanced GET/SET workload simulating a typical cache usage pattern";
  type = "cache";
  operations = operation "GET" 8 1 ∷ operation "SET" 2 1 ∷ [];
  key_pattern = some (record { prefix = "cache:"; pattern = "random"; key_range = pos 1000000 });
  data_size = some (record { min = pos 0; max = pos 0; fixed = pos 256 });
  threads = pos 4;
  clients = pos 50;
  duration = "30s";
  pipeline = pos 1;
  rest = "";
}

abbrev pub write_heavy : Workload
write_heavy = record {
  name = "write-heavy";
  description = "Write-heavy workload for testing write performance";
  type = "write";
  operations = operation "GET" 2 1 ∷ operation "SET" 8 1 ∷ [];
  key_pattern = some (record { prefix = "write:"; pattern = "random"; key_range = pos 1000000 });
  data_size = some (record { min = pos 0; max = pos 0; fixed = pos 256 });
  threads = pos 4;
  clients = pos 50;
  duration = "30s";
  pipeline = pos 1;
  rest = "";
}

abbrev pub read_only : Workload
read_only = record {
  name = "read-only";
  description = "Read-only workload for testing read performance (requires pre-populated data)";
  type = "read";
  operations = operation "GET" 1 0 ∷ [];
  key_pattern = some (record { prefix = "read:"; pattern = "random"; key_range = pos 1000000 });
  data_size = some (record { min = pos 0; max = pos 0; fixed = pos 256 });
  threads = pos 4;
  clients = pos 50;
  duration = "30s";
  pipeline = pos 1;
  rest = "";
}

abbrev pub mixed : Workload
mixed = record {
  name = "mixed";
  description = "Mixed workload with GET, SET, and various data sizes";
  type = "mixed";
  operations = operation "GET" 5 1 ∷ operation "SET" 5 1 ∷ [];
  key_pattern = some (record { prefix = "mixed:"; pattern = "random"; key_range = pos 500000 });
  data_size = some (record { min = pos 64; max = pos 1024; fixed = pos 0 });
  threads = pos 4;
  clients = pos 50;
  duration = "30s";
  pipeline = pos 1;
  rest = "";
}

abbrev pub high_throughput : Workload
high_throughput = record {
  name = "high-throughput";
  description = "High throughput workload using pipelining for maximum ops/sec";
  type = "throughput";
  operations = operation "GET" 8 1 ∷ operation "SET" 2 1 ∷ [];
  key_pattern = some (record { prefix = "ht:"; pattern = "random"; key_range = pos 1000000 });
  data_size = some (record { min = pos 0; max = pos 0; fixed = pos 100 });
  threads = pos 4;
  clients = pos 100;
  duration = "30s";
  pipeline = pos 10;
  rest = "";
}

abbrev pub low_latency : Workload
low_latency = record {
  name = "low-latency";
  description = "Latency-sensitive workload optimized for minimal response time";
  type = "latency";
  operations = operation "GET" 9 1 ∷ operation "SET" 1 1 ∷ [];
  key_pattern = some (record { prefix = "ll:"; pattern = "random"; key_range = pos 100000 });
  data_size = some (record { min = pos 0; max = pos 0; fixed = pos 64 });
  threads = pos 2;
  clients = pos 10;
  duration = "30s";
  pipeline = pos 1;
  rest = "";
}

abbrev pub session : Workload
session = record {
  name = "session";
  description = "Session store workload simulating web session management";
  type = "session";
  operations = operation "GET" 7 1 ∷ operation "SET" 3 1 ∷ [];
  key_pattern = some (record { prefix = "session:"; pattern = "random"; key_range = pos 100000 });
  data_size = some (record { min = pos 0; max = pos 0; fixed = pos 512 });
  threads = pos 4;
  clients = pos 50;
  duration = "30s";
  pipeline = pos 1;
  rest = "";
}

abbrev pub large_values : Workload
large_values = record {
  name = "large-values";
  description = "Workload with larger values to test bandwidth and serialization";
  type = "large";
  operations = operation "GET" 5 1 ∷ operation "SET" 5 1 ∷ [];
  key_pattern = some (record { prefix = "large:"; pattern = "random"; key_range = pos 10000 });
  data_size = some (record { min = pos 4096; max = pos 16384; fixed = pos 0 });
  threads = pos 4;
  clients = pos 20;
  duration = "30s";
  pipeline = pos 1;
  rest = "";
}

abbrev pub huge_read : Workload
huge_read = record {
  name = "huge-read";
  description = "100% GET workload with 100KB values for bandwidth/throughput testing";
  type = "bandwidth";
  operations = operation "GET" 1 0 ∷ [];
  key_pattern = some (record { prefix = "huge:"; pattern = "random"; key_range = pos 10000 });
  data_size = some (record { min = pos 0; max = pos 0; fixed = pos 102400 });
  threads = pos 4;
  clients = pos 20;
  duration = "30s";
  pipeline = pos 1;
  rest = "";
}

abbrev pub builtins : List Workload
builtins =
    cache ∷ write_heavy ∷ read_only ∷ mixed ∷ high_throughput ∷ low_latency ∷ session ∷ large_values
    ∷ huge_read ∷ []
