-- ===== src/Logging/Logger.antt =====
-- internal/logging/logger.go: NewLogger, shouldLog, Log and its variants, WithBenchmark and WithInfra,
-- over the store of json_store.go. The identifier and the time are drawn by the call; the console is
-- output.
use redis_meter.Base.{ℕ, Bool, not, String, str_eq, leb, if◌then◌else◌}
use redis_meter.Base.Int.{pos}
use redis_meter.Base.Text.{Text}
use redis_meter.Logging.Model.{Level, Source, Entry, JsonStore}
use redis_meter.Logging.Writing.{save}

pub record DefaultLogger : Type 0 where
  pub min_level : Level
  pub benchmark_id : String
  pub infra_id : String
  pub source : Source

unfoldable pub new_logger : Level → Source → DefaultLogger
new_logger min_level source = record {
  min_level = if str_eq min_level "" then "INFO" else min_level;
  benchmark_id = "";
  infra_id = "";
  source = source;
}

-- A level that the map does not hold has the order of DEBUG.
unfoldable pub level_order : Level → ℕ
level_order level =
    if str_eq level "INFO"
    then 1
    else (if str_eq level "WARN" then 2 else (if str_eq level "ERROR" then 3 else 0))

unfoldable pub should_log : DefaultLogger → Level → Bool
should_log l level = leb (level_order l.min_level) (level_order level)

unfoldable pub log :
    (ℕ → Bool)
    → (Entry → Bool)
    → DefaultLogger
    → JsonStore
    → Text
    → ℕ
    → Level
    → Source
    → Text
    → Text
    → Text
    → JsonStore
log opens encodes l s id now level source operation message context =
    let entry : Entry = record {
      id = id;
      timestamp = now;
      level = level;
      source = source;
      operation = operation;
      message = message;
      context = context;
      benchmark_id = l.benchmark_id;
      infra_id = l.infra_id;
      error = "";
      duration = pos 0;
    } in
    if not (should_log l level) then s else (save opens encodes s entry).0

unfoldable pub source_or_internal : DefaultLogger → Source
source_or_internal l = if str_eq l.source "" then "internal" else l.source

-- Debug, Info, Warn and Error are `log_at` their level.
unfoldable pub log_at :
    Level
    → (ℕ → Bool)
    → (Entry → Bool)
    → DefaultLogger
    → JsonStore
    → Text
    → ℕ
    → Text
    → Text
    → Text
    → JsonStore
log_at level opens encodes l s id now operation message context =
    log opens encodes l s id now level (source_or_internal l) operation message context

unfoldable pub with_benchmark : DefaultLogger → String → DefaultLogger
with_benchmark l id = record l { benchmark_id = id }

unfoldable pub with_infra : DefaultLogger → String → DefaultLogger
with_infra l id = record l { infra_id = id }
