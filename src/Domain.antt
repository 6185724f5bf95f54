-- ===== src/Domain.antt =====
-- internal/domain: the records of benchmark.go, target.go and baseline.go that the engine and the file
-- storage read. `rest` stands for the fields that they only pass on, as JSON. Times are nanoseconds.
use redis_meter.Base.{ℕ, Bool, Option, List, String}
use redis_meter.Base.Text.{Text}
use redis_meter.Base.Int.{ℤ, Decimal}

pub data RunStatus : Type 0 where
  pending running completed failed cancelled : RunStatus

pub record RunProfile : Type 0 where
  pub name : String
  pub description : String
  pub is_builtin : Bool
  pub threads : ℤ
  pub clients : ℤ
  pub duration : String
  pub requests : ℤ
  pub pipeline : ℤ
  pub rate_limit : ℤ
  pub run_count : ℤ
  pub protocol : String
  pub rest : String

pub record Operation : Type 0 where
  pub command : String
  pub ratio : Decimal

pub record KeyPattern : Type 0 where
  pub prefix : String
  pub pattern : String
  pub key_range : ℤ

pub record DataSize : Type 0 where
  pub min : ℤ
  pub max : ℤ
  pub fixed : ℤ

pub record Workload : Type 0 where
  pub name : String
  pub description : String
  pub type : String
  pub operations : List Operation
  pub key_pattern : Option KeyPattern
  pub data_size : Option DataSize
  pub threads : ℤ
  pub clients : ℤ
  pub duration : String
  pub pipeline : ℤ
  pub rest : String

pub record Target : Type 0 where
  pub url : Text
  pub host : String
  pub port : ℤ
  pub password : String
  pub username : String
  pub tls_enabled : Option Bool
  pub cluster : Bool

pub record Environment : Type 0 where
  pub fingerprint : String
  pub redis_meter_version : String
  pub rest : String

-- What the parser of memtier makes, with the raw output.
pub record Results : Type 0 where
  pub raw_output : String
  pub rest : String

-- `none` for a time that is not set, or for results that are not there.
pub record BenchmarkRun : Type 0 where
  pub id : String
  pub created_at : ℕ
  pub updated_at : ℕ
  pub workload : Workload
  pub run_profile : RunProfile
  pub target : Target
  pub environment : Environment
  pub status : RunStatus
  pub start_time : ℕ
  pub end_time : Option ℕ
  pub duration : Option ℤ
  pub results : Option Results
  pub error : String
  pub name : String
  pub tags : List String
  pub rest : String

pub record Baseline : Type 0 where
  pub id : String
  pub created_at : ℕ
  pub rest : String

abbrev pub default_run_profile : RunProfile
default_run_profile = record {
  name = "default";
  description = "Default execution profile";
  is_builtin = Bool.false;
  threads = ℤ.pos 4;
  clients = ℤ.pos 50;
  duration = "30s";
  requests = ℤ.pos 0;
  pipeline = ℤ.pos 1;
  rate_limit = ℤ.pos 0;
  run_count = ℤ.pos 1;
  protocol = "redis";
  rest = "";
}
