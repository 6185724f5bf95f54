-- ===== src/Engine/Profiles.antt =====
-- internal/engine/engine.go: RunConfig, getBuiltinRunProfile and buildRunProfile.
use redis_meter.Base.{true, Option, none, some, List, [], ◌∷◌, String, str_eq, if◌then◌else◌}
use redis_meter.Base.Int.{ℤ, pos, int_lt}
use redis_meter.Base.Dict.{Dict, get}
use redis_meter.Base.Text.{Text}
use redis_meter.Domain.{RunProfile, default_run_profile}

pub record RunConfig : Type 0 where
  pub workload_name : String
  pub workload_file : String
  pub run_profile_name : String
  pub target_url : Text
  pub duration : String
  pub threads : ℤ
  pub clients : ℤ
  pub pipeline : ℤ
  pub requests : ℤ
  pub rate_limit : ℤ
  pub name : String
  pub tags : List String

abbrev pub default_profile : RunProfile
default_profile = record {
  name = "default";
  description = "Default execution profile - balanced settings";
  is_builtin = true;
  threads = pos 4;
  clients = pos 50;
  duration = "30s";
  requests = pos 0;
  pipeline = pos 1;
  rate_limit = pos 0;
  run_count = pos 1;
  protocol = "redis";
  rest = "";
}

abbrev pub quick_test_profile : RunProfile
quick_test_profile = record {
  name = "quick-test";
  description = "Quick test - short duration for validation";
  is_builtin = true;
  threads = pos 2;
  clients = pos 10;
  duration = "10s";
  requests = pos 0;
  pipeline = pos 1;
  rate_limit = pos 0;
  run_count = pos 1;
  protocol = "redis";
  rest = "";
}

abbrev pub high_load_profile : RunProfile
high_load_profile = record {
  name = "high-load";
  description = "High load test - maximum parallelism";
  is_builtin = true;
  threads = pos 8;
  clients = pos 100;
  duration = "60s";
  requests = pos 0;
  pipeline = pos 10;
  rate_limit = pos 0;
  run_count = pos 1;
  protocol = "redis";
  rest = "";
}

abbrev pub low_latency_profile : RunProfile
low_latency_profile = record {
  name = "low-latency";
  description = "Low latency measurement - minimal pipelining";
  is_builtin = true;
  threads = pos 2;
  clients = pos 10;
  duration = "30s";
  requests = pos 0;
  pipeline = pos 1;
  rate_limit = pos 0;
  run_count = pos 3;
  protocol = "redis";
  rest = "";
}

abbrev pub throughput_profile : RunProfile
throughput_profile = record {
  name = "throughput";
  description = "Throughput focused - aggressive pipelining";
  is_builtin = true;
  threads = pos 4;
  clients = pos 100;
  duration = "60s";
  requests = pos 0;
  pipeline = pos 20;
  rate_limit = pos 0;
  run_count = pos 1;
  protocol = "redis";
  rest = "";
}

abbrev pub stress_profile : RunProfile
stress_profile = record {
  name = "stress";
  description = "Stress test - extended duration with high load";
  is_builtin = true;
  threads = pos 8;
  clients = pos 200;
  duration = "300s";
  requests = pos 0;
  pipeline = pos 10;
  rate_limit = pos 0;
  run_count = pos 1;
  protocol = "redis";
  rest = "";
}

abbrev pub rate_limited_profile : RunProfile
rate_limited_profile = record {
  name = "rate-limited";
  description = "Rate limited - controlled request rate";
  is_builtin = true;
  threads = pos 4;
  clients = pos 50;
  duration = "30s";
  requests = pos 0;
  pipeline = pos 1;
  rate_limit = pos 10000;
  run_count = pos 1;
  protocol = "redis";
  rest = "";
}

abbrev pub request_based_profile : RunProfile
request_based_profile = record {
  name = "request-based";
  description = "Request based - fixed number of requests";
  is_builtin = true;
  threads = pos 4;
  clients = pos 50;
  duration = "";
  requests = pos 100000;
  pipeline = pos 1;
  rate_limit = pos 0;
  run_count = pos 1;
  protocol = "redis";
  rest = "";
}

abbrev pub builtin_profiles : Dict RunProfile
builtin_profiles =
    ("default", default_profile)
    ∷ ("quick-test", quick_test_profile)
    ∷ ("high-load", high_load_profile)
    ∷ ("low-latency", low_latency_profile)
    ∷ ("throughput", throughput_profile)
    ∷ ("stress", stress_profile)
    ∷ ("rate-limited", rate_limited_profile)
    ∷ ("request-based", request_based_profile)
    ∷ []

unfoldable pub get_builtin_run_profile : String → Option RunProfile
get_builtin_run_profile name = get builtin_profiles name

abbrev pub or_default : Option RunProfile → RunProfile
or_default none = default_run_profile
or_default (some p) = p

unfoldable pub first_profile : RunConfig → RunProfile
first_profile cfg =
    if str_eq cfg.run_profile_name ""
    then default_run_profile
    else or_default (get_builtin_run_profile cfg.run_profile_name)

-- A number above 0 takes the place of another.
abbrev pub override : ℤ → ℤ → ℤ
override given own = if int_lt (pos 0) given then given else own

abbrev pub override_text : String → String → String
override_text given own = if str_eq given "" then own else given

unfoldable pub build_run_profile : RunConfig → RunProfile
build_run_profile cfg =
    let p = first_profile cfg in
    record p {
      duration = if int_lt (pos 0) cfg.requests then "" else override_text cfg.duration p.duration;
      threads = override cfg.threads p.threads;
      clients = override cfg.clients p.clients;
      pipeline = override cfg.pipeline p.pipeline;
      requests = override cfg.requests p.requests;
      rate_limit = override cfg.rate_limit p.rate_limit;
    }
