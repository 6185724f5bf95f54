-- ===== src/Examples/Engines.antt =====
-- The theorems on internal/engine, internal/storage and internal/workload at one run.
use redis_meter.Base.{
  ◌≡◌, ◌≢◌, ◌⊎◌, refl, true, false, none, some, [], ◌∷◌, String, arith, eq_iff, List, any,
}
use redis_meter.Base.Int.{pos}
use redis_meter.Base.Dict.{get, put}
use redis_meter.Base.Result.{ok}
use redis_meter.Base.Text.{codes, contains_text, starts_with, atoi, digits_value}
use redis_meter.Domain.{Target, Results, BenchmarkRun}
use redis_meter.Storage.Model.{WriteOutcome, Codec, get_run, save_run}
use redis_meter.Storage.Queries.{QueryFilter, matches_filter, has_any_tag, query}
use redis_meter.Storage.Effects.{HasEnding, save_run_effect, delete_run_effect}
use redis_meter.Storage.Results.{IsListed, saved_run-IsListed}
use redis_meter.Workloads.Builtins.{cache}
use redis_meter.Workloads.Registry.{YamlFile, new_registry, register_all, register, get_workload}
use redis_meter.Engine.Target.{
  Url, parse_target_url, with_scheme, target_port, is_cluster, is_tls, target_at,
}
use redis_meter.Engine.Profiles.{RunConfig, build_run_profile}
use redis_meter.Engine.Run.{
  Outcome, Inputs, chosen_workload, with_legacy, started, ended, completed_with, run,
}
use redis_meter.Engine.Overrides.{with_legacy_lem}
use redis_meter.Engine.Records.{IsRecorded, IsRefused, run_effect}
use redis_meter.Engine.Success.{run_succeeds_iff}

abbrev codec : Codec
codec = record { as_run = λ b. none; as_baseline = λ r. none }

abbrev local_target : Target
local_target = record {
  url = codes "redis://localhost:6379";
  host = "localhost";
  port = pos 6379;
  password = "";
  username = "";
  tls_enabled = none;
  cluster = false;
}

abbrev local_url : Url
local_url = record { scheme = "redis"; hostname = "localhost"; port = codes "6379"; user = none }

abbrev config : RunConfig
config = record {
  workload_name = "cache";
  workload_file = "";
  run_profile_name = "quick-test";
  target_url = codes "localhost:6379";
  duration = "20s";
  threads = pos 3;
  clients = pos 0;
  pipeline = pos 0;
  requests = pos 1000;
  rate_limit = pos 0;
  name = "nightly";
  tags = "ci" ∷ [];
}

abbrev numbers : Results
numbers = record { raw_output = ""; rest = "{}" }

abbrev inputs : Inputs
inputs = record {
  run_id = "r1";
  parse = λ raw. some local_url;
  file = YamlFile.missing;
  environment = none;
  created_at = 1;
  updated_at = 2;
  start_time = 3;
  end_time = 9;
  finished_at = 10;
  outcome = Outcome.measured "{}" numbers;
  write = WriteOutcome.whole;
}

abbrev done : BenchmarkRun
done = completed_with inputs (ended inputs (started config inputs local_target cache)) "{}" numbers

abbrev all_runs : QueryFilter
all_runs = record { tags = "ci" ∷ []; time_range = none; limit = pos 0 }

abbrev another : String
another = "r2"

abbrev the_id : String
the_id = "r1"

distinct_ids : another ≢ the_id
distinct_ids e = ground (arith, eq_iff another the_id, e)

run_effect_example :
    IsRefused [] (run new_registry [] config inputs)
    ⊎ IsRecorded codec [] the_id another (run new_registry [] config inputs)
run_effect_example = run_effect codec new_registry [] config inputs another refl refl distinct_ids

run_succeeds_iff_example : (run new_registry [] config inputs).error ≡ none
unfolding new_registry chosen_workload register_all register get_workload get put parse_target_url
    target_port atoi digits_value target_at with_scheme is_tls is_cluster contains_text starts_with
run_succeeds_iff_example =
    (run_succeeds_iff new_registry [] config inputs).1
      ((local_target, refl), (cache, refl), ("{}", numbers, refl), refl, refl)

-- The number of requests takes the duration out of the profile, so the duration goes to the workload.
with_legacy_lem_example :
    with_legacy config (build_run_profile config) cache ≡ record cache { duration = "20s" }
with_legacy_lem_example = with_legacy_lem config cache

save_run_effect_example : get_run codec (save_run [] done WriteOutcome.whole).0 done.id ≡ ok done
unfolding ended started
save_run_effect_example = (save_run_effect codec [] done another refl distinct_ids).1

delete_run_effect_example :
    HasEnding codec (save_run [] done WriteOutcome.whole).0 done.id another true
unfolding ended started
delete_run_effect_example =
    delete_run_effect codec (save_run [] done WriteOutcome.whole).0 done.id another true
      distinct_ids

saved_run-IsListed_example :
    (rs : List BenchmarkRun) × (query codec
        (save_run [] done WriteOutcome.whole).0
        "runs"
        all_runs
        true
      ≡ ok rs)
    × IsListed done rs
unfolding ended started matches_filter has_any_tag any
saved_run-IsListed_example = saved_run-IsListed codec [] done all_runs refl refl refl
