-- ===== src/Engine/Run.antt =====
-- internal/engine/engine.go: Run. The identifier, the times, url.Parse, the file of the workload, the
-- captured environment, what memtier does and what becomes of the file of the run are arguments. The
-- progress messages and memtier's settings are output.
use redis_meter.Base.{ℕ, not, ◌&&◌, Option, none, some, String, str_eq, if◌then◌else◌}
use redis_meter.Base.Int.{ℤ, pos, int_lt, is_zero, sub_ℕ}
use redis_meter.Base.Text.{Text}
use redis_meter.Base.Dict.{Dict}
use redis_meter.Base.Result.{Result, ok, err}
use redis_meter.Domain.{RunStatus, RunProfile, Workload, Target, Environment, Results, BenchmarkRun}
use redis_meter.Storage.Model.{FileStorage, WriteOutcome, StorageError, save_run}
use redis_meter.Workloads.Registry.{WorkloadError, YamlFile, get_workload, load_from_file}
use redis_meter.Engine.Target.{Url, parse_target_url}
use redis_meter.Engine.Profiles.{RunConfig, build_run_profile}

-- memtier cannot be found; its run gives an error; it ends with one; its output does not parse; or it
-- gives results, with the raw output.
pub data Outcome : Type 0 where
  unavailable run_error result_error unparsable : String → Outcome
  measured : String → Results → Outcome

-- The error of a run that ended with one wraps the error of the call, which is nil.
pub data RunError : Type 0 where
  invalid_target : RunError
  no_workload : WorkloadError → RunError
  memtier_unavailable : String → RunError
  execution_failed : Option String → RunError
  parse_failed : String → RunError
  save_failed : StorageError → RunError

pub record Inputs : Type 0 where
  pub run_id : String
  pub parse : Text → Option Url
  pub file : YamlFile
  pub environment : Option Environment
  pub created_at : ℕ
  pub updated_at : ℕ
  pub start_time : ℕ
  pub end_time : ℕ
  pub finished_at : ℕ
  pub outcome : Outcome
  pub write : WriteOutcome

pub record Answer : Type 0 where
  pub storage : FileStorage
  pub run : Option BenchmarkRun
  pub error : Option RunError

unfoldable pub chosen_workload :
    Dict Workload → RunConfig → YamlFile → Result WorkloadError Workload
chosen_workload registry cfg file =
    if str_eq cfg.workload_file ""
    then get_workload registry cfg.workload_name
    else load_from_file file

-- A setting of the workload is overridden where the run profile has none.
abbrev pub legacy : ℤ → ℤ → ℤ → ℤ
legacy given profile own = if int_lt (pos 0) given && is_zero profile then given else own

unfoldable pub with_legacy : RunConfig → RunProfile → Workload → Workload
with_legacy cfg p w = record w {
  duration =
      if not (str_eq cfg.duration "") && str_eq p.duration "" then cfg.duration else w.duration;
  threads = legacy cfg.threads p.threads w.threads;
  clients = legacy cfg.clients p.clients w.clients;
  pipeline = legacy cfg.pipeline p.pipeline w.pipeline;
}

unfoldable pub captured : Option Environment → Environment
captured none = record { fingerprint = "unknown"; redis_meter_version = "0.1.0-dev"; rest = "" }
captured (some e) = e

unfoldable pub started : RunConfig → Inputs → Target → Workload → BenchmarkRun
started cfg i t w = record {
  id = i.run_id;
  created_at = i.created_at;
  updated_at = i.updated_at;
  workload = with_legacy cfg (build_run_profile cfg) w;
  run_profile = build_run_profile cfg;
  target = t;
  environment = captured i.environment;
  status = RunStatus.running;
  start_time = i.start_time;
  end_time = none;
  duration = none;
  results = none;
  error = "";
  name = cfg.name;
  tags = cfg.tags;
  rest = "";
}

unfoldable pub ended : Inputs → BenchmarkRun → BenchmarkRun
ended i r = record r { end_time = some i.end_time; duration = some (sub_ℕ i.end_time r.start_time) }

abbrev pub failed_with : BenchmarkRun → String → BenchmarkRun
failed_with r e = record r { status = RunStatus.failed; error = e }

-- The run is saved; whether it is saved is not looked at.
abbrev pub give_up : FileStorage → Inputs → BenchmarkRun → RunError → Answer
give_up fs i r e = record { storage = (save_run fs r i.write).0; run = some r; error = some e }

abbrev pub saved_error : Option StorageError → Option RunError
saved_error none = none
saved_error (some e) = some (RunError.save_failed e)

abbrev pub completed_with : Inputs → BenchmarkRun → String → Results → BenchmarkRun
completed_with i r raw results = record r {
  results = some (record results { raw_output = raw });
  status = RunStatus.completed;
  updated_at = i.finished_at;
}

unfoldable pub conclude : FileStorage → Inputs → BenchmarkRun → Outcome → Answer
conclude fs i r (Outcome.unavailable e) =
    give_up fs i (record (failed_with r e) { end_time = some i.end_time })
      (RunError.memtier_unavailable e)
conclude fs i r (Outcome.run_error e) =
    give_up fs i (failed_with (ended i r) e) (RunError.execution_failed (some e))
conclude fs i r (Outcome.result_error e) =
    give_up fs i (failed_with (ended i r) e) (RunError.execution_failed none)
conclude fs i r (Outcome.unparsable e) =
    give_up fs i (failed_with (ended i r) e) (RunError.parse_failed e)
conclude fs i r (Outcome.measured raw results) =
    let done = completed_with i (ended i r) raw results in
    record {
      storage = (save_run fs done i.write).0;
      run = some done;
      error = saved_error (save_run fs done i.write).1;
    }

abbrev pub refuse : FileStorage → RunError → Answer
refuse fs e = record { storage = fs; run = none; error = some e }

unfoldable pub run_workload :
    FileStorage → RunConfig → Inputs → Target → Result WorkloadError Workload → Answer
run_workload fs cfg i t (err e) = refuse fs (RunError.no_workload e)
run_workload fs cfg i t (ok w) = conclude fs i (started cfg i t w) i.outcome

abbrev pub run_target : Dict Workload → FileStorage → RunConfig → Inputs → Option Target → Answer
run_target registry fs cfg i none = refuse fs RunError.invalid_target
run_target registry fs cfg i (some t) =
    run_workload fs cfg i t (chosen_workload registry cfg i.file)

unfoldable pub run : Dict Workload → FileStorage → RunConfig → Inputs → Answer
run registry fs cfg i = run_target registry fs cfg i (parse_target_url i.parse cfg.target_url)
