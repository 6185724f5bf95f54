-- ===== src/Examples/Data.antt =====
-- A task with two steps, a store that holds it, and an executor that runs it.
use redis_meter.Base.{
  ℕ, ◌+◌, ◌≡◌, refl, ap, sym, ◌∙◌, false, Bool-cases, inl, inr, Option, none, some, List, [], ◌∷◌,
  String, str_eq, eq_iff, arith,
}
use redis_meter.Base.Int.{pos}
use redis_meter.Base.Dict.{Dict, get}
use redis_meter.Task.Model.{StepStatus, TaskStatus, CheckpointText, Step, Task}
use redis_meter.TaskStore.Model.{File, Store, SaveOutcome, view}
use redis_meter.TaskStore.View.{IsWellFormed}
use redis_meter.TaskStore.Recovery.{IsDurable}
use redis_meter.TaskStore.History.{IsSound}
use redis_meter.Executor.Model.{Action, Handler, Worker, Executor, Env}

abbrev pub step_of : String → StepStatus → ℕ → Step
step_of type status percent = record {
  type = type;
  status = status;
  started_at = none;
  completed_at = none;
  duration = none;
  progress = pos percent;
  progress_msg = "";
  error = "";
  retry_count = pos 0;
  checkpoint = CheckpointText.empty;
  checkpoint_data = [];
  output = "";
}

abbrev pub task_of : String → TaskStatus → List Step → ℕ → Task
task_of id status steps updated = record {
  id = id;
  name = "nightly";
  description = "";
  tool = "memtier";
  tool_config = "";
  workload_id = "w";
  run_profile_id = "r";
  infra_profile_id = "";
  target_url = "redis://localhost";
  deploy_infra = false;
  destroy_infra = false;
  deployment_id = "";
  cloud_provider = "";
  status = status;
  current_step = "";
  progress = pos 0;
  steps = steps;
  created_at = 1;
  started_at = none;
  completed_at = none;
  last_updated_at = updated;
  timeout_seconds = pos 0;
  error = "";
  retry_count = pos 0;
  max_retries = pos 3;
  result_id = "";
  tags = [];
  labels = [];
}

abbrev pub two_steps : List Step
two_steps =
    step_of "deploy_infra" StepStatus.completed 100
    ∷ step_of "run_benchmark" StepStatus.pending 40
    ∷ []

abbrev pub nightly : Task
nightly = task_of "t1" TaskStatus.pending two_steps 7

abbrev pub finished_task : Task
finished_task = task_of "t1" TaskStatus.completed two_steps 7

-- A store over a directory with one task.
abbrev pub store_with : Task → Store
store_with t = record {
  next = 1;
  object = λ p. t;
  cache = ("t1", 0) ∷ [];
  disk = ("t1", File.stored t) ∷ [];
  archived = [];
}

abbrev pub shop : Store
shop = store_with nightly

pub shop-IsWellFormed : IsWellFormed shop
unfolding get
shop-IsWellFormed = record {
  allocated = λ j q h. ground arith;
  keyed = λ j q h. ground (arith, eq_iff "t1" j);
}

pub shop_shows : view shop "t1" ≡ some nightly
unfolding view get
shop_shows = refl

pub shop-IsDurable : IsDurable shop
unfolding view get
shop-IsDurable = record {
  same = λ j. ground arith;
  named = λ j t h. elim (Bool-cases (str_eq "t1" j)) [
    | inl e ↦ ap (id_in j) (sym (rw e at h)) ∙ (eq_iff "t1" j).0 e
    | inr e ↦ absurd (missing (File.stored t) (rw e at h))
  ];
  distinct = (refl, tt);
}
  where
    id_in : String → Option File → String
    id_in j (some (File.stored t)) = t.id
    id_in j _ = j

    missing : (f : File) → none ≡ some f → ⊥
    missing f e = cc

pub shop-IsSound : IsSound shop
shop-IsSound = record { formed = shop-IsWellFormed; durable = shop-IsDurable }

-- A machine whose disk takes every write.
abbrev pub machine : Env
machine = record { time = λ n. 100 + n; answer = λ n. SaveOutcome.saved; error_text = λ e. "error" }

-- A handler that reports half of the way and succeeds.
abbrev pub benchmark : Handler
benchmark = record {
  validate = λ t. none;
  actions = λ t. Action.report (pos 50) "half" ∷ [];
  result = λ t. none;
}

abbrev pub executor_of : Store → Dict ℕ → Executor
executor_of s running = record {
  store = s;
  handlers = ("run_benchmark", benchmark) ∷ [];
  running = running;
  done = λ c. false;
  next_context = 1;
  clock = 0;
  checkpoint_every = 30000000000;
}

abbrev pub idle : Executor
idle = executor_of shop []

abbrev pub busy : Executor
busy = executor_of shop (("t1", 0) ∷ [])

abbrev pub worker : Worker
worker = record { id = "t1"; object = 0; context = 0; position = 0 }
