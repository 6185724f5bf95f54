-- ===== src/Executor/Model.antt =====
-- The state of `Executor` in internal/task/executor.go. Each `Start` makes a context and a
-- goroutine, which is a `Worker` here; a worker owns the object that `Get` gave to `Start`.
-- A step handler is seen through what it does: `Validate` judges the task, `Execute` makes a series
-- of writes and progress reports and ends with an error or none.
use redis_meter.Base.{ℕ, ◌+◌, Bool, true, false, Option, List, [], String, ◌==◌, if◌then◌else◌}
use redis_meter.Base.Int.{ℤ}
use redis_meter.Base.Dict.{Dict, put}
use redis_meter.Task.Model.{StepType, Task}
use redis_meter.Task.Steps.{TaskError}
use redis_meter.TaskStore.Model.{Store, StoreError, SaveOutcome, save, update}

pub data Action : Type 0 where
  report : ℤ → String → Action
  change : (Task → Task) → Action

pub record Handler : Type 0 where
  pub validate : Task → Option String
  pub actions : Task → List Action
  pub result : Task → Option String

pub record Worker : Type 0 where
  pub id : String
  pub object : ℕ
  pub context : ℕ
  pub position : ℕ

pub record Executor : Type 0 where
  pub store : Store
  pub handlers : Dict Handler
  pub running : Dict ℕ
  pub done : ℕ → Bool
  pub next_context : ℕ
  pub clock : ℕ
  pub checkpoint_every : ℕ

-- Why a run, or a call, ends with an error.
pub data RunError : Type 0 where
  context_cancelled : RunError
  store_error : StoreError → RunError
  task_error : TaskError → RunError
  validation : StepType → String → RunError
  handler : String → RunError
  terminal already_running not_resumable not_running : String → RunError

-- What the machine answers: the time and the file system at each tick of the executor's clock,
-- which ticks at every save, and the text of each error.
pub record Env : Type 0 where
  pub time : ℕ → ℕ
  pub answer : ℕ → SaveOutcome
  pub error_text : RunError → String

unfoldable pub new_executor : Store → Executor
new_executor s = record {
  store = s;
  handlers = [];
  running = [];
  done = λ c. false;
  next_context = 0;
  clock = 0;
  checkpoint_every = 30000000000;
}

unfoldable pub register_handler : Executor → StepType → Handler → Executor
register_handler e t h = record e { handlers = put e.handlers t h }

-- The task that a pointer shows.
abbrev pub at : Executor → ℕ → Task
at e p = e.store.object p

-- `cancel()` of a context.
unfoldable pub cancel_context : Executor → ℕ → Executor
cancel_context e c = record e { done = λ d. if c == d then true else e.done d }

module _ (env : Env) where
  abbrev pub now : Executor → ℕ
  now e = env.time e.clock

  unfoldable pub set_task : Executor → ℕ → Task → Executor
  set_task e p t = record e { store = update e.store p t }

  unfoldable pub save_task : Executor → ℕ → Executor × Option StoreError
  save_task e p =
      let (s, err) = save e.store p (env.answer e.clock) (env.time e.clock) in
      (record e { store = s; clock = e.clock + 1 }, err)
