-- ===== src/Task/Steps.antt =====
-- The operations on a task's steps in internal/task/task.go. `GetStep` gives a pointer to the
-- first step of its type: a write through it is `modify_first`.
pub mod Laws
pub mod Gains
pub mod Index
use redis_meter.Base.{
  ℕ, suc, ◌+◌, ◌≡◌, refl, Bool, true, false, ◌||◌, Option, none, some, List, [], ◌∷◌, ◌++◌, String,
  str_eq, if◌then◌else◌,
}
use redis_meter.Base.Int.{ℤ, pos, negsuc, sub_ℕ, add}
use redis_meter.Task.Model.{
  StepType, StepStatus, TaskStatus, Step, Task, Checkpoint, CheckpointText, new_step,
}
use redis_meter.Task.Progress.{calculate_progress}

pub data TaskError : Type 0 where
  step_not_found : StepType → TaskError
  bad_checkpoint : TaskError

unfoldable pub add_step : Task → StepType → Task
unfolding new_step
add_step t type = record t { steps = t.steps ++ (new_step type ∷ []) }

unfoldable pub add_steps : Task → List StepType → Task
add_steps t [] = t
add_steps t (s ∷ ss) = add_steps (add_step t s) ss

unfoldable pub find_step : StepType → List Step → Option Step
find_step k [] = none
find_step k (s ∷ ss) = let rest = find_step k ss in if str_eq s.type k then some s else rest

unfoldable pub modify_first : StepType → (Step → Step) → List Step → List Step
modify_first k f [] = []
modify_first k f (s ∷ ss) =
    let rest = modify_first k f ss in if str_eq s.type k then f s ∷ ss else s ∷ rest

unfoldable pub get_step : Task → StepType → Option Step
unfolding find_step
get_step t k = find_step k t.steps

abbrev pub is_open : StepStatus → Bool
is_open StepStatus.running = true
is_open StepStatus.pending = true
is_open _ = false

abbrev pub is_completed : StepStatus → Bool
is_completed StepStatus.completed = true
is_completed _ = false

current_from : ℕ → List Step → ℤ
current_from i [] = negsuc 0
current_from i (s ∷ ss) =
    let rest = current_from (i + 1) ss in if is_open s.status then pos i else rest

unfoldable pub get_current_step_index : Task → ℤ
unfolding current_from
get_current_step_index t = current_from 0 t.steps

last_from : ℤ → ℕ → List Step → ℤ
last_from last i [] = last
last_from last i (s ∷ ss) = last_from (if is_completed s.status then pos i else last) (i + 1) ss

unfoldable pub get_last_completed_step_index : Task → ℤ
unfolding last_from
get_last_completed_step_index t = last_from (negsuc 0) 0 t.steps

-- `now.Sub(*step.StartedAt)`, where there is a start.
abbrev pub elapsed : Option ℕ → ℕ → Option ℤ → Option ℤ
elapsed none now old = old
elapsed (some t) now old = some (sub_ℕ now t)

-- The first step of type `k` is there: write through the pointer, then change the task.
unfoldable pub on_step : Task → StepType → (Step → Step) → (Task → Task) → Task × Option TaskError
on_step t k f g = elim (get_step t k) [
  | none ↦ (t, some (TaskError.step_not_found k))
  | some s ↦ (g (record t { steps = modify_first k f t.steps }), none)
]

unfoldable pub begin_task : TaskStatus → ℕ → Task → Task
begin_task TaskStatus.pending now t = record t {
  status = TaskStatus.running;
  started_at = some now;
}
begin_task _ now t = t

unfoldable pub start_step : Task → StepType → ℕ → Task × Option TaskError
unfolding begin_task
start_step t k now =
    on_step t k
      (λ s. record s { status = StepStatus.running; started_at = some now; progress = pos 0 })
      (λ u. begin_task u.status now (record u { current_step = k; last_updated_at = now }))

unfoldable pub complete_step : Task → StepType → String → ℕ → Task × Option TaskError
complete_step t k output now =
    on_step t k
      (λ s. record s {
        status = StepStatus.completed;
        completed_at = some now;
        progress = pos 100;
        output = output;
        duration = elapsed s.started_at now s.duration;
      })
      (λ u. record u { progress = calculate_progress u; last_updated_at = now })

unfoldable pub fail_step : Task → StepType → String → ℕ → Task × Option TaskError
fail_step t k message now =
    on_step t k
      (λ s. record s {
        status = StepStatus.failed;
        completed_at = some now;
        error = message;
        retry_count = add s.retry_count (pos 1);
        duration = elapsed s.started_at now s.duration;
      })
      (λ u. record u { last_updated_at = now })

unfoldable pub update_step_progress : Task → StepType → ℤ → String → ℕ → Task × Option TaskError
update_step_progress t k progress message now =
    on_step t k (λ s. record s { progress = progress; progress_msg = message })
      (λ u. record u { progress = calculate_progress u; last_updated_at = now })

-- `saved` and `now` are the two readings of the clock. The caller's checkpoint is stamped too.
unfoldable pub set_step_checkpoint :
    Task → StepType → Checkpoint → ℕ → ℕ → Task × Checkpoint × Option TaskError
set_step_checkpoint t k c saved now = elim (get_step t k) [
  | none ↦ (t, c, some (TaskError.step_not_found k))
  | some s ↦
      let stamped = record c { saved_at = saved } in
      (
        record t {
          steps =
              modify_first k (λ x. record x { checkpoint = CheckpointText.json stamped }) t.steps;
          last_updated_at = now;
        },
        stamped,
        none,
      )
]

-- `json.Unmarshal` of the text of a checkpoint.
pub data Fetched : Type 0 where
  found : Option Checkpoint → Fetched
  fault : TaskError → Fetched

unfoldable pub read_checkpoint : CheckpointText → Fetched
read_checkpoint CheckpointText.empty = Fetched.found none
read_checkpoint (CheckpointText.json c) = Fetched.found (some c)
read_checkpoint (CheckpointText.plain s) = Fetched.fault TaskError.bad_checkpoint

unfoldable pub get_step_checkpoint : Task → StepType → Fetched
unfolding read_checkpoint
get_step_checkpoint t k = elim (get_step t k) [
  | none ↦ Fetched.fault (TaskError.step_not_found k)
  | some s ↦ read_checkpoint s.checkpoint
]
