-- ===== src/Examples/Tasks.antt =====
-- The theorems on internal/task/task.go at a task with two steps.
use redis_meter.Base.{◌≡◌, ◌≢◌, ◌↔◌, refl, none, some, [], All, arith}
use redis_meter.Base.Int.{pos}
use redis_meter.Task.Model.{StepStatus, TaskStatus, Step, Task, Checkpoint, CheckpointText}
use redis_meter.Task.Progress.{calculate_progress}
use redis_meter.Task.Progress.Spec.{IsMeasured}
use redis_meter.Task.Progress.Bounds.{IsFinished, calculate_progress-full}
use redis_meter.Task.Steps.{get_step, complete_step, find_step}
use redis_meter.Task.Steps.Laws.{complete_step_effect}
use redis_meter.Examples.Data.{two_steps, nightly}

measured : IsMeasured two_steps
measured = record { percents = (omega arith, (omega arith, tt)); few = omega arith }

has_steps : two_steps ≢ []
has_steps = λ e. cc

abbrev next_step : Step
next_step = record {
  type = "run_benchmark";
  status = StepStatus.pending;
  started_at = none;
  completed_at = none;
  duration = none;
  progress = pos 40;
  progress_msg = "";
  error = "";
  retry_count = pos 0;
  checkpoint = CheckpointText.empty;
  checkpoint_data = [];
  output = "";
}

found : get_step nightly "run_benchmark" ≡ some next_step
unfolding get_step find_step
found = refl

unknown : get_step nightly "unknown" ≡ none
unfolding get_step find_step
unknown = refl

abbrev half_way : Checkpoint
half_way = record {
  position = pos 1;
  total = pos 2;
  last_processed = "k";
  payload = [];
  saved_at = 0;
}

calculate_progress-full_example : (calculate_progress nightly ≡ pos 100) ↔ All IsFinished two_steps
calculate_progress-full_example = calculate_progress-full nightly measured has_steps

complete_step_effect_example :
    let u = (complete_step nightly "run_benchmark" "out" 9).0 in u.progress ≡ calculate_progress u
complete_step_effect_example =
    (complete_step_effect nightly "run_benchmark" next_step 9 found "out").2

abbrev worn_out : Task
worn_out = record nightly { status = TaskStatus.failed; retry_count = pos 3 }
