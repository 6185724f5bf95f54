-- ===== src/Examples/Runs.antt =====
-- The theorems on internal/task/executor.go at an executor of one task.
use mathlib.Core.Path.{subst}
use redis_meter.Base.{
  ◌≡◌, ◌≢◌, refl, ap, false, Bool-cases, inl, inr, Option, none, some, String, str_eq, eq_iff,
  arith, ◌∷◌, [], All, true,
}
use redis_meter.Base.Dict.{get}
use redis_meter.Base.Int.{pos}
use redis_meter.Task.Model.{TaskStatus, StepStatus, Step, Task}
use redis_meter.TaskStore.Model.{view, save}
use redis_meter.Executor.Model.{Handler, RunError, Action, Executor, save_task}
use redis_meter.Executor.Run.{Progress, run, run_once, execute_step, begin_step, handle_step}
use redis_meter.Executor.Run.Outline.{outline, HasDistinctTypes}
use redis_meter.Executor.Run.Frame.{IsReady, IsHarmless}
use redis_meter.Executor.Run.Success.{IsCooperative, HasGoodHandlers}
use redis_meter.Task.Steps.{start_step, on_step, get_step}
use redis_meter.Executor.Run.Failure.{HasHarmlessHandlers, step_failure_ends_run}
use redis_meter.Executor.Run.Completion.{IsCompleted, run_completes}
use redis_meter.Executor.Control.{is_running, cancel_task, resume_task, retire}
use redis_meter.Executor.Control.Effects.{cancel_task_effect}
use redis_meter.TaskStore.View.{IsWellFormed}
use redis_meter.Task.Status.{can_resume}
use redis_meter.Executor.Control.Resuming.{resume_starts}
use redis_meter.Examples.Data.{
  store_with, idle, step_of, two_steps, nightly, shop-IsWellFormed, shop_shows, machine, benchmark,
  busy, worker,
}
use redis_meter.Executor.Control.Retiring.{late_retire_hides_run}
use redis_meter.Executor.Control.Races.{IsMidRun, status_of, cancel_overwritten}

ready : IsReady busy 0
ready = record { formed = shop-IsWellFormed; allocated = omega arith }

benchmark-IsCooperative : IsCooperative benchmark
benchmark-IsCooperative = record {
  valid = λ t. refl;
  succeeds = λ t. refl;
  harmless = λ t. (tt, tt);
}

abbrev handler_or : Option Handler → Handler
handler_or none = benchmark
handler_or (some h) = h

good : HasGoodHandlers busy.handlers
unfolding get
good k h e = elim (Bool-cases (str_eq "run_benchmark" k)) [
  | inl q ↦ subst IsCooperative (ap handler_or (rw q at e)) benchmark-IsCooperative
  | inr q ↦ absurd (missing (rw q at e))
]
  where
    missing : none ≡ some h → ⊥
    missing n = cc

distinct : HasDistinctTypes (outline two_steps)
distinct = ((different, tt), (tt, tt))
  where
    different : ◌≢◌ {A = String} "run_benchmark" "deploy_infra"
    different = ground (arith, eq_iff "run_benchmark" "deploy_infra")

run_completes_example :
    ((run machine busy worker).1 ≡ Progress.ended none)
    × IsCompleted (run machine busy worker).0 0 "t1"
run_completes_example = run_completes machine (λ n. refl) busy worker ready good distinct refl

mid_run : IsMidRun busy worker 1
unfolding get
mid_run = record {
  formed = shop-IsWellFormed;
  registered = refl;
  owned = refl;
  allocated = omega arith;
  step = _;
  left = refl;
}

cancel_overwritten_example :
    status_of (view (run_once machine (cancel_task machine busy "t1").0 worker 1).0.store "t1")
    ≡ some TaskStatus.paused
cancel_overwritten_example =
    (cancel_overwritten machine busy worker 1 nightly mid_run shop_shows refl refl).3

cancel_task_effect_example : is_running (cancel_task machine busy "t1").0 "t1" ≡ false
cancel_task_effect_example =
    (cancel_task_effect machine busy "t1" nightly shop-IsWellFormed shop_shows refl).2

runs : get busy.running "t1" ≡ some 0
unfolding get
runs = refl

-- A handler that reports and then fails.
abbrev broken : Handler
broken = record {
  validate = λ t. none;
  actions = λ t. Action.report (pos 50) "half" ∷ [];
  result = λ t. some "refused";
}

abbrev failing : Executor
failing = record busy { handlers = ("run_benchmark", broken) ∷ [] }

harmless : HasHarmlessHandlers failing.handlers
unfolding get
harmless k h e = elim (Bool-cases (str_eq "run_benchmark" k)) [
  | inl q ↦
      subst (λ (x : Handler). (t : Task) → All IsHarmless (x.actions t))
        (ap (λ (o : Option Handler). elim o [ none ↦ broken | some x ↦ x ]) (rw q at e))
        (λ t. (tt, tt))
  | inr q ↦ absurd (missing (rw q at e))
]
  where
    missing : none ≡ some h → ⊥
    missing n = cc

failing-IsReady : IsReady failing 0
failing-IsReady = record { formed = shop-IsWellFormed; allocated = omega arith }

abbrev last_step : Step
last_step = step_of "run_benchmark" StepStatus.pending 40

step_fails : (execute_step machine failing 0 1 last_step).1 ≡ some (RunError.handler "refused")
unfolding execute_step begin_step handle_step get start_step on_step get_step save_task save
step_fails = refl

step_failure_ends_run_example :
    (run_once machine failing worker 1).1 ≡ Progress.ended (some (RunError.handler "refused"))
step_failure_ends_run_example =
    (step_failure_ends_run machine (λ n. refl) failing worker 1 last_step
      (RunError.handler "refused") failing-IsReady harmless refl refl step_fails).0

-- A failed task with no retries left.
abbrev worn_out : Task
worn_out = record nightly { status = TaskStatus.failed; retry_count = pos 3 }

abbrev worn : Executor
worn = record idle { store = store_with worn_out }

worn-IsWellFormed : IsWellFormed worn.store
unfolding get
worn-IsWellFormed = record {
  allocated = λ j q h. ground arith;
  keyed = λ j q h. ground (arith, eq_iff "t1" j);
}

worn_shows : view worn.store "t1" ≡ some worn_out
unfolding view get
worn_shows = refl

can_go_on : can_resume worn_out ≡ true
unfolding can_resume
can_go_on = refl

nothing_runs : is_running worn "t1" ≡ false
unfolding is_running get
nothing_runs = refl

resume_starts_example : is_running (resume_task machine worn "t1").0 "t1" ≡ true
resume_starts_example =
    (resume_starts machine worn "t1" worn_out worn-IsWellFormed worn_shows can_go_on nothing_runs
      refl).2

late_retire_hides_run_example :
    let v = (run_once machine (cancel_task machine busy "t1").0 worker 1).0 in
    is_running (retire (resume_task machine v "t1").0 worker) "t1" ≡ false
late_retire_hides_run_example =
    (late_retire_hides_run machine busy worker 1 nightly mid_run shop_shows refl refl refl).3
