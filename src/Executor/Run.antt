-- ===== src/Executor/Run.antt =====
-- `run` and `executeStep` of internal/task/executor.go. One iteration of the loop in `run` is
-- `run_once`: between two iterations other goroutines may act.
pub mod Start
pub mod Outline
pub mod Frame
pub mod Success
pub mod Completion
pub mod Failure
use redis_meter.Base.{
  ℕ, zero, suc, ◌+◌, ◌-◌, ◌≡◌, refl, Bool, true, false, Option, none, some, List, [], ◌∷◌, String,
  leb, ltb, ◌==◌, if◌then◌else◌, get_elem?, set, length,
}
use redis_meter.Base.Dict.{Dict, get}
use redis_meter.Task.Model.{StepType, StepStatus, TaskStatus, Step, Task}
use redis_meter.Task.Steps.{TaskError, start_step, complete_step, fail_step, update_step_progress}
use redis_meter.Task.Status.{complete, fail, pause}
use redis_meter.TaskStore.Model.{StoreError}
use redis_meter.Executor.Model.{
  Action, Handler, Worker, Executor, RunError, Env, at, now, set_task, save_task,
}

abbrev pub is_done : StepStatus → Bool
is_done StepStatus.completed = true
is_done StepStatus.skipped = true
is_done _ = false

-- The steps before the first that is neither completed nor skipped.
unfoldable pub start_index : List Step → ℕ
start_index [] = 0
start_index (s ∷ ss) = let rest = start_index ss in if is_done s.status then suc rest else 0

abbrev pub or_now : Option ℕ → ℕ → Option ℕ
or_now none n = some n
or_now (some t) n = some t

abbrev pub store_result : Option StoreError → Option RunError
store_result none = none
store_result (some e) = some (RunError.store_error e)

-- How an iteration of the loop ends.
pub data Progress : Type 0 where
  more : ℕ → Progress
  ended : Option RunError → Progress

abbrev pub output_at : List Step → ℕ → String
output_at ss i = elim (get_elem? ss i) [ none ↦ "" | some s ↦ s.output ]

abbrev pub skipped_step : Step → Step
skipped_step s = record s { status = StepStatus.skipped; progress_msg = "no handler registered" }

module _ (env : Env) where
  -- The progress callback: the step's progress, and a save when the last one is long ago. Its
  -- errors are dropped. `last` is `lastCheckpoint`.
  unfoldable pub report_progress : Executor → ℕ → StepType → ℕ → Action → Executor × ℕ
  report_progress e p k last (Action.change f) = (set_task env e p (f (at e p)), last)
  report_progress e p k last (Action.report percent message) =
      let t = (update_step_progress (at e p) k percent message (now env e)).0 in
      let u = set_task env e p t in
      if leb (last + e.checkpoint_every) (now env e)
      then (let v = (save_task env u p).0 in (v, now env v))
      else (u, last)

  unfoldable pub perform : Executor → ℕ → StepType → ℕ → List Action → Executor
  perform e p k last [] = e
  perform e p k last (a ∷ rest) =
      let (u, checkpoint) = report_progress e p k last a in perform u p k checkpoint rest

  -- The end of `executeStep`: the step is completed with its output, and saved.
  unfoldable pub finish_step : Executor → ℕ → ℕ → StepType → Executor × Option RunError
  finish_step e p i k =
      let (t, err) = complete_step (at e p) k (output_at (at e p).steps i) (now env e) in
      elim err [
        | some x ↦ (set_task env e p t, some (RunError.task_error x))
        | none ↦ let (u, failed) = save_task env (set_task env e p t) p in (u, store_result failed)
      ]

  -- The handler's `Execute` and what follows it.
  unfoldable pub handle_step : Executor → ℕ → ℕ → StepType → Handler → Executor × Option RunError
  handle_step e p i k h =
      let u = perform e p k (now env e) (h.actions (at e p)) in
      elim (h.result (at e p)) [
        | some message ↦ (u, some (RunError.handler message))
        | none ↦ finish_step u p i k
      ]

  -- `StartStep` and the save after it.
  unfoldable pub begin_step : Executor → ℕ → ℕ → StepType → Handler → Executor × Option RunError
  begin_step e p i k h =
      let (t, err) = start_step (at e p) k (now env e) in
      elim err [
        | some x ↦ (set_task env e p t, some (RunError.task_error x))
        | none ↦
            let (u, failed) = save_task env (set_task env e p t) p in
            elim failed [
              | some x ↦ (u, some (RunError.store_error x))
              | none ↦ handle_step u p i k h
            ]
      ]

  unfoldable pub execute_step : Executor → ℕ → ℕ → Step → Executor × Option RunError
  execute_step e p i step = elim (get e.handlers step.type) [
    | none ↦
        let t = at e p in
        let (u, failed) =
          save_task env (set_task env e p (record t { steps = set t.steps i (skipped_step step) }))
            p in
        (u, store_result failed)
    | some h ↦ elim (h.validate (at e p)) [
      | some message ↦ (e, some (RunError.validation step.type message))
      | none ↦ begin_step e p i step.type h
    ]
  ]

  -- What `run` does before its loop. `none` says that the task is saved as running.
  unfoldable pub begin_run : Executor → ℕ → Executor × Option RunError
  begin_run e p =
      let t = at e p in
      let r = record t {
        status = TaskStatus.running;
        started_at = or_now t.started_at (now env e);
      } in
      let (u, failed) = save_task env (set_task env e p r) p in (u, store_result failed)

  unfoldable pub fail_run : Executor → ℕ → StepType → RunError → Executor
  fail_run e p k err =
      let text = env.error_text err in
      let t = fail (fail_step (at e p) k text (now env e)).0 text (now env e) in
      (save_task env (set_task env e p t) p).0

  -- The test of the loop, the test for cancellation and the step at position `i`.
  unfoldable pub run_once : Executor → Worker → ℕ → Executor × Progress
  run_once e w i =
      let p = w.object in
      elim (get_elem? (at e p).steps i) [
        | none ↦
            let t = complete (at e p) (at e p).result_id (now env e) in
            let (u, failed) = save_task env (set_task env e p t) p in
            (u, Progress.ended (store_result failed))
        | some step ↦
            if e.done w.context
            then (
              (save_task env (set_task env e p (pause (at e p) (now env e))) p).0,
              Progress.ended (some RunError.context_cancelled),
            )
            else let (u, err) = execute_step e p i step in
              elim err [
                | none ↦ (u, Progress.more (suc i))
                | some x ↦ (fail_run u p step.type x, Progress.ended (some x))
              ]
      ]

  -- The loop, alone, for at most `fuel` iterations. `Progress.more` is left when fuel runs out.
  unfoldable pub run_from : ℕ → Executor → Worker → ℕ → Executor × Progress
  run_from zero e w i = (e, Progress.more i)
  run_from (suc fuel) e w i =
      let (u, progress) = run_once e w i in
      elim progress [
        | Progress.more j ↦ run_from fuel u w j
        | Progress.ended r ↦ (u, Progress.ended r)
      ]

  -- `run`, with an iteration for each step that is left and one for the end. A handler that adds
  -- steps to its own task would need more.
  unfoldable pub run : Executor → Worker → Executor × Progress
  run e w =
      let steps = (at e w.object).steps in
      let (u, err) = begin_run e w.object in
      elim err [
        | some x ↦ (u, Progress.ended (some x))
        | none ↦ run_from (suc (length steps - start_index steps)) u w (start_index steps)
      ]
