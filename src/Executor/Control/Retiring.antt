-- ===== src/Executor/Control/Retiring.antt =====
-- The entry in `running` that the goroutine of internal/task/executor.go deletes when it ends.
use redis_meter.Base.{
  ℕ, ◌+◌, ◌≡◌, refl, ap, ◌∙◌, true, false, some, String, eq_refl, arith, get_elem?,
}
use redis_meter.Base.Dict.{get-remove}
use redis_meter.Task.Model.{Task}
use redis_meter.Task.Status.{can_resume, pause}
use redis_meter.TaskStore.Model.{SaveOutcome, view}
use redis_meter.TaskStore.View.{IsWellFormed, stamped}
use redis_meter.Executor.Model.{Worker, Executor, RunError, Env, at, now}
use redis_meter.Executor.Writes.{write_saved, written-view, written-IsWellFormed}
use redis_meter.Executor.Run.{run_once}
use redis_meter.Executor.Control.{Reply, is_running, cancel_task, resume_task, pause_task, retire}
use redis_meter.Executor.Control.Effects.{cancel_task_lem, pause_task_idle}
use redis_meter.Executor.Control.Races.{IsMidRun, run_once_done, own_name}
use redis_meter.Executor.Control.Resuming.{resume_starts}

retired : (e : Executor) (w : Worker) → is_running (retire e w) w.id ≡ false
unfolding retire is_running
retired e w = rw (get-remove e.running w.id w.id, eq_refl w.id) refl

module _ (env : Env) where
  -- A cancelled run, once its goroutine has saved its task as paused.
  pub record IsSuspended (v : Executor) (id : String) (t : Task) : Type 0 where
    pub formed : IsWellFormed v.store
    pub shown : view v.store id ≡ some t
    pub resumable : can_resume t ≡ true
    pub idle : is_running v id ≡ false

  suspended :
      (e : Executor) (w : Worker) (i : ℕ) (t : Task)
      → IsMidRun e w i
      → view e.store w.id ≡ some t
      → env.answer e.clock ≡ SaveOutcome.saved
      → env.answer (e.clock + 1) ≡ SaveOutcome.saved
      → let v = (run_once env (cancel_task env e w.id).0 w i).0 in
        (x : Task) × IsSuspended v w.id x × (v.clock ≡ e.clock + 2)
  unfolding pause can_resume is_running
  suspended e w i t m v a b =
      let p = w.object in
      let (r, shown, idle, don, k, formed, old, nx) = cancel_task_lem env e w.id t m.formed v a in
      let u = (cancel_task env e w.id).0 in
      let kept = old p m.allocated in
      let left = ap (λ (x : Task). get_elem? x.steps i) kept ∙ m.left in
      let owned = ap (λ (x : Task). x.id) kept ∙ m.owned in
      let paused = pause (at u p) (now env u) in
      let answer = ap env.answer k ∙ b in
      rw
        (
          run_once_done env u w i m.step left (don w.context m.registered),
          write_saved env u p paused answer,
        )
        (
          stamped paused (now env u),
          record {
            formed =
                written-IsWellFormed env u p paused refl formed (omega (arith, nx, m.allocated));
            shown =
                written-view env u p paused refl formed w.id ∙ own_name (at u p).id w.id _ _ owned;
            resumable = refl;
            idle = idle;
          },
          omega (arith, k),
        )

  -- `Cancel` during a run with steps left, in a well-formed store that shows the task, where the
  -- disk takes the writes, then the goroutine's last iteration, then `Resume`: a second goroutine is
  -- started for the task. When the first one then ends, it deletes the entry of the second: the
  -- task counts as not running, and `Pause` of it is refused.
  pub late_retire_hides_run :
      (e : Executor) (w : Worker) (i : ℕ) (t : Task)
      → IsMidRun e w i
      → view e.store w.id ≡ some t
      → env.answer e.clock ≡ SaveOutcome.saved
      → env.answer (e.clock + 1) ≡ SaveOutcome.saved
      → env.answer (e.clock + 2) ≡ SaveOutcome.saved
      → let v = (run_once env (cancel_task env e w.id).0 w i).0 in
        let (x, r) = resume_task env v w.id in
        let y = retire x w in
        (second : Worker) × (r ≡ Reply.started second)
        × (is_running x w.id ≡ true)
        × (is_running y w.id ≡ false)
        × (pause_task env y w.id ≡ (y, Reply.refused (RunError.not_running w.id)))
  late_retire_hides_run e w i t m shows a b c =
      let (s, state, clock) = suspended e w i t m shows a b in
      let v = (run_once env (cancel_task env e w.id).0 w i).0 in
      let (second, r, runs, _, _) =
        resume_starts env v w.id s state.formed state.shown state.resumable state.idle
          (ap env.answer clock ∙ c) in
      let gone = retired (resume_task env v w.id).0 w in
      (second, r, runs, gone, pause_task_idle env (retire (resume_task env v w.id).0 w) w.id gone)
