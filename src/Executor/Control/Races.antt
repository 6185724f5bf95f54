-- ===== src/Executor/Control/Races.antt =====
-- The goroutine of a run of internal/task/executor.go and the calls of others, interleaved.
use redis_meter.Base.{
  ℕ, ◌+◌, ◌<◌, ◌≡◌, refl, ap, ◌∙◌, true, Option, none, some, String, str_eq, if◌then◌else◌,
  get_elem?, if_self,
}
use redis_meter.Base.Dict.{get}
use redis_meter.Task.Model.{TaskStatus, Step, Task}
use redis_meter.Task.Status.{cancel, pause}
use redis_meter.TaskStore.Model.{SaveOutcome, view}
use redis_meter.TaskStore.View.{IsWellFormed}
use redis_meter.Executor.Model.{Worker, Executor, RunError, Env, at, now, set_task, save_task}
use redis_meter.Executor.Run.{Progress, run_once}
use redis_meter.Executor.Control.{Reply, cancel_task}
use redis_meter.Executor.Control.Effects.{cancel_task_lem}
use redis_meter.Executor.Writes.{written-view, write_saved}

abbrev pub status_of : Option Task → Option TaskStatus
status_of none = none
status_of (some t) = some t.status

pub own_name : (a b : String) (x y : Option Task) → a ≡ b → (if str_eq a b then x else y) ≡ x
own_name a b x y h = rw h (if_self b x y)

-- An executor and one of its goroutines, between two iterations of a run that has steps left.
pub record IsMidRun (e : Executor) (w : Worker) (i : ℕ) : Type 0 where
  pub formed : IsWellFormed e.store
  pub registered : get e.running w.id ≡ some w.context
  pub owned : (at e w.object).id ≡ w.id
  pub allocated : w.object < e.store.next
  pub step : Step
  pub left : get_elem? (at e w.object).steps i ≡ some step

module _ (env : Env) where
  -- A goroutine whose context has ended, at the start of an iteration.
  pub run_once_done :
      (e : Executor) (w : Worker) (i : ℕ) (step : Step)
      → get_elem? (at e w.object).steps i ≡ some step
      → e.done w.context ≡ true
      → run_once env e w i ≡ (
        (save_task env (set_task env e w.object (pause (at e w.object) (now env e))) w.object).0,
        Progress.ended (some RunError.context_cancelled),
      )
  unfolding run_once
  run_once_done e w i step h d = rw (h, run_once) (rw d refl)

  -- `Cancel` during a run with steps left, in a well-formed store that shows the task, where the
  -- disk takes the writes: the store shows the task as cancelled,
  -- but the goroutine's next iteration ends the run and shows the task as paused.
  pub cancel_overwritten :
      (e : Executor) (w : Worker) (i : ℕ) (t : Task)
      → IsMidRun e w i
      → view e.store w.id ≡ some t
      → env.answer e.clock ≡ SaveOutcome.saved
      → env.answer (e.clock + 1) ≡ SaveOutcome.saved
      → let (u, r) = cancel_task env e w.id in
        let (v, end) = run_once env u w i in
        (r ≡ Reply.finished)
        × (status_of (view u.store w.id) ≡ some TaskStatus.cancelled)
        × (end ≡ Progress.ended (some RunError.context_cancelled))
        × (status_of (view v.store w.id) ≡ some TaskStatus.paused)
  unfolding pause cancel
  cancel_overwritten e w i t m v a b =
      let p = w.object in
      let (r, shown, _, don, k, formed, old, _) = cancel_task_lem env e w.id t m.formed v a in
      let u = (cancel_task env e w.id).0 in
      let kept = old p m.allocated in
      let left = ap (λ (x : Task). get_elem? x.steps i) kept ∙ m.left in
      let owned = ap (λ (x : Task). x.id) kept ∙ m.owned in
      let paused = pause (at u p) (now env u) in
      let answer = ap env.answer k ∙ b in
      rw
        (
          run_once_done u w i m.step left (don w.context m.registered),
          write_saved env u p paused answer,
        )
        (
          r,
          ap status_of (shown w.id ∙ if_self w.id _ _),
          refl,
          ap status_of
              (written-view env u p paused refl formed w.id ∙ own_name (at u p).id w.id _ _ owned),
        )
