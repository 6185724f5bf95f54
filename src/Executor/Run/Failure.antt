-- ===== src/Executor/Run/Failure.antt =====
-- An iteration of `run` in internal/task/executor.go whose step fails.
use redis_meter.Base.{
  ℕ, ◌≡◌, refl, ap, ◌∙◌, sym, false, Option-cases, inl, inr, some, List, [], String, str_eq,
  eq_refl, if◌then◌else◌, All, get_elem?, set,
}
use redis_meter.Base.Int.{pos, add}
use redis_meter.Base.Dict.{Dict, get}
use redis_meter.Task.Model.{StepType, TaskStatus, Step, Task}
use redis_meter.Task.Status.{fail}
use redis_meter.Task.Steps.{get_step, start_step, complete_step, fail_step}
use redis_meter.Task.Steps.Laws.{on_step_found, on_step_missing}
use redis_meter.TaskStore.Model.{SaveOutcome, view}
use redis_meter.TaskStore.View.{stamped}
use redis_meter.Executor.Model.{
  Handler, Worker, Executor, RunError, Env, at, now, set_task, save_task,
}
use redis_meter.Executor.Writes.{write_saved, written-object, written-view}
use redis_meter.Executor.Run.{
  Progress, perform, finish_step, handle_step, begin_step, execute_step, run_once, fail_run,
  skipped_step, output_at,
}
use redis_meter.Executor.Run.Outline.{Line}
use redis_meter.Executor.Run.Frame.{
  After, After-IsReady, After-trans, IsReady, IsHarmless, set_task-After, write_task-After,
  perform-After,
}
use redis_meter.Executor.Run.Success.{start_step-outline, complete_step-outline}

-- The handlers change neither the ID of a task nor the type and status of a step by themselves.
abbrev pub HasHarmlessHandlers : Dict Handler → Type 0
HasHarmlessHandlers hs =
    (k : StepType) (h : Handler) → get hs k ≡ some h → (t : Task) → All IsHarmless (h.actions t)

-- The object is kept apart and has kept its ID.
abbrev Framed : Executor → Executor → ℕ → Type 0
Framed e u p = (o : List Line) × After e u p o

start_step-id : (t : Task) (k : StepType) (n : ℕ) → (start_step t k n).0.id ≡ t.id
unfolding start_step
start_step-id t k n = elim (Option-cases (get_step t k)) [
  | inl e ↦ rw (on_step_missing t k _ _ e) refl
  | inr (s, e) ↦ (start_step-outline t k s n e).1
]

complete_step-id :
    (t : Task) (k : StepType) (output : String) (n : ℕ) → (complete_step t k output n).0.id ≡ t.id
unfolding complete_step
complete_step-id t k output n = elim (Option-cases (get_step t k)) [
  | inl e ↦ rw (on_step_missing t k _ _ e) refl
  | inr (s, e) ↦ (complete_step-outline t k s output n e).1
]

fail_step-id :
    (t : Task) (k : StepType) (text : String) (n : ℕ) → (fail_step t k text n).0.id ≡ t.id
unfolding fail_step
fail_step-id t k text n = elim (Option-cases (get_step t k)) [
  | inl e ↦ rw (on_step_missing t k _ _ e) refl
  | inr (s, e) ↦ rw (on_step_found t k _ _ s e) refl
]

fail_step-retry :
    (t : Task) (k : StepType) (text : String) (n : ℕ)
    → (fail_step t k text n).0.retry_count ≡ t.retry_count
unfolding fail_step
fail_step-retry t k text n = elim (Option-cases (get_step t k)) [
  | inl e ↦ rw (on_step_missing t k _ _ e) refl
  | inr (s, e) ↦ rw (on_step_found t k _ _ s e) refl
]

module _ (env : Env) (all_saved : (n : ℕ) → env.answer n ≡ SaveOutcome.saved) where
  finish_step-Framed :
      (e : Executor) (p i : ℕ) (k : StepType) → IsReady e p → Framed e (finish_step env e p i k).0 p
  unfolding finish_step
  finish_step-Framed e p i k r =
      let t = (complete_step (at e p) k (output_at (at e p).steps i) (now env e)).0 in
      let same = complete_step-id (at e p) k (output_at (at e p).steps i) (now env e) in
      elim (Option-cases (complete_step (at e p) k (output_at (at e p).steps i) (now env e)).1) [
        | inl ok ↦ rw (ok, finish_step) (_, (write_task-After env all_saved e p t r same).1)
        | inr (x, bad) ↦ rw (bad, finish_step) (_, set_task-After env all_saved e p t r same)
      ]

  handle_step-Framed :
      (e : Executor) (p i : ℕ) (k : StepType) (h : Handler)
      → IsReady e p
      → ((t : Task) → All IsHarmless (h.actions t))
      → Framed e (handle_step env e p i k h).0 p
  unfolding handle_step
  handle_step-Framed e p i k h r g =
      let u = perform env e p k (now env e) (h.actions (at e p)) in
      let a = perform-After env all_saved (h.actions (at e p)) e p k (now env e) r (g (at e p)) in
      elim (Option-cases (h.result (at e p))) [
        | inr (m, bad) ↦ rw (bad, handle_step) (_, a)
        | inl ok ↦
            let (o, b) = finish_step-Framed u p i k (After-IsReady a) in
            rw (ok, handle_step) (o, After-trans a b)
      ]

  begin_step-Framed :
      (e : Executor) (p i : ℕ) (k : StepType) (h : Handler)
      → IsReady e p
      → ((t : Task) → All IsHarmless (h.actions t))
      → Framed e (begin_step env e p i k h).0 p
  unfolding begin_step
  begin_step-Framed e p i k h r g =
      let t = (start_step (at e p) k (now env e)).0 in
      let same = start_step-id (at e p) k (now env e) in
      elim (Option-cases (start_step (at e p) k (now env e)).1) [
        | inr (x, bad) ↦ rw (bad, begin_step) (_, set_task-After env all_saved e p t r same)
        | inl ok ↦
            let (saved_ok, a) = write_task-After env all_saved e p t r same in
            let u = (save_task env (set_task env e p t) p).0 in
            let (o, b) = handle_step-Framed u p i k h (After-IsReady a) g in
            rw (ok, saved_ok, begin_step) (o, After-trans a b)
      ]

  execute_step-Framed :
      (e : Executor) (p i : ℕ) (s : Step)
      → IsReady e p
      → HasHarmlessHandlers e.handlers
      → Framed e (execute_step env e p i s).0 p
  unfolding execute_step perform
  execute_step-Framed e p i s r g = elim (Option-cases (get e.handlers s.type)) [
    | inl none_found ↦
        let t = record (at e p) { steps = set (at e p).steps i (skipped_step s) } in
        rw (none_found, execute_step) (_, (write_task-After env all_saved e p t r refl).1)
    | inr (h, found) ↦ elim (Option-cases (h.validate (at e p))) [
      | inr (m, bad) ↦
          rw (found, bad, execute_step) (_, perform-After env all_saved [] e p s.type 0 r tt)
      | inl ok ↦
          rw (found, ok, execute_step) (begin_step-Framed e p i s.type h r (g s.type h found))
    ]
  ]

  -- The step fails, in whatever way: its task is failed with the error's text and one more retry,
  -- and the store shows it.
  pub record IsFailed (u v : Executor) (p : ℕ) (id : String) (x : RunError) : Type 0 where
    pub status : (at v p).status ≡ TaskStatus.failed
    pub error : (at v p).error ≡ env.error_text x
    pub retries : (at v p).retry_count ≡ add (at u p).retry_count (pos 1)
    pub shown : view v.store id ≡ some (at v p)

  fail_run-IsFailed :
      (u : Executor) (p : ℕ) (k : StepType) (x : RunError)
      → IsReady u p
      → IsFailed u (fail_run env u p k x) p (at u p).id x
  unfolding fail_run fail
  fail_run-IsFailed u p k x r =
      let text = env.error_text x in
      let s = (fail_step (at u p) k text (now env u)).0 in
      let same = fail_step-id (at u p) k text (now env u) in
      let t = fail s text (now env u) in
      let seen = written-view env u p t same r.formed (at u p).id in
      let o = written-object env u p t in
      rw (write_saved env u p t (all_saved u.clock), fail_run)
        (record {
          status = ap (λ (y : Task). y.status) o;
          error = ap (λ (y : Task). y.error) o;
          retries =
              ap (λ (y : Task). y.retry_count) o
              ∙ ap (λ z. add z (pos 1)) (fail_step-retry (at u p) k text (now env u));
          shown = seen ∙ own s.id (at u p).id same ∙ ap some (sym o);
        })
    where
      own :
          (a b : String)
          → a ≡ b
          → (if str_eq a b
              then some (
                  stamped
                    (fail
                      (fail_step (at u p) k (env.error_text x) (now env u)).0
                      (env.error_text x)
                      (now env u))
                    (now env u))
              else view u.store b)
            ≡ some (
                stamped
                  (fail
                    (fail_step (at u p) k (env.error_text x) (now env u)).0
                    (env.error_text x)
                    (now env u))
                  (now env u))
      own a b e = rw e (rw (eq_refl b) refl)

  -- An iteration whose step fails, whether its handler refuses the task, fails, or leaves a step
  -- that is not found, ends the run with the step's error and leaves the task failed, with the text
  -- of this error and one more retry, and the store shows it; where the context is not cancelled,
  -- the disk takes every write, the handlers change neither the ID nor the type and status of a step
  -- by themselves, and the store is well-formed and has the worker's object.
  pub step_failure_ends_run :
      (e : Executor) (w : Worker) (i : ℕ) (s : Step) (x : RunError)
      → IsReady e w.object
      → HasHarmlessHandlers e.handlers
      → get_elem? (at e w.object).steps i ≡ some s
      → e.done w.context ≡ false
      → (execute_step env e w.object i s).1 ≡ some x
      → ((run_once env e w i).1 ≡ Progress.ended (some x))
        × IsFailed
            (execute_step env e w.object i s).0
            (run_once env e w i).0
            w.object
            (at e w.object).id
            x
  unfolding run_once
  step_failure_ends_run e w i s x r g h live bad =
      let (o, a) = execute_step-Framed e w.object i s r g in
      let f =
        fail_run-IsFailed (execute_step env e w.object i s).0 w.object s.type x (After-IsReady a) in
      rw (h, live, bad, run_once) (refl, rw a.id at f)
