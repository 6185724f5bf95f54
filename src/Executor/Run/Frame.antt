-- ===== src/Executor/Run/Frame.antt =====
-- What the pieces of an iteration of internal/task/executor.go leave alone, and what becomes of the
-- outline of the task's steps, where the disk takes the writes.
use redis_meter.Base.{
  ℕ, ◌+◌, ◌<◌, ◌≡◌, refl, ap, ◌∙◌, Bool-cases, Option-cases, inl, inr, none, List, [], ◌∷◌, String,
  leb, All,
}
use redis_meter.Base.Int.{ℤ}
use redis_meter.Task.Model.{StepType, Task}
use redis_meter.Task.Steps.{get_step, update_step_progress}
use redis_meter.Task.Steps.Laws.{on_step_found, on_step_missing}
use redis_meter.TaskStore.Model.{SaveOutcome, update, save}
use redis_meter.TaskStore.View.{IsWellFormed, stamped, save-object, write_self}
use redis_meter.Executor.Model.{Action, Executor, Env, at, now, set_task, save_task}
use redis_meter.Executor.Run.{report_progress, perform}
use redis_meter.Executor.Run.Outline.{Line, outline, outline-modify_first_same}
use redis_meter.Executor.Writes.{save_task_saved, update-IsWellFormed, update-object}
use redis_meter.TaskStore.History.{save-IsWellFormed}

-- From `e` to `u` only the object at `p` and what is saved have changed, and the steps of the task
-- at `p` have the outline `o`.
pub record After (e u : Executor) (p : ℕ) (o : List Line) : Type 0 where
  pub handlers : u.handlers ≡ e.handlers
  pub done : u.done ≡ e.done
  pub formed : IsWellFormed u.store
  pub allocated : p < u.store.next
  pub id : (at u p).id ≡ (at e p).id
  pub steps : outline (at u p).steps ≡ o

pub record IsReady (e : Executor) (p : ℕ) : Type 0 where
  pub formed : IsWellFormed e.store
  pub allocated : p < e.store.next

pub After-IsReady : {e u : Executor} {p : ℕ} {o : List Line} → After e u p o → IsReady u p
After-IsReady a = record { formed = a.formed; allocated = a.allocated }

pub After-trans :
    {e u v : Executor} {p : ℕ} {o q : List Line} → After e u p o → After u v p q → After e v p q
After-trans a b = record {
  handlers = b.handlers ∙ a.handlers;
  done = b.done ∙ a.done;
  formed = b.formed;
  allocated = b.allocated;
  id = b.id ∙ a.id;
  steps = b.steps;
}

-- Changes of a task that keep its ID and the outline of its steps.
abbrev pub KeepsOutline : (Task → Task) → Type 0
KeepsOutline f = (t : Task) → ((f t).id ≡ t.id) × (outline (f t).steps ≡ outline t.steps)

abbrev pub IsHarmless : Action → Type 0
IsHarmless (Action.report percent message) = Unit
IsHarmless (Action.change f) = KeepsOutline f

module _ (env : Env) (all_saved : (n : ℕ) → env.answer n ≡ SaveOutcome.saved) where
  pub set_task-After :
      (e : Executor) (p : ℕ) (t : Task)
      → IsReady e p
      → t.id ≡ (at e p).id
      → After e (set_task env e p t) p (outline t.steps)
  unfolding set_task
  set_task-After e p t r same = record {
    handlers = refl;
    done = refl;
    formed = update-IsWellFormed e.store p t same r.formed;
    allocated = unfold update in r.allocated;
    id = ap (λ (x : Task). x.id) (update-object env e p t) ∙ same;
    steps = ap (λ (x : Task). outline x.steps) (update-object env e p t);
  }

  pub save_task-After :
      (e : Executor) (p : ℕ)
      → IsReady e p
      → ((save_task env e p).1 ≡ none)
        × After e (save_task env e p).0 p (outline (at e p).steps)
        × ((at (save_task env e p).0 p) ≡ stamped (at e p) (now env e))
  save_task-After e p r =
      let o =
        ap (λ (g : ℕ → Task). g p) (save-object e.store p (now env e) SaveOutcome.saved)
        ∙ write_self e.store.object p (stamped (at e p) (now env e)) in
      rw (save_task_saved env e p (all_saved e.clock)) (
        refl,
        record {
          handlers = refl;
          done = refl;
          formed = save-IsWellFormed e.store p (now env e) r.allocated r.formed;
          allocated = unfold save update in r.allocated;
          id = ap (λ (x : Task). x.id) o;
          steps = ap (λ (x : Task). outline x.steps) o;
        },
        o,
      )

  pub write_task-After :
      (e : Executor) (p : ℕ) (t : Task)
      → IsReady e p
      → t.id ≡ (at e p).id
      → let (u, err) = save_task env (set_task env e p t) p in
        (err ≡ none) × After e u p (outline t.steps)
  write_task-After e p t r same =
      let a = set_task-After e p t r same in
      let (ok, b, _) = save_task-After (set_task env e p t) p (After-IsReady a) in
      (ok, rw a.steps at (After-trans a b))

  update_step_progress-outline :
      (t : Task) (k : StepType) (z : ℤ) (message : String) (n : ℕ)
      → let u = (update_step_progress t k z message n).0 in
        (u.id ≡ t.id) × (outline u.steps ≡ outline t.steps)
  unfolding update_step_progress
  update_step_progress-outline t k z message n = elim (Option-cases (get_step t k)) [
    | inl h ↦ rw (on_step_missing t k _ _ h) (refl, refl)
    | inr (s, h) ↦
        rw (on_step_found t k _ _ s h) (refl, outline-modify_first_same k _ t.steps (λ x. refl))
  ]

  report_progress-After :
      (e : Executor) (p : ℕ) (k : StepType) (last : ℕ) (a : Action)
      → IsReady e p
      → IsHarmless a
      → After e (report_progress env e p k last a).0 p (outline (at e p).steps)
  unfolding report_progress
  report_progress-After e p k last (Action.change f) r h =
      let (i, o) = h (at e p) in rw o at (set_task-After e p (f (at e p)) r i)
  report_progress-After e p k last (Action.report z message) r h =
      let t = (update_step_progress (at e p) k z message (now env e)).0 in
      let (i, o) = update_step_progress-outline (at e p) k z message (now env e) in
      elim (Bool-cases (leb (last + e.checkpoint_every) (now env e))) [
        | inl due ↦ rw due (rw o at (write_task-After e p t r i).1)
        | inr not_due ↦ rw not_due (rw o at (set_task-After e p t r i))
      ]

  pub perform-After :
      (acts : List Action) (e : Executor) (p : ℕ) (k : StepType) (last : ℕ)
      → IsReady e p
      → All IsHarmless acts
      → After e (perform env e p k last acts) p (outline (at e p).steps)
  unfolding perform
  perform-After [] e p k last r h = record {
    handlers = refl;
    done = refl;
    formed = r.formed;
    allocated = r.allocated;
    id = refl;
    steps = refl;
  }
  perform-After (a ∷ acts) e p k last r h =
      let one = report_progress-After e p k last a r h.0 in
      let (u, checkpoint) = report_progress env e p k last a in
      rw one.steps at
        (After-trans one (perform-After acts u p k checkpoint (After-IsReady one) h.1))
