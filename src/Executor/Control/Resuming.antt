-- ===== src/Executor/Control/Resuming.antt =====
-- `Start` and `Resume` of internal/task/executor.go.
use redis_meter.Base.{
  ℕ, ◌+◌, ◌≡◌, refl, ap, ◌∙◌, true, false, Option, some, String, str_eq, if◌then◌else◌, if_self,
  eq_refl, arith,
}
use redis_meter.Base.Dict.{get-put}
use redis_meter.Task.Model.{Task}
use redis_meter.Task.Status.{can_resume, is_terminal, resume}
use redis_meter.TaskStore.Model.{Store, StoreError, SaveOutcome, Got, alloc, view}
use redis_meter.TaskStore.View.{
  IsWellFormed, stamped, pointer_of_view, alloc-object, view_congr, write_ne,
}
use redis_meter.TaskStore.Drafts.{saved_draft, saved_draft-view, saved_draft-IsWellFormed}
use redis_meter.Executor.Model.{Worker, Executor, Env, at, now, set_task}
use redis_meter.Executor.Writes.{save_task_saved}
use redis_meter.Executor.Control.{Reply, start, admit, launch, is_running, revive, resume_task}
use redis_meter.Executor.Control.Effects.{fetch_found, task_id}

-- The goroutine that the next call starts.
abbrev pub next_worker : Executor → String → Worker
next_worker e id = record { id = id; object = e.store.next; context = e.next_context; position = 0 }

admit_launches :
    (u : Executor) (id : String) (p : ℕ)
    → is_terminal (at u p) ≡ false
    → is_running u id ≡ false
    → admit u id p ≡ launch u id p
unfolding admit
admit_launches u id p live idle = rw (live, idle)

module _ (env : Env) where
  -- The executor with a copy of the task in memory.
  abbrev with_copy : Executor → Task → Executor
  with_copy e t = record e { store = (alloc e.store t).0 }

  start_launches :
      (e : Executor) (id : String) (t : Task)
      → view e.store id ≡ some t
      → is_terminal t ≡ false
      → is_running e id ≡ false
      → start e id ≡ launch (with_copy e t) id e.store.next
  unfolding start is_running
  start_launches e id t v live idle =
      let (p, h, o) = pointer_of_view e.store id t v in
      let found = fetch_found env e id p h in
      let copied = alloc-object e.store t in
      rw (found, start)
        (rw (ap (λ (x : Executor × Got). x.0) found) (
          rw o
            (admit_launches (with_copy e t) id e.store.next (ap is_terminal copied ∙ live) idle)))

  -- The executor once the resumed copy is saved.
  abbrev resumed : Executor → Task → Executor
  resumed e t = record e {
    store = saved_draft e.store t (resume t (now env e)) (now env e);
    clock = e.clock + 1;
  }

  abbrev saved_as : Executor → Task → Task → Executor
  saved_as e t x = record e {
    store = saved_draft e.store t (resume x (now env e)) (now env e);
    clock = e.clock + 1;
  }

  revive_saved :
      (e : Executor) (id : String) (t : Task)
      → can_resume t ≡ true
      → env.answer e.clock ≡ SaveOutcome.saved
      → revive env (with_copy e t) id e.store.next ≡ start (resumed e t) id
  unfolding revive set_task
  revive_saved e id t can a =
      let copied = alloc-object e.store t in
      let u = with_copy e t in
      let r = resume (at u e.store.next) (now env e) in
      let written = save_task_saved env (set_task env u e.store.next r) e.store.next a in
      rw (ap can_resume copied ∙ can, revive)
        (rw written (
          ap (λ (x : Executor × Option StoreError). start x.0 id) written
          ∙ ap (λ (x : Task). start (saved_as e t x) id) copied))

  resume_task_saved :
      (e : Executor) (id : String) (t : Task)
      → view e.store id ≡ some t
      → can_resume t ≡ true
      → env.answer e.clock ≡ SaveOutcome.saved
      → resume_task env e id ≡ start (resumed e t) id
  unfolding resume_task
  resume_task_saved e id t v can a =
      let (p, h, o) = pointer_of_view e.store id t v in
      let found = fetch_found env e id p h in
      rw (found, resume_task)
        (rw (ap (λ (x : Executor × Got). x.0) found) (rw o (revive_saved e id t can a)))

  copy_unseen :
      (s : Store) (t : Task) (j : String) → IsWellFormed s → view (alloc s t).0 j ≡ view s j
  unfolding alloc
  copy_unseen s t j w =
      view_congr s (alloc s t).0 j refl
        (λ q h. write_ne s.object s.next q t (λ e. omega (arith, w.allocated j q h)))

  -- Where the disk takes the write, `Resume` of a task that can be resumed, that a well-formed store
  -- shows and that is not running starts a goroutine on a task that is running, though the task was
  -- terminal, and shows the task as running and every other task as before.
  pub resume_starts :
      (e : Executor) (id : String) (t : Task)
      → IsWellFormed e.store
      → view e.store id ≡ some t
      → can_resume t ≡ true
      → is_running e id ≡ false
      → env.answer e.clock ≡ SaveOutcome.saved
      → let (u, r) = resume_task env e id in
        let running = stamped (resume t (now env e)) (now env e) in
        (w : Worker) × (r ≡ Reply.started w)
        × (is_running u id ≡ true)
        × (at u w.object ≡ running)
        × ((j : String) → view u.store j ≡ (if str_eq id j then some running else view e.store j))
  unfolding launch is_running resume is_terminal
  resume_starts e id t wf v can idle a =
      let n = now env e in
      let running = stamped (resume t n) n in
      let s = resumed e t in
      let same = task_id e id t wf v in
      let shown = λ (j : String). saved_draft-view e.store t (resume t n) n id j wf same in
      let started = start_launches s id running (shown id ∙ if_self id _ _) refl idle in
      rw (resume_task_saved e id t v can a ∙ started) (
        next_worker s id,
        refl,
        rw (get-put s.running id id s.next_context, eq_refl id) refl,
        alloc-object s.store running,
        λ j.
            copy_unseen s.store running j (saved_draft-IsWellFormed e.store t (resume t n) n wf)
            ∙ shown j,
      )
