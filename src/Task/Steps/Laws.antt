-- ===== src/Task/Steps/Laws.antt =====
-- Writes through the pointer that `GetStep` gives: what the operations of internal/task/task.go do
-- to the step, to the other steps and to the task.
use redis_meter.Base.{
  ℕ, ◌≡◌, refl, ◌∙◌, Option, none, some, List, [], ◌∷◌, String, str_eq, if◌then◌else◌, arith,
  eq_iff, eq_refl,
}
use redis_meter.Base.Int.{ℤ, pos, add}
use redis_meter.Task.Model.{
  StepType, StepStatus, TaskStatus, Step, Task, Checkpoint, CheckpointText,
}
use redis_meter.Task.Progress.{calculate_progress}
use redis_meter.Task.Steps.{
  TaskError, Fetched, find_step, modify_first, get_step, elapsed, on_step, begin_task, start_step,
  complete_step, fail_step, update_step_progress, set_step_checkpoint, get_step_checkpoint,
  read_checkpoint,
}

abbrev pub option_map : (Step → Step) → Option Step → Option Step
option_map f none = none
option_map f (some s) = some (f s)

-- A write that keeps the type is seen by the reads of that type, and by no other.
pub find_step-modify_first :
    (k j : StepType) (f : Step → Step) (ss : List Step)
    → ((s : Step) → (f s).type ≡ s.type)
    → find_step j (modify_first k f ss)
      ≡ (if str_eq k j then option_map f (find_step j ss) else find_step j ss)
unfolding find_step modify_first
find_step-modify_first k j f [] keep = ground arith
find_step-modify_first k j f (s ∷ ss) keep = ground (
  arith,
  eq_iff s.type k,
  eq_iff s.type j,
  eq_iff k j,
  keep s,
  find_step-modify_first k j f ss keep,
)

pub on_step_missing :
    (t : Task) (k : StepType) (f : Step → Step) (g : Task → Task)
    → get_step t k ≡ none
    → on_step t k f g ≡ (t, some (TaskError.step_not_found k))
unfolding on_step
on_step_missing t k f g h = ground arith

pub on_step_found :
    (t : Task) (k : StepType) (f : Step → Step) (g : Task → Task) (s : Step)
    → get_step t k ≡ some s
    → on_step t k f g ≡ (g (record t { steps = modify_first k f t.steps }), none)
unfolding on_step
on_step_found t k f g s h = ground arith

module _ (t : Task) (k : StepType) (now : ℕ) where
  -- Where the task has no step of the type, each operation reports so and changes nothing.
  pub missing_step :
      (output message : String) (p : ℤ) (c : Checkpoint) (later : ℕ)
      → get_step t k ≡ none
      → (start_step t k now ≡ (t, some (TaskError.step_not_found k)))
        × (complete_step t k output now ≡ (t, some (TaskError.step_not_found k)))
        × (fail_step t k message now ≡ (t, some (TaskError.step_not_found k)))
        × (update_step_progress t k p message now ≡ (t, some (TaskError.step_not_found k)))
        × (set_step_checkpoint t k c now later ≡ (t, c, some (TaskError.step_not_found k)))
        × (get_step_checkpoint t k ≡ Fetched.fault (TaskError.step_not_found k))
  unfolding start_step complete_step fail_step update_step_progress set_step_checkpoint
      get_step_checkpoint
  missing_step output message p c later h = (
    on_step_missing t k _ _ h,
    on_step_missing t k _ _ h,
    on_step_missing t k _ _ h,
    on_step_missing t k _ _ h,
    ground arith,
    ground arith,
  )

-- What reads give after a write through the pointer to `s`.
pub get_step-modify_first :
    (t u : Task) (k : StepType) (f : Step → Step) (s : Step)
    → get_step t k ≡ some s
    → u.steps ≡ modify_first k f t.steps
    → ((x : Step) → (f x).type ≡ x.type)
    → (j : StepType) → get_step u j ≡ (if str_eq k j then some (f s) else get_step t j)
unfolding get_step
get_step-modify_first t u k f s there e keep j =
    rw (e, find_step-modify_first k j f t.steps keep) (ground (arith, eq_iff k j))

abbrev pub completed_step : Step → String → ℕ → Step
completed_step s output now = record s {
  status = StepStatus.completed;
  completed_at = some now;
  progress = pos 100;
  output = output;
  duration = elapsed s.started_at now s.duration;
}

abbrev pub failed_step : Step → String → ℕ → Step
failed_step s message now = record s {
  status = StepStatus.failed;
  completed_at = some now;
  error = message;
  retry_count = add s.retry_count (pos 1);
  duration = elapsed s.started_at now s.duration;
}

get_step_checkpoint_found :
    (t : Task) (k : StepType) (s : Step)
    → get_step t k ≡ some s
    → get_step_checkpoint t k ≡ read_checkpoint s.checkpoint
unfolding get_step_checkpoint
get_step_checkpoint_found t k s h = ground arith

abbrev checkpointed : Step → Checkpoint → Step
checkpointed s c = record s { checkpoint = CheckpointText.json c }

set_step_checkpoint_found :
    (t : Task) (k : StepType) (c : Checkpoint) (saved now : ℕ) (s : Step)
    → get_step t k ≡ some s
    → let stamped = record c { saved_at = saved } in
      set_step_checkpoint t k c saved now ≡ (
        record t {
          steps = modify_first k (λ x. checkpointed x stamped) t.steps;
          last_updated_at = now;
        },
        stamped,
        none,
      )
unfolding set_step_checkpoint
set_step_checkpoint_found t k c saved now s h = ground arith

-- The status and the start of a task after its first step is started.
abbrev pub status_after : TaskStatus → TaskStatus
status_after TaskStatus.pending = TaskStatus.running
status_after st = st

abbrev pub start_after : TaskStatus → ℕ → Option ℕ → Option ℕ
start_after TaskStatus.pending now old = some now
start_after st now old = old

begin_task_lem :
    (st : TaskStatus) (now : ℕ) (u : Task)
    → u.status ≡ st
    → let v = begin_task st now u in
      (v.steps ≡ u.steps)
      × (v.current_step ≡ u.current_step)
      × (v.status ≡ status_after st)
      × (v.started_at ≡ start_after st now u.started_at)
unfolding begin_task
begin_task_lem TaskStatus.pending now u e = (refl, refl, refl, refl)
begin_task_lem TaskStatus.running now u e = (refl, refl, e, refl)
begin_task_lem TaskStatus.paused now u e = (refl, refl, e, refl)
begin_task_lem TaskStatus.completed now u e = (refl, refl, e, refl)
begin_task_lem TaskStatus.failed now u e = (refl, refl, e, refl)
begin_task_lem TaskStatus.cancelled now u e = (refl, refl, e, refl)
begin_task_lem TaskStatus.timed_out now u e = (refl, refl, e, refl)
begin_task_lem (TaskStatus.other x) now u e = (refl, refl, e, refl)

abbrev pub started_step : Step → ℕ → Step
started_step s now = record s {
  status = StepStatus.running;
  started_at = some now;
  progress = pos 0;
}

module _ (t : Task) (k : StepType) (s : Step) (now : ℕ) (there : get_step t k ≡ some s) where
  -- Where the step is there, `StartStep` reports no error, leaves the first step of the type
  -- running at 0, changes no step of another type, makes it the current step, and sets a pending
  -- task running from this time on; any other task keeps its status and start.
  pub start_step_effect :
      let (u, e) = start_step t k now in
      (e ≡ none)
      × ((j : StepType)
          → get_step u j ≡ (if str_eq k j then some (started_step s now) else get_step t j))
      × (u.current_step ≡ k)
      × (u.status ≡ status_after t.status)
      × (u.started_at ≡ start_after t.status now t.started_at)
  unfolding start_step
  start_step_effect = rw (on_step_found t k _ _ s there) (
      let (kept, current, status, begun) = begin_task_lem t.status now _ refl in
      (refl, λ j. get_step-modify_first t _ k _ s there kept (λ x. refl) j, current, status, begun))

  -- Where the step is there, `CompleteStep` reports no error, leaves the first step of the type
  -- completed at 100 with the output and its times, changes no step of another type, sets the
  -- task's progress to what the new steps give, and keeps the task's status.
  pub complete_step_effect :
      (output : String)
      → let (u, e) = complete_step t k output now in
        (e ≡ none)
        × ((j : StepType)
            → get_step u j
              ≡ (if str_eq k j then some (completed_step s output now) else get_step t j))
        × (u.progress ≡ calculate_progress u)
        × (u.status ≡ t.status)
  unfolding complete_step calculate_progress
  complete_step_effect output =
      rw (on_step_found t k _ _ s there)
        (refl, λ j. get_step-modify_first t _ k _ s there refl (λ x. refl) j, refl, refl)

  -- Where the step is there, `FailStep` reports no error, leaves the first step of the type failed
  -- with the message and one more retry, changes no step of another type, and keeps the task's
  -- status and progress.
  pub fail_step_effect :
      (message : String)
      → let (u, e) = fail_step t k message now in
        (e ≡ none)
        × ((j : StepType)
            → get_step u j
              ≡ (if str_eq k j then some (failed_step s message now) else get_step t j))
        × (u.progress ≡ t.progress)
        × (u.status ≡ t.status)
  unfolding fail_step
  fail_step_effect message =
      rw (on_step_found t k _ _ s there)
        (refl, λ j. get_step-modify_first t _ k _ s there refl (λ x. refl) j, refl, refl)

  -- What `SetStepCheckpoint` stores for a step that is there `GetStepCheckpoint` gives back, with
  -- the time of the save, which the caller's checkpoint gets too.
  pub checkpoint_roundtrip :
      (c : Checkpoint) (saved : ℕ)
      → let (u, stamped, e) = set_step_checkpoint t k c saved now in
        (e ≡ none)
        × (stamped ≡ record c { saved_at = saved })
        × (get_step_checkpoint u k ≡ Fetched.found (some stamped))
  unfolding read_checkpoint
  checkpoint_roundtrip c saved = rw (set_step_checkpoint_found t k c saved now s there) (
    refl,
    refl,
    get_step_checkpoint_found _ k (checkpointed s (record c { saved_at = saved }))
        (get_step-modify_first t _ k _ s there refl (λ x. refl) k ∙ rw (eq_refl k)),
  )
