-- ===== src/Executor/Control.antt =====
-- The calls of internal/task/executor.go that create, start, resume, pause and cancel a task.
pub mod Effects
pub mod Races
pub mod Resuming
pub mod Retiring
use redis_meter.Base.{
  ℕ, zero, suc, ◌+◌, ◌≡◌, refl, Bool, true, false, ◌&&◌, ◌||◌, Option, none, some, List, [], ◌∷◌,
  ◌++◌, map, String, leb, ltb, ◌==◌, if◌then◌else◌,
}
use redis_meter.Base.Dict.{Dict, get, put, remove, is_some}
use redis_meter.Task.Model.{StepType, ToolType, TaskStatus, Task, new_task}
use redis_meter.Task.Plan.{get_standard_steps}
use redis_meter.Task.Steps.{add_steps}
use redis_meter.Task.Status.{can_resume, is_terminal, cancel, pause, resume}
use redis_meter.TaskStore.Model.{
  Store, StoreError, SaveOutcome, Got, alloc, update, save, get_task, view,
}
use redis_meter.TaskStore.Query.{TaskFilter, list, list_active}
use redis_meter.Executor.Model.{
  Worker, Executor, RunError, Env, at, now, set_task, save_task, cancel_context,
}
use redis_meter.Executor.Run.{store_result}

-- What a call reports: the goroutine that it started, nothing, or an error.
pub data Reply : Type 0 where
  started : Worker → Reply
  finished : Reply
  refused : RunError → Reply

abbrev pub reply_of : Option StoreError → Reply
reply_of none = Reply.finished
reply_of (some e) = Reply.refused (RunError.store_error e)

unfoldable pub is_running : Executor → String → Bool
is_running e id = is_some (get e.running id)

unfoldable pub get_running_tasks : Executor → List String
get_running_tasks e = map (λ r. r.0) e.running

unfoldable pub list_tasks : Executor → Option TaskFilter → List Task
list_tasks e f = list e.store f

-- `e.store.Get`: the executor with the copy in memory, and the pointer to it.
unfoldable pub fetch : Executor → String → Executor × Got
fetch e id = let (s, g) = get_task e.store id in (record e { store = s }, g)

-- The deferred `delete(e.running, taskID)` of a goroutine that ends.
unfoldable pub retire : Executor → Worker → Executor
retire e w = record e { running = remove e.running w.id }

-- The new context, its entry in `running`, and the goroutine.
unfoldable pub launch : Executor → String → ℕ → Executor × Reply
launch e id p = (
  record e { running = put e.running id e.next_context; next_context = e.next_context + 1 },
  Reply.started (record { id = id; object = p; context = e.next_context; position = 0 }),
)

unfoldable pub admit : Executor → String → ℕ → Executor × Reply
admit e id p =
    if is_terminal (at e p)
    then (e, Reply.refused (RunError.terminal id))
    else if is_running e id
    then (e, Reply.refused (RunError.already_running id))
    else launch e id p

unfoldable pub start : Executor → String → Executor × Reply
unfolding launch
start e id =
    let (u, g) = fetch e id in
    elim g [
      | Got.missing x ↦ (u, Reply.refused (RunError.store_error x))
      | Got.got p ↦ admit u id p
    ]

-- `Cancel` takes a running task off `running` at once.
unfoldable pub stop_running : Executor → String → Executor
stop_running e id = elim (get e.running id) [
  | none ↦ e
  | some c ↦ record (cancel_context e c) { running = remove e.running id }
]

abbrev says_running : TaskStatus → Bool
says_running TaskStatus.running = true
says_running _ = false

module _ (env : Env) where
  -- `id` is the UUID. The result is the task that was created.
  unfoldable pub create_task :
      Executor → String → String → ToolType → String → Executor × (Option ℕ × Option StoreError)
  create_task e id name tool config =
      let t = record (new_task id name tool (now env e)) { tool_config = config } in
      let (s, p) = alloc e.store (add_steps t (get_standard_steps tool)) in
      let (u, err) = save_task env (record e { store = s }) p in
      elim err [ none ↦ (u, (some p, none)) | some x ↦ (u, (none, some x)) ]

  unfoldable pub revive : Executor → String → ℕ → Executor × Reply
  revive e id p =
      if can_resume (at e p)
      then (let (u, err) = save_task env (set_task env e p (resume (at e p) (now env e))) p in
          elim err [ some x ↦ (u, Reply.refused (RunError.store_error x)) | none ↦ start u id ])
      else (e, Reply.refused (RunError.not_resumable id))

  unfoldable pub resume_task : Executor → String → Executor × Reply
  resume_task e id =
      let (u, g) = fetch e id in
      elim g [
        | Got.missing x ↦ (u, Reply.refused (RunError.store_error x))
        | Got.got p ↦ revive u id p
      ]

  -- `Get`, a change of the copy, and `Save`.
  unfoldable pub rewrite_task : Executor → String → (Task → ℕ → Task) → Executor × Reply
  rewrite_task e id f =
      let (u, g) = fetch e id in
      elim g [
        | Got.missing x ↦ (u, Reply.refused (RunError.store_error x))
        | Got.got p ↦
            let (v, err) = save_task env (set_task env u p (f (at u p) (now env u))) p in
            (v, reply_of err)
      ]

  unfoldable pub pause_task : Executor → String → Executor × Reply
  pause_task e id = elim (get e.running id) [
    | none ↦ (e, Reply.refused (RunError.not_running id))
    | some c ↦ rewrite_task (cancel_context e c) id pause
  ]

  unfoldable pub cancel_task : Executor → String → Executor × Reply
  cancel_task e id = rewrite_task (stop_running e id) id cancel

  -- A task that says that it is running, and has not been saved for long, is first saved as paused.
  -- `t` is the copy that `ListActive` gave, `current` the time at which the loop began.
  mark_stale : Executor → Task → ℕ → ℕ → Executor × Task
  mark_stale e t stale current =
      if says_running t.status && ltb (t.last_updated_at + stale) current
      then (let (s, p) = alloc e.store (record t { status = TaskStatus.paused }) in
          let u = (save_task env (record e { store = s }) p).0 in (u, at u p))
      else (e, t)

  -- One round of the loop in `AutoResumeStaleRunning`: `finished` where the task is passed over.
  unfoldable pub auto_resume_one : Executor → Task → ℕ → ℕ → Executor × Reply
  unfolding mark_stale
  auto_resume_one e t stale current =
      let (u, x) = mark_stale e t stale current in
      if is_running e t.id
      then (e, Reply.finished)
      else if can_resume x
      then resume_task u x.id
      else (u, Reply.finished)

  auto_resume_all : ℕ → ℕ → Executor → List String → List Task → Executor × List String
  auto_resume_all stale current e resumed [] = (e, resumed)
  auto_resume_all stale current e resumed (t ∷ ts) =
      let (u, r) = auto_resume_one e t stale current in
      auto_resume_all stale current u (resumed ++ (elim r [ Reply.started w ↦ t.id ∷ [] | _ ↦ [] ]))
        ts

  unfoldable pub auto_resume_stale_running : Executor → ℕ → Executor × List String
  unfolding auto_resume_all
  auto_resume_stale_running e stale = auto_resume_all stale (now env e) e [] (list_active e.store)

-- What wakes `WaitForTask`: its context ends, or its ticker ticks while the store is as given.
pub data Wake : Type 0 where
  context_done : Wake
  tick : Store → Wake

pub data Waited : Type 0 where
  waiting : Waited
  gave_up : RunError → Waited
  ready : Task → Waited

abbrev is_paused : TaskStatus → Bool
is_paused TaskStatus.paused = true
is_paused _ = false

check_task : Option Task → String → Waited → Waited
check_task none id rest = Waited.gave_up (RunError.store_error (StoreError.not_found id))
check_task (some t) id rest = if is_terminal t || is_paused t.status then Waited.ready t else rest

unfoldable pub wait_for_task : String → List Wake → Waited
unfolding check_task
wait_for_task id [] = Waited.waiting
wait_for_task id (Wake.context_done ∷ wakes) = Waited.gave_up RunError.context_cancelled
wait_for_task id (Wake.tick s ∷ wakes) =
    let rest = wait_for_task id wakes in check_task (view s id) id rest
