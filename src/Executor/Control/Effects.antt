-- ===== src/Executor/Control/Effects.antt =====
-- Pausing and cancelling a task in internal/task/executor.go, where the disk takes the write.
use redis_meter.Base.{
  ℕ, ◌+◌, ◌<◌, ◌≡◌, refl, ap, ◌∙◌, sym, Bool, true, false, Option-cases, inl, inr, Option, none,
  some, String, str_eq, if◌then◌else◌, arith, eq_refl,
}
use redis_meter.Base.Dict.{get, remove, get-remove}
use redis_meter.Task.Model.{Task}
use redis_meter.Task.Status.{cancel, pause}
use redis_meter.TaskStore.Model.{Store, SaveOutcome, Got, alloc, view}
use redis_meter.TaskStore.View.{
  IsWellFormed, stamped, pointer_of_view, get_task_found, alloc-object,
}
use redis_meter.TaskStore.Drafts.{
  saved_draft, saved_draft-view, saved_draft-old, saved_draft-next, saved_draft-IsWellFormed,
}
use redis_meter.Executor.Model.{Executor, RunError, Env, at, now, set_task, cancel_context}
use redis_meter.Executor.Writes.{save_task_saved}
use redis_meter.Executor.Control.{
  Reply, fetch, is_running, rewrite_task, stop_running, pause_task, cancel_task,
}

stop_none : (e : Executor) (id : String) → get e.running id ≡ none → stop_running e id ≡ e
unfolding stop_running
stop_none e id h = ground arith

abbrev stopped : Executor → String → ℕ → Executor
stopped e id c = record (cancel_context e c) { running = remove e.running id }

stop_some :
    (e : Executor) (id : String) (c : ℕ)
    → get e.running id ≡ some c
    → stop_running e id ≡ stopped e id c
unfolding stop_running
stop_some e id c h = ground arith

pub task_id :
    (e : Executor) (id : String) (t : Task)
    → IsWellFormed e.store
    → view e.store id ≡ some t
    → t.id ≡ id
task_id e id t w v =
    let (p, h, o) = pointer_of_view e.store id t v in
    ap (λ (x : Task). x.id) (sym o) ∙ w.keyed id p h

module _ (env : Env) where
  -- The store after a copy of the task is changed and saved.
  abbrev pub rewritten : Executor → ℕ → (Task → ℕ → Task) → Store
  rewritten e p f = let t = at e p in saved_draft e.store t (f t (now env e)) (now env e)

  pub fetch_found :
      (e : Executor) (id : String) (p : ℕ)
      → get e.store.cache id ≡ some p
      → fetch e id ≡ (record e { store = (alloc e.store (at e p)).0 }, Got.got e.store.next)
  unfolding fetch
  fetch_found e id p h = rw (get_task_found e.store id p h)

  pub rewrite_task_saved :
      (e : Executor) (id : String) (p : ℕ) (f : Task → ℕ → Task)
      → get e.store.cache id ≡ some p
      → env.answer e.clock ≡ SaveOutcome.saved
      → rewrite_task env e id f
        ≡ (record e { store = rewritten e p f; clock = e.clock + 1 }, Reply.finished)
  unfolding rewrite_task set_task
  rewrite_task_saved e id p f h a =
      let found = fetch_found e id p h in
      let u = record e { store = (alloc e.store (at e p)).0 } in
      let t = f (at e p) (now env e) in
      rw (found, rewrite_task)
        (rw (ap (λ (x : Executor × Got). x.0) found, alloc-object e.store (at e p))
          (rw (save_task_saved env (set_task env u e.store.next t) e.store.next a) refl))

  -- All that a change of a copy does, given the ID of the result.
  pub rewrite_task_effect :
      (e : Executor) (id : String) (t : Task) (f : Task → ℕ → Task)
      → IsWellFormed e.store
      → view e.store id ≡ some t
      → (f t (now env e)).id ≡ id
      → env.answer e.clock ≡ SaveOutcome.saved
      → let (u, r) = rewrite_task env e id f in
        (r ≡ Reply.finished)
        × ((j : String)
            → view u.store j ≡ (
                if str_eq id j
                then some (stamped (f t (now env e)) (now env e))
                else view e.store j))
        × (u.running ≡ e.running)
        × (u.done ≡ e.done)
        × (u.clock ≡ e.clock + 1)
        × IsWellFormed u.store
        × ((q : ℕ) → q < e.store.next → u.store.object q ≡ e.store.object q)
        × (u.store.next ≡ e.store.next + 1)
  rewrite_task_effect e id t f w v same a =
      let (p, h, o) = pointer_of_view e.store id t v in
      rw (rewrite_task_saved e id p f h a, o)
        (
          refl,
          λ j. saved_draft-view e.store t (f t (now env e)) (now env e) id j w same,
          refl,
          refl,
          refl,
          saved_draft-IsWellFormed e.store t (f t (now env e)) (now env e) w,
          saved_draft-old e.store t (f t (now env e)) (now env e),
          saved_draft-next e.store t (f t (now env e)) (now env e),
        )

  pub cancel_task_lem :
      (e : Executor) (id : String) (t : Task)
      → IsWellFormed e.store
      → view e.store id ≡ some t
      → env.answer e.clock ≡ SaveOutcome.saved
      → let (u, r) = cancel_task env e id in
        (r ≡ Reply.finished)
        × ((j : String)
            → view u.store j
              ≡ (if str_eq id j then some (cancel t (env.time e.clock)) else view e.store j))
        × (is_running u id ≡ false)
        × ((c : ℕ) → get e.running id ≡ some c → u.done c ≡ true)
        × (u.clock ≡ e.clock + 1)
        × IsWellFormed u.store
        × ((q : ℕ) → q < e.store.next → u.store.object q ≡ e.store.object q)
        × (u.store.next ≡ e.store.next + 1)
  unfolding cancel_task cancel cancel_context is_running
  cancel_task_lem e id t w v a = elim (Option-cases (get e.running id)) [
    | inl n ↦ rw (stop_none e id n) (
        let (r, s, run, ctx, k, g, old, nx) =
          rewrite_task_effect e id t cancel w v (task_id e id t w v) a in
        (r, s, rw (run, n), λ c h. cc, k, g, old, nx))
    | inr (c, h) ↦ rw (stop_some e id c h) (
        let (r, s, run, ctx, k, g, old, nx) =
          rewrite_task_effect (stopped e id c) id t cancel w v (task_id e id t w v) a in
        (
          r,
          s,
          rw (run, get-remove e.running id id, eq_refl id),
          λ d j. ap (λ (f : ℕ → Bool). f d) ctx ∙ ground (arith, h, j),
          k,
          g,
          old,
          nx,
        ))
  ]

  -- The context, if there is one, has ended.
  abbrev pub HasEnded : Executor → Option ℕ → Type 0
  HasEnded u none = Unit
  HasEnded u (some c) = u.done c ≡ true

  ended : (u : Executor) (o : Option ℕ) → ((c : ℕ) → o ≡ some c → u.done c ≡ true) → HasEnded u o
  ended u none h = tt
  ended u (some c) h = h c refl

  -- Where the disk takes the write, `Cancel` of a task that a well-formed store shows reports no error, shows
  -- the task as cancelled and every other task as before, takes the task off the running ones, and
  -- ends the context of its run.
  pub cancel_task_effect :
      (e : Executor) (id : String) (t : Task)
      → IsWellFormed e.store
      → view e.store id ≡ some t
      → env.answer e.clock ≡ SaveOutcome.saved
      → let (u, r) = cancel_task env e id in
        (r ≡ Reply.finished)
        × ((j : String)
            → view u.store j
              ≡ (if str_eq id j then some (cancel t (env.time e.clock)) else view e.store j))
        × (is_running u id ≡ false)
        × HasEnded u (get e.running id)
  cancel_task_effect e id t w v a =
      let (r, s, run, don, _, _, _, _) = cancel_task_lem e id t w v a in
      (r, s, run, ended (cancel_task env e id).0 (get e.running id) don)

  -- `Pause` of a task that is not running reports so and changes nothing.
  pub pause_task_idle :
      (e : Executor) (id : String)
      → is_running e id ≡ false
      → pause_task env e id ≡ (e, Reply.refused (RunError.not_running id))
  unfolding pause_task is_running
  pause_task_idle e id h = ground arith

  pause_running :
      (e : Executor) (id : String) (c : ℕ)
      → get e.running id ≡ some c
      → pause_task env e id ≡ rewrite_task env (cancel_context e c) id pause
  unfolding pause_task
  pause_running e id c h = ground arith

  -- Where the disk takes the write, `Pause` of a running task that a well-formed store shows reports no error,
  -- shows the task as paused and every other task as before, ends the context of its run, and
  -- leaves the task among the running ones until its goroutine ends.
  pub pause_task_effect :
      (e : Executor) (id : String) (t : Task) (c : ℕ)
      → IsWellFormed e.store
      → view e.store id ≡ some t
      → get e.running id ≡ some c
      → env.answer e.clock ≡ SaveOutcome.saved
      → let (u, r) = pause_task env e id in
        (r ≡ Reply.finished)
        × ((j : String)
            → view u.store j
              ≡ (if str_eq id j then some (pause t (env.time e.clock)) else view e.store j))
        × (u.done c ≡ true)
        × (get u.running id ≡ some c)
  unfolding cancel_context pause
  pause_task_effect e id t c w v h a = rw (pause_running e id c h) (
      let (r, s, run, ctx, k, g, old, nx) =
        rewrite_task_effect (cancel_context e c) id t pause w v (task_id e id t w v) a in
      (r, s, ap (λ (f : ℕ → Bool). f c) ctx ∙ ground arith, rw run h))
