-- ===== src/Executor/Run/Completion.antt =====
-- The loop of `run` in internal/task/executor.go, where the handlers succeed and the disk takes the
-- writes.
use redis_meter.Base.{
  ℕ, zero, suc, ◌+◌, ◌-◌, ◌<◌, ◌≤◌, ◌≡◌, refl, ap, ◌∙◌, sym, Bool, true, false, Option-cases, inl,
  inr, Option, none, some, List, [], ◌∷◌, String, eq_refl, All, arith, get_elem?, set, take, length,
  length-set,
}
use redis_meter.Base.Int.{pos}
use redis_meter.Base.Dict.{get}
use redis_meter.Task.Model.{StepType, StepStatus, TaskStatus, Step, Task}
use redis_meter.Task.Status.{complete}
use redis_meter.TaskStore.Model.{SaveOutcome, view}
use redis_meter.Executor.Model.{Worker, Executor, Env, at, now}
use redis_meter.Executor.Writes.{write_saved, written-object, written-view}
use redis_meter.Executor.Run.{
  Progress, is_done, execute_step, run_once, run_from, begin_run, run, skipped_step, store_result,
  start_index, or_now,
}
use redis_meter.Executor.Run.Start.{IsDone, start_index-IsStart}
use redis_meter.Executor.Run.Outline.{
  Line, line, outline, HasDistinctTypes, HasDistinctTypes-set, IsDoneLine, done-set, outline-set,
}
use redis_meter.Executor.Run.Frame.{After, After-IsReady, IsReady, write_task-After}
use redis_meter.Executor.Run.Success.{HasGoodHandlers, begin_step-After, in_range}

outline-get_elem? :
    (ss : List Step) (i : ℕ) (s : Step)
    → get_elem? ss i ≡ some s
    → get_elem? (outline ss) i ≡ some (line s)
outline-get_elem? [] i s h = cc
outline-get_elem? (x ∷ ss) zero s h =
    ap (λ (o : Option Step). elim o [ none ↦ none | some y ↦ some (line y) ]) h
outline-get_elem? (x ∷ ss) (suc i) s h = outline-get_elem? ss i s h

out_of_range : (ss : List Step) (i : ℕ) → get_elem? ss i ≡ none → length (outline ss) ≤ i
out_of_range [] i h = omega arith
out_of_range (x ∷ ss) zero h = cc
out_of_range (x ∷ ss) (suc i) h = omega (arith, out_of_range ss i h)

past : (ss : List Step) (i : ℕ) → length (outline ss) ≤ i → get_elem? ss i ≡ none
past [] i h = refl
past (x ∷ ss) zero h = absurd (omega arith)
past (x ∷ ss) (suc i) h = past ss i (omega arith)

within : (ss : List Step) (i : ℕ) → i < length (outline ss) → (s : Step) × (get_elem? ss i ≡ some s)
within [] i h = absurd (omega arith)
within (x ∷ ss) zero h = (x, refl)
within (x ∷ ss) (suc i) h = within ss i (omega arith)

length-outline : (ss : List Step) → length (outline ss) ≡ length ss
length-outline [] = refl
length-outline (s ∷ ss) = ap suc (length-outline ss)

start_index-bound : (ss : List Step) → start_index ss ≤ length ss
unfolding start_index
start_index-bound [] = omega arith
start_index-bound (s ∷ ss) = ground (arith, start_index-bound ss)

take_all {ℓ} : {A : Type ℓ} (ls : List A) (i : ℕ) → length ls ≤ i → take i ls ≡ ls
take_all [] zero h = refl
take_all [] (suc i) h = refl
take_all (l ∷ ls) zero h = absurd (omega arith)
take_all (l ∷ ls) (suc i) h = ap (◌∷◌ l) (take_all ls i (omega arith))

take-outline :
    (ss : List Step) (n : ℕ) → All IsDone (take n ss) → All IsDoneLine (take n (outline ss))
take-outline [] zero a = tt
take-outline [] (suc n) a = tt
take-outline (s ∷ ss) zero a = tt
take-outline (s ∷ ss) (suc n) a = (a.0, take-outline ss n a.1)

-- The step at `i`, of type `k`, is done, and no other step has changed its type or status.
pub record StepDone (e u : Executor) (p i : ℕ) (k : StepType) (ls : List Line) : Type 0 where
  pub status : StepStatus
  pub done : is_done status ≡ true
  pub after : After e u p (set ls i (k, status))

-- The task of the object is completed, its steps done, and the store shows it.
pub record IsCompleted (u : Executor) (p : ℕ) (id : String) : Type 0 where
  pub status : (at u p).status ≡ TaskStatus.completed
  pub progress : (at u p).progress ≡ pos 100
  pub steps : All IsDoneLine (outline (at u p).steps)
  pub shown : view u.store id ≡ some (at u p)

module _ (env : Env) (all_saved : (n : ℕ) → env.answer n ≡ SaveOutcome.saved) where
  pub execute_step-StepDone :
      (e : Executor) (p i : ℕ) (s : Step) (ls : List Line)
      → IsReady e p
      → HasGoodHandlers e.handlers
      → HasDistinctTypes ls
      → outline (at e p).steps ≡ ls
      → get_elem? ls i ≡ some (line s)
      → ((execute_step env e p i s).1 ≡ none)
        × StepDone e (execute_step env e p i s).0 p i s.type ls
  unfolding execute_step
  execute_step-StepDone e p i s ls r g d o h = elim (Option-cases (get e.handlers s.type)) [
    | inl none_found ↦
        let t = record (at e p) { steps = set (at e p).steps i (skipped_step s) } in
        let (ok, a) = write_task-After env all_saved e p t r refl in
        rw (none_found, execute_step)
          (
            ap store_result ok,
            record {
              status = StepStatus.skipped;
              done = refl;
              after =
                  rw
                    (outline-set (at e p).steps i (skipped_step s)
                      ∙ ap (λ x. set x i (s.type, StepStatus.skipped)) o)
                    at a;
            },
          )
    | inr (hd, found) ↦
        let c = g s.type hd found in
        let (ok, a) = begin_step-After env all_saved e p i s.type s.status ls hd r d o h c in
        rw (found, c.valid (at e p), execute_step)
          (ok, record { status = StepStatus.completed; done = refl; after = a })
  ]

  run_once_more :
      (e : Executor) (w : Worker) (i : ℕ) (s : Step) (ls : List Line)
      → IsReady e w.object
      → HasGoodHandlers e.handlers
      → HasDistinctTypes ls
      → outline (at e w.object).steps ≡ ls
      → get_elem? (at e w.object).steps i ≡ some s
      → e.done w.context ≡ false
      → ((run_once env e w i).1 ≡ Progress.more (suc i))
        × StepDone e (run_once env e w i).0 w.object i s.type ls
  unfolding run_once
  run_once_more e w i s ls r g d o h live =
      let (ok, a) =
        execute_step-StepDone e w.object i s ls r g d o
          (rw o at (outline-get_elem? (at e w.object).steps i s h)) in
      rw (h, live, ok, run_once) (refl, a)

  run_once_end :
      (e : Executor) (w : Worker) (i : ℕ)
      → IsReady e w.object
      → get_elem? (at e w.object).steps i ≡ none
      → All IsDoneLine (take i (outline (at e w.object).steps))
      → ((run_once env e w i).1 ≡ Progress.ended none)
        × IsCompleted (run_once env e w i).0 w.object (at e w.object).id
  unfolding run_once complete
  run_once_end e w i r h all =
      let p = w.object in
      let t = complete (at e p) (at e p).result_id (now env e) in
      let seen = written-view env e p t refl r.formed (at e p).id in
      let o = written-object env e p t in
      rw (h, write_saved env e p t (all_saved e.clock), run_once)
        (
          refl,
          record {
            status = ap (λ (x : Task). x.status) o;
            progress = ap (λ (x : Task). x.progress) o;
            steps =
                rw (ap (λ (x : Task). outline x.steps) o) (
                  rw (take_all (outline (at e p).steps) i (out_of_range (at e p).steps i h)) at
                    all);
            shown = seen ∙ rw (eq_refl (at e p).id) (ap some (sym o));
          },
        )

  -- `n` steps are left, and the loop stands behind steps that are done.
  run_from-IsCompleted :
      (n : ℕ) (e : Executor) (w : Worker) (i : ℕ) (ls : List Line)
      → n + i ≡ length ls
      → IsReady e w.object
      → HasGoodHandlers e.handlers
      → HasDistinctTypes ls
      → outline (at e w.object).steps ≡ ls
      → All IsDoneLine (take i ls)
      → e.done w.context ≡ false
      → ((run_from env (suc n) e w i).1 ≡ Progress.ended none)
        × IsCompleted (run_from env (suc n) e w i).0 w.object (at e w.object).id
  unfolding run_from
  run_from-IsCompleted zero e w i ls n r g d o all live =
      let h = past (at e w.object).steps i (omega (arith, ap length o)) in
      let (ok, c) = run_once_end e w i r h (rw o all) in rw (ok, run_from) (refl, c)
  run_from-IsCompleted (suc m) e w i ls n r g d o all live =
      let (s, h) = within (at e w.object).steps i (omega (arith, ap length o)) in
      let (ok, one) = run_once_more e w i s ls r g d o h live in
      let u = (run_once env e w i).0 in
      let a = one.after in
      let h2 = rw o at (outline-get_elem? (at e w.object).steps i s h) in
      let rest =
        run_from-IsCompleted m u w (suc i) (set ls i (s.type, one.status))
          (omega (arith, length-set ls i (s.type, one.status))) (After-IsReady a) (rw a.handlers g)
          (HasDistinctTypes-set s.type s.status one.status ls i d h2) a.steps
          (done-set (s.type, one.status) ls i (in_range ls i h2) all one.done)
          (ap (λ (f : ℕ → Bool). f w.context) a.done ∙ live) in
      rw (ok, run_from) (rw a.id at rest)

  -- A run ends without error and leaves the task completed, with progress 100 and each step
  -- completed or skipped, and the store shows it, where each registered handler accepts every task,
  -- succeeds and changes neither the ID nor the type and status of a step by itself, no two steps
  -- have one type, every save succeeds, the context is not cancelled, and the store is well-formed
  -- and has the worker's object.
  pub run_completes :
      (e : Executor) (w : Worker)
      → IsReady e w.object
      → HasGoodHandlers e.handlers
      → HasDistinctTypes (outline (at e w.object).steps)
      → e.done w.context ≡ false
      → ((run env e w).1 ≡ Progress.ended none)
        × IsCompleted (run env e w).0 w.object (at e w.object).id
  unfolding run begin_run
  run_completes e w r g d live =
      let t = at e w.object in
      let started = record t {
        status = TaskStatus.running;
        started_at = or_now t.started_at (now env e);
      } in
      let (ok, a) = write_task-After env all_saved e w.object started r refl in
      let u = (begin_run env e w.object).0 in
      let start = start_index t.steps in
      let c =
        run_from-IsCompleted (length t.steps - start) u w start (outline t.steps)
          (omega (arith, length-outline t.steps, start_index-bound t.steps)) (After-IsReady a)
          (rw a.handlers g) d a.steps (take-outline t.steps start (start_index-IsStart t.steps).0)
          (ap (λ (f : ℕ → Bool). f w.context) a.done ∙ live) in
      rw (ok, run) (rw a.id at c)
