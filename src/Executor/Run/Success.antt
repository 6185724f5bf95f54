-- ===== src/Executor/Run/Success.antt =====
-- A step of internal/task/executor.go whose handler succeeds, on a disk that takes the writes.
use redis_meter.Base.{
  ℕ, zero, suc, ◌<◌, ◌≡◌, refl, ap, ◌∙◌, Bool-cases, inl, inr, none, some, List, [], ◌∷◌, String,
  str_eq, eq_iff, All, arith, get_elem?, set, length, get_elem?-set_self,
}
use redis_meter.Base.Dict.{Dict, get}
use redis_meter.Task.Model.{StepType, StepStatus, TaskStatus, Step, Task}
use redis_meter.Task.Steps.{find_step, get_step, start_step, complete_step, begin_task}
use redis_meter.Task.Steps.Laws.{on_step_found}
use redis_meter.TaskStore.Model.{SaveOutcome}
use redis_meter.Executor.Model.{Handler, Executor, Env, at, now, set_task, save_task}
use redis_meter.Executor.Run.{
  perform, finish_step, handle_step, begin_step, output_at, store_result,
}
use redis_meter.Executor.Run.Outline.{
  Line, outline, mark, mark-set, HasDistinctTypes, HasDistinctTypes-set, outline-modify_first,
}
use redis_meter.Executor.Run.Frame.{
  After, After-IsReady, After-trans, IsReady, IsHarmless, write_task-After, perform-After,
}

-- The handler accepts every task, succeeds, and changes no step's type or status by itself.
pub record IsCooperative (h : Handler) : Type 0 where
  pub valid : (t : Task) → h.validate t ≡ none
  pub succeeds : (t : Task) → h.result t ≡ none
  pub harmless : (t : Task) → All IsHarmless (h.actions t)

abbrev pub HasGoodHandlers : Dict Handler → Type 0
HasGoodHandlers hs = (k : StepType) (h : Handler) → get hs k ≡ some h → IsCooperative h

begin_task-keeps :
    (st : TaskStatus) (n : ℕ) (t : Task)
    → ((begin_task st n t).id ≡ t.id) × ((begin_task st n t).steps ≡ t.steps)
unfolding begin_task
begin_task-keeps TaskStatus.pending n t = (refl, refl)
begin_task-keeps _ n t = (refl, refl)

find_some :
    (k : StepType) (x : StepStatus) (ss : List Step) (i : ℕ)
    → get_elem? (outline ss) i ≡ some (k, x)
    → (s : Step) × (find_step k ss ≡ some s)
unfolding find_step
find_some k x [] i h = cc
find_some k x (s ∷ ss) zero h = (s, ground (arith, eq_iff s.type k))
find_some k x (s ∷ ss) (suc i) h =
    let (t, found) = find_some k x ss i h in
    elim (Bool-cases (str_eq s.type k)) [ inl e ↦ (s, rw e) | inr e ↦ (t, rw e found) ]

pub start_step-outline :
    (t : Task) (k : StepType) (s : Step) (n : ℕ)
    → get_step t k ≡ some s
    → let (u, err) = start_step t k n in
      (err ≡ none) × (u.id ≡ t.id) × (outline u.steps ≡ mark k StepStatus.running (outline t.steps))
unfolding start_step
start_step-outline t k s n h = rw (on_step_found t k _ _ s h) (
    let (i, ss) = begin_task-keeps t.status n _ in
    (refl, i, ap outline ss ∙ outline-modify_first k StepStatus.running _ t.steps (λ x. refl)))

pub complete_step-outline :
    (t : Task) (k : StepType) (s : Step) (output : String) (n : ℕ)
    → get_step t k ≡ some s
    → let (u, err) = complete_step t k output n in
      (err ≡ none)
      × (u.id ≡ t.id)
      × (outline u.steps ≡ mark k StepStatus.completed (outline t.steps))
unfolding complete_step
complete_step-outline t k s output n h =
    rw (on_step_found t k _ _ s h)
      (refl, refl, outline-modify_first k StepStatus.completed _ t.steps (λ x. refl))

-- The step with this type is the one that `GetStep` finds.
get_step_at :
    (t : Task) (k : StepType) (x : StepStatus) (ls : List Line) (i : ℕ)
    → outline t.steps ≡ ls
    → get_elem? ls i ≡ some (k, x)
    → (s : Step) × (get_step t k ≡ some s)
unfolding get_step
get_step_at t k x ls i o h = find_some k x t.steps i (rw o h)

pub in_range {ℓ} :
    {A : Type ℓ} {a : A} (ls : List A) (i : ℕ) → get_elem? ls i ≡ some a → i < length ls
in_range [] i h = cc
in_range (l ∷ ls) zero h = omega arith
in_range (l ∷ ls) (suc i) h = omega (arith, in_range ls i h)

set-set {ℓ} : {A : Type ℓ} (ls : List A) (i : ℕ) (a b : A) → set (set ls i a) i b ≡ set ls i b
set-set [] i a b = refl
set-set (l ∷ ls) zero a b = refl
set-set (l ∷ ls) (suc i) a b = ap (◌∷◌ l) (set-set ls i a b)

module _ (env : Env) (all_saved : (n : ℕ) → env.answer n ≡ SaveOutcome.saved) where
  -- The lines after the step at `i` has been given a status.
  abbrev with_status : List Line → ℕ → StepType → StepStatus → List Line
  with_status ls i k st = set ls i (k, st)

  finish_step-After :
      (e : Executor) (p i : ℕ) (k : StepType) (x : StepStatus) (ls : List Line)
      → IsReady e p
      → HasDistinctTypes ls
      → outline (at e p).steps ≡ ls
      → get_elem? ls i ≡ some (k, x)
      → ((finish_step env e p i k).1 ≡ none)
        × After e (finish_step env e p i k).0 p (with_status ls i k StepStatus.completed)
  unfolding finish_step
  finish_step-After e p i k x ls r d o h =
      let (s, found) = get_step_at (at e p) k x ls i o h in
      let output = output_at (at e p).steps i in
      let (ok, same, lines) = complete_step-outline (at e p) k s output (now env e) found in
      let t = (complete_step (at e p) k output (now env e)).0 in
      let (saved_ok, a) = write_task-After env all_saved e p t r same in
      let o2 =
        lines ∙ ap (mark k StepStatus.completed) o ∙ mark-set k x StepStatus.completed ls i d h in
      rw (ok, finish_step) (ap store_result saved_ok, rw o2 at a)

  handle_step-After :
      (e : Executor) (p i : ℕ) (k : StepType) (x : StepStatus) (ls : List Line) (hd : Handler)
      → IsReady e p
      → HasDistinctTypes ls
      → outline (at e p).steps ≡ ls
      → get_elem? ls i ≡ some (k, x)
      → IsCooperative hd
      → ((handle_step env e p i k hd).1 ≡ none)
        × After e (handle_step env e p i k hd).0 p (with_status ls i k StepStatus.completed)
  unfolding handle_step
  handle_step-After e p i k x ls hd r d o h c =
      let u = perform env e p k (now env e) (hd.actions (at e p)) in
      let a =
        perform-After env all_saved (hd.actions (at e p)) e p k (now env e) r
          (c.harmless (at e p)) in
      let (ok, b) = finish_step-After u p i k x ls (After-IsReady a) d (a.steps ∙ o) h in
      rw (c.succeeds (at e p), handle_step) (ok, After-trans a b)

  pub begin_step-After :
      (e : Executor) (p i : ℕ) (k : StepType) (x : StepStatus) (ls : List Line) (hd : Handler)
      → IsReady e p
      → HasDistinctTypes ls
      → outline (at e p).steps ≡ ls
      → get_elem? ls i ≡ some (k, x)
      → IsCooperative hd
      → ((begin_step env e p i k hd).1 ≡ none)
        × After e (begin_step env e p i k hd).0 p (with_status ls i k StepStatus.completed)
  unfolding begin_step
  begin_step-After e p i k x ls hd r d o h c =
      let (s, found) = get_step_at (at e p) k x ls i o h in
      let (ok, same, lines) = start_step-outline (at e p) k s (now env e) found in
      let t = (start_step (at e p) k (now env e)).0 in
      let (saved_ok, a) = write_task-After env all_saved e p t r same in
      let u = (save_task env (set_task env e p t) p).0 in
      let o2 =
        lines ∙ ap (mark k StepStatus.running) o ∙ mark-set k x StepStatus.running ls i d h in
      let (done_ok, b) =
        handle_step-After u p i k StepStatus.running (with_status ls i k StepStatus.running) hd
          (After-IsReady a) (HasDistinctTypes-set k x StepStatus.running ls i d h) (a.steps ∙ o2)
          (get_elem?-set_self ls i (k, StepStatus.running) (in_range ls i h)) c in
      rw (ok, saved_ok, begin_step)
        (
          done_ok,
          rw (set-set ls i (k, StepStatus.running) (k, StepStatus.completed)) at (After-trans a b),
        )
