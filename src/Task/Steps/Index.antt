-- ===== src/Task/Steps/Index.antt =====
-- The scans over a task's steps in internal/task/task.go: the index of the current step, the index
-- of the last completed one, and the steps that the standard workflows add.
use redis_meter.Base.{
  ℕ, suc, ◌+◌, ◌≡◌, refl, ap, ◌∙◌, ◌⊎◌, inl, inr, Bool, true, false, some, List, [], ◌∷◌, ◌++◌, map,
  get_elem?, take, drop, All, if◌then◌else◌, arith,
}
use mathlib.Core.List.{append_assoc, append-nil}
use redis_meter.Base.Int.{ℤ, pos, negsuc}
use redis_meter.Task.Model.{StepType, Step, Task, new_step}
use redis_meter.Task.Steps.{
  add_step, add_steps, is_open, is_completed, current_from, get_current_step_index, last_from,
  get_last_completed_step_index,
}

abbrev pub IsClosed : Step → Type 0
IsClosed s = is_open s.status ≡ false

abbrev pub IsUnfinished : Step → Type 0
IsUnfinished s = is_completed s.status ≡ false

-- `z` is the place, counted from `start`, of the first open step.
abbrev pub FirstOpen : ℕ → ℤ → List Step → Type 0
FirstOpen start z ss =
    ((z ≡ negsuc 0) × All IsClosed ss)
    ⊎ ((i : ℕ) × (s : Step) × (z ≡ pos (start + i))
        × (get_elem? ss i ≡ some s)
        × (is_open s.status ≡ true)
        × All IsClosed (take i ss))

FirstOpen-step :
    (b : Bool) (start : ℕ) (z : ℤ) (s : Step) (ss : List Step)
    → is_open s.status ≡ b
    → FirstOpen (start + 1) z ss
    → FirstOpen start (if b then pos start else z) (s ∷ ss)
FirstOpen-step true start z s ss c h = inr (0, s, ap pos (omega arith), refl, c, tt)
FirstOpen-step false start z s ss c (inl (e, all)) = inl (e, (c, all))
FirstOpen-step false start z s ss c (inr (i, x, e, at, o, all)) =
    inr (suc i, x, e ∙ ap pos (omega arith), at, o, (c, all))

current_from-FirstOpen : (start : ℕ) (ss : List Step) → FirstOpen start (current_from start ss) ss
unfolding current_from
current_from-FirstOpen start [] = inl (refl, tt)
current_from-FirstOpen start (s ∷ ss) =
    FirstOpen-step (is_open s.status) start _ s ss refl (current_from-FirstOpen (start + 1) ss)

-- `GetCurrentStepIndex` gives the first step that is pending or running, with none such before it,
-- and -1 exactly when there is none.
pub get_current_step_index-first : (t : Task) → FirstOpen 0 (get_current_step_index t) t.steps
unfolding get_current_step_index
get_current_step_index-first t = current_from-FirstOpen 0 t.steps

add_steps-map :
    (ss : List StepType) (t : Task) → (add_steps t ss).steps ≡ t.steps ++ map new_step ss
unfolding add_steps add_step new_step
add_steps-map [] t = rw append-nil
add_steps-map (s ∷ ss) t =
    add_steps-map ss (add_step t s) ∙ append_assoc t.steps (new_step s ∷ []) (map new_step ss)

-- `z` is the place, counted from `start`, of the last completed step, or `none_yet` without one.
abbrev pub LastCompleted : ℤ → ℕ → ℤ → List Step → Type 0
LastCompleted none_yet start z ss =
    ((z ≡ none_yet) × All IsUnfinished ss)
    ⊎ ((i : ℕ) × (s : Step) × (z ≡ pos (start + i))
        × (get_elem? ss i ≡ some s)
        × (is_completed s.status ≡ true)
        × All IsUnfinished (drop (suc i) ss))

LastCompleted-step :
    (b : Bool) (last : ℤ) (start : ℕ) (z : ℤ) (s : Step) (ss : List Step)
    → is_completed s.status ≡ b
    → LastCompleted (if b then pos start else last) (start + 1) z ss
    → LastCompleted last start z (s ∷ ss)
LastCompleted-step true last start z s ss c (inl (e, all)) =
    inr (0, s, e ∙ ap pos (omega arith), refl, c, all)
LastCompleted-step false last start z s ss c (inl (e, all)) = inl (e, (c, all))
LastCompleted-step b last start z s ss c (inr (i, x, e, at, o, all)) =
    inr (suc i, x, e ∙ ap pos (omega arith), at, o, all)

last_from-LastCompleted :
    (last : ℤ) (start : ℕ) (ss : List Step) → LastCompleted last start (last_from last start ss) ss
unfolding last_from
last_from-LastCompleted last start [] = inl (refl, tt)
last_from-LastCompleted last start (s ∷ ss) =
    LastCompleted-step (is_completed s.status) last start _ s ss refl
      (last_from-LastCompleted (if is_completed s.status then pos start else last) (start + 1) ss)

-- `GetLastCompletedStepIndex` gives the last completed step, with none completed after it, and -1
-- exactly when there is none.
pub get_last_completed_step_index-last :
    (t : Task) → LastCompleted (negsuc 0) 0 (get_last_completed_step_index t) t.steps
unfolding get_last_completed_step_index
get_last_completed_step_index-last t = last_from-LastCompleted (negsuc 0) 0 t.steps
