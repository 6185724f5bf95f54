-- ===== src/Task/Steps/Gains.antt =====
-- `CompleteStep` and the progress of a task in internal/task/task.go.
use redis_meter.Base.{
  ℕ, ◌*◌, ◌/◌, ◌≤◌, ◌≡◌, refl, Bool-cases, Option-cases, inl, inr, List, [], ◌∷◌, String, str_eq,
  arith, length, All,
}
use redis_meter.Base.Int.{◌≤ℤ◌}
use redis_meter.Task.Model.{StepType, Step, Task}
use redis_meter.Task.Progress.{calculate_progress}
use redis_meter.Task.Progress.Spec.{
  HasPercent, IsMeasured, gain, gain_of, gain-le, total_gain, total_weight, mean,
}
use redis_meter.Task.Progress.Bounds.{calculate_progress-mean}
use redis_meter.Task.Steps.{modify_first, complete_step, get_step}
use redis_meter.Task.Steps.Laws.{completed_step, on_step_found, on_step_missing}

div_mono : (a b c : ℕ) → a ≤ b → a * 100 / c ≤ b * 100 / c
div_mono a b c h = grind arith

mean_lem : (ss : List Step) → mean ss ≡ total_gain ss * 100 / total_weight ss
unfolding mean total_gain total_weight
mean_lem [] = refl
mean_lem (s ∷ ss) = refl

module _ (k : StepType) (output : String) (now : ℕ) where
  abbrev finish : List Step → List Step
  finish = modify_first k (λ s. completed_step s output now)

  gain-finish : (s : Step) → HasPercent s → gain s ≤ gain (completed_step s output now)
  unfolding gain gain_of
  gain-finish s h = gain-le s h

  finish-total :
      (ss : List Step)
      → All HasPercent ss
      → (total_weight (finish ss) ≡ total_weight ss)
        × (total_gain ss ≤ total_gain (finish ss))
        × (length (finish ss) ≡ length ss)
        × All HasPercent (finish ss)
  unfolding modify_first total_weight total_gain
  finish-total [] h = (refl, omega arith, refl, tt)
  finish-total (s ∷ ss) h =
      let (w, g, l, a) = finish-total ss h.1 in
      let more = gain-finish s h.0 in
      elim (Bool-cases (str_eq s.type k)) [
        | inl e ↦ rw e (refl, omega arith, refl, (omega arith, h.1))
        | inr e ↦ rw e (omega arith, omega arith, omega arith, (h.0, a))
      ]

  finish-IsMeasured : (ss : List Step) → IsMeasured ss → IsMeasured (finish ss)
  finish-IsMeasured ss m =
      let (w, g, l, a) = finish-total ss m.percents in record { percents = a; few = rw l m.few }

  mean-finish : (ss : List Step) → IsMeasured ss → mean ss ≤ mean (finish ss)
  mean-finish ss m =
      let (w, g, l, a) = finish-total ss m.percents in
      let old = mean_lem ss in let new = mean_lem (finish ss) in rw (old, new, w) (div_mono _ _ _ g)

progress_le :
    (t u : Task)
    → IsMeasured t.steps
    → IsMeasured u.steps
    → mean t.steps ≤ mean u.steps
    → calculate_progress t ≤ℤ calculate_progress u
progress_le t u m n h = rw (calculate_progress-mean t m, calculate_progress-mean u n) (omega arith)

-- Completing a step, there or not, never lowers the progress that is calculated, as long as the
-- steps carry percentages.
pub complete_step_monotone :
    (t : Task) (k : StepType) (output : String) (now : ℕ)
    → IsMeasured t.steps
    → calculate_progress t ≤ℤ calculate_progress (complete_step t k output now).0
unfolding complete_step
complete_step_monotone t k output now m = elim (Option-cases (get_step t k)) [
  | inl e ↦ rw (on_step_missing t k _ _ e) (omega arith)
  | inr (s, e) ↦
      let more = mean-finish k output now t.steps m in
      rw (on_step_found t k _ _ s e)
        (progress_le t _ m (finish-IsMeasured k output now t.steps m) more)
]
