-- ===== src/Task/Progress/Bounds.antt =====
-- The values of `CalculateProgress` of internal/task/task.go.
use redis_meter.Base.{
  ℕ, ◌*◌, ◌/◌, ◌≤◌, ◌≡◌, refl, ap, ◌≢◌, ◌↔◌, ◌⊎◌, List, [], ◌∷◌, arith, All, inl, inr,
}
use redis_meter.Base.Int.{ℤ, pos, negsuc, pos_part}
use redis_meter.Task.Model.{StepStatus, Step, Task}
use redis_meter.Task.Progress.{calculate_progress}
use redis_meter.Task.Progress.Spec.{
  IsPercent, HasPercent, IsMeasured, weight, weight_lem, gain, gain_of, gain-le, total_gain,
  total_weight, total_gain-le, total_weight_bounds, mean, progress_of-mean,
}

abbrev pub IsFinished : Step → Type 0
IsFinished s =
    (s.status ≡ StepStatus.completed) ⊎ ((s.status ≡ StepStatus.running) × (s.progress ≡ pos 100))

-- With at most 1,000,000 steps, each with a progress from 0 to 100, the 64-bit loop computes the
-- weighted mean of the steps, with no overflow.
pub calculate_progress-mean :
    (t : Task) → IsMeasured t.steps → calculate_progress t ≡ pos (mean t.steps)
unfolding calculate_progress
calculate_progress-mean t m = progress_of-mean t.steps m

div_le : (a b : ℕ) → a ≤ b → a * 100 / b ≤ 100
div_le a b h = grind arith

mean-le : (ss : List Step) → IsMeasured ss → mean ss ≤ 100
unfolding mean
mean-le [] m = omega arith
mean-le (s ∷ ss) m = div_le _ _ (total_gain-le (s ∷ ss) m.percents)

-- With at most 1,000,000 steps, each with a progress from 0 to 100, the overall progress is between 0
-- and 100.
pub calculate_progress-IsPercent :
    (t : Task) → IsMeasured t.steps → IsPercent (calculate_progress t)
calculate_progress-IsPercent t m = rw (calculate_progress-mean t m) (mean-le t.steps m)

full_of_div : (a b : ℕ) → 1 ≤ b → a * 100 / b ≡ 100 → b ≤ a
full_of_div a b h e = grind arith

div_full : (a : ℕ) → 1 ≤ a → a * 100 / a ≡ 100
div_full a h = grind arith

full_of_part : (w p : ℕ) → 1 ≤ w → p ≤ 100 → w ≤ w * p / 100 → p ≡ 100
full_of_part w p h le e = grind arith

gain_of-finished :
    (st : StepStatus) (w : ℕ) (z : ℤ)
    → 1 ≤ w
    → IsPercent z
    → w ≤ gain_of st w (pos_part z)
    → (st ≡ StepStatus.completed) ⊎ ((st ≡ StepStatus.running) × (z ≡ pos 100))
unfolding gain_of
gain_of-finished StepStatus.completed w z h hz e = inl refl
gain_of-finished StepStatus.running w (pos n) h hz e = inr (refl, ap pos (full_of_part w n h hz e))
gain_of-finished StepStatus.running w (negsuc n) h hz e = absurd hz
gain_of-finished _ w z h hz e = absurd (omega arith)

gain_of_finished :
    (st : StepStatus) (w : ℕ) (z : ℤ)
    → (st ≡ StepStatus.completed) ⊎ ((st ≡ StepStatus.running) × (z ≡ pos 100))
    → w ≤ gain_of st w (pos_part z)
unfolding gain_of
gain_of_finished st w z (inl e) = rw e (omega arith)
gain_of_finished st w z (inr (e, f)) = rw (e, f) (omega arith)

gain-full : (s : Step) → HasPercent s → (weight s.type ≤ gain s) ↔ IsFinished s
unfolding gain
gain-full s h = (
  gain_of-finished s.status (weight s.type) s.progress (weight_lem s.type).1 h,
  gain_of_finished s.status (weight s.type) s.progress,
)

total-full :
    (ss : List Step) → All HasPercent ss → (total_weight ss ≤ total_gain ss) ↔ All IsFinished ss
unfolding total_weight total_gain
total-full [] h = (λ e. tt, λ e. omega arith)
total-full (s ∷ ss) h =
    let one = gain-full s h.0 in
    let rest = total-full ss h.1 in
    let le = gain-le s h.0 in
    let below = total_gain-le ss h.1 in
    (
      λ e. (one.0 (omega arith), rest.0 (omega arith)),
      λ e. let a = one.1 e.0 in let b = rest.1 e.1 in omega arith,
    )

mean-full :
    (ss : List Step) → IsMeasured ss → ss ≢ [] → (pos (mean ss) ≡ pos 100) ↔ All IsFinished ss
unfolding mean
mean-full [] m h = absurd (h refl)
mean-full (s ∷ ss) m h =
    let some_weight = total_weight_bounds (s ∷ ss) in
    let below = total_gain-le (s ∷ ss) m.percents in
    let both = total-full (s ∷ ss) m.percents in
    (
      λ e. both.0 (full_of_div _ _ (omega arith) (ap pos_part e)),
      λ f.
          let eq : total_gain (s ∷ ss) ≡ total_weight (s ∷ ss) =
            (let le = both.1 f in omega arith) in
          rw eq (ap pos (div_full (total_weight (s ∷ ss)) (omega arith))),
    )

-- A task that has from 1 to 1,000,000 steps, each with a progress from 0 to 100, computes 100 exactly
-- when every step is completed, or is running at 100.
pub calculate_progress-full :
    (t : Task)
    → IsMeasured t.steps
    → t.steps ≢ []
    → (calculate_progress t ≡ pos 100) ↔ All IsFinished t.steps
calculate_progress-full t m h = rw (calculate_progress-mean t m) (mean-full t.steps m h)
