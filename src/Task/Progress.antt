-- ===== src/Task/Progress.antt =====
-- `CalculateProgress` of internal/task/task.go.
pub mod Spec
pub mod Bounds
use redis_meter.Base.{
  ◌≡◌, refl, Bool, true, false, Option, none, some, List, [], ◌∷◌, String, if◌then◌else◌,
}
use redis_meter.Base.Int.{ℤ, pos, add, mul, quot, is_zero}
use redis_meter.Base.Dict.{Dict, get}
use redis_meter.Task.Model.{StepType, StepStatus, Step, Task}
use redis_meter.Task.Plan.{
  deploy_infra, wait_infra_ready, validate_infra, prepare_runner, prepare_database, upload_dataset,
  build_index, warmup, run_benchmark, collect_results, collect_logs, cleanup, destroy_infra,
}

unfoldable pub weights : Dict ℤ
weights =
    (deploy_infra, pos 20)
    ∷ (wait_infra_ready, pos 10)
    ∷ (validate_infra, pos 3)
    ∷ (prepare_runner, pos 5)
    ∷ (prepare_database, pos 5)
    ∷ (upload_dataset, pos 15)
    ∷ (build_index, pos 15)
    ∷ (warmup, pos 5)
    ∷ (run_benchmark, pos 15)
    ∷ (collect_results, pos 3)
    ∷ (collect_logs, pos 2)
    ∷ (cleanup, pos 1)
    ∷ (destroy_infra, pos 1)
    ∷ []

-- A missing key of a Go map reads as 0.
abbrev pub or_zero : Option ℤ → ℤ
or_zero none = pos 0
or_zero (some w) = w

unfoldable pub weight_of : StepType → ℤ
unfolding weights get
weight_of t = let w = or_zero (get weights t) in if is_zero w then pos 10 else w

-- What a step adds to `completedWeight`.
unfoldable pub credit : StepStatus → ℤ → ℤ → ℤ → ℤ
unfolding add mul quot
credit StepStatus.completed w progress sum = add sum w
credit StepStatus.running w progress sum = add sum (quot (mul w progress) (pos 100))
credit _ w progress sum = sum

-- The loop: `totalWeight` and `completedWeight` so far.
unfoldable pub tally : ℤ → ℤ → List Step → ℤ × ℤ
tally total done [] = (total, done)
tally total done (s ∷ ss) =
    tally (add total (weight_of s.type)) (credit s.status (weight_of s.type) s.progress done) ss

unfoldable pub percent_of : ℤ → ℤ → ℤ
percent_of total done = if is_zero total then pos 0 else quot (mul done (pos 100)) total

unfoldable pub progress_of : List Step → ℤ
unfolding tally
progress_of [] = pos 0
progress_of (s ∷ ss) = let (total, done) = tally (pos 0) (pos 0) (s ∷ ss) in percent_of total done

unfoldable pub calculate_progress : Task → ℤ
unfolding progress_of
calculate_progress t = progress_of t.steps
