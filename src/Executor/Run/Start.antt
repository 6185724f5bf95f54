-- ===== src/Executor/Run/Start.antt =====
-- Where `run` of internal/task/executor.go starts.
use redis_meter.Base.{
  ℕ, suc, ◌≡◌, refl, ap, ◌⊎◌, if◌then◌else◌, inl, inr, Bool, true, false, some, List, [], ◌∷◌,
  get_elem?, take, length, All,
}
use redis_meter.Task.Model.{Step}
use redis_meter.Executor.Run.{is_done, start_index}

abbrev pub IsDone : Step → Type 0
IsDone s = is_done s.status ≡ true

-- The start `n` of these steps.
abbrev pub IsStart : List Step → ℕ → Type 0
IsStart ss n =
    All IsDone (take n ss)
    × ((n ≡ length ss) ⊎ ((s : Step) × (get_elem? ss n ≡ some s) × (is_done s.status ≡ false)))

IsStart-cons :
    (b : Bool) (s : Step) (ss : List Step) (n : ℕ)
    → is_done s.status ≡ b
    → IsStart ss n
    → IsStart (s ∷ ss) (if b then suc n else 0)
IsStart-cons true s ss n h (a, inl e) = ((h, a), inl (ap suc e))
IsStart-cons true s ss n h (a, inr (t, e, d)) = ((h, a), inr (t, e, d))
IsStart-cons false s ss n h p = (tt, inr (s, refl, h))

-- Every step before the start is completed or skipped, and the step at the start, if there is one,
-- is neither.
pub start_index-IsStart : (ss : List Step) → IsStart ss (start_index ss)
unfolding start_index
start_index-IsStart [] = (tt, inl refl)
start_index-IsStart (s ∷ ss) =
    IsStart-cons (is_done s.status) s ss (start_index ss) refl (start_index-IsStart ss)
