-- ===== src/Task/Progress/Spec.antt =====
-- The weighted mean on the natural numbers that `CalculateProgress` of internal/task/task.go is
-- compared with.
use redis_meter.Base.{
  ℕ, ◌+◌, ◌*◌, ◌/◌, ◌≤◌, ◌<◌, ◌≡◌, refl, ◌∙◌, ap, List, [], ◌∷◌, arith, length, All, if◌then◌else◌,
  Bool-cases, str_eq, inl, inr, String,
}
use redis_meter.Base.Int.{ℤ, pos, negsuc, pos_part, quot, is_zero, add-pos, mul-pos}
use redis_meter.Base.Dict.{Dict, get}
use redis_meter.Task.Model.{StepType, StepStatus, Step}
use redis_meter.Task.Progress.{weights, or_zero, weight_of, credit, tally, percent_of, progress_of}
use native.Mathlib.Nat.{zero-add}

-- A value between 0 and 100.
abbrev pub IsPercent : ℤ → Type 0
IsPercent (pos n) = n ≤ 100
IsPercent (negsuc n) = ⊥

abbrev pub HasPercent : Step → Type 0
HasPercent s = IsPercent s.progress

-- The steps carry percentages, and there are at most a million of them.
pub record IsMeasured (ss : List Step) : Type 0 where
  pub percents : All HasPercent ss
  pub few : length ss ≤ 1000000

unfoldable pub weight : StepType → ℕ
weight k = pos_part (weight_of k)

abbrev InRange : ℤ → Type 0
InRange (pos n) = (1 ≤ n) × (n ≤ 20)
InRange (negsuc n) = ⊥

abbrev default_weight : ℤ → ℤ
default_weight w = if is_zero w then pos 10 else w

default_weight-InRange : (z : ℤ) → InRange z → InRange (default_weight z)
default_weight-InRange (pos n) h = ground arith
default_weight-InRange (negsuc n) h = absurd h

lookup-InRange :
    (d : Dict ℤ) (k : String)
    → All (λ e. InRange e.1) d
    → InRange (default_weight (or_zero (get d k)))
unfolding get
lookup-InRange [] k h = omega arith
lookup-InRange ((j, v) ∷ d) k h = elim (Bool-cases (str_eq j k)) [
  | inl e ↦ rw e (default_weight-InRange v h.0)
  | inr e ↦ rw e (lookup-InRange d k h.1)
]

weight_of-InRange : (k : StepType) → InRange (weight_of k)
unfolding weight_of
weight_of-InRange k = lookup-InRange weights k (omega arith)

InRange-pos : (z : ℤ) → InRange z → (z ≡ pos (pos_part z)) × (1 ≤ pos_part z) × (pos_part z ≤ 20)
InRange-pos (pos n) h = (refl, h.0, h.1)
InRange-pos (negsuc n) h = absurd h

pub weight_lem : (k : StepType) → (weight_of k ≡ pos (weight k)) × (1 ≤ weight k) × (weight k ≤ 20)
unfolding weight
weight_lem k = InRange-pos (weight_of k) (weight_of-InRange k)

unfoldable pub gain_of : StepStatus → ℕ → ℕ → ℕ
gain_of StepStatus.completed w p = w
gain_of StepStatus.running w p = w * p / 100
gain_of _ w p = 0

unfoldable pub gain : Step → ℕ
gain s = gain_of s.status (weight s.type) (pos_part s.progress)

unfoldable pub total_weight : List Step → ℕ
total_weight [] = 0
total_weight (s ∷ ss) = weight s.type + total_weight ss

unfoldable pub total_gain : List Step → ℕ
total_gain [] = 0
total_gain (s ∷ ss) = gain s + total_gain ss

scaled-le : (w p : ℕ) → p ≤ 100 → w * p ≤ w * 100
scaled-le w p h = grind arith

gain_of-le : (st : StepStatus) (w p : ℕ) → p ≤ 100 → gain_of st w p ≤ w
unfolding gain_of
gain_of-le StepStatus.running w p h = omega (arith, scaled-le w p h)
gain_of-le _ w p h = omega arith

pub percent-le : (z : ℤ) → IsPercent z → pos_part z ≤ 100
percent-le (pos n) h = h
percent-le (negsuc n) h = absurd h

pub gain-le : (s : Step) → HasPercent s → gain s ≤ weight s.type
unfolding gain
gain-le s h = gain_of-le s.status (weight s.type) (pos_part s.progress) (percent-le s.progress h)

pub total_gain-le : (ss : List Step) → All HasPercent ss → total_gain ss ≤ total_weight ss
unfolding total_gain total_weight
total_gain-le [] h = omega arith
total_gain-le (s ∷ ss) h = omega (arith, gain-le s h.0, total_gain-le ss h.1)

pub total_weight_bounds :
    (ss : List Step) → (length ss ≤ total_weight ss) × (total_weight ss ≤ 20 * length ss)
unfolding total_weight
total_weight_bounds [] = omega arith
total_weight_bounds (s ∷ ss) =
    let h = weight_lem s.type in let ih = total_weight_bounds ss in omega arith

product_bound : (w n : ℕ) → w ≤ 20 → n ≤ 100 → w * n ≤ 2000
product_bound w n hw hn = grind arith

credit-pos :
    (st : StepStatus) (w d : ℕ) (z : ℤ)
    → w ≤ 20
    → d < 1000000000
    → IsPercent z
    → credit st (pos w) z (pos d) ≡ pos (d + gain_of st w (pos_part z))
unfolding credit gain_of
credit-pos StepStatus.completed w d z hw hd hz = add-pos d w (omega arith)
credit-pos StepStatus.running w d (pos n) hw hd hz =
    let small = product_bound w n hw hz in
    rw (mul-pos w n (omega arith)) (add-pos d (w * n / 100) (omega arith))
credit-pos StepStatus.running w d (negsuc n) hw hd hz = absurd hz
credit-pos _ w d z hw hd hz = ap pos (omega arith)

tally-pos :
    (ss : List Step) (total done : ℕ)
    → total + 20 * length ss < 1000000000
    → done ≤ total
    → All HasPercent ss
    → tally (pos total) (pos done) ss ≡ (pos (total + total_weight ss), pos (done + total_gain ss))
unfolding tally total_weight total_gain gain
tally-pos [] total done h le p = ground arith
tally-pos (s ∷ ss) total done h le p =
    let (w, low, high) = weight_lem s.type in
    let g = gain_of-le s.status (weight s.type) (pos_part s.progress) (percent-le s.progress p.0) in
    rw
      (
        w,
        add-pos total (weight s.type) (omega arith),
        credit-pos s.status (weight s.type) done s.progress high (omega arith) p.0,
      )
      (tally-pos ss (total + weight s.type) (done + gain s) (omega arith)
          (unfold gain in omega arith) p.1
        ∙ ground arith)

-- The weighted mean of the steps' gains, in percent.
unfoldable pub mean : List Step → ℕ
mean [] = 0
mean (s ∷ ss) = total_gain (s ∷ ss) * 100 / total_weight (s ∷ ss)

percent_of-pos : (w d : ℕ) → 1 ≤ w → d < 1000000000 → percent_of (pos w) (pos d) ≡ pos (d * 100 / w)
unfolding percent_of quot
percent_of-pos w d hw hd = rw (mul-pos d 100 (omega arith)) (ground arith)

pub progress_of-mean : (ss : List Step) → IsMeasured ss → progress_of ss ≡ pos (mean ss)
unfolding progress_of mean
progress_of-mean [] m = refl
progress_of-mean (s ∷ ss) m =
    let few = m.few in
    let bounds = total_weight_bounds (s ∷ ss) in
    let below = total_gain-le (s ∷ ss) m.percents in
    rw
      (
        tally-pos (s ∷ ss) 0 0 (omega arith) (omega arith) m.percents,
        zero-add (total_weight (s ∷ ss)),
        zero-add (total_gain (s ∷ ss)),
      )
      (percent_of-pos (total_weight (s ∷ ss)) (total_gain (s ∷ ss)) (omega arith) (omega arith))
