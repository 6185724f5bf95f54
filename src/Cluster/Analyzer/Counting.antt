-- ===== src/Cluster/Analyzer/Counting.antt =====
-- Counting the list of covered slots of internal/cluster/cluster.go.
use redis_meter.Base.{
  ℕ, zero, suc, ◌+◌, ◌<◌, ◌≤◌, ◌≡◌, refl, true, false, Bool-cases, inl, inr, ◌||◌, List, [], ◌∷◌,
  ◌==◌, ltb, if◌then◌else◌, length, any, arith,
}
use redis_meter.Base.Int.{ℤ, pos, negsuc, pos_part, neg_part}
use redis_meter.Cluster.Analyzer.{has_slot}

-- How many of the slots below `n` are in the list.
pub count_below : ℕ → List ℤ → ℕ
count_below zero s = 0
count_below (suc n) s = (if has_slot (pos n) s then 1 else 0) + count_below n s

-- No slot twice, none below 0, and all below `n`.
abbrev pub IsSlotSet : ℕ → List ℤ → Type 0
IsSlotSet n [] = Unit
IsSlotSet n (z ∷ s) = (has_slot z s ≡ false) × (neg_part z ≡ 0) × (pos_part z < n) × IsSlotSet n s

count_below-nil : (n : ℕ) → count_below n [] ≡ 0
unfolding count_below has_slot any
count_below-nil zero = refl
count_below-nil (suc n) = omega (arith, count_below-nil n)

has_slot-cons :
    (x y : ℕ) (s : List ℤ) → has_slot (pos x) (pos y ∷ s) ≡ (x == y) || has_slot (pos x) s
unfolding has_slot any
has_slot-cons x y s = ground arith

count_below-cons :
    (n y : ℕ) (s : List ℤ)
    → has_slot (pos y) s ≡ false
    → count_below n (pos y ∷ s) ≡ (if ltb y n then 1 else 0) + count_below n s
unfolding count_below
count_below-cons zero y s h = ground arith
count_below-cons (suc n) y s h = ground (arith, count_below-cons n y s h, has_slot-cons n y s)

length-count_below : (n : ℕ) (s : List ℤ) → IsSlotSet n s → length s ≡ count_below n s
length-count_below n [] h = omega (arith, count_below-nil n)
length-count_below n (pos y ∷ s) h =
    ground (arith, count_below-cons n y s h.0, length-count_below n s h.3)
length-count_below n (negsuc y ∷ s) h = absurd (omega arith)

count_below-le : (n : ℕ) (s : List ℤ) → count_below n s ≤ n
unfolding count_below
count_below-le zero s = omega arith
count_below-le (suc n) s = ground (arith, count_below-le n s)

-- All slots are counted only if all are there.
count_below-full : (n x : ℕ) (s : List ℤ) → count_below n s ≡ n → x < n → has_slot (pos x) s ≡ true
unfolding count_below
count_below-full zero x s h b = absurd (omega arith)
count_below-full (suc n) x s h b = elim (Bool-cases (has_slot (pos n) s)) [
  | inl e ↦ elim (Bool-cases (x == n)) [
    | inl q ↦ let same : x ≡ n = ground arith in rw same e
    | inr q ↦ count_below-full n x s (ground (arith, h, e)) (ground arith)
  ]
  | inr e ↦ absurd (ground (arith, h, e, count_below-le n s))
]

pub full_has_slot :
    (n x : ℕ) (s : List ℤ) → IsSlotSet n s → length s ≡ n → x < n → has_slot (pos x) s ≡ true
full_has_slot n x s d h b = count_below-full n x s (omega (arith, length-count_below n s d)) b

count_below-all :
    (n : ℕ) (s : List ℤ) → ((x : ℕ) → x < n → has_slot (pos x) s ≡ true) → count_below n s ≡ n
unfolding count_below
count_below-all zero s h = refl
count_below-all (suc n) s h =
    ground (arith, h n (omega arith), count_below-all n s (λ x b. h x (omega arith)))

pub has_all_full :
    (n : ℕ) (s : List ℤ)
    → IsSlotSet n s
    → ((x : ℕ) → x < n → has_slot (pos x) s ≡ true)
    → length s ≡ n
has_all_full n s d h = omega (arith, length-count_below n s d, count_below-all n s h)
