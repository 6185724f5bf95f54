-- ===== src/Alerting/Numerals.antt =====
-- `intToStr` of internal/alerting/alerting.go, the number in an alert's ID.
use redis_meter.Base.{
  ℕ, zero, suc, ◌+◌, ◌/◌, ◌%◌, ◌<◌, ◌≤◌, ◌≡◌, ap, ◌∙◌, true, Bool-cases, inl, inr, [], ◌∷◌, ◌==◌,
  if◌then◌else◌, arith,
}
use redis_meter.Base.Int.{ℤ, pos, negsuc, int_limit}
use redis_meter.Base.Text.{Text, atoi, digits_value, positive, is_digit}

-- The loop, for at most `fuel` digits: a number has no more digits than its value.
unfoldable pub digits_before : ℕ → ℕ → Text → Text
digits_before zero n s = s
digits_before (suc fuel) n s =
    let rest = digits_before fuel (n / 10) ((48 + n % 10) ∷ s) in if n == 0 then s else rest

-- Below 0 the loop of the source makes no step.
unfoldable pub int_to_str : ℤ → Text
int_to_str (pos n) = if n == 0 then 48 ∷ [] else digits_before n n []
int_to_str (negsuc n) = []

digits_value-digits_before :
    (fuel n : ℕ) (s : Text) → n ≤ fuel → digits_value 0 (digits_before fuel n s) ≡ digits_value n s
unfolding digits_before
digits_value-digits_before zero n s h = ap (λ k. digits_value k s) (omega arith)
digits_value-digits_before (suc fuel) n s h = elim (Bool-cases (n == 0)) [
  | inl e ↦ rw e (ap (λ k. digits_value k s) (ground arith))
  | inr e ↦ rw e (
      digits_value-digits_before fuel (n / 10) ((48 + n % 10) ∷ s) (ground arith)
      ∙ unfold digits_value in ground arith)
]

-- Not empty, and the first byte is a digit.
HasDigit : Text → Type 0
HasDigit [] = ⊥
HasDigit (c ∷ s) = is_digit c ≡ true

digits_before-HasDigit :
    (fuel n : ℕ) (s : Text) → (n ≡ 0 → HasDigit s) → n ≤ fuel → HasDigit (digits_before fuel n s)
unfolding digits_before HasDigit
digits_before-HasDigit zero n s h b = h (omega arith)
digits_before-HasDigit (suc fuel) n s h b = elim (Bool-cases (n == 0)) [
  | inl e ↦ rw e (h (ground arith))
  | inr e ↦
      rw e (
        digits_before-HasDigit fuel (n / 10) ((48 + n % 10) ∷ s) (λ z. ground arith) (ground arith))
]

atoi-HasDigit : (s : Text) → HasDigit s → atoi s ≡ positive (digits_value 0 s)
unfolding atoi HasDigit
atoi-HasDigit [] h = absurd h
atoi-HasDigit (c ∷ s) h = ground arith

-- `Atoi` reads a number from 0 to 2^63 - 1 back from its text.
pub atoi-int_to_str : (n : ℕ) → n < int_limit → atoi (int_to_str (pos n)) ≡ (pos n, true)
unfolding int_to_str atoi digits_value
atoi-int_to_str n h = elim (Bool-cases (n == 0)) [
  | inl e ↦ rw e (ground arith)
  | inr e ↦
      let first = digits_before-HasDigit n n [] (λ z. absurd (ground arith)) (omega arith) in
      rw e (
        atoi-HasDigit (digits_before n n []) first
        ∙ ap positive (digits_value-digits_before n n [] (omega arith))
        ∙ unfold digits_value in ground arith)
]
