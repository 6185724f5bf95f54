-- ===== src/Base/Int.antt =====
-- Go's `int` and `int64`: 64-bit two's complement, so each result is wrapped into range.
use Prim.Native.Nat.{ℕ, suc, ◌≤◌, ◌+◌, ◌-◌, ◌*◌, ◌/◌, ◌%◌, ◌<◌}
use mathlib.Core.Path.{◌≡◌, refl}
use mathlib.Core.Bool.{Bool, false}
use native.Mathlib.Omega.{arith}
use redis_meter.Base.Tests.{ltb, leb, ◌==◌, if◌then◌else◌}

-- `negsuc n` is -(n + 1).
pub data ℤ : Type 0 where
  pos : ℕ → ℤ
  negsuc : ℕ → ℤ

abbrev pub pos_part : ℤ → ℕ
pos_part (pos n) = n
pos_part (negsuc n) = 0

abbrev pub neg_part : ℤ → ℕ
neg_part (pos n) = 0
neg_part (negsuc n) = suc n

-- a - b, as an integer.
abbrev pub sub_ℕ : ℕ → ℕ → ℤ
sub_ℕ a b = if leb b a then pos (a - b) else negsuc (b - a - 1)

abbrev pub int_limit : ℕ
int_limit = 9223372036854775808

-- The 64-bit value that an integer wraps to.
unfoldable pub wrap : ℤ → ℤ
wrap (pos n) =
    let m = n % (2 * int_limit) in if ltb m int_limit then pos m else negsuc (2 * int_limit - 1 - m)
wrap (negsuc n) =
    let m = n % (2 * int_limit) in if ltb m int_limit then negsuc m else pos (2 * int_limit - 1 - m)

unfoldable pub add : ℤ → ℤ → ℤ
unfolding wrap
add a b = wrap (sub_ℕ (pos_part a + pos_part b) (neg_part a + neg_part b))

unfoldable pub mul : ℤ → ℤ → ℤ
unfolding wrap
mul a b = wrap (
    sub_ℕ (pos_part a * pos_part b + neg_part a * neg_part b)
      (pos_part a * neg_part b + neg_part a * pos_part b))

-- Go's division rounds towards zero. Callers test for a zero divisor first.
unfoldable pub quot : ℤ → ℤ → ℤ
unfolding wrap
quot (pos a) (pos b) = pos (a / b)
quot (pos a) (negsuc b) = sub_ℕ 0 (a / suc b)
quot (negsuc a) (pos b) = sub_ℕ 0 (suc a / b)
quot (negsuc a) (negsuc b) = wrap (pos (suc a / suc b))

abbrev pub is_zero : ℤ → Bool
is_zero (pos n) = n == 0
is_zero (negsuc n) = false

-- a < b and a ≤ b, as tests.
abbrev pub int_lt : ℤ → ℤ → Bool
int_lt a b = ltb (pos_part a + neg_part b) (pos_part b + neg_part a)

abbrev pub int_le : ℤ → ℤ → Bool
int_le a b = leb (pos_part a + neg_part b) (pos_part b + neg_part a)

pub wrap-pos : (n : ℕ) → n < int_limit → wrap (pos n) ≡ pos n
unfolding wrap
wrap-pos n h = ground arith

pub add-pos : (a b : ℕ) → a + b < int_limit → add (pos a) (pos b) ≡ pos (a + b)
unfolding add
add-pos a b h = ground arith

pub mul-pos : (a b : ℕ) → a * b < int_limit → mul (pos a) (pos b) ≡ pos (a * b)
unfolding mul
mul-pos a b h = ground arith

-- The largest value plus one is the smallest.
add_overflows : add (pos 9223372036854775807) (pos 1) ≡ negsuc 9223372036854775807
unfolding add
add_overflows = refl

quot_rounds : quot (negsuc 6) (pos 2) ≡ negsuc 2
unfolding quot
quot_rounds = refl

infix 50 ◌≤ℤ◌
abbrev pub ◌≤ℤ◌ : ℤ → ℤ → Type 0
a ≤ℤ b = pos_part a + neg_part b ≤ pos_part b + neg_part a

-- Go's `t.Add(d)` of a time in nanoseconds after the zero time, not before it.
abbrev pub later : ℕ → ℤ → ℕ
later t (pos d) = t + d
later t (negsuc d) = t - suc d

-- A `float64` that nothing computes with, by its decimal digits: units / 10 ^ places.
pub record Decimal : Type 0 where
  pub units : ℤ
  pub places : ℕ
