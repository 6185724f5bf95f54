-- ===== src/Base/Result.antt =====
-- What a call that may fail answers.
use mathlib.Core.Path.{◌≡◌, refl}
use mathlib.Core.Logic.{◌⊎◌, inl, inr}
use mathlib.Core.Option.{Option, none, some}

pub data Result {ℓ κ} (E : Type ℓ) (A : Type κ) : Type (ℓ ⊔ κ) where
  ok : A → Result E A
  err : E → Result E A

module _ {ℓ κ} {E : Type ℓ} {A : Type κ} where
  abbrev pub or_err : Option A → E → Result E A
  or_err none e = err e
  or_err (some a) e = ok a

  abbrev pub failure : Result E A → Option E
  failure (ok a) = none
  failure (err e) = some e

  abbrev pub value_of : Result E A → Option A
  value_of (ok a) = some a
  value_of (err e) = none

  pub value_of-or_err : (o : Option A) (e : E) → value_of (or_err o e) ≡ o
  value_of-or_err none e = refl
  value_of-or_err (some a) e = refl

  pub Result-cases : (r : Result E A) → ((a : A) × (r ≡ ok a)) ⊎ ((e : E) × (r ≡ err e))
  Result-cases (ok a) = inl (a, refl)
  Result-cases (err e) = inr (e, refl)
