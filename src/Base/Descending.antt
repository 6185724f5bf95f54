-- ===== src/Base/Descending.antt =====
-- Lists whose keys descend, and the sort by them.
use Prim.Native.Nat.{ℕ, zero, suc, ◌≤◌}
use mathlib.Core.Bool.{Bool}
use mathlib.Core.List.{List, [], ◌∷◌}
use mathlib.Core.Logic.{inl, inr}
use native.Mathlib.Omega.{arith}
use redis_meter.Base.Tests.{ltb, Bool-cases}
use redis_meter.Base.Lists.{All, take, drop, take-All}
use redis_meter.Base.Sort.{sort, insert_sorted, insert_sorted-All}

module _ {ℓ} {A : Type ℓ} (key : A → ℕ) where
  -- Each key is at least those after it.
  abbrev pub IsDescending : List A → Type 0
  IsDescending [] = Unit
  IsDescending (x ∷ xs) = All (λ y. key y ≤ key x) xs × IsDescending xs

  abbrev pub larger : A → A → Bool
  larger x y = ltb (key y) (key x)

  weaken : (m n : ℕ) (xs : List A) → m ≤ n → All (λ y. key y ≤ m) xs → All (λ y. key y ≤ n) xs
  weaken m n [] h a = tt
  weaken m n (x ∷ xs) h a = (omega arith, weaken m n xs h a.1)

  insert-IsDescending :
      (x : A) (xs : List A) → IsDescending xs → IsDescending (insert_sorted larger x xs)
  unfolding insert_sorted
  insert-IsDescending x [] h = (tt, tt)
  insert-IsDescending x (y ∷ ys) h = elim (Bool-cases (ltb (key x) (key y))) [
    | inl e ↦ rw e (
      insert_sorted-All larger (λ z. key z ≤ key y) x ys (ground arith) h.0,
      insert-IsDescending x ys h.1,
    )
    | inr e ↦
        let le : key y ≤ key x = ground arith in rw e ((le, weaken (key y) (key x) ys le h.0), h)
  ]

  pub sort-IsDescending : (xs : List A) → IsDescending (sort larger xs)
  unfolding sort
  sort-IsDescending [] = tt
  sort-IsDescending (x ∷ xs) = insert-IsDescending x (sort larger xs) (sort-IsDescending xs)

  pub take-IsDescending : (n : ℕ) (xs : List A) → IsDescending xs → IsDescending (take n xs)
  take-IsDescending zero xs h = tt
  take-IsDescending (suc n) [] h = tt
  take-IsDescending (suc n) (x ∷ xs) h =
      (take-All (λ y. key y ≤ key x) n xs h.0, take-IsDescending n xs h.1)

  pub drop-IsDescending : (n : ℕ) (xs : List A) → IsDescending xs → IsDescending (drop n xs)
  drop-IsDescending zero xs h = h
  drop-IsDescending (suc n) [] h = tt
  drop-IsDescending (suc n) (x ∷ xs) h = drop-IsDescending n xs h.1
