-- ===== src/TaskStore/Listing.antt =====
-- The results of `List` of internal/task/store.go.

use mathlib.Core.List.{Perm}
use redis_meter.Base.{
  ℕ, zero, suc, ◌≤◌, ◌<◌, ◌≡◌, refl, ap, false, Bool-cases, inl, inr, Option, none, some, List, [],
  ◌∷◌, ltb, arith, length, take, select, ◌&&◌, length-take-le,
}
use redis_meter.Base.Int.{pos, int_lt, pos_part}
use redis_meter.Base.Sort.{sort, sort-perm}
use redis_meter.Base.Descending.{IsDescending, sort-IsDescending, take-IsDescending}
use redis_meter.Task.Model.{Task}
use redis_meter.TaskStore.Model.{Store}
use redis_meter.TaskStore.Query.{TaskFilter, accepts, matches, cached, newest_first, cut, list}

-- Each task is at least as new as those after it.
abbrev pub IsNewestFirst : List Task → Type 0
IsNewestFirst ts = IsDescending (λ t. t.created_at) ts

cut-IsNewestFirst :
    (f : Option TaskFilter) (ts : List Task) → IsNewestFirst ts → IsNewestFirst (cut f ts)
unfolding cut
cut-IsNewestFirst none ts h = h
cut-IsNewestFirst (some f) ts h =
    elim (Bool-cases (int_lt (pos 0) f.limit && ltb (pos_part f.limit) (length ts))) [
      | inl e ↦ rw e (take-IsDescending (λ t. t.created_at) (pos_part f.limit) ts h)
      | inr e ↦ rw e h
    ]

-- `List` gives the tasks newest first, whatever the filter and its limit.
pub list-IsNewestFirst : (s : Store) (f : Option TaskFilter) → IsNewestFirst (list s f)
unfolding list
list-IsNewestFirst s f =
    cut-IsNewestFirst f _
      (sort-IsDescending (λ t. t.created_at) (select (accepts f) (cached s.object s.cache)))

-- With no filter, or with a filter whose limit is not positive, `List` gives exactly the cached
-- tasks that the filter accepts, each as often as it is cached.
pub list-perm :
    (s : Store) (f : Option TaskFilter)
    → ((g : TaskFilter) → f ≡ some g → int_lt (pos 0) g.limit ≡ false)
    → Perm (list s f) (select (accepts f) (cached s.object s.cache))
unfolding list cut
list-perm s none h = sort-perm newest_first _
list-perm s (some g) h = rw (h g refl) (sort-perm newest_first _)

take-short {ℓ} : {A : Type ℓ} (n : ℕ) (xs : List A) → ltb n (length xs) ≡ false → xs ≡ take n xs
take-short zero [] h = refl
take-short zero (x ∷ xs) h = absurd (ground arith)
take-short (suc n) [] h = refl
take-short (suc n) (x ∷ xs) h = ap (◌∷◌ x) (take-short n xs (ground arith))

cut-take :
    (g : TaskFilter) (n : ℕ) (ts : List Task)
    → g.limit ≡ pos n
    → 0 < n
    → cut (some g) ts ≡ take n ts
unfolding cut
cut-take g n ts e h = elim (Bool-cases (ltb n (length ts))) [
  | inl b ↦ rw e (ground arith)
  | inr b ↦ let short = take-short n ts b in rw e (ground arith)
]

abbrev pub unlimited : TaskFilter → TaskFilter
unlimited g = record g { limit = pos 0 }

unlimited_same :
    (s : Store) (g : TaskFilter) (n : ℕ)
    → take n (sort newest_first (select (accepts (some g)) (cached s.object s.cache)))
      ≡ take n (list s (some (unlimited g)))
unfolding list cut accepts matches
unlimited_same s g n = refl

-- With a positive limit n `List` gives the first n of the tasks that it gives without a limit: the
-- newest ones, n at most.
pub list_limited :
    (s : Store) (g : TaskFilter) (n : ℕ)
    → g.limit ≡ pos n
    → 0 < n
    → (list s (some g) ≡ take n (list s (some (unlimited g)))) × (length (list s (some g)) ≤ n)
unfolding list
list_limited s g n e h =
    let all = sort newest_first (select (accepts (some g)) (cached s.object s.cache)) in
    rw (cut-take g n all e h) (unlimited_same s g n, length-take-le n all)
