-- ===== src/Logging/Queries.antt =====
-- What Query of internal/logging/json_store.go answers.
use redis_meter.Base.{
  ℕ, ◌≤◌, Bool, true, ◌&&◌, some, List, [], ◌≡◌, if◌then◌else◌, length, take, drop, select, All,
  arith, inl, inr, Bool-cases, take-All, drop-All, select-All, length-take-le,
}
use redis_meter.Base.Int.{ℤ, pos, pos_part, int_lt}
use redis_meter.Base.Sort.{sort-All}
use redis_meter.Base.Descending.{
  IsDescending, sort-IsDescending, take-IsDescending, drop-IsDescending,
}
use redis_meter.Logging.Model.{Entry, QueryFilter, JsonStore}
use redis_meter.Logging.Reading.{
  matches_filter, filter_entries, newest, limited, window, candidates, query,
}

-- A predicate on lists that is kept when the first or the last items go.
pub record Cuts (P : List Entry → Type 0) : Type 0 where
  pub nothing : P []
  pub first : (n : ℕ) (es : List Entry) → P es → P (take n es)
  pub last : (n : ℕ) (es : List Entry) → P es → P (drop n es)

limited_lem :
    (P : List Entry → Type 0) (c : Cuts P) (limit : ℤ) (es : List Entry)
    → P es
    → P (limited limit es)
limited_lem P c limit es h =
    elim (Bool-cases (int_lt (pos 0) limit && int_lt limit (pos (length es)))) [
      | inl e ↦ rw e (c.first (pos_part limit) es h)
      | inr e ↦ rw e h
    ]

pub window_lem :
    (P : List Entry → Type 0) (c : Cuts P) (f : QueryFilter) (es : List Entry)
    → P es
    → P (window (some f) es)
unfolding window
window_lem P c f es h =
    elim (Bool-cases (int_lt (pos 0) f.offset && int_lt f.offset (pos (length es)))) [
      | inl e ↦
          rw (e, window)
            (limited_lem P c f.limit (drop (pos_part f.offset) es)
              (c.last (pos_part f.offset) es h))
      | inr e ↦ elim (Bool-cases (int_lt f.offset (pos (length es)))) [
        | inl g ↦ rw (e, g, window) (limited_lem P c f.limit es h)
        | inr g ↦ rw (e, g, window) c.nothing
      ]
    ]

-- The most that a limit lets through of `n` entries.
abbrev pub at_most : ℤ → ℕ → ℕ
at_most limit n = if int_lt (pos 0) limit then pos_part limit else n

length-limited :
    (limit : ℤ) (es : List Entry)
    → length (limited limit es) ≤ at_most limit (length (limited limit es))
length-limited limit es = elim (Bool-cases (int_lt (pos 0) limit)) [
  | inl e ↦ elim (Bool-cases (int_lt limit (pos (length es)))) [
    | inl g ↦ rw (e, g) (length-take-le (pos_part limit) es)
    | inr g ↦ rw (e, g) (ground (arith, g))
  ]
  | inr e ↦ rw e (omega arith)
]

length-window :
    (f : QueryFilter) (es : List Entry)
    → length (window (some f) es) ≤ at_most f.limit (length (window (some f) es))
unfolding window
length-window f es =
    elim (Bool-cases (int_lt (pos 0) f.offset && int_lt f.offset (pos (length es)))) [
      | inl e ↦ rw (e, window) (length-limited f.limit (drop (pos_part f.offset) es))
      | inr e ↦ elim (Bool-cases (int_lt f.offset (pos (length es)))) [
        | inl g ↦ rw (e, g, window) (length-limited f.limit es)
        | inr g ↦ rw (e, g, window) (omega arith)
      ]
    ]

descends : Cuts (IsDescending (λ e. e.timestamp))
descends = record {
  nothing = tt;
  first = λ n es h. take-IsDescending (λ e. e.timestamp) n es h;
  last = λ n es h. drop-IsDescending (λ e. e.timestamp) n es h;
}

passing : (P : Entry → Type 0) → Cuts (All P)
passing P = record {
  nothing = tt;
  first = λ n es h. take-All P n es h;
  last = λ n es h. drop-All P n es h;
}

-- Whatever is cached and which files can be read: what Query answers to a filter is ordered from the
-- newest entry to the oldest, every entry of it passes the filter, and a limit above 0 bounds its length.
pub query_effect :
    (opens : ℕ → Bool) (s : JsonStore) (f : QueryFilter)
    → IsDescending (λ e. e.timestamp) (query opens s (some f))
      × All (λ e. matches_filter f e ≡ true) (query opens s (some f))
      × (length (query opens s (some f)) ≤ at_most f.limit (length (query opens s (some f))))
unfolding query filter_entries newest
query_effect opens s f = (
  window_lem (IsDescending (λ e. e.timestamp)) descends f _ (
      sort-IsDescending (λ e. e.timestamp)
        (select (matches_filter f) (candidates opens s (some f)))),
  window_lem (All (λ e. matches_filter f e ≡ true)) (passing (λ e. matches_filter f e ≡ true)) f _ (
      sort-All newest (λ e. matches_filter f e ≡ true) _
        (select-All (matches_filter f) (candidates opens s (some f)))),
  length-window f _,
)
