-- ===== src/Storage/Queries.antt =====
-- internal/storage/file.go: Query with queryRuns, queryBaselines and matchesFilter, and ListRuns. The
-- ends of a time range are what time.Parse makes of its texts, `none` for a text that is empty or
-- that it refuses. Conditions, order and offset of a filter are not read by the code.
use redis_meter.Base.{
  ℕ, Bool, true, false, not, ◌&&◌, Option, none, some, List, [], ◌∷◌, String, str_eq, ltb,
  if◌then◌else◌, length, take, select, any,
}
use redis_meter.Base.Int.{ℤ, pos, pos_part, int_lt}
use redis_meter.Base.Dict.{Dict, get}
use redis_meter.Base.Result.{Result, ok, err}
use redis_meter.Base.Sort.{sort}
use redis_meter.Base.Text.{is_empty}
use redis_meter.Domain.{BenchmarkRun, Baseline}
use redis_meter.Storage.Model.{File, FileStorage, StorageError, Codec, decode_run, decode_baseline}

pub record TimeRange : Type 0 where
  pub start : Option ℕ
  pub end : Option ℕ

pub record QueryFilter : Type 0 where
  pub tags : List String
  pub time_range : Option TimeRange
  pub limit : ℤ

unfoldable pub has_any_tag : List String → List String → Bool
has_any_tag wanted tags = any (λ t. any (λ u. str_eq u t) tags) wanted

abbrev pub too_early : ℕ → Option ℕ → Bool
too_early t none = false
too_early t (some start) = ltb t start

abbrev pub too_late : ℕ → Option ℕ → Bool
too_late t none = false
too_late t (some end) = ltb end t

abbrev pub in_range : ℕ → Option TimeRange → Bool
in_range t none = true
in_range t (some r) = not (too_early t r.start) && not (too_late t r.end)

unfoldable pub matches_filter : QueryFilter → BenchmarkRun → Bool
matches_filter f r =
    if not (is_empty f.tags) && not (has_any_tag f.tags r.tags)
    then false
    else in_range r.created_at f.time_range

-- The items that an optional function gives, in order.
unfoldable pub choose {ℓ κ} :
    {A : Type ℓ} → {B : Type κ} → (A → Option B) → List (String × A) → List B
choose f [] = []
choose f ((k, x) ∷ xs) = elim (f x) [ none ↦ choose f xs | some y ↦ y ∷ choose f xs ]

unfoldable pub limited {ℓ} : {A : Type ℓ} → ℤ → List A → List A
limited limit xs =
    if int_lt (pos 0) limit && int_lt limit (pos (length xs)) then take (pos_part limit) xs else xs

module _ (c : Codec) where
  unfoldable pub query_runs : Dict File → QueryFilter → List BenchmarkRun
  query_runs files f = limited f.limit (
      sort (λ a b. ltb b.created_at a.created_at)
        (select (matches_filter f) (choose (decode_run c) files)))

  unfoldable pub query_baselines : Dict File → QueryFilter → List Baseline
  query_baselines files f =
      limited f.limit
        (sort (λ a b. ltb b.created_at a.created_at) (choose (decode_baseline c) files))

  -- What is found in a directory; `reads` says whether one that is there can be read.
  abbrev pub runs_in :
      Option (Dict File) → QueryFilter → Bool → Result StorageError (List BenchmarkRun)
  runs_in none f reads = ok []
  runs_in (some files) f false = err StorageError.read_failed
  runs_in (some files) f true = ok (query_runs files f)

  abbrev pub baselines_in :
      Option (Dict File) → QueryFilter → Bool → Result StorageError (List Baseline)
  baselines_in none f reads = ok []
  baselines_in (some files) f false = err StorageError.read_failed
  baselines_in (some files) f true = ok (query_baselines files f)

  -- Query into runs, which is for all types but "baseline", and into baselines.
  unfoldable pub query :
      FileStorage → String → QueryFilter → Bool → Result StorageError (List BenchmarkRun)
  query fs type f reads = runs_in (get fs type) f reads

  unfoldable pub query_into_baselines :
      FileStorage → QueryFilter → Bool → Result StorageError (List Baseline)
  query_into_baselines fs f reads = baselines_in (get fs "baseline") f reads

  unfoldable pub list_runs : FileStorage → ℤ → Bool → Result StorageError (List BenchmarkRun)
  list_runs fs limit reads =
      query fs "runs" (record { tags = []; time_range = none; limit = limit }) reads
