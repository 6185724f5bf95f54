-- ===== src/Storage/Results.antt =====
-- What queryRuns of internal/storage/file.go answers.
use redis_meter.Base.{
  Bool, true, false, List, [], ◌∷◌, String, str_eq, ◌≡◌, refl, sym, ap, ◌∙◌, subst, inl, inr,
  Bool-cases, Option-cases, ◌&&◌, ltb, length, select, All, Any, take-All, select-All,
}
use redis_meter.Base.Int.{ℤ, pos, pos_part, int_lt}
use redis_meter.Base.Dict.{Dict, get, put, get-put}
use redis_meter.Base.Result.{ok}
use redis_meter.Base.Sort.{sort, insert_sorted, sort-All}
use redis_meter.Base.Descending.{IsDescending, sort-IsDescending, take-IsDescending}
use redis_meter.Domain.{BenchmarkRun}
use redis_meter.Storage.Model.{
  File, FileStorage, WriteOutcome, directory, get_entity_id, file_of, write_file, save, Codec,
  decode_run, save_run,
}
use redis_meter.Storage.Queries.{
  QueryFilter, matches_filter, choose, limited, query_runs, runs_in, query,
}

-- Whatever the files: the runs that a query answers are ordered from the newest to the oldest, and
-- each of them passes the filter.
pub query_runs_effect :
    (c : Codec) (files : Dict File) (f : QueryFilter)
    → IsDescending (λ r. r.created_at) (query_runs c files f)
      × All (λ r. matches_filter f r ≡ true) (query_runs c files f)
unfolding query_runs limited
query_runs_effect c files f =
    let found : List BenchmarkRun = select (matches_filter f) (choose (decode_run c) files) in
    let ordered : List BenchmarkRun = sort (λ a b. ltb b.created_at a.created_at) found in
    let descends : IsDescending (λ r. r.created_at) ordered =
      sort-IsDescending (λ r. r.created_at) found in
    let passes : All (λ r. matches_filter f r ≡ true) ordered =
      sort-All (λ a b. ltb b.created_at a.created_at) (λ r. matches_filter f r ≡ true) found
        (select-All (matches_filter f) (choose (decode_run c) files)) in
    elim (Bool-cases (int_lt (pos 0) f.limit && int_lt f.limit (pos (length ordered)))) [
      | inl e ↦
          rw (e, query_runs, limited)
            (
              take-IsDescending (λ r. r.created_at) (pos_part f.limit) ordered descends,
              take-All (λ r. matches_filter f r ≡ true) (pos_part f.limit) ordered passes,
            )
      | inr e ↦ rw (e, query_runs, limited) (descends, passes)
    ]

module _ (r : BenchmarkRun) where
  -- The run is among those of a list.
  abbrev pub IsListed : List BenchmarkRun → Type 0
  IsListed rs = Any (λ x. x ≡ r) rs

  insert-IsListed :
      (before : BenchmarkRun → BenchmarkRun → Bool) (x : BenchmarkRun) (rs : List BenchmarkRun)
      → IsListed (x ∷ rs)
      → IsListed (insert_sorted before x rs)
  unfolding insert_sorted
  insert-IsListed before x [] h = h
  insert-IsListed before x (y ∷ ys) (inl h) = elim (Bool-cases (before y x)) [
    | inl e ↦ rw e (inr (insert-IsListed before x ys (inl h)))
    | inr e ↦ rw e (inl h)
  ]
  insert-IsListed before x (y ∷ ys) (inr (inl h)) = elim (Bool-cases (before y x)) [
    | inl e ↦ rw e (inl h)
    | inr e ↦ rw e (inr (inl h))
  ]
  insert-IsListed before x (y ∷ ys) (inr (inr h)) = elim (Bool-cases (before y x)) [
    | inl e ↦ rw e (inr (insert-IsListed before x ys (inr h)))
    | inr e ↦ rw e (inr (inr h))
  ]

  sort-IsListed :
      (before : BenchmarkRun → BenchmarkRun → Bool) (rs : List BenchmarkRun)
      → IsListed rs
      → IsListed (sort before rs)
  unfolding sort
  sort-IsListed before [] h = h
  sort-IsListed before (x ∷ xs) (inl h) = insert-IsListed before x (sort before xs) (inl h)
  sort-IsListed before (x ∷ xs) (inr h) =
      insert-IsListed before x (sort before xs) (inr (sort-IsListed before xs h))

  select-IsListed :
      (p : BenchmarkRun → Bool) (rs : List BenchmarkRun)
      → p r ≡ true
      → IsListed rs
      → IsListed (select p rs)
  unfolding select
  select-IsListed p [] t h = elim h [ ]
  select-IsListed p (x ∷ xs) t (inl h) = rw (ap p h ∙ t, select) (inl h)
  select-IsListed p (x ∷ xs) t (inr h) = elim (Bool-cases (p x)) [
    | inl e ↦ rw e (inr (select-IsListed p xs t h))
    | inr e ↦ rw e (select-IsListed p xs t h)
  ]

  choose-IsListed :
      (c : Codec) (files : Dict File) (id : String)
      → IsListed (choose (decode_run c) (put files id (File.stored_run r)))
  unfolding choose put decode_run
  choose-IsListed c [] id = inl refl
  choose-IsListed c ((j, f) ∷ files) id = elim (Bool-cases (str_eq j id)) [
    | inl e ↦ rw e (inl refl)
    | inr e ↦ elim (Option-cases (decode_run c f)) [
      | inl n ↦ rw (e, n, choose) (choose-IsListed c files id)
      | inr (x, n) ↦ rw (e, n, choose) (inr (choose-IsListed c files id))
    ]
  ]

limited_whole : (limit : ℤ) (rs : List BenchmarkRun) → limit ≡ pos 0 → limited limit rs ≡ rs
unfolding limited
limited_whole limit rs l = rw l refl

put-IsListed :
    (c : Codec) (files : Dict File) (r : BenchmarkRun) (f : QueryFilter)
    → matches_filter f r ≡ true
    → f.limit ≡ pos 0
    → IsListed r (query_runs c (put files r.id (File.stored_run r)) f)
unfolding query_runs
put-IsListed c files r f m l = subst (IsListed r) (sym (limited_whole f.limit _ l)) (
    sort-IsListed r (λ a b. ltb b.created_at a.created_at) _
      (select-IsListed r (matches_filter f)
        (choose (decode_run c) (put files r.id (File.stored_run r))) m
        (choose-IsListed r c files r.id)))

-- A run that has an identifier and is written whole is among the answers of every query of the runs
-- whose filter it passes and that has no limit, if the directory can be read.
pub saved_run-IsListed :
    (c : Codec) (fs : FileStorage) (r : BenchmarkRun) (f : QueryFilter)
    → str_eq r.id "" ≡ false
    → matches_filter f r ≡ true
    → f.limit ≡ pos 0
    → (rs : List BenchmarkRun) × (query c (save_run fs r WriteOutcome.whole).0 "runs" f true
        ≡ ok rs)
      × IsListed r rs
unfolding save_run save get_entity_id file_of write_file query
saved_run-IsListed c fs r f h m l =
    let files : Dict File = directory (get fs "runs") in
    rw (h, save)
      (
        query_runs c (put files r.id (File.stored_run r)) f,
        ap (λ o. runs_in c o f true)
            (get-put fs "runs" "runs" (put files r.id (File.stored_run r))),
        put-IsListed c files r f m l,
      )
