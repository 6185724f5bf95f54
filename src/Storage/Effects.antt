-- ===== src/Storage/Effects.antt =====
-- What the writes and removals of internal/storage/file.go do to what the reads show.
use redis_meter.Base.{
  Bool, true, false, none, some, String, str_eq, ◌≡◌, ◌≢◌, ◌⊎◌, refl, sym, ap, ◌∙◌, inl, inr,
  Bool-cases, Option-cases, eq_iff, str_eq_of_ne, if◌then◌else◌,
}
use redis_meter.Base.Dict.{Dict, get, put, remove, get-put, get-remove}
use redis_meter.Base.Result.{ok, err}
use redis_meter.Domain.{BenchmarkRun}
use redis_meter.Storage.Model.{
  File, FileStorage, WriteOutcome, StorageError, directory, get_entity_id, file_of, write_file,
  save, find_file, delete, Codec, decode_run, load_found, load, get_run, save_run, delete_run,
}

-- The file of one name among those of a directory that is written anew.
find-put :
    (fs : FileStorage) (t u id : String) (files : Dict File)
    → find_file (put fs t files) u id ≡ (if str_eq t u then get files id else find_file fs u id)
unfolding find_file
find-put fs t u id files = elim (Bool-cases (str_eq t u)) [
  | inl e ↦ ap (λ o. get (directory o) id) (get-put fs t u files) ∙ rw e refl
  | inr e ↦ ap (λ o. get (directory o) id) (get-put fs t u files) ∙ rw e refl
]

same_text : (a : String) → str_eq a a ≡ true
same_text a = (eq_iff a a).1 refl

find-put_same :
    (fs : FileStorage) (t id : String) (files : Dict File)
    → find_file (put fs t files) t id ≡ get files id
find-put_same fs t id files = find-put fs t t id files ∙ rw (same_text t) refl

pub write_file-same :
    (fs : FileStorage) (t id : String) (f : File) → find_file (write_file fs t id f) t id ≡ some f
unfolding write_file
write_file-same fs t id f =
    find-put_same fs t id (put (directory (get fs t)) id f)
    ∙ get-put (directory (get fs t)) id id f
    ∙ rw (same_text id) refl

pub write_file-other :
    (fs : FileStorage) (t id j : String) (f : File)
    → j ≢ id
    → find_file (write_file fs t id f) t j ≡ find_file fs t j
unfolding write_file find_file
write_file-other fs t id j f h =
    find-put_same fs t j (put (directory (get fs t)) id f)
    ∙ get-put (directory (get fs t)) id j f
    ∙ rw (str_eq_of_ne id j (λ e. h (sym e))) refl

-- A run that has an identifier and is written whole reads back as it was, and the other identifiers
-- show what they showed before.
pub save_run_effect :
    (c : Codec) (fs : FileStorage) (r : BenchmarkRun) (j : String)
    → str_eq r.id "" ≡ false
    → j ≢ r.id
    → ((save_run fs r WriteOutcome.whole).1 ≡ none)
      × (get_run c (save_run fs r WriteOutcome.whole).0 r.id ≡ ok r)
      × (get_run c (save_run fs r WriteOutcome.whole).0 j ≡ get_run c fs j)
unfolding save_run save get_run load get_entity_id file_of decode_run
save_run_effect c fs r j h g =
    rw (h, save)
      (
        refl,
        ap (load_found c "runs" r.id) (write_file-same fs "runs" r.id (File.stored_run r)),
        ap (load_found c "runs" j) (write_file-other fs "runs" r.id j (File.stored_run r) g),
      )

deleted-same :
    (fs : FileStorage) (t id : String)
    → find_file (put fs t (remove (directory (get fs t)) id)) t id ≡ none
deleted-same fs t id =
    find-put_same fs t id (remove (directory (get fs t)) id)
    ∙ get-remove (directory (get fs t)) id id
    ∙ rw (same_text id) refl

deleted-other :
    (fs : FileStorage) (t id j : String)
    → j ≢ id
    → find_file (put fs t (remove (directory (get fs t)) id)) t j ≡ find_file fs t j
unfolding find_file
deleted-other fs t id j g =
    find-put_same fs t j (remove (directory (get fs t)) id)
    ∙ get-remove (directory (get fs t)) id j
    ∙ rw (str_eq_of_ne id j (λ e. g (sym e))) refl

-- How a removal of a run ends: there is no file, it cannot be removed, or it is removed.
abbrev pub HasEnding : Codec → FileStorage → String → String → Bool → Type 0
HasEnding c fs id j removes =
    ((find_file fs "runs" id ≡ none)
      × (delete_run fs id removes ≡ (fs, some (StorageError.entity_not_found "runs" id))))
    ⊎ (((removes ≡ false) × (delete_run fs id removes ≡ (fs, some StorageError.delete_failed)))
        ⊎ ((removes ≡ true)
            × ((delete_run fs id removes).1 ≡ none)
            × (get_run c (delete_run fs id removes).0 id
                ≡ err (StorageError.entity_not_found "runs" id))
            × (get_run c (delete_run fs id removes).0 j ≡ get_run c fs j)))

-- A removal of a run ends in one of three ways: there is no file, it says so and changes nothing;
-- there is one that cannot be removed, it says so and changes nothing; or it succeeds,
-- the run is not found from then on, and another identifier shows what it showed before.
pub delete_run_effect :
    (c : Codec) (fs : FileStorage) (id j : String) (removes : Bool)
    → j ≢ id
    → HasEnding c fs id j removes
unfolding delete_run delete get_run load
delete_run_effect c fs id j removes g = elim (Option-cases (find_file fs "runs" id)) [
  | inl e ↦ inl (e, rw e refl)
  | inr (f, e) ↦ elim (Bool-cases removes) [
    | inl h ↦ inr (
        inr (
          h,
          rw (e, h) refl,
          rw (e, h) (ap (load_found c "runs" id) (deleted-same fs "runs" id)),
          rw (e, h) (ap (load_found c "runs" j) (deleted-other fs "runs" id j g)),
        ))
    | inr h ↦ inr (inl (h, rw (e, h) refl))
  ]
]
