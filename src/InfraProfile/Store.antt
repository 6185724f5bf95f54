-- ===== src/InfraProfile/Store.antt =====
-- internal/infraprofile/file_store.go. The directory holds a `.json` file per identifier, in the
-- order of os.ReadDir. A file's content is the profile that json.Unmarshal reads from it, or broken:
-- the JSON of a profile reads back as that profile. What the file system answers to a write or a
-- removal, the time and a fresh UUID are arguments. The identifiers are names of files in the
-- directory.
use redis_meter.Base.{
  ℕ, suc, Bool, true, not, ◌&&◌, Option, none, some, List, [], ◌∷◌, String, str_eq, ◌==◌,
  if◌then◌else◌, any, select,
}
use redis_meter.Base.Int.{pos, add}
use redis_meter.Base.Dict.{Dict, get, put, remove, is_some}
use redis_meter.Base.Result.{Result, ok, err}
use redis_meter.Base.Sort.{sort}
use redis_meter.InfraProfile.Model.{Profile, Provider}
use redis_meter.InfraProfile.Validation.{Invalid, validate}
use redis_meter.InfraProfile.Predefined.{predefined_profiles}

pub data File : Type 0 where
  stored : Profile → File
  broken : File

-- What os.WriteFile does: all is written; nothing; or the file is left broken.
pub data Write : Type 0 where
  written unwritten torn : Write

pub data StoreError : Type 0 where
  invalid : Invalid → StoreError
  id_exists name_exists not_found : String → StoreError
  unreadable write_failed remove_failed : StoreError

unfoldable pub write_profile : Dict File → Profile → Write → Dict File × Option StoreError
write_profile d p Write.written = (put d p.id (File.stored p), none)
write_profile d p Write.unwritten = (d, some StoreError.write_failed)
write_profile d p Write.torn = (put d p.id File.broken, some StoreError.write_failed)

-- `none` for a file that is not there.
abbrev pub read_file : Option File → Result StoreError (Option Profile)
read_file none = ok none
read_file (some File.broken) = err StoreError.unreadable
read_file (some (File.stored p)) = ok (some p)

unfoldable pub read_profile : Dict File → String → Result StoreError (Option Profile)
read_profile d id = read_file (get d id)

-- The error of a read is dropped where the code drops it.
abbrev pub found : Result StoreError (Option Profile) → Option Profile
found (ok o) = o
found (err e) = none

-- The profiles that can be read, in the order of the files.
unfoldable pub readable : Dict File → List Profile
readable [] = []
readable ((id, File.broken) ∷ d) = readable d
readable ((id, File.stored p) ∷ d) = p ∷ readable d

-- `before a b`: Go's `<` on the names. The order of the bytes is a parameter.
module _ (before : String → String → Bool) where
  unfoldable pub list_all : Dict File → List Profile
  list_all d = sort (λ a b. before a.name b.name) (readable d)

  unfoldable pub first_named : List Profile → String → Option Profile
  first_named [] name = none
  first_named (p ∷ ps) name =
      let rest = first_named ps name in if str_eq p.name name then some p else rest

  unfoldable pub get_by_name : Dict File → String → Option Profile
  get_by_name d name = first_named (list_all d) name

  unfoldable pub list_by_provider : Dict File → Provider → List Profile
  list_by_provider d provider = select (λ p. str_eq p.provider provider) (list_all d)

  unfoldable pub list_by_tag : Dict File → String → List Profile
  list_by_tag d tag = select (λ p. any (λ t. str_eq t tag) p.tags) (list_all d)

  unfoldable pub has_name : Dict File → String → Bool
  has_name d name = any (λ p. str_eq p.name name) (list_all d)

  abbrev pub prepared : ℕ → String → Profile → Profile
  prepared now uuid p = record p {
    id = if str_eq p.id "" then uuid else p.id;
    created_at = now;
    updated_at = now;
  }

  abbrev pub create_valid :
      Dict File → Profile → Write → Option Invalid → Dict File × Option StoreError
  create_valid d p w (some e) = (d, some (StoreError.invalid e))
  create_valid d p w none =
      if is_some (found (read_profile d p.id))
      then (d, some (StoreError.id_exists p.id))
      else (if has_name d p.name
          then (d, some (StoreError.name_exists p.name))
          else write_profile d p w)

  unfoldable pub create : Dict File → ℕ → String → Write → Profile → Dict File × Option StoreError
  create d now uuid w p = let q = prepared now uuid p in create_valid d q w (validate q)

abbrev pub changed : ℕ → Profile → Profile → Profile
changed now existing p = record p {
  updated_at = now;
  created_at = existing.created_at;
  is_builtin = existing.is_builtin;
}

abbrev pub write_valid :
    Dict File → Profile → Write → Option Invalid → Dict File × Option StoreError
write_valid d p w (some e) = (d, some (StoreError.invalid e))
write_valid d p w none = write_profile d p w

unfoldable pub update : Dict File → ℕ → Write → Profile → Dict File × Option StoreError
update d now w p = elim (get d p.id) [
  | none ↦ (d, some (StoreError.not_found p.id))
  | some file ↦ elim file [
    | File.broken ↦ (d, some StoreError.unreadable)
    | File.stored e ↦ write_valid d (changed now e p) w (validate (changed now e p))
  ]
]

-- `removed` says whether os.Remove succeeds.
unfoldable pub delete : Dict File → Bool → String → Dict File × Option StoreError
delete d removed id =
    if is_some (get d id)
    then (if removed then (remove d id, none) else (d, some StoreError.remove_failed))
    else (d, some (StoreError.not_found id))

abbrev pub used : ℕ → Profile → Profile
used now p = record p {
  last_used_at = some now;
  use_count = add p.use_count (pos 1);
  updated_at = now;
}

unfoldable pub record_usage : Dict File → ℕ → Write → String → Dict File × Option StoreError
record_usage d now w id = elim (get d id) [
  | none ↦ (d, some (StoreError.not_found id))
  | some file ↦ elim file [
    | File.broken ↦ (d, some StoreError.unreadable)
    | File.stored p ↦ write_profile d (used now p) w
  ]
]

abbrev pub seeded : ℕ → Profile → Profile
seeded now p = record p { created_at = now; updated_at = now }

-- The loop of seedPredefined: it stops at the first write that fails.
unfoldable pub seed :
    Dict File → ℕ → (String → Write) → List Profile → Dict File × Option StoreError
seed d now w [] = (d, none)
seed d now w (p ∷ ps) = elim (get d p.id) [
  | some file ↦ seed d now w ps
  | none ↦ elim (w p.id) [
    | Write.written ↦ seed (put d p.id (File.stored (seeded now p))) now w ps
    | Write.unwritten ↦ (d, some StoreError.write_failed)
    | Write.torn ↦ (put d p.id File.broken, some StoreError.write_failed)
  ]
]

-- NewFileStore drops the error of the seeding.
unfoldable pub new_file_store : Dict File → ℕ → (String → Write) → Dict File
new_file_store d now w = (seed d now w predefined_profiles).0

unfoldable pub imported : ℕ → String → Profile → Profile
imported now uuid p = record p {
  id = if str_eq p.id "" then uuid else p.id;
  created_at = if p.created_at == 0 then now else p.created_at;
  updated_at = now;
}

abbrev pub count_if_written : Option StoreError → ℕ → ℕ
count_if_written none n = suc n
count_if_written (some e) n = n

-- The tests that ImportProfiles skips a profile by.
unfoldable pub skipped : Dict File → Bool → Profile → Bool
skipped d overwrite p =
    if p.is_builtin then true else is_some (found (read_profile d p.id)) && not overwrite

-- The loop of ImportProfiles, with a UUID and the outcome of the write for each profile.
unfoldable pub import_profiles :
    Dict File → ℕ → Bool → List (Profile × String × Write) → Dict File × ℕ
import_profiles d now overwrite [] = (d, 0)
import_profiles d now overwrite ((p, uuid, w) ∷ ps) =
    let kept = import_profiles d now overwrite ps in
    let (e, error) = write_profile d (imported now uuid p) w in
    let (f, n) = import_profiles e now overwrite ps in
    if skipped d overwrite p then kept else (f, count_if_written error n)
