-- ===== src/InfraProfile/Refines.antt =====
-- The operations of internal/infraprofile/file_store.go do what the specification says.
use redis_meter.Base.{
  ℕ, Bool, true, false, Option, none, some, List, [], ◌∷◌, ◌≡◌, ◌⊎◌, refl, subst, String, arith,
  inl, inr, Bool-cases, Option-cases,
}
use redis_meter.Base.Dict.{Dict, get, is_some, get-remove, HasDistinctKeys}
use redis_meter.InfraProfile.Model.{Profile}
use redis_meter.InfraProfile.Validation.{validate}
use redis_meter.InfraProfile.Store.{
  File, Write, write_profile, read_profile, found, has_name, prepared, create_valid, create,
  write_valid, update, delete, record_usage, imported, skipped, import_profiles,
}
use redis_meter.InfraProfile.Moves.{
  view, IsFree, Call, replacement, counted, Imports, Does, Moves, Filed, Does-Filed,
  write_profile-Writes,
}
use redis_meter.InfraProfile.Names.{
  has_name-NoName, has_name-taken, create-HasDistinctKeys, update-HasDistinctKeys,
  delete-HasDistinctKeys, record_usage-HasDistinctKeys, import_profiles-HasDistinctKeys,
}

found_there :
    (d : Dict File) (id : String)
    → is_some (found (read_profile d id)) ≡ true
    → (q : Profile) × (get d id ≡ some (File.stored q))
unfolding read_profile
found_there d id h = elim (Option-cases (get d id)) [
  | inl e ↦ absurd (ground (arith, h, e))
  | inr (File.broken, e) ↦ absurd (ground (arith, h, e))
  | inr (File.stored q, e) ↦ (q, e)
]

module _ (before : String → String → Bool) where
  create-Does :
      (d : Dict File) (now : ℕ) (uuid : String) (o : Write) (q : Profile)
      → HasDistinctKeys d
      → Does (now, Call.creates uuid o q) (view d) (view (create before d now uuid o q).0)
  unfolding create read_profile
  create-Does d now uuid o q h =
      let p = prepared before now uuid q in
      elim (Option-cases (validate p)) [
        | inr (e, x) ↦
            inl (rw (x, create, create_valid) (λ k. refl), inl (λ f. absurd (ground (arith, x, f))))
        | inl x ↦ elim (Bool-cases (is_some (found (read_profile d p.id)))) [
          | inl y ↦
              inl (rw (x, y, create, create_valid) (λ k. refl), inr (inl (found_there d p.id y)))
          | inr y ↦ elim (Bool-cases (has_name before d p.name)) [
            | inl z ↦ inl (
              rw (x, y, z, create, create_valid) (λ k. refl),
              inr (inr (has_name-taken before d p.name h z)),
            )
            | inr z ↦ inr (
              record {
                free = λ r e. ground (arith, y, e);
                no_name = has_name-NoName before d p.name z;
                valid = x;
              },
              rw (x, y, z, create, create_valid) (write_profile-Writes d p o),
            )
          ]
        ]
      ]

only_one :
    (p q : Profile) (x : Option File) → x ≡ some (File.stored p) → x ≡ some (File.stored q) → p ≡ q
only_one p q x e f = ground (arith, e, f)

update-Does :
    (d : Dict File) (now : ℕ) (o : Write) (q : Profile)
    → Does (now, Call.updates o q) (view d) (view (update d now o q).0)
unfolding update
update-Does d now o q = elim (Option-cases (get d q.id)) [
  | inl e ↦ inl (rw (e, update) (λ k. refl), λ r f. absurd (ground (arith, e, f)))
  | inr (File.broken, e) ↦ inl (rw (e, update) (λ k. refl), λ r f. absurd (ground (arith, e, f)))
  | inr (File.stored r, e) ↦ elim (Option-cases (validate (replacement now r q))) [
    | inr (x, f) ↦ inl (
      rw (e, update) (rw (f, write_valid) (λ k. refl)),
      λ s g h.
          let y = subst (λ t. validate (replacement now t q) ≡ none) (only_one s r _ g e) h in
          absurd (ground (arith, f, y)),
    )
    | inl f ↦ inr (
      r,
      e,
      f,
      rw (e, update) (rw (f, write_valid) (write_profile-Writes d (replacement now r q) o)),
    )
  ]
]

delete-Does :
    (d : Dict File) (now : ℕ) (removed : Bool) (id : String)
    → Does (now, Call.deletes removed id) (view d) (view (delete d removed id).0)
unfolding delete
delete-Does d now removed id = elim (Option-cases (get d id)) [
  | inl e ↦ inl (rw (e, delete) (λ k. refl), inr e)
  | inr (f, e) ↦ elim (Bool-cases removed) [
    | inl r ↦ inr (r, rw (e, r, delete) (λ k. get-remove d id k))
    | inr r ↦ inl (rw (e, r, delete) (λ k. refl), inl r)
  ]
]

record_usage-Does :
    (d : Dict File) (now : ℕ) (o : Write) (id : String)
    → Does (now, Call.uses o id) (view d) (view (record_usage d now o id).0)
unfolding record_usage
record_usage-Does d now o id = elim (Option-cases (get d id)) [
  | inl e ↦ inl (rw (e, record_usage) (λ k. refl), λ r f. absurd (ground (arith, e, f)))
  | inr (File.broken, e) ↦
      inl (rw (e, record_usage) (λ k. refl), λ r f. absurd (ground (arith, e, f)))
  | inr (File.stored p, e) ↦
      inr (p, e, rw (e, record_usage) (write_profile-Writes d (counted now p) o))
]

skipped_because :
    (d : Dict File) (overwrite : Bool) (p : Profile)
    → skipped d overwrite p ≡ true
    → (p.is_builtin ≡ true)
      ⊎ ((overwrite ≡ false) × ((q : Profile) × (get d p.id ≡ some (File.stored q))))
unfolding skipped read_profile
skipped_because d overwrite p h = elim (Bool-cases p.is_builtin) [
  | inl b ↦ inl b
  | inr b ↦ elim (Option-cases (get d p.id)) [
    | inl e ↦ absurd (ground (arith, h, b, e))
    | inr (File.broken, e) ↦ absurd (ground (arith, h, b, e))
    | inr (File.stored q, e) ↦ inr (ground (arith, h, b, e), (q, e))
  ]
]

taken_because :
    (d : Dict File) (overwrite : Bool) (p : Profile)
    → skipped d overwrite p ≡ false
    → (p.is_builtin ≡ false) × ((overwrite ≡ true) ⊎ IsFree (view d) p.id)
unfolding skipped read_profile
taken_because d overwrite p h = elim (Bool-cases overwrite) [
  | inl o ↦ (ground (arith, h), inl o)
  | inr o ↦ (ground (arith, h), inr (λ q e. absurd (ground (arith, h, o, e))))
]

import_profiles-Imports :
    (d : Dict File) (now : ℕ) (overwrite : Bool) (ps : List (Profile × String × Write))
    → Imports now overwrite (view d) ps (view (import_profiles d now overwrite ps).0)
unfolding import_profiles imported
import_profiles-Imports d now overwrite [] = Imports.done
import_profiles-Imports d now overwrite ((p, uuid, o) ∷ ps) =
    elim (Bool-cases (skipped d overwrite p)) [
      | inl e ↦
          rw (e, import_profiles)
            (Imports.skips p uuid o (skipped_because d overwrite p e)
              (import_profiles-Imports d now overwrite ps))
      | inr e ↦
          let (b, f) = taken_because d overwrite p e in
          rw (e, import_profiles)
            (Imports.takes p uuid o b f (write_profile-Writes d (imported now uuid p) o) (
              import_profiles-Imports (write_profile d (imported now uuid p) o).0 now overwrite ps))
    ]

module _ (before : String → String → Bool) where
  unfoldable pub step : Dict File → ℕ × Call → Dict File
  step d (now, Call.creates uuid w p) = (create before d now uuid w p).0
  step d (now, Call.updates w p) = (update d now w p).0
  step d (now, Call.deletes removed id) = (delete d removed id).0
  step d (now, Call.uses w id) = (record_usage d now w id).0
  step d (now, Call.imports overwrite ps) = (import_profiles d now overwrite ps).0

  unfoldable pub run : Dict File → List (ℕ × Call) → Dict File
  run d [] = d
  run d (c ∷ cs) = run (step d c) cs

  step-Does : (d : Dict File) (c : ℕ × Call) → HasDistinctKeys d → Does c (view d) (view (step d c))
  unfolding step
  step-Does d (now, Call.creates uuid o p) h = create-Does before d now uuid o p h
  step-Does d (now, Call.updates o p) h = update-Does d now o p
  step-Does d (now, Call.deletes removed id) h = delete-Does d now removed id
  step-Does d (now, Call.uses o id) h = record_usage-Does d now o id
  step-Does d (now, Call.imports overwrite ps) h = import_profiles-Imports d now overwrite ps

  step-HasDistinctKeys :
      (d : Dict File) (c : ℕ × Call) → HasDistinctKeys d → HasDistinctKeys (step d c)
  unfolding step
  step-HasDistinctKeys d (now, Call.creates uuid o p) h =
      create-HasDistinctKeys before d now uuid o p h
  step-HasDistinctKeys d (now, Call.updates o p) h = update-HasDistinctKeys d now o p h
  step-HasDistinctKeys d (now, Call.deletes removed id) h = delete-HasDistinctKeys d removed id h
  step-HasDistinctKeys d (now, Call.uses o id) h = record_usage-HasDistinctKeys d now o id h
  step-HasDistinctKeys d (now, Call.imports overwrite ps) h =
      import_profiles-HasDistinctKeys d now overwrite ps h

  -- The store implements its specification. From a directory whose files have distinct names and hold
  -- the profiles of their identifiers, over any sequence of calls, whatever the file system does, each
  -- call changes the map from identifiers to files as the specification of that call says, and each
  -- profile stays in the file of its identifier. Create writes the given profile, with its dates and an
  -- identifier, just if it is valid, the identifier has no profile and no stored profile has its name.
  -- Update writes the given profile, with the creation time and the built-in flag of the one that is
  -- there, just if there is one and the result is valid. Delete drops the file just if it is there and
  -- can be removed. RecordUsage counts a use of the profile just if it is there. ImportProfiles writes,
  -- in order and without a validation, each profile that does not say that it is built in and, if it
  -- may not overwrite, whose identifier has no profile. A write leaves the map, or puts the profile or
  -- a broken file at its identifier, as the outcome of the write says.
  pub run-Moves :
      (d : Dict File) (cs : List (ℕ × Call))
      → HasDistinctKeys d
      → Filed (view d)
      → Moves (view d) cs (view (run d cs)) × Filed (view (run d cs))
  unfolding run
  run-Moves d [] n h = (Moves.done, h)
  run-Moves d (c ∷ cs) n h =
      let m = step-Does d c n in
      let (ms, f) =
        run-Moves (step d c) cs (step-HasDistinctKeys d c n)
          (Does-Filed c (view d) (view (step d c)) m h) in
      (Moves.then c m ms, f)
