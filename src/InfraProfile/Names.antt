-- ===== src/InfraProfile/Names.antt =====
-- The names of the profiles in a directory of internal/infraprofile/file_store.go, and that its files
-- keep distinct identifiers.
use redis_meter.Base.{
  ℕ, Bool, true, false, ◌||◌, none, some, List, [], ◌∷◌, ◌≡◌, refl, sym, subst, ap, ◌∙◌, String,
  str_eq, eq_iff, any, arith, inl, inr, Bool-cases, Option-cases,
}
use redis_meter.Base.Dict.{
  Dict, get, is_some, HasDistinctKeys, put-HasDistinctKeys, remove-HasDistinctKeys,
}
use redis_meter.Base.Sort.{sort, insert_sorted}
use redis_meter.InfraProfile.Model.{Profile}
use redis_meter.InfraProfile.Validation.{validate}
use redis_meter.InfraProfile.Store.{
  File, Write, write_profile, read_profile, found, readable, list_all, has_name, prepared,
  create_valid, create, changed, write_valid, update, delete, used, record_usage, imported, skipped,
  import_profiles,
}
use redis_meter.InfraProfile.Moves.{view, NoName}

-- The names that a listing shows are those of the stored profiles.
any-insert_sorted :
    (before : Profile → Profile → Bool) (t : Profile → Bool) (x : Profile) (xs : List Profile)
    → any t (insert_sorted before x xs) ≡ (t x || any t xs)
unfolding any insert_sorted
any-insert_sorted before t x [] = ground arith
any-insert_sorted before t x (y ∷ ys) = ground (arith, any-insert_sorted before t x ys)

any-sort :
    (before : Profile → Profile → Bool) (t : Profile → Bool) (xs : List Profile)
    → any t (sort before xs) ≡ any t xs
unfolding any sort
any-sort before t [] = refl
any-sort before t (x ∷ xs) =
    any-insert_sorted before t x (sort before xs) ∙ ground (arith, any-sort before t xs)

any-readable :
    (t : Profile → Bool) (d : Dict File) (k : String) (p : Profile)
    → any t (readable d) ≡ false
    → get d k ≡ some (File.stored p)
    → t p ≡ false
unfolding any readable get
any-readable t [] k p e f = absurd (ground (arith, f))
any-readable t ((j, File.broken) ∷ d) k p e f = any-readable t d k p e (ground (arith, f))
any-readable t ((j, File.stored q) ∷ d) k p e f = elim (Bool-cases (str_eq j k)) [
  | inl x ↦ let y : q ≡ p = ground (arith, f, x) in subst (λ r. t r ≡ false) y (ground (arith, e))
  | inr x ↦ any-readable t d k p (ground (arith, e)) (ground (arith, f, x))
]

pub has_name-NoName :
    (before : String → String → Bool) (d : Dict File) (name : String)
    → has_name before d name ≡ false
    → NoName (view d) name
unfolding has_name list_all
has_name-NoName before d name e k p f n =
    let x : str_eq p.name name ≡ false =
      any-readable (λ p. str_eq p.name name) d k p (sym (any-sort _ _ (readable d)) ∙ e) f in
    absurd (ground (arith, x, (eq_iff p.name name).1 n))

-- What an entry of a directory with distinct names shows is what is looked up.
look_past :
    (d : Dict File) (j k : String) (x : File) (y : File)
    → get d j ≡ none
    → get d k ≡ some y
    → get ((j, x) ∷ d) k ≡ some y
unfolding get
look_past d j k x y n e = elim (Bool-cases (str_eq j k)) [
  | inl f ↦
      let clash : none ≡ some y = sym n ∙ ap (get d) ((eq_iff j k).0 f) ∙ e in
      absurd (ground (arith, clash))
  | inr f ↦ rw (f, get) e
]

first_found : (d : Dict File) (j : String) (x : File) → get ((j, x) ∷ d) j ≡ some x
unfolding get
first_found d j x = let same : str_eq j j ≡ true = (eq_iff j j).1 refl in rw (same, get) refl

readable-any :
    (t : Profile → Bool) (d : Dict File)
    → HasDistinctKeys d
    → any t (readable d) ≡ true
    → (k : String) × (p : Profile) × (get d k ≡ some (File.stored p)) × (t p ≡ true)
unfolding any readable
readable-any t [] h e = absurd (ground (arith, e))
readable-any t ((j, File.broken) ∷ d) h e =
    let (k, p, f, x) = readable-any t d h.1 e in (k, p, look_past d j k File.broken _ h.0 f, x)
readable-any t ((j, File.stored q) ∷ d) h e = elim (Bool-cases (t q)) [
  | inl x ↦ (j, q, first_found d j (File.stored q), x)
  | inr x ↦
      let (k, p, f, y) = readable-any t d h.1 (ground (arith, e, x)) in
      (k, p, look_past d j k (File.stored q) _ h.0 f, y)
]

pub has_name-taken :
    (before : String → String → Bool) (d : Dict File) (name : String)
    → HasDistinctKeys d
    → has_name before d name ≡ true
    → (k : String) × (p : Profile) × (get d k ≡ some (File.stored p)) × (p.name ≡ name)
unfolding has_name list_all
has_name-taken before d name h e =
    let (k, p, f, x) =
      readable-any (λ p. str_eq p.name name) d h (sym (any-sort _ _ (readable d)) ∙ e) in
    (k, p, f, (eq_iff p.name name).0 x)

write_profile-HasDistinctKeys :
    (d : Dict File) (p : Profile) (o : Write)
    → HasDistinctKeys d
    → HasDistinctKeys (write_profile d p o).0
unfolding write_profile
write_profile-HasDistinctKeys d p Write.written h = put-HasDistinctKeys d p.id (File.stored p) h
write_profile-HasDistinctKeys d p Write.unwritten h = h
write_profile-HasDistinctKeys d p Write.torn h = put-HasDistinctKeys d p.id File.broken h

pub create-HasDistinctKeys :
    (before : String → String → Bool) (d : Dict File) (now : ℕ) (uuid : String) (o : Write)
    (q : Profile)
    → HasDistinctKeys d
    → HasDistinctKeys (create before d now uuid o q).0
unfolding create
create-HasDistinctKeys before d now uuid o q h =
    let p = prepared before now uuid q in
    elim (Option-cases (validate p)) [
      | inr (e, x) ↦ rw (x, create, create_valid) h
      | inl x ↦ elim (Bool-cases (is_some (found (read_profile d p.id)))) [
        | inl y ↦ rw (x, y, create, create_valid) h
        | inr y ↦ elim (Bool-cases (has_name before d p.name)) [
          | inl z ↦ rw (x, y, z, create, create_valid) h
          | inr z ↦ rw (x, y, z, create, create_valid) (write_profile-HasDistinctKeys d p o h)
        ]
      ]
    ]

pub update-HasDistinctKeys :
    (d : Dict File) (now : ℕ) (o : Write) (q : Profile)
    → HasDistinctKeys d
    → HasDistinctKeys (update d now o q).0
unfolding update
update-HasDistinctKeys d now o q h = elim (Option-cases (get d q.id)) [
  | inl e ↦ rw (e, update) h
  | inr (File.broken, e) ↦ rw (e, update) h
  | inr (File.stored r, e) ↦ elim (Option-cases (validate (changed now r q))) [
    | inr (x, f) ↦ rw (e, update) (rw (f, write_valid) h)
    | inl f ↦
        rw (e, update) (rw (f, write_valid) (write_profile-HasDistinctKeys d (changed now r q) o h))
  ]
]

pub delete-HasDistinctKeys :
    (d : Dict File) (removed : Bool) (id : String)
    → HasDistinctKeys d
    → HasDistinctKeys (delete d removed id).0
unfolding delete
delete-HasDistinctKeys d removed id h = elim (Bool-cases (is_some (get d id))) [
  | inr e ↦ rw (e, delete) h
  | inl e ↦ elim (Bool-cases removed) [
    | inl r ↦ rw (e, r, delete) (remove-HasDistinctKeys d id h)
    | inr r ↦ rw (e, r, delete) h
  ]
]

pub record_usage-HasDistinctKeys :
    (d : Dict File) (now : ℕ) (o : Write) (id : String)
    → HasDistinctKeys d
    → HasDistinctKeys (record_usage d now o id).0
unfolding record_usage
record_usage-HasDistinctKeys d now o id h = elim (Option-cases (get d id)) [
  | inl e ↦ rw (e, record_usage) h
  | inr (File.broken, e) ↦ rw (e, record_usage) h
  | inr (File.stored p, e) ↦ rw (e, record_usage) (write_profile-HasDistinctKeys d (used now p) o h)
]

pub import_profiles-HasDistinctKeys :
    (d : Dict File) (now : ℕ) (overwrite : Bool) (ps : List (Profile × String × Write))
    → HasDistinctKeys d
    → HasDistinctKeys (import_profiles d now overwrite ps).0
unfolding import_profiles
import_profiles-HasDistinctKeys d now overwrite [] h = h
import_profiles-HasDistinctKeys d now overwrite ((p, uuid, o) ∷ ps) h =
    elim (Bool-cases (skipped d overwrite p)) [
      | inl e ↦ rw (e, import_profiles) (import_profiles-HasDistinctKeys d now overwrite ps h)
      | inr e ↦
          rw (e, import_profiles)
            (import_profiles-HasDistinctKeys (write_profile d (imported now uuid p) o).0 now
              overwrite ps (write_profile-HasDistinctKeys d (imported now uuid p) o h))
    ]
