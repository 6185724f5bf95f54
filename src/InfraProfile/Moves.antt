-- ===== src/InfraProfile/Moves.antt =====
-- The store of internal/infraprofile/file_store.go against its specification: a map from identifiers
-- to files, changed at one identifier at a time.
use redis_meter.Base.{
  ℕ, Bool, true, false, ◌==◌, ◌⊎◌, Option, none, some, List, [], ◌∷◌, ◌≡◌, ◌≢◌, refl, sym, ◌∙◌,
  String, str_eq, eq_iff, if◌then◌else◌, arith, inl, inr, Bool-cases,
}
use redis_meter.Base.Int.{pos, add}
use redis_meter.Base.Dict.{Dict, get, get-put}
use redis_meter.InfraProfile.Model.{Profile}
use redis_meter.InfraProfile.Validation.{validate}
use redis_meter.InfraProfile.Store.{File, Write, write_profile}

abbrev pub View : Type 0
View = String → Option File

abbrev pub view : Dict File → View
view d k = get d k

-- `w` is `v` with another file at `id`.
abbrev pub Sets : View → View → String → Option File → Type 0
Sets v w id file = (k : String) → w k ≡ (if str_eq id k then file else v k)

-- No stored profile has the name.
abbrev pub NoName : View → String → Type 0
NoName v name = (k : String) (p : Profile) → v k ≡ some (File.stored p) → p.name ≢ name

-- No profile stands at the identifier.
abbrev pub IsFree : View → String → Type 0
IsFree v id = (q : Profile) → v id ≢ some (File.stored q)

abbrev pub IsSame : View → View → Type 0
IsSame v w = (k : String) → w k ≡ v k

-- What a write of a profile does to the map, by its outcome.
abbrev pub Writes : View → View → Profile → Write → Type 0
Writes v w p Write.written = Sets v w p.id (some (File.stored p))
Writes v w p Write.unwritten = IsSame v w
Writes v w p Write.torn = Sets v w p.id (some File.broken)

pub data Call : Type 0 where
  creates : (uuid : String) → Write → Profile → Call
  updates : Write → Profile → Call
  deletes : (removed : Bool) → String → Call
  uses : Write → String → Call
  imports : (overwrite : Bool) → List (Profile × String × Write) → Call

-- The profile that Create writes: the given one with its dates and its identifier, or a new one if it
-- has none.
abbrev pub added : ℕ → String → Profile → Profile
added now uuid given = record given {
  id = if str_eq given.id "" then uuid else given.id;
  created_at = now;
  updated_at = now;
}

-- A profile that may be added: valid, at a free identifier, and with a name that no stored profile has.
pub record IsNew (v : View) (p : Profile) : Type 0 where
  pub free : IsFree v p.id
  pub no_name : NoName v p.name
  pub valid : validate p ≡ none

-- Why it may not.
abbrev pub HasObstacle : View → Profile → Type 0
HasObstacle v p =
    (validate p ≢ none)
    ⊎ (((q : Profile) × (v p.id ≡ some (File.stored q)))
        ⊎ ((k : String) × (q : Profile) × (v k ≡ some (File.stored q)) × (q.name ≡ p.name)))

-- The profile that an update writes in place of `e`.
abbrev pub replacement : ℕ → Profile → Profile → Profile
replacement now e given = record given {
  updated_at = now;
  created_at = e.created_at;
  is_builtin = e.is_builtin;
}

abbrev pub counted : ℕ → Profile → Profile
counted now e = record e {
  last_used_at = some now;
  use_count = add e.use_count (pos 1);
  updated_at = now;
}

abbrev pub brought : ℕ → String → Profile → Profile
brought now uuid p = record p {
  id = if str_eq p.id "" then uuid else p.id;
  created_at = if p.created_at == 0 then now else p.created_at;
  updated_at = now;
}

-- An import takes the profiles in their order: it skips one that says it is built in, and, without
-- `overwrite`, one whose identifier has a profile; any other is written.
pub data Imports (now : ℕ) (overwrite : Bool)
    : View → List (Profile × String × Write) → View → Type 0 where
  done : {v : View} → Imports now overwrite v [] v
  skips :
      {v w : View} {ps : List (Profile × String × Write)}
      → (p : Profile) (uuid : String) (o : Write)
      → (p.is_builtin ≡ true)
        ⊎ ((overwrite ≡ false) × ((q : Profile) × (v p.id ≡ some (File.stored q))))
      → Imports now overwrite v ps w
      → Imports now overwrite v ((p, uuid, o) ∷ ps) w
  takes :
      {v u w : View} {ps : List (Profile × String × Write)}
      → (p : Profile) (uuid : String) (o : Write) → p.is_builtin ≡ false
      → (overwrite ≡ true) ⊎ IsFree v p.id
      → Writes v u (brought now uuid p) o
      → Imports now overwrite u ps w
      → Imports now overwrite v ((p, uuid, o) ∷ ps) w

-- What each call may do to the map.
abbrev pub Does : ℕ × Call → View → View → Type 0
Does (now, Call.creates uuid o q) v w =
    (IsSame v w × HasObstacle v (added now uuid q))
    ⊎ (IsNew v (added now uuid q) × Writes v w (added now uuid q) o)
Does (now, Call.updates o q) v w =
    (IsSame v w
      × ((e : Profile) → v q.id ≡ some (File.stored e) → validate (replacement now e q) ≢ none))
    ⊎ ((e : Profile) × (v q.id ≡ some (File.stored e))
        × (validate (replacement now e q) ≡ none)
        × Writes v w (replacement now e q) o)
Does (now, Call.deletes removed id) v w =
    (IsSame v w × ((removed ≡ false) ⊎ (v id ≡ none))) ⊎ ((removed ≡ true) × Sets v w id none)
Does (now, Call.uses o id) v w =
    (IsSame v w × IsFree v id)
    ⊎ ((e : Profile) × (v id ≡ some (File.stored e)) × Writes v w (counted now e) o)
Does (now, Call.imports overwrite ps) v w = Imports now overwrite v ps w

-- Some calls, one after the other.
pub data Moves : View → List (ℕ × Call) → View → Type 0 where
  done : {v : View} → Moves v [] v
  then :
      {v u w : View} {cs : List (ℕ × Call)} (c : ℕ × Call)
      → Does c v u
      → Moves u cs w
      → Moves v (c ∷ cs) w

-- A profile is in the file of its identifier.
abbrev pub Filed : View → Type 0
Filed v = (k : String) (p : Profile) → v k ≡ some (File.stored p) → p.id ≡ k

set-Filed :
    (v w : View) (id : String) (file : Option File)
    → ((p : Profile) → file ≡ some (File.stored p) → p.id ≡ id)
    → Sets v w id file
    → Filed v
    → Filed w
set-Filed v w id file f s h k p e = elim (Bool-cases (str_eq id k)) [
  | inl x ↦ f p (ground (arith, e, x, s k)) ∙ (eq_iff id k).0 x
  | inr x ↦ h k p (ground (arith, e, x, s k))
]

own_id : (p : Profile) (q : Profile) → some (File.stored p) ≡ some (File.stored q) → q.id ≡ p.id
own_id p q e = ground (arith, e)

Writes-Filed : (v w : View) (p : Profile) (o : Write) → Writes v w p o → Filed v → Filed w
Writes-Filed v w p Write.written s h = set-Filed v w p.id _ (own_id p) s h
Writes-Filed v w p Write.unwritten s h = λ k q e. h k q (sym (s k) ∙ e)
Writes-Filed v w p Write.torn s h = set-Filed v w p.id _ (λ q e. absurd (ground (arith, e))) s h

Imports-Filed :
    {now : ℕ} {overwrite : Bool} {v w : View} {ps : List (Profile × String × Write)}
    → Imports now overwrite v ps w
    → Filed v
    → Filed w
Imports-Filed Imports.done h = h
Imports-Filed (Imports.skips p uuid o r i) h = Imports-Filed i h
Imports-Filed {now} {v = v} (Imports.takes {u = u} p uuid o n f s i) h =
    Imports-Filed i (Writes-Filed v u (brought now uuid p) o s h)

-- Every call keeps the profiles in the files of their identifiers.
pub Does-Filed : (c : ℕ × Call) (v w : View) → Does c v w → Filed v → Filed w
Does-Filed (now, Call.creates uuid o q) v w (inl (s, r)) h = λ k p e. h k p (sym (s k) ∙ e)
Does-Filed (now, Call.creates uuid o q) v w (inr (n, s)) h =
    Writes-Filed v w (added now uuid q) o s h
Does-Filed (now, Call.updates o q) v w (inl (s, r)) h = λ k p e. h k p (sym (s k) ∙ e)
Does-Filed (now, Call.updates o q) v w (inr (e, f, x, s)) h =
    Writes-Filed v w (replacement now e q) o s h
Does-Filed (now, Call.deletes removed id) v w (inl (s, r)) h = λ k p e. h k p (sym (s k) ∙ e)
Does-Filed (now, Call.deletes removed id) v w (inr (r, s)) h =
    set-Filed v w id none (λ p e. absurd (ground (arith, e))) s h
Does-Filed (now, Call.uses o id) v w (inl (s, r)) h = λ k p e. h k p (sym (s k) ∙ e)
Does-Filed (now, Call.uses o id) v w (inr (e, f, s)) h = Writes-Filed v w (counted now e) o s h
Does-Filed (now, Call.imports overwrite ps) v w i h = Imports-Filed i h

pub write_profile-Writes :
    (d : Dict File) (p : Profile) (o : Write) → Writes (view d) (view (write_profile d p o).0) p o
unfolding write_profile
write_profile-Writes d p Write.written = λ k. get-put d p.id k (File.stored p)
write_profile-Writes d p Write.unwritten = λ k. refl
write_profile-Writes d p Write.torn = λ k. get-put d p.id k File.broken
