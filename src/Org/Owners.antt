-- ===== src/Org/Owners.antt =====
-- The owners of internal/org/org.go: what its operations do to the count of the owners of an
-- organization and to the maps of organizations, members and invitations.
use redis_meter.Base.{
  ℕ, zero, suc, ◌+◌, ◌≤◌, Option, none, some, List, [], ◌∷◌, ◌++◌, ◌≡◌, subst, String, eq_iff,
  if◌then◌else◌, arith, get_elem?, inl, inr, Option-cases,
}
use redis_meter.Base.Dict.{get, put, items, get-put, get-remove}
use redis_meter.Base.Result.{ok, err}
use redis_meter.Org.Model.{
  OrgSettings, Organization, OrgMember, OrgManager, Answer, Role, role_owner,
}
use redis_meter.Org.Organizations.{
  Founding, create_organization, founded, first_owner, Updates, updated_org, update_organization,
  delete_organization,
}
use redis_meter.Org.Members.{is_owner, owner_count, remove_at, change_role}

pub owner_count-append :
    (xs ys : List OrgMember) → owner_count (xs ++ ys) ≡ owner_count xs + owner_count ys
unfolding owner_count
owner_count-append [] ys = omega arith
owner_count-append (x ∷ xs) ys = ground (arith, owner_count-append xs ys)

abbrev pub owners_in : Option OrgMember → ℕ
owners_in none = 0
owners_in (some m) = if is_owner m then 1 else 0

pub owner_count-remove_at :
    (xs : List OrgMember) (i : ℕ)
    → owner_count xs ≡ owners_in (get_elem? xs i) + owner_count (remove_at xs i)
unfolding owner_count remove_at
owner_count-remove_at [] i = ground arith
owner_count-remove_at (x ∷ xs) zero = ground arith
owner_count-remove_at (x ∷ xs) (suc i) = ground (arith, owner_count-remove_at xs i)

-- A change of role takes one owner away at most, and none from an organization with one owner.
-- `n` counts the owners before it, `all` those of the whole list.
abbrev pub KeepsOwners : ℕ → ℕ → Answer (List OrgMember) → Type 0
KeepsOwners all n (err e) = Unit
KeepsOwners all n (ok changed) =
    (n ≤ suc (owner_count changed)) × (all ≡ 1 → n ≤ owner_count changed)

pub change_role-KeepsOwners :
    (all ms : List OrgMember) (user : String) (r : Role)
    → KeepsOwners (owner_count all) (owner_count ms) (change_role all ms user r)
unfolding owner_count change_role
change_role-KeepsOwners all [] user r = tt
change_role-KeepsOwners all (m ∷ ms) user r =
    ground (arith, eq_iff r role_owner, change_role-KeepsOwners all ms user r)

-- An organization in the first map has members in the second, one of them an owner, and no other
-- identifier has members.
abbrev pub HasOwners : Option Organization → Option (List OrgMember) → Type 0
HasOwners none none = Unit
HasOwners none (some ms) = ⊥
HasOwners (some o) none = ⊥
HasOwners (some o) (some ms) = 1 ≤ owner_count ms

abbrev pub Owned : OrgManager → Type 0
Owned m = (k : String) → HasOwners (get m.orgs k) (get m.org_members k)

pub create_organization-Owned :
    (m : OrgManager) (now : ℕ) (id : String) (f : Founding)
    → Owned m
    → Owned (create_organization m now id f).0
unfolding create_organization first_owner owner_count founded
create_organization-Owned m now id f h k = ground (
  arith,
  h k,
  get-put m.org_members id k (first_owner now id f ∷ []),
  get-put m.orgs id k (founded now id f),
)

rename-HasOwners :
    (m : OrgManager) (id : String) (o p : Organization)
    → get m.orgs id ≡ some o
    → Owned m
    → Owned (record m { orgs = put m.orgs id p })
rename-HasOwners m id o p e h k = ground (arith, eq_iff id k, h k, get-put m.orgs id k p)

pub update_organization-Owned :
    (m : OrgManager) (now : ℕ) (id : String) (u : Updates OrgSettings)
    → Owned m
    → Owned (update_organization m now id u).0
unfolding update_organization
update_organization-Owned m now id u h = elim (Option-cases (get m.orgs id)) [
  | inl e ↦ rw (e, update_organization) h
  | inr (o, e) ↦ rw (e, update_organization) (rename-HasOwners m id o (updated_org now u o) e h)
]

pub delete_organization-Owned :
    (m : OrgManager) (id : String) → Owned m → Owned (delete_organization m id).0
unfolding delete_organization
delete_organization-Owned m id h k =
    ground (arith, h k, get-remove m.org_members id k, get-remove m.orgs id k)

pub write_members-Owned :
    (m : OrgManager) (id : String) (o : Organization) (ms : List OrgMember)
    → get m.orgs id ≡ some o
    → 1 ≤ owner_count ms
    → Owned m
    → Owned (record m { org_members = put m.org_members id ms })
write_members-Owned m id o ms e n h k =
    ground (arith, eq_iff id k, h k, get-put m.org_members id k ms)

-- The members of an organization that is there, and the organization of members that are there.
pub owners_of :
    (m : OrgManager) (id : String) (o : Organization)
    → get m.orgs id ≡ some o
    → Owned m
    → 1 ≤ owner_count (items (get m.org_members id))
unfolding owner_count
owners_of m id o e h = ground (arith, h id)

pub organization_of :
    (m : OrgManager) (id : String) (ms : List OrgMember)
    → get m.org_members id ≡ some ms
    → Owned m
    → (o : Organization) × (get m.orgs id ≡ some o) × (1 ≤ owner_count ms)
organization_of m id ms e h = elim (Option-cases (get m.orgs id)) [
  | inl f ↦
      absurd (subst (λ x. HasOwners x (some ms)) f (subst (HasOwners (get m.orgs id)) e (h id)))
  | inr (o, f) ↦ (o, f, ground (arith, h id))
]
