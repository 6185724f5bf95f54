-- ===== src/Org/Invariant.antt =====
-- The invariant of internal/org/org.go, and the calls on organizations and their members.
use redis_meter.Base.{
  ℕ, ◌≤◌, true, some, List, [], ◌∷◌, ◌++◌, ◌≡◌, String, eq_iff, arith, inl, inr, get_elem?,
  Option-cases, Bool-cases,
}
use redis_meter.Base.Dict.{
  Dict, get, put, is_some, items, find_where, get-put, get-remove, EveryValue,
  drop_where-EveryValue, map-EveryValue,
}
use redis_meter.Base.Result.{ok, err}
use redis_meter.Org.Model.{
  OrgSettings, TeamMember, Organization, OrgMember, Invitation, OrgManager, has_user, Answer, Role,
}
use redis_meter.Org.Organizations.{
  is_named, Founding, founded, Updates, updated_org, create_organization, update_organization,
  delete_organization, invites_to,
}
use redis_meter.Org.Members.{
  owner_count, add_org_member, remove_found, remove_at, is_last_owner, remove_org_member,
  update_org_member_role, change_role, with_roles, member_index,
}
use redis_meter.Org.Owners.{
  Owned, owner_count-append, create_organization-Owned, update_organization-Owned,
  delete_organization-Owned, write_members-Owned, owners_of, organization_of,
  change_role-KeepsOwners, owner_count-remove_at, KeepsOwners,
}

-- The organization of an invitation is there.
abbrev pub InvitesTo : Dict Organization → Invitation → Type 0
InvitesTo orgs i = is_some (get orgs i.org_id) ≡ true

pub record Inv (m : OrgManager) : Type 0 where
  pub owned : Owned m
  pub hosted : EveryValue (InvitesTo m.orgs) m.invitations

-- A new or changed organization does not take away the organization of an invitation.
pub put-InvitesTo :
    (m : OrgManager) (id : String) (o : Organization)
    → EveryValue (InvitesTo m.orgs) m.invitations
    → EveryValue (InvitesTo (put m.orgs id o)) m.invitations
put-InvitesTo m id o h =
    map-EveryValue _ _ m.invitations (λ i g. ground (arith, get-put m.orgs id i.org_id o)) h

pub create_organization-Inv :
    (m : OrgManager) (now : ℕ) (id : String) (f : Founding)
    → Inv m
    → Inv (create_organization m now id f).0
unfolding create_organization
create_organization-Inv m now id f h = record {
  owned = create_organization-Owned m now id f h.owned;
  hosted = elim (Bool-cases (is_some (find_where (is_named f.name) m.orgs))) [
    | inl e ↦ rw (e, create_organization) h.hosted
    | inr e ↦ rw (e, create_organization) (put-InvitesTo m id (founded now id f) h.hosted)
  ];
}

pub update_organization-Inv :
    (m : OrgManager) (now : ℕ) (id : String) (u : Updates OrgSettings)
    → Inv m
    → Inv (update_organization m now id u).0
unfolding update_organization
update_organization-Inv m now id u h = record {
  owned = update_organization-Owned m now id u h.owned;
  hosted = elim (Option-cases (get m.orgs id)) [
    | inl e ↦ rw (e, update_organization) h.hosted
    | inr (o, e) ↦ rw (e, update_organization) (put-InvitesTo m id (updated_org now u o) h.hosted)
  ];
}

pub delete_organization-Inv :
    (m : OrgManager) (id : String) → Inv m → Inv (delete_organization m id).0
unfolding delete_organization invites_to
delete_organization-Inv m id h = record {
  owned = delete_organization-Owned m id h.owned;
  hosted = elim (Bool-cases (is_some (get m.orgs id))) [
    | inl e ↦
        rw (e, delete_organization)
          (drop_where-EveryValue _ _ (invites_to id) m.invitations
            (λ i n g.
              ground (arith, eq_iff i.org_id id, eq_iff id i.org_id, get-remove m.orgs id i.org_id))
            h.hosted)
    | inr e ↦ rw (e, delete_organization) h.hosted
  ];
}

-- Members are written where the organization is there and keeps an owner.
write_members-Inv :
    (m : OrgManager) (id : String) (o : Organization) (ms : List OrgMember)
    (tm : Dict (List TeamMember))
    → get m.orgs id ≡ some o
    → 1 ≤ owner_count ms
    → Inv m
    → Inv (record m { org_members = put m.org_members id ms; team_members = tm })
write_members-Inv m id o ms tm e n h = record {
  owned = write_members-Owned m id o ms e n h.owned;
  hosted = h.hosted;
}

pub append-Inv :
    (m : OrgManager) (id : String) (o : Organization) (new : OrgMember)
    → get m.orgs id ≡ some o
    → Inv m
    → Inv (record m {
      org_members = put m.org_members id (items (get m.org_members id) ++ (new ∷ []));
    })
append-Inv m id o new e h =
    write_members-Inv m id o _ m.team_members e
      (ground (
        arith,
        owners_of m id o e h.owned,
        owner_count-append (items (get m.org_members id)) (new ∷ []),
      ))
      h

pub add_org_member-Inv :
    (m : OrgManager) (now : ℕ) (id user email name : String) (r : Role) (by : String)
    → Inv m
    → Inv (add_org_member m now id user email name r by).0
unfolding add_org_member
add_org_member-Inv m now id user email name r by h = elim (Option-cases (get m.orgs id)) [
  | inl e ↦ rw (e, add_org_member) h
  | inr (o, e) ↦ elim (Bool-cases (has_user (items (get m.org_members id)) user)) [
    | inl f ↦ rw (e, f, add_org_member) h
    | inr f ↦ rw (e, f, add_org_member) (append-Inv m id o _ e h)
  ]
]

remove_found-Inv :
    (m : OrgManager) (id user : String) (ms : List OrgMember) (i : ℕ)
    → get m.org_members id ≡ some ms
    → Inv m
    → Inv (remove_found m id user ms i).0
unfolding remove_found
remove_found-Inv m id user ms i e h =
    let (o, f, n) = organization_of m id ms e h.owned in
    elim (Bool-cases (is_last_owner (get_elem? ms i) (owner_count ms))) [
      | inl g ↦ rw (g, remove_found) h
      | inr g ↦
          rw (g, remove_found)
            (write_members-Inv m id o (remove_at ms i) _ f
              (ground (arith, owner_count-remove_at ms i)) h)
    ]

pub remove_org_member-Inv :
    (m : OrgManager) (id user : String) → Inv m → Inv (remove_org_member m id user).0
unfolding remove_org_member
remove_org_member-Inv m id user h = elim (Option-cases (get m.org_members id)) [
  | inl e ↦ rw (e, remove_org_member) h
  | inr (ms, e) ↦ elim (Option-cases (member_index ms user)) [
    | inl f ↦ rw (e, f, remove_org_member) h
    | inr (i, f) ↦ rw (e, f, remove_org_member) (remove_found-Inv m id user ms i e h)
  ]
]

with_roles-Inv :
    (m : OrgManager) (id : String) (o : Organization) (n : ℕ) (a : Answer (List OrgMember))
    → get m.orgs id ≡ some o
    → 1 ≤ n
    → KeepsOwners n n a
    → Inv m
    → Inv (with_roles m id a).0
with_roles-Inv m id o n (err e) f p k h = h
with_roles-Inv m id o n (ok changed) f p k h =
    write_members-Inv m id o changed _ f (ground (arith, p, k)) h

pub update_org_member_role-Inv :
    (m : OrgManager) (id user : String) (r : Role)
    → Inv m
    → Inv (update_org_member_role m id user r).0
unfolding update_org_member_role
update_org_member_role-Inv m id user r h = elim (Option-cases (get m.org_members id)) [
  | inl e ↦ rw (e, update_org_member_role) h
  | inr (ms, e) ↦
      let (o, f, n) = organization_of m id ms e h.owned in
      rw (e, update_org_member_role)
        (with_roles-Inv m id o _ (change_role ms ms user r) f n
          (change_role-KeepsOwners ms ms user r) h)
]
