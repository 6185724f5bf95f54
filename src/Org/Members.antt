-- ===== src/Org/Members.antt =====
-- internal/org/org.go: AddOrgMember, RemoveOrgMember, UpdateOrgMemberRole, ListOrgMembers,
-- GetOrgMember, AddTeamMember, RemoveTeamMember and ListTeamMembers.
use redis_meter.Base.{
  ℕ, zero, suc, Bool, false, not, ◌&&◌, Option, none, some, List, [], ◌∷◌, ◌++◌, String, str_eq,
  ◌==◌, if◌then◌else◌, get_elem?,
}
use redis_meter.Base.Dict.{Dict, get, put, is_some, items}
use redis_meter.Base.Result.{ok, err}
use redis_meter.Org.Model.{
  Team, OrgMember, TeamMember, OrgManager, OrgError, Answer, Role, role_owner, has_user, in_team,
}

unfoldable pub add_org_member :
    OrgManager
    → ℕ
    → String
    → String
    → String
    → String
    → Role
    → String
    → OrgManager × Option OrgError
add_org_member m now org_id user email name role invited_by =
    let members = items (get m.org_members org_id) in
    let member : OrgMember = record {
      org_id = org_id;
      user_id = user;
      email = email;
      name = name;
      role = role;
      joined_at = now;
      invited_by = invited_by;
    } in
    if is_some (get m.orgs org_id)
    then (if has_user members user
        then (m, some OrgError.already_member)
        else (record m { org_members = put m.org_members org_id (members ++ (member ∷ [])) }, none))
    else (m, some OrgError.org_not_found)

abbrev pub is_owner : OrgMember → Bool
is_owner m = str_eq m.role role_owner

unfoldable pub owner_count : List OrgMember → ℕ
owner_count [] = 0
owner_count (m ∷ ms) = let rest = owner_count ms in if is_owner m then suc rest else rest

abbrev pub index_after : Option ℕ → Bool → Option ℕ
index_after (some i) b = some (suc i)
index_after none b = if b then some 0 else none

-- The place of the last entry of the user.
unfoldable pub member_index : List OrgMember → String → Option ℕ
member_index [] user = none
member_index (m ∷ ms) user =
    let rest = member_index ms user in index_after rest (str_eq m.user_id user)

-- `append(xs[:i], xs[i+1:]...)`
unfoldable pub remove_at {ℓ} : {A : Type ℓ} → List A → ℕ → List A
remove_at [] i = []
remove_at (x ∷ xs) zero = xs
remove_at (x ∷ xs) (suc i) = x ∷ remove_at xs i

-- The first entry of the user leaves.
unfoldable pub leave : List TeamMember → String → List TeamMember
leave [] user = []
leave (m ∷ ms) user = let rest = leave ms user in if str_eq m.user_id user then ms else m ∷ rest

unfoldable pub leave_team : Dict (List TeamMember) → String → String → Dict (List TeamMember)
leave_team tm id user = elim (get tm id) [
  | none ↦ tm
  | some ms ↦ if in_team ms user then put tm id (leave ms user) else tm
]

-- The loop of RemoveOrgMember over the teams.
unfoldable pub leave_teams :
    Dict Team → String → String → Dict (List TeamMember) → Dict (List TeamMember)
leave_teams [] org_id user tm = tm
leave_teams ((id, t) ∷ ts) org_id user tm =
    leave_teams ts org_id user (if str_eq t.org_id org_id then leave_team tm id user else tm)

abbrev pub is_last_owner : Option OrgMember → ℕ → Bool
is_last_owner none n = false
is_last_owner (some m) n = is_owner m && n == 1

unfoldable pub remove_found :
    OrgManager → String → String → List OrgMember → ℕ → OrgManager × Option OrgError
remove_found m org_id user members i =
    if is_last_owner (get_elem? members i) (owner_count members)
    then (m, some OrgError.cannot_remove_owner)
    else (
      record m {
        org_members = put m.org_members org_id (remove_at members i);
        team_members = leave_teams m.teams org_id user m.team_members;
      },
      none,
    )

unfoldable pub remove_org_member : OrgManager → String → String → OrgManager × Option OrgError
remove_org_member m org_id user = elim (get m.org_members org_id) [
  | none ↦ (m, some OrgError.org_not_found)
  | some members ↦ elim (member_index members user) [
    | none ↦ (m, some OrgError.member_not_found)
    | some i ↦ remove_found m org_id user members i
  ]
]

-- The loop of UpdateOrgMemberRole: the list with the new role, or the error it stops with. `all`
-- is the whole list.
unfoldable pub change_role :
    List OrgMember → List OrgMember → String → Role → Answer (List OrgMember)
change_role all [] user new_role = err OrgError.member_not_found
change_role all (m ∷ ms) user new_role =
    let rest = change_role all ms user new_role in
    if str_eq m.user_id user
    then (if is_owner m && not (str_eq new_role role_owner) && owner_count all == 1
        then err OrgError.cannot_remove_owner
        else ok (record m { role = new_role } ∷ ms))
    else elim rest [ err e ↦ err e | ok changed ↦ ok (m ∷ changed) ]

abbrev pub with_roles : OrgManager → String → Answer (List OrgMember) → OrgManager × Option OrgError
with_roles m org_id (err e) = (m, some e)
with_roles m org_id (ok changed) =
    (record m { org_members = put m.org_members org_id changed }, none)

unfoldable pub update_org_member_role :
    OrgManager → String → String → Role → OrgManager × Option OrgError
update_org_member_role m org_id user new_role = elim (get m.org_members org_id) [
  | none ↦ (m, some OrgError.org_not_found)
  | some members ↦ with_roles m org_id (change_role members members user new_role)
]

unfoldable pub list_org_members : OrgManager → String → Answer (List OrgMember)
list_org_members m org_id =
    if is_some (get m.orgs org_id)
    then ok (items (get m.org_members org_id))
    else err OrgError.org_not_found

unfoldable pub find_member : List OrgMember → String → Answer OrgMember
find_member [] user = err OrgError.member_not_found
find_member (m ∷ ms) user =
    let rest = find_member ms user in if str_eq m.user_id user then ok m else rest

unfoldable pub get_org_member : OrgManager → String → String → Answer OrgMember
get_org_member m org_id user = find_member (items (get m.org_members org_id)) user

unfoldable pub add_to_team : OrgManager → ℕ → String → String → String → String → Role → OrgManager
add_to_team m now team_id user email name role =
    let member : TeamMember = record {
      team_id = team_id;
      user_id = user;
      email = email;
      name = name;
      role = role;
      joined_at = now;
    } in
    record m {
      team_members =
          put m.team_members team_id (items (get m.team_members team_id) ++ (member ∷ []));
    }

unfoldable pub add_team_member :
    OrgManager → ℕ → String → String → String → String → Role → OrgManager × Option OrgError
add_team_member m now team_id user email name role = elim (get m.teams team_id) [
  | none ↦ (m, some OrgError.team_not_found)
  | some team ↦
      if has_user (items (get m.org_members team.org_id)) user
      then (if in_team (items (get m.team_members team_id)) user
          then (m, some OrgError.already_member)
          else (add_to_team m now team_id user email name role, none))
      else (m, some OrgError.not_org_member)
]

unfoldable pub remove_team_member : OrgManager → String → String → OrgManager × Option OrgError
remove_team_member m team_id user = elim (get m.team_members team_id) [
  | none ↦ (m, some OrgError.team_not_found)
  | some members ↦
      if in_team members user
      then (record m { team_members = put m.team_members team_id (leave members user) }, none)
      else (m, some OrgError.member_not_found)
]

unfoldable pub list_team_members : OrgManager → String → Answer (List TeamMember)
list_team_members m team_id =
    if is_some (get m.teams team_id)
    then ok (items (get m.team_members team_id))
    else err OrgError.team_not_found
