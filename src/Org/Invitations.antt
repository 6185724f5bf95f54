-- ===== src/Org/Invitations.antt =====
-- internal/org/org.go: CreateInvitation, AcceptInvitation, ListPendingInvitations and
-- RevokeInvitation.
use redis_meter.Base.{
  ℕ, Bool, not, ◌&&◌, Option, none, some, List, [], ◌∷◌, ◌++◌, String, str_eq, ltb, ◌==◌,
  if◌then◌else◌,
}
use redis_meter.Base.Int.{ℤ, later}
use redis_meter.Base.Dict.{get, put, remove, is_some, values_where, items}
use redis_meter.Base.Result.{ok, err}
use redis_meter.Org.Model.{OrgMember, Invitation, OrgManager, OrgError, Answer, Role}
use redis_meter.Org.Members.{add_to_team}

-- The identifier and the token are drawn by the code, the rest are the call's arguments.
pub record Invite : Type 0 where
  pub id : String
  pub token : String
  pub org_id : String
  pub team_id : String
  pub email : String
  pub role : Role
  pub invited_by : String
  pub expires_in : ℤ

unfoldable pub invitation_of : ℕ → Invite → Invitation
invitation_of now v = record {
  id = v.id;
  org_id = v.org_id;
  team_id = v.team_id;
  email = v.email;
  role = v.role;
  invited_by = v.invited_by;
  created_at = now;
  expires_at = later now v.expires_in;
  accepted_at = 0;
  token = v.token;
}

unfoldable pub create_invitation : OrgManager → ℕ → Invite → OrgManager × Answer Invitation
create_invitation m now v =
    if is_some (get m.orgs v.org_id)
    then (if not (str_eq v.team_id "") && not (is_some (get m.teams v.team_id))
        then (m, err OrgError.team_not_found)
        else (
          record m { invitations = put m.invitations v.token (invitation_of now v) },
          ok (invitation_of now v),
        ))
    else (m, err OrgError.org_not_found)

unfoldable pub invited_member : ℕ → Invitation → String → String → String → OrgMember
invited_member now i user email name = record {
  org_id = i.org_id;
  user_id = user;
  email = email;
  name = name;
  role = i.role;
  joined_at = now;
  invited_by = i.invited_by;
}

-- The member is added to the organization, and to the team if the invitation names one.
unfoldable pub admit_invited : OrgManager → ℕ → Invitation → String → String → String → OrgManager
admit_invited m now i user email name =
    let members = items (get m.org_members i.org_id) in
    let joined = record m {
      org_members =
          put m.org_members i.org_id (members ++ (invited_member now i user email name ∷ []));
    } in
    if str_eq i.team_id "" then joined else add_to_team joined now i.team_id user email name i.role

unfoldable pub accept_found :
    OrgManager → ℕ → String → Invitation → String → String → String → OrgManager × Option OrgError
accept_found m now token i user email name =
    let joined = admit_invited m now i user email name in
    if ltb i.expires_at now
    then (record m { invitations = remove m.invitations token }, some OrgError.invitation_expired)
    else (if str_eq i.email email
        then (
          record joined { invitations = put m.invitations token (record i { accepted_at = now }) },
          none,
        )
        else (m, some OrgError.email_mismatch))

unfoldable pub accept_invitation :
    OrgManager → ℕ → String → String → String → String → OrgManager × Option OrgError
accept_invitation m now token user email name = elim (get m.invitations token) [
  | none ↦ (m, some OrgError.invitation_not_found)
  | some i ↦ accept_found m now token i user email name
]

unfoldable pub is_pending : String → ℕ → Invitation → Bool
is_pending org_id now i = str_eq i.org_id org_id && i.accepted_at == 0 && ltb now i.expires_at

unfoldable pub list_pending_invitations : OrgManager → ℕ → String → List Invitation
list_pending_invitations m now org_id = values_where (is_pending org_id now) m.invitations

unfoldable pub revoke_invitation : OrgManager → String → OrgManager × Option OrgError
revoke_invitation m token =
    if is_some (get m.invitations token)
    then (record m { invitations = remove m.invitations token }, none)
    else (m, some OrgError.invitation_not_found)
