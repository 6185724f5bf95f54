-- ===== src/Org/Calls.antt =====
-- The calls of the organization manager that may change it, and their sequences.
use redis_meter.Base.{ℕ, List, [], ◌∷◌, String}
use redis_meter.Org.Model.{OrgManager, OrgSettings, TeamSettings, Role}
use redis_meter.Org.Organizations.{
  Founding, Updates, create_organization, update_organization, delete_organization,
}
use redis_meter.Org.Teams.{create_team, update_team, delete_team}
use redis_meter.Org.Members.{
  add_org_member, remove_org_member, update_org_member_role, add_team_member, remove_team_member,
}
use redis_meter.Org.Invitations.{Invite, create_invitation, accept_invitation, revoke_invitation}

pub data Call : Type 0 where
  creates_organization : String → Founding → Call
  updates_organization : String → Updates OrgSettings → Call
  deletes_organization : String → Call
  creates_team : (id org_id name display_name description : String) → Call
  updates_team : String → Updates TeamSettings → Call
  deletes_team : String → Call
  adds_org_member : (org_id user email name : String) → Role → (invited_by : String) → Call
  removes_org_member : (org_id user : String) → Call
  changes_role : (org_id user : String) → Role → Call
  adds_team_member : (team_id user email name : String) → Role → Call
  removes_team_member : (team_id user : String) → Call
  creates_invitation : Invite → Call
  accepts_invitation : (token user email name : String) → Call
  revokes_invitation : String → Call

-- A call at its time.
unfoldable pub step : OrgManager → ℕ × Call → OrgManager
step m (now, creates_organization id f) = (create_organization m now id f).0
step m (now, updates_organization id u) = (update_organization m now id u).0
step m (now, deletes_organization id) = (delete_organization m id).0
step m (now, creates_team id o n d e) = (create_team m now id o n d e).0
step m (now, updates_team id u) = (update_team m now id u).0
step m (now, deletes_team id) = (delete_team m id).0
step m (now, adds_org_member o u e n r b) = (add_org_member m now o u e n r b).0
step m (now, removes_org_member o u) = (remove_org_member m o u).0
step m (now, changes_role o u r) = (update_org_member_role m o u r).0
step m (now, adds_team_member t u e n r) = (add_team_member m now t u e n r).0
step m (now, removes_team_member t u) = (remove_team_member m t u).0
step m (now, creates_invitation v) = (create_invitation m now v).0
step m (now, accepts_invitation t u e n) = (accept_invitation m now t u e n).0
step m (now, revokes_invitation t) = (revoke_invitation m t).0

unfoldable pub run_calls : OrgManager → List (ℕ × Call) → OrgManager
run_calls m [] = m
run_calls m (c ∷ cs) = run_calls (step m c) cs
