-- ===== src/Org/Teams.antt =====
-- internal/org/org.go: CreateTeam, DefaultTeamSettings, GetTeam, UpdateTeam, DeleteTeam, ListTeams
-- and ListUserTeams.
use redis_meter.Base.{
  ℕ, Bool, true, false, ◌&&◌, Option, none, some, List, [], ◌∷◌, String, str_eq, if◌then◌else◌,
}
use redis_meter.Base.Dict.{Dict, get, put, remove, is_some, drop_where, values_where, find_where}
use redis_meter.Base.Result.{ok, err}
use redis_meter.Org.Model.{
  TeamSettings, Team, TeamMember, Invitation, OrgManager, OrgError, Answer, in_team,
}
use redis_meter.Org.Organizations.{Updates, or_keep, add_found}

unfoldable pub default_team_settings : TeamSettings
default_team_settings = record {
  share_baselines_with_org = true;
  notify_on_regression = true;
  notification_emails = [];
  slack_webhook = "";
  allow_guest_access = false;
}

unfoldable pub has_team_name : String → String → Team → Bool
has_team_name org_id name t = str_eq t.org_id org_id && str_eq t.name name

unfoldable pub new_team : ℕ → String → String → String → String → String → Team
unfolding default_team_settings
new_team now id org_id name display_name description = record {
  id = id;
  org_id = org_id;
  name = name;
  display_name = display_name;
  description = description;
  created_at = now;
  updated_at = now;
  settings = default_team_settings;
  metadata = [];
}

unfoldable pub create_team :
    OrgManager → ℕ → String → String → String → String → String → OrgManager × Answer Team
create_team m now id org_id name display_name description =
    let team = new_team now id org_id name display_name description in
    if is_some (get m.orgs org_id)
    then (if is_some (find_where (has_team_name org_id name) m.teams)
        then (m, err OrgError.team_name_taken)
        else (
          record m { teams = put m.teams id team; team_members = put m.team_members id [] },
          ok team,
        ))
    else (m, err OrgError.org_not_found)

unfoldable pub get_team : OrgManager → String → Answer Team
get_team m id = elim (get m.teams id) [ none ↦ err OrgError.team_not_found | some t ↦ ok t ]

unfoldable pub updated_team : ℕ → Updates TeamSettings → Team → Team
updated_team now u t = record t {
  display_name = or_keep u.display_name t.display_name;
  description = or_keep u.description t.description;
  settings = or_keep u.settings t.settings;
  updated_at = now;
}

unfoldable pub update_team :
    OrgManager → ℕ → String → Updates TeamSettings → OrgManager × Answer Team
update_team m now id u = elim (get m.teams id) [
  | none ↦ (m, err OrgError.team_not_found)
  | some t ↦ (record m { teams = put m.teams id (updated_team now u t) }, ok (updated_team now u t))
]

unfoldable pub invites_to_team : String → Invitation → Bool
invites_to_team team_id i = str_eq i.team_id team_id

unfoldable pub delete_team : OrgManager → String → OrgManager × Option OrgError
delete_team m team_id =
    if is_some (get m.teams team_id)
    then (
      record m {
        teams = remove m.teams team_id;
        team_members = remove m.team_members team_id;
        invitations = drop_where (invites_to_team team_id) m.invitations;
      },
      none,
    )
    else (m, some OrgError.team_not_found)

unfoldable pub is_team_of : String → Team → Bool
is_team_of org_id t = str_eq t.org_id org_id

unfoldable pub list_teams : OrgManager → String → Answer (List Team)
list_teams m org_id =
    if is_some (get m.orgs org_id)
    then ok (values_where (is_team_of org_id) m.teams)
    else err OrgError.org_not_found

abbrev pub team_in : String → Option Team → Option Team
team_in org_id none = none
team_in org_id (some t) = if str_eq t.org_id org_id then some t else none

-- The visit of ListUserTeams.
unfoldable pub teams_of : Dict (List TeamMember) → Dict Team → String → String → List Team
teams_of [] teams org_id user = []
teams_of ((id, ms) ∷ rest) teams org_id user =
    let found = teams_of rest teams org_id user in
    if in_team ms user then add_found (team_in org_id (get teams id)) found else found

unfoldable pub list_user_teams : OrgManager → String → String → List Team
list_user_teams m org_id user = teams_of m.team_members m.teams org_id user
