-- ===== src/Org/Organizations.antt =====
-- internal/org/org.go: CreateOrganization, DefaultOrgSettings, GetOrganization,
-- GetOrganizationByName, UpdateOrganization, DeleteOrganization and ListOrganizations. An update
-- carries the three keys the code reads, `none` if the key is missing or has another type.
use redis_meter.Base.{
  ℕ, Bool, false, Option, none, some, List, [], ◌∷◌, String, str_eq, if◌then◌else◌,
}
use redis_meter.Base.Int.{pos}
use redis_meter.Base.Dict.{Dict, get, put, remove, is_some, drop_where, find_where}
use redis_meter.Base.Result.{ok, err}
use redis_meter.Org.Model.{
  OrgSettings, Organization, Team, OrgMember, TeamMember, Invitation, OrgManager, OrgError, Answer,
  role_owner, has_user,
}

unfoldable pub default_org_settings : OrgSettings
default_org_settings = record {
  default_storage_backend = "";
  storage_quota_mb = pos 0;
  require_mfa = false;
  session_timeout_minutes = pos 60;
  api_key_max_days = pos 365;
  allow_public_baselines = false;
  allow_external_sharing = false;
  default_throughput_threshold = record { units = pos 1; places = 1 };
  default_latency_threshold = record { units = pos 15; places = 2 };
}

unfoldable pub is_named : String → Organization → Bool
is_named name o = str_eq o.name name

pub record Founding : Type 0 where
  pub name : String
  pub display_name : String
  pub description : String
  pub owner_user_id : String
  pub owner_email : String
  pub owner_name : String

unfoldable pub founded : ℕ → String → Founding → Organization
unfolding default_org_settings
founded now id f = record {
  id = id;
  name = f.name;
  display_name = f.display_name;
  description = f.description;
  created_at = now;
  updated_at = now;
  settings = default_org_settings;
  metadata = [];
}

unfoldable pub first_owner : ℕ → String → Founding → OrgMember
first_owner now id f = record {
  org_id = id;
  user_id = f.owner_user_id;
  email = f.owner_email;
  name = f.owner_name;
  role = role_owner;
  joined_at = now;
  invited_by = "";
}

unfoldable pub create_organization :
    OrgManager → ℕ → String → Founding → OrgManager × Answer Organization
create_organization m now id f =
    if is_some (find_where (is_named f.name) m.orgs) then (m, err OrgError.org_name_taken) else (
      record m {
        orgs = put m.orgs id (founded now id f);
        org_members = put m.org_members id (first_owner now id f ∷ []);
      },
      ok (founded now id f),
    )

abbrev pub org_or_error : Option Organization → Answer Organization
org_or_error none = err OrgError.org_not_found
org_or_error (some o) = ok o

unfoldable pub get_organization : OrgManager → String → Answer Organization
get_organization m id = org_or_error (get m.orgs id)

unfoldable pub get_organization_by_name : OrgManager → String → Answer Organization
get_organization_by_name m name = org_or_error (find_where (is_named name) m.orgs)

abbrev pub or_keep {ℓ} : {A : Type ℓ} → Option A → A → A
or_keep none a = a
or_keep (some b) a = b

pub record Updates (S : Type 0) : Type 0 where
  pub display_name : Option String
  pub description : Option String
  pub settings : Option S

unfoldable pub updated_org : ℕ → Updates OrgSettings → Organization → Organization
updated_org now u o = record o {
  display_name = or_keep u.display_name o.display_name;
  description = or_keep u.description o.description;
  settings = or_keep u.settings o.settings;
  updated_at = now;
}

unfoldable pub update_organization :
    OrgManager → ℕ → String → Updates OrgSettings → OrgManager × Answer Organization
update_organization m now id u = elim (get m.orgs id) [
  | none ↦ (m, err OrgError.org_not_found)
  | some o ↦ (record m { orgs = put m.orgs id (updated_org now u o) }, ok (updated_org now u o))
]

-- The loop that deletes the teams of an organization, with their members.
unfoldable pub delete_teams :
    Dict Team → String → Dict Team × Dict (List TeamMember) → Dict Team × Dict (List TeamMember)
delete_teams [] org_id (ts, ms) = (ts, ms)
delete_teams ((id, t) ∷ rest) org_id (ts, ms) =
    delete_teams rest org_id
      (if str_eq t.org_id org_id then (remove ts id, remove ms id) else (ts, ms))

unfoldable pub invites_to : String → Invitation → Bool
invites_to org_id i = str_eq i.org_id org_id

unfoldable pub delete_organization : OrgManager → String → OrgManager × Option OrgError
delete_organization m org_id =
    let (ts, ms) = delete_teams m.teams org_id (m.teams, m.team_members) in
    if is_some (get m.orgs org_id)
    then (
      record {
        orgs = remove m.orgs org_id;
        teams = ts;
        org_members = remove m.org_members org_id;
        team_members = ms;
        invitations = drop_where (invites_to org_id) m.invitations;
      },
      none,
    )
    else (m, some OrgError.org_not_found)

abbrev pub add_found {ℓ} : {A : Type ℓ} → Option A → List A → List A
add_found none xs = xs
add_found (some a) xs = a ∷ xs

-- The visit of ListOrganizations.
unfoldable pub orgs_of : Dict (List OrgMember) → Dict Organization → String → List Organization
orgs_of [] orgs user = []
orgs_of ((id, ms) ∷ rest) orgs user =
    let found = orgs_of rest orgs user in
    if has_user ms user then add_found (get orgs id) found else found

unfoldable pub list_organizations : OrgManager → String → List Organization
list_organizations m user = orgs_of m.org_members m.orgs user
