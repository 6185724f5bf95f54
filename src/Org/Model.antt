-- ===== src/Org/Model.antt =====
-- The state of internal/org/org.go. The identifiers and tokens that the code draws at random and
-- the time of a call are arguments of each operation; a call that reads the clock twice reads one
-- time. A time is in nanoseconds, 0 is the zero time. A member list is a Go slice: the maps of
-- members hold no nil slice, so nil is a missing key.
use redis_meter.Base.{ℕ, Bool, List, [], String, str_eq, any}
use redis_meter.Base.Int.{ℤ, Decimal}
use redis_meter.Base.Dict.{Dict}
use redis_meter.Base.Result.{Result}

pub record OrgSettings : Type 0 where
  pub default_storage_backend : String
  pub storage_quota_mb : ℤ
  pub require_mfa : Bool
  pub session_timeout_minutes : ℤ
  pub api_key_max_days : ℤ
  pub allow_public_baselines : Bool
  pub allow_external_sharing : Bool
  pub default_throughput_threshold : Decimal
  pub default_latency_threshold : Decimal

pub record Organization : Type 0 where
  pub id : String
  pub name : String
  pub display_name : String
  pub description : String
  pub created_at : ℕ
  pub updated_at : ℕ
  pub settings : OrgSettings
  pub metadata : Dict String

pub record TeamSettings : Type 0 where
  pub share_baselines_with_org : Bool
  pub notify_on_regression : Bool
  pub notification_emails : List String
  pub slack_webhook : String
  pub allow_guest_access : Bool

pub record Team : Type 0 where
  pub id : String
  pub org_id : String
  pub name : String
  pub display_name : String
  pub description : String
  pub created_at : ℕ
  pub updated_at : ℕ
  pub settings : TeamSettings
  pub metadata : Dict String

-- The type `Role` is a string with four named values.
abbrev pub Role : Type 0
Role = String

abbrev pub role_owner : Role
role_owner = "owner"

abbrev pub role_admin : Role
role_admin = "admin"

abbrev pub role_member : Role
role_member = "member"

abbrev pub role_viewer : Role
role_viewer = "viewer"

pub record OrgMember : Type 0 where
  pub org_id : String
  pub user_id : String
  pub email : String
  pub name : String
  pub role : Role
  pub joined_at : ℕ
  pub invited_by : String

pub record TeamMember : Type 0 where
  pub team_id : String
  pub user_id : String
  pub email : String
  pub name : String
  pub role : Role
  pub joined_at : ℕ

pub record Invitation : Type 0 where
  pub id : String
  pub org_id : String
  pub team_id : String
  pub email : String
  pub role : Role
  pub invited_by : String
  pub created_at : ℕ
  pub expires_at : ℕ
  pub accepted_at : ℕ
  pub token : String

pub record OrgManager : Type 0 where
  pub orgs : Dict Organization
  pub teams : Dict Team
  pub org_members : Dict (List OrgMember)
  pub team_members : Dict (List TeamMember)
  pub invitations : Dict Invitation

pub data OrgError : Type 0 where
  org_not_found team_not_found member_not_found : OrgError
  org_name_taken team_name_taken already_member cannot_remove_owner : OrgError
  not_org_member : OrgError
  invitation_not_found invitation_expired email_mismatch : OrgError

-- What a call answers; an operation returns it with the state it leaves.
abbrev pub Answer {ℓ} : Type ℓ → Type ℓ
Answer A = Result OrgError A

-- The test of a loop that looks for a user in an organization; in a team.
unfoldable pub has_user : List OrgMember → String → Bool
has_user ms user = any (λ m. str_eq m.user_id user) ms

unfoldable pub in_team : List TeamMember → String → Bool
in_team ms user = any (λ m. str_eq m.user_id user) ms

unfoldable pub new_org_manager : OrgManager
new_org_manager = record {
  orgs = [];
  teams = [];
  org_members = [];
  team_members = [];
  invitations = [];
}
