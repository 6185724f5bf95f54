-- ===== src/Auth/Model.antt =====
-- The state of internal/auth/auth.go. A time is in nanoseconds, 0 is the zero time; the random
-- identifiers and tokens and the time of a call are arguments of each operation. The SHA-256 of the
-- Go library is a parameter of the operations that use it.
use redis_meter.Base.{ℕ, Bool, List, [], String, ◌==◌, if◌then◌else◌}
use redis_meter.Base.Int.{ℤ, pos, negsuc}
use redis_meter.Base.Dict.{Dict}
use redis_meter.Base.Text.{Text, codes, is_empty}
use redis_meter.Base.Result.{Result}

-- The types `Role` and `Permission` are strings with named values.
abbrev pub Role : Type 0
Role = String

abbrev pub Permission : Type 0
Permission = String

pub record TeamMembership : Type 0 where
  pub team_id : String
  pub team_name : String
  pub role : Role
  pub joined_at : ℕ

pub record User : Type 0 where
  pub id : String
  pub email : String
  pub name : String
  pub created_at : ℕ
  pub updated_at : ℕ
  pub last_login : ℕ
  pub active : Bool
  pub metadata : Dict String
  pub org_id : String
  pub org_role : Role
  pub teams : List TeamMembership

pub record Token : Type 0 where
  pub access_token : String
  pub token_type : String
  pub expires_at : ℕ
  pub refresh_token : String
  pub scopes : List String

pub record ApiKey : Type 0 where
  pub id : String
  pub user_id : String
  pub name : String
  pub prefix : Text
  pub created_at : ℕ
  pub expires_at : ℕ
  pub last_used_at : ℕ
  pub scopes : List String
  pub active : Bool

pub record Credentials : Type 0 where
  pub email : String
  pub password : String

pub record UserRecord : Type 0 where
  pub user : User
  pub password_hash : String

pub record TokenRecord : Type 0 where
  pub user_id : String
  pub expires_at : ℕ
  pub scopes : List String

pub record ApiKeyRecord : Type 0 where
  pub api_key : ApiKey
  pub key_hash : String

pub record LocalAuthConfig : Type 0 where
  pub token_ttl : ℤ
  pub refresh_ttl : ℤ
  pub api_key_prefix : Text

pub record LocalAuthProvider : Type 0 where
  pub users : Dict UserRecord
  pub tokens : Dict TokenRecord
  pub api_keys : Dict ApiKeyRecord
  pub token_ttl : ℤ
  pub refresh_ttl : ℤ
  pub api_key_prefix : Text

pub data AuthError : Type 0 where
  invalid_credentials user_not_found user_disabled : AuthError
  token_expired token_invalid permission_denied : AuthError
  api_key_expired api_key_disabled : AuthError
  user_exists key_not_found : String → AuthError
  no_random_bytes : AuthError

abbrev pub Answer {ℓ} : Type ℓ → Type ℓ
Answer A = Result AuthError A

unfoldable pub default_local_auth_config : LocalAuthConfig
default_local_auth_config = record {
  token_ttl = pos 3600000000000;
  refresh_ttl = pos 604800000000000;
  api_key_prefix = codes "rm_";
}

abbrev pub or_default : ℤ → ℕ → ℤ
or_default (pos n) d = if n == 0 then pos d else pos n
or_default (negsuc n) d = negsuc n

unfoldable pub new_local_auth_provider : LocalAuthConfig → LocalAuthProvider
new_local_auth_provider c = record {
  users = [];
  tokens = [];
  api_keys = [];
  token_ttl = or_default c.token_ttl 3600000000000;
  refresh_ttl = or_default c.refresh_ttl 604800000000000;
  api_key_prefix = if is_empty c.api_key_prefix then codes "rm_" else c.api_key_prefix;
}
