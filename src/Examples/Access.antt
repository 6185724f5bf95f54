-- ===== src/Examples/Access.antt =====
-- The theorems on internal/auth at one user with an API key.
use redis_meter.Base.{
  ◌≡◌, ◌≢◌, refl, true, none, some, [], ◌∷◌, String, arith, eq_iff, if◌then◌else◌, leb,
}
use redis_meter.Base.Int.{pos, later}
use redis_meter.Base.Dict.{get, put, find_where}
use redis_meter.Base.Text.{Text, codes, is_empty}
use redis_meter.Auth.Model.{UserRecord, ApiKey, Credentials, AuthError, LocalAuthProvider}
use redis_meter.Auth.Local.{
  new_user, has_email, find_key, has_hash, authenticate, login, validate_token, logged_in,
  revoke_api_key, validate_api_key,
}
use redis_meter.Auth.Roles.{check_resource_access}
use redis_meter.Auth.Roles.Ranks.{rank, needed, check_resource_access_iff}
use redis_meter.Auth.Sessions.{until, login_effect}
use redis_meter.Auth.Keys.{revoke_effect}

-- A hash that tells every password apart.
abbrev plain : String → String
plain s = s

abbrev ann : UserRecord
ann = record {
  user = record (new_user 1 "u1" "ann@acme.org" "Ann") { org_role = "admin" };
  password_hash = "pw";
}

abbrev key : ApiKey
key = record {
  id = "k1";
  user_id = "u1";
  name = "ci";
  prefix = codes "rm_abcdefgh";
  created_at = 1;
  expires_at = 0;
  last_used_at = 0;
  scopes = [];
  active = true;
}

abbrev second : ApiKey
second = record key { id = "k2" }

-- The empty text has one hash and all others another.
abbrev two_hashes : Text → String
two_hashes t = if is_empty t then "h" else "g"

abbrev provider : LocalAuthProvider
provider = record {
  users = ("u1", ann) ∷ [];
  tokens = [];
  api_keys =
      ("k1", record { api_key = key; key_hash = "h" })
      ∷ ("k2", record { api_key = second; key_hash = "g" })
      ∷ [];
  token_ttl = pos 3600;
  refresh_ttl = pos 604800;
  api_key_prefix = codes "rm_";
}

abbrev sign_in : Credentials
sign_in = record { email = "ann@acme.org"; password = "pw" }

-- A day after the login the access token has expired and the refresh token is still taken.
login_effect_example :
    validate_token (login plain provider 10 "a" "r" sign_in).0 86400 "r"
    ≡ until (later 10 provider.refresh_ttl) 86400 (logged_in ann 10).user
unfolding authenticate new_user get find_where has_email
login_effect_example =
    (login_effect plain provider 10 86400 "a" "r" sign_in ann (refl, refl, tt)
      (ground (arith, eq_iff "a" "r")) refl).2

revoke_effect_example : (record second { last_used_at = 30 }).id ≢ "k1"
unfolding revoke_api_key validate_api_key find_key has_hash get put new_user
revoke_effect_example =
    revoke_effect two_hashes provider 30 "k1" (codes "rm_x") ann.user
      (record second { last_used_at = 30 }) (refl, refl, (refl, refl, tt)) refl refl

check_resource_access_iff_example : check_resource_access (some ann.user) "run" "delete" ≡ (
    if leb (needed "run" "delete") (rank "admin") then none else some AuthError.permission_denied)
check_resource_access_iff_example = check_resource_access_iff ann.user "run" "delete"
