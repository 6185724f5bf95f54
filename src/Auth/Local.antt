-- ===== src/Auth/Local.antt =====
-- internal/auth/auth.go: CreateUser, Authenticate, Login, ValidateToken, RefreshToken, Logout, and
-- the API keys: CreateAPIKey, ValidateAPIKey, RevokeAPIKey, ListAPIKeys.
use redis_meter.Base.{
  ℕ, zero, suc, ◌+◌, Bool, true, false, not, ◌&&◌, Option, none, some, List, [], ◌∷◌, ◌++◌, String,
  str_eq, ltb, ◌==◌, if◌then◌else◌, any, length, take,
}
use redis_meter.Base.Int.{ℤ, pos, negsuc, later}
use redis_meter.Base.Dict.{Dict, get, put, remove, is_some, find_where, values_where}
use redis_meter.Base.Text.{Text}
use redis_meter.Base.Result.{ok, err}
use redis_meter.Auth.Model.{
  User, Token, ApiKey, Credentials, UserRecord, TokenRecord, ApiKeyRecord, LocalAuthProvider,
  AuthError, Answer,
}

unfoldable pub has_email : String → UserRecord → Bool
has_email email r = str_eq r.user.email email

unfoldable pub new_user : ℕ → String → String → String → User
new_user now id email name = record {
  id = id;
  email = email;
  name = name;
  created_at = now;
  updated_at = now;
  last_login = 0;
  active = true;
  metadata = [];
  org_id = "";
  org_role = "";
  teams = [];
}

abbrev pub checked : UserRecord → Bool → Answer UserRecord
checked r matches =
    if not r.user.active
    then err AuthError.user_disabled
    else (if matches then ok r else err AuthError.invalid_credentials)

abbrev pub active_user : Option UserRecord → Answer User
active_user none = err AuthError.user_not_found
active_user (some r) = if r.user.active then ok r.user else err AuthError.user_disabled

module _ (hash_password : String → String) where
  unfoldable pub create_user :
      LocalAuthProvider → ℕ → String → String → String → String → LocalAuthProvider × Answer User
  create_user p now id email password name =
      let user = new_user now id email name in
      if is_some (find_where (has_email email) p.users)
      then (p, err (AuthError.user_exists email))
      else (
        record p {
          users = put p.users id (record { user = user; password_hash = hash_password password });
        },
        ok user,
      )

  unfoldable pub authenticate : LocalAuthProvider → Credentials → Answer UserRecord
  authenticate p c = elim (find_where (has_email c.email) p.users) [
    | none ↦ err AuthError.invalid_credentials
    | some r ↦ checked r (str_eq (hash_password c.password) r.password_hash)
  ]

unfoldable pub access_record : LocalAuthProvider → ℕ → String → TokenRecord
access_record p now user_id = record {
  user_id = user_id;
  expires_at = later now p.token_ttl;
  scopes = "*" ∷ [];
}

unfoldable pub refresh_record : LocalAuthProvider → ℕ → String → TokenRecord
refresh_record p now user_id = record {
  user_id = user_id;
  expires_at = later now p.refresh_ttl;
  scopes = "refresh" ∷ [];
}

unfoldable pub bearer : LocalAuthProvider → ℕ → String → String → Token
bearer p now access refresh = record {
  access_token = access;
  token_type = "Bearer";
  expires_at = later now p.token_ttl;
  refresh_token = refresh;
  scopes = "*" ∷ [];
}

abbrev pub logged_in : UserRecord → ℕ → UserRecord
logged_in r now = record r { user = record r.user { last_login = now } }

unfoldable pub touch_login : LocalAuthProvider → ℕ → String → Dict UserRecord
touch_login p now id = elim (get p.users id) [
  | none ↦ p.users
  | some r ↦ put p.users id (logged_in r now)
]

-- What Login does for a user who has been authenticated.
unfoldable pub open_session :
    LocalAuthProvider → ℕ → String → String → String → LocalAuthProvider × Answer Token
open_session p now access refresh id = (
  record p {
    users = touch_login p now id;
    tokens = put (put p.tokens access (access_record p now id)) refresh (refresh_record p now id);
  },
  ok (bearer p now access refresh),
)

unfoldable pub login :
    (String → String)
    → LocalAuthProvider
    → ℕ
    → String
    → String
    → Credentials
    → LocalAuthProvider × Answer Token
login hash p now access refresh c = elim (authenticate hash p c) [
  | err e ↦ (p, err e)
  | ok r ↦ open_session p now access refresh r.user.id
]

unfoldable pub validate_token : LocalAuthProvider → ℕ → String → Answer User
validate_token p now token = elim (get p.tokens token) [
  | none ↦ err AuthError.token_invalid
  | some t ↦
      if ltb t.expires_at now
      then err AuthError.token_expired
      else active_user (get p.users t.user_id)
]

unfoldable pub is_refresh : TokenRecord → Bool
is_refresh t = any (λ s. str_eq s "refresh") t.scopes

-- `fresh` is the new access token.
unfoldable pub refresh_token :
    LocalAuthProvider → ℕ → String → String → LocalAuthProvider × Answer Token
refresh_token p now fresh token = elim (get p.tokens token) [
  | none ↦ (p, err AuthError.token_invalid)
  | some t ↦
      if ltb t.expires_at now
      then (record p { tokens = remove p.tokens token }, err AuthError.token_expired)
      else (if is_refresh t
          then (
            record p { tokens = put p.tokens fresh (access_record p now t.user_id) },
            ok (bearer p now fresh token),
          )
          else (p, err AuthError.token_invalid))
]

unfoldable pub logout : LocalAuthProvider → String → LocalAuthProvider
logout p token = record p { tokens = remove p.tokens token }

abbrev pub expiry : ℕ → ℤ → ℕ
expiry now (pos zero) = 0
expiry now (pos (suc n)) = later now (pos (suc n))
expiry now (negsuc n) = 0

unfoldable pub new_api_key :
    LocalAuthProvider → ℕ → String → String → String → List String → ℤ → Text → ApiKey
new_api_key p now id user_id name scopes expires_in raw = record {
  id = id;
  user_id = user_id;
  name = name;
  prefix = take (length p.api_key_prefix + 8) raw;
  created_at = now;
  expires_at = expiry now expires_in;
  last_used_at = 0;
  scopes = scopes;
  active = true;
}

-- The user of a key's record, and the key once it has been used.
abbrev pub key_user : ℕ → Option UserRecord → ApiKeyRecord → Answer (User × ApiKey)
key_user now none r = err AuthError.user_not_found
key_user now (some u) r =
    if u.user.active
    then ok (u.user, record r.api_key { last_used_at = now })
    else err AuthError.user_disabled

abbrev pub use_key : LocalAuthProvider → ℕ → ApiKeyRecord → Answer (User × ApiKey)
use_key p now r =
    if not r.api_key.active
    then err AuthError.api_key_disabled
    else (if not (r.api_key.expires_at == 0) && ltb r.api_key.expires_at now
        then err AuthError.api_key_expired
        else key_user now (get p.users r.api_key.user_id) r)

abbrev pub stamped :
    LocalAuthProvider
    → String
    → ApiKeyRecord
    → Answer (User × ApiKey)
    → LocalAuthProvider × Answer (User × ApiKey)
stamped p id r (err e) = (p, err e)
stamped p id r (ok (u, k)) =
    (record p { api_keys = put p.api_keys id (record r { api_key = k }) }, ok (u, k))

-- `drawn` is the text of the random bytes, `none` if there are none.
module _ (hash_api_key : Text → String) where
  unfoldable pub create_api_key :
      LocalAuthProvider
      → ℕ
      → String
      → Option Text
      → String
      → String
      → List String
      → ℤ
      → LocalAuthProvider × Answer (ApiKey × Text)
  create_api_key p now id drawn user_id name scopes expires_in =
      if is_some (get p.users user_id)
      then elim drawn [
        | none ↦ (p, err AuthError.no_random_bytes)
        | some text ↦
            let raw = p.api_key_prefix ++ text in
            let key = new_api_key p now id user_id name scopes expires_in raw in
            (
              record p {
                api_keys =
                    put p.api_keys id (record { api_key = key; key_hash = hash_api_key raw });
              },
              ok (key, raw),
            )
      ]
      else (p, err AuthError.user_not_found)

  unfoldable pub has_hash : Text → ApiKeyRecord → Bool
  has_hash key r = str_eq r.key_hash (hash_api_key key)

  unfoldable pub find_key : Dict ApiKeyRecord → Text → Option (String × ApiKeyRecord)
  find_key [] key = none
  find_key ((id, r) ∷ d) key =
      let rest = find_key d key in if has_hash key r then some (id, r) else rest

  unfoldable pub validate_api_key :
      LocalAuthProvider → ℕ → Text → LocalAuthProvider × Answer (User × ApiKey)
  validate_api_key p now key = elim (find_key p.api_keys key) [
    | none ↦ (p, err AuthError.token_invalid)
    | some (id, r) ↦ stamped p id r (use_key p now r)
  ]

abbrev pub revoked : ApiKeyRecord → ApiKeyRecord
revoked r = record r { api_key = record r.api_key { active = false } }

unfoldable pub revoke_api_key : LocalAuthProvider → String → LocalAuthProvider × Option AuthError
revoke_api_key p id = elim (get p.api_keys id) [
  | none ↦ (p, some (AuthError.key_not_found id))
  | some r ↦ (record p { api_keys = put p.api_keys id (revoked r) }, none)
]

unfoldable pub belongs_to : String → ApiKeyRecord → Bool
belongs_to user_id r = str_eq r.api_key.user_id user_id

unfoldable pub list_api_keys : LocalAuthProvider → String → List ApiKeyRecord
list_api_keys p user_id = values_where (belongs_to user_id) p.api_keys
