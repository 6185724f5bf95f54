-- ===== src/Auth/Keys.antt =====
-- The API keys of internal/auth/auth.go once one is revoked, and the users' identifiers.
use redis_meter.Base.{
  ℕ, true, false, Option, none, some, [], ◌∷◌, ◌≡◌, ◌≢◌, refl, subst, sym, ap, ◌∙◌, String, arith,
  inl, inr, Bool-cases, Option-cases,
}
use redis_meter.Base.Dict.{Dict, get, is_some, find_where, EveryValue}
use redis_meter.Base.Keyed.{IsKeyed, put-IsKeyed, find_where-IsKeyed, put-EveryValue_keyed}
use redis_meter.Base.Text.{Text}
use redis_meter.Base.Result.{ok, err, Result-cases}
use redis_meter.Auth.Model.{
  User, ApiKey, Credentials, UserRecord, ApiKeyRecord, LocalAuthProvider, Answer,
}
use redis_meter.Auth.Local.{
  has_email, new_user, create_user, touch_login, open_session, login, logged_in, authenticate,
  revoked, revoke_api_key, has_hash, find_key, use_key, stamped, validate_api_key,
}
use redis_meter.Auth.Sessions.{user_key, authenticate_found}

-- An API key's record stands under the key's identifier.
abbrev pub key_id : ApiKeyRecord → String
key_id r = r.api_key.id

-- `id` is revoked: a record with this identifier is not active.
abbrev pub IsRevoked : String → LocalAuthProvider → Type 0
IsRevoked id p = EveryValue (λ r. key_id r ≡ id → r.api_key.active ≡ false) p.api_keys

find_key-EveryValue :
    (hash : Text → String) (P : ApiKeyRecord → Type 0) (d : Dict ApiKeyRecord) (key : Text)
    (id : String) (r : ApiKeyRecord)
    → EveryValue P d
    → find_key hash d key ≡ some (id, r)
    → P r
unfolding find_key
find_key-EveryValue hash P [] key id r h e = absurd (ground (arith, e))
find_key-EveryValue hash P ((j, w) ∷ d) key id r h e = elim (Bool-cases (has_hash hash key w)) [
  | inl f ↦ subst P (ground (arith, e, f)) h.0
  | inr f ↦ find_key-EveryValue hash P d key id r h.1 (ground (arith, e, f))
]

abbrev answered_id : Answer (User × ApiKey) → Option String
answered_id (ok (u, k)) = some k.id
answered_id (err e) = none

-- What a use of a key answers, if it answers with a key, has the identifier of an active record.
use_key-active :
    (p : LocalAuthProvider) (now : ℕ) (r : ApiKeyRecord) (id : String)
    → answered_id (use_key p now r) ≡ some id
    → (r.api_key.active ≡ true) × (key_id r ≡ id)
use_key-active p now r id e = ground (arith, e)

stamped-answer :
    (p : LocalAuthProvider) (id : String) (r : ApiKeyRecord) (a : Answer (User × ApiKey))
    → (stamped p id r a).1 ≡ a
stamped-answer p id r (ok (u, k)) = refl
stamped-answer p id r (err e) = refl

validate_api_key-active :
    (hash : Text → String) (P : ApiKeyRecord → Type 0) (p : LocalAuthProvider) (now : ℕ)
    (key : Text) (id : String)
    → EveryValue P p.api_keys
    → answered_id (validate_api_key hash p now key).1 ≡ some id
    → (r : ApiKeyRecord) × P r × (r.api_key.active ≡ true) × (key_id r ≡ id)
unfolding validate_api_key
validate_api_key-active hash P p now key id h e =
    elim (Option-cases (find_key hash p.api_keys key)) [
      | inl x ↦ absurd (ground (arith, e, x))
      | inr ((j, r), x) ↦
          let y : (validate_api_key hash p now key).1 ≡ use_key p now r =
            rw (x, validate_api_key) (stamped-answer p j r (use_key p now r)) in
          let (a, b) = use_key-active p now r id (ap answered_id (sym y) ∙ e) in
          (r, find_key-EveryValue hash P p.api_keys key j r h x, a, b)
    ]

-- Right after RevokeAPIKey has answered without an error, no API key text is answered with the
-- revoked key, whatever the hash function. The keys are stored under their identifiers.
pub revoke_effect :
    (hash : Text → String) (p : LocalAuthProvider) (now : ℕ) (id : String) (key : Text) (u : User)
    (k : ApiKey)
    → IsKeyed key_id p.api_keys
    → (revoke_api_key p id).1 ≡ none
    → (validate_api_key hash (revoke_api_key p id).0 now key).1 ≡ ok (u, k)
    → k.id ≢ id
unfolding revoke_api_key
revoke_effect hash p now id key u k h e f g = elim (Option-cases (get p.api_keys id)) [
  | inl x ↦ absurd (ground (arith, e, x))
  | inr (r, x) ↦
      let gone : IsRevoked id (revoke_api_key p id).0 =
        rw (x, revoke_api_key)
          (put-EveryValue_keyed key_id (λ r. r.api_key.active ≡ false) p.api_keys id r (revoked r) h
            x refl) in
      let (w, n, a, b) =
        validate_api_key-active hash _ (revoke_api_key p id).0 now key k.id gone
          (ap answered_id f) in
      absurd (ground (arith, a, n (b ∙ g)))
]

-- The operations that store users keep them under their identifiers.
pub create_user-IsKeyed :
    (hash : String → String) (p : LocalAuthProvider) (now : ℕ) (id email password name : String)
    → IsKeyed user_key p.users
    → IsKeyed user_key (create_user hash p now id email password name).0.users
unfolding create_user new_user
create_user-IsKeyed hash p now id email password name h =
    elim (Bool-cases (is_some (find_where (has_email email) p.users))) [
      | inl e ↦ rw (e, create_user) h
      | inr e ↦ rw (e, create_user) (put-IsKeyed user_key p.users id _ refl h)
    ]

touch_login-IsKeyed :
    (p : LocalAuthProvider) (now : ℕ) (r : UserRecord)
    → IsKeyed user_key p.users
    → get p.users r.user.id ≡ some r
    → IsKeyed user_key (touch_login p now r.user.id)
unfolding touch_login
touch_login-IsKeyed p now r h e =
    rw (e, touch_login) (put-IsKeyed user_key p.users r.user.id (logged_in r now) refl h)

pub login-IsKeyed :
    (hash : String → String) (p : LocalAuthProvider) (now : ℕ) (access refresh : String)
    (c : Credentials)
    → IsKeyed user_key p.users
    → IsKeyed user_key (login hash p now access refresh c).0.users
unfolding login open_session
login-IsKeyed hash p now access refresh c h = elim (Result-cases (authenticate hash p c)) [
  | inl (r, e) ↦
      rw (e, login)
        (touch_login-IsKeyed p now r h (
          find_where-IsKeyed user_key (has_email c.email) p.users r h
            (authenticate_found hash p c r e).0))
  | inr (x, e) ↦ rw (e, login) h
]
