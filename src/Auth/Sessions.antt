-- ===== src/Auth/Sessions.antt =====
-- The sessions of internal/auth/auth.go: what a login opens, a logout closes and a refresh renews.
use redis_meter.Base.{
  ℕ, true, some, ◌≡◌, ◌≢◌, refl, ap, subst, ◌∙◌, String, str_eq, eq_refl, eq_iff, ltb,
  if◌then◌else◌, arith, inl, inr, Bool-cases, Option-cases,
}
use redis_meter.Base.Int.{later}
use redis_meter.Base.Dict.{get, put, find_where, get-put, get-remove}
use redis_meter.Base.Keyed.{IsKeyed, find_where-IsKeyed}
use redis_meter.Base.Result.{ok, err}
use redis_meter.Auth.Model.{
  User, UserRecord, TokenRecord, Credentials, LocalAuthProvider, AuthError, Answer,
}
use redis_meter.Auth.Local.{
  has_email, authenticate, access_record, refresh_record, bearer, logged_in, touch_login,
  open_session, login, validate_token, logout,
}

-- A user's record stands under the user's identifier.
abbrev pub user_key : UserRecord → String
user_key r = r.user.id

-- Who is authenticated is active, is stored, and gave the e-mail and the password of the record.
pub authenticate_found :
    (hash : String → String) (p : LocalAuthProvider) (c : Credentials) (r : UserRecord)
    → authenticate hash p c ≡ ok r
    → (find_where (has_email c.email) p.users ≡ some r)
      × (r.user.active ≡ true)
      × (str_eq (hash c.password) r.password_hash ≡ true)
unfolding authenticate
authenticate_found hash p c r e = elim (Option-cases (find_where (has_email c.email) p.users)) [
  | inl f ↦ ground (arith, e, f)
  | inr (x, f) ↦ elim (Bool-cases x.user.active) [
    | inl g ↦ elim (Bool-cases (str_eq (hash c.password) x.password_hash)) [
      | inl h ↦
          let y : x ≡ r = ground (arith, e, f, g, h) in
          (
            f ∙ ap some y,
            subst (λ z. z.user.active ≡ true) y g,
            subst (λ z. str_eq (hash c.password) z.password_hash ≡ true) y h,
          )
      | inr h ↦ ground (arith, e, f, g, h)
    ]
    | inr g ↦ ground (arith, e, f, g)
  ]
]

-- What a token of the session answers, until it expires and afterwards.
abbrev pub until : ℕ → ℕ → User → Answer User
until expires now u = if ltb expires now then err AuthError.token_expired else ok u

module _ (p : LocalAuthProvider) (now later_on : ℕ) (access refresh : String) (r : UserRecord) where
  validate_stored :
      (q : LocalAuthProvider) (token : String) (t : TokenRecord)
      → get q.tokens token ≡ some t
      → get q.users t.user_id ≡ some (logged_in r now)
      → r.user.active ≡ true
      → validate_token q later_on token ≡ until t.expires_at later_on (logged_in r now).user
  unfolding validate_token
  validate_stored q token t e f a = ground (arith, e, f, a)

  users-open_session :
      get p.users r.user.id ≡ some r
      → get (open_session p now access refresh r.user.id).0.users r.user.id ≡ some (logged_in r now)
  unfolding open_session touch_login
  users-open_session e =
      rw (e, touch_login) (get-put p.users r.user.id r.user.id _ ∙ rw (eq_refl r.user.id))

  access-open_session :
      access ≢ refresh
      → get (open_session p now access refresh r.user.id).0.tokens access
        ≡ some (access_record p now r.user.id)
  unfolding open_session
  access-open_session n = ground (
    arith,
    eq_iff access access,
    eq_iff refresh access,
    n,
    get-put p.tokens access access (access_record p now r.user.id),
    get-put (put p.tokens access (access_record p now r.user.id)) refresh access
        (refresh_record p now r.user.id),
  )

  refresh-open_session :
      get (open_session p now access refresh r.user.id).0.tokens refresh
      ≡ some (refresh_record p now r.user.id)
  unfolding open_session
  refresh-open_session = get-put _ refresh refresh _ ∙ rw (eq_refl refresh)

-- A login with the right e-mail and password answers with the tokens, and from then on the access
-- token is good for that user until the time to live of the access tokens has passed. So is the
-- refresh token, for the longer time to live of the refresh tokens: ValidateToken takes it in place
-- of an access token. The users are stored under their identifiers, and the two tokens differ.
pub login_effect :
    (hash : String → String) (p : LocalAuthProvider) (now later_on : ℕ) (access refresh : String)
    (c : Credentials) (r : UserRecord)
    → IsKeyed user_key p.users
    → access ≢ refresh
    → authenticate hash p c ≡ ok r
    → let after = login hash p now access refresh c in
      (after.1 ≡ ok (bearer p now access refresh))
      × (validate_token after.0 later_on access
          ≡ until (later now p.token_ttl) later_on (logged_in r now).user)
      × (validate_token after.0 later_on refresh
          ≡ until (later now p.refresh_ttl) later_on (logged_in r now).user)
unfolding login open_session access_record refresh_record
login_effect hash p now later_on access refresh c r k n e =
    let (f, a, _) = authenticate_found hash p c r e in
    let g = find_where-IsKeyed user_key (has_email c.email) p.users r k f in
    let opened = (open_session p now access refresh r.user.id).0 in
    let users = users-open_session p now later_on access refresh r g in
    rw (e, login)
      (
        refl,
        validate_stored p now later_on access refresh r opened access _
            (access-open_session p now later_on access refresh r n) users a,
        validate_stored p now later_on access refresh r opened refresh _
            (refresh-open_session p now later_on access refresh r) users a,
      )

-- After a logout the token is invalid, and every other token answers what it did, also the refresh
-- token of the same session.
pub logout_effect :
    (p : LocalAuthProvider) (now : ℕ) (token other : String)
    → validate_token (logout p token) now other
      ≡ (if str_eq token other then err AuthError.token_invalid else validate_token p now other)
unfolding validate_token logout
logout_effect p now token other = ground (arith, get-remove p.tokens token other)
