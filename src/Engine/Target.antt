-- ===== src/Engine/Target.antt =====
-- internal/engine/engine.go: parseTargetURL. `parse` is url.Parse.
use redis_meter.Base.{Bool, true, ◌||◌, Option, none, some, ◌++◌, String, str_eq, if◌then◌else◌}
use redis_meter.Base.Int.{ℤ, pos}
use redis_meter.Base.Text.{Text, codes, is_empty, contains_text, atoi}
use redis_meter.Domain.{Target}

-- `user` is the name and, if it is set, the password.
pub record Url : Type 0 where
  pub scheme : String
  pub hostname : String
  pub port : Text
  pub user : Option (String × Option String)

unfoldable pub with_scheme : Text → Text
with_scheme raw = if contains_text raw (codes "://") then raw else codes "redis://" ++ raw

unfoldable pub target_port : Text → Option ℤ
target_port port =
    if is_empty port then some (pos 6379) else (if (atoi port).1 then some (atoi port).0 else none)

-- The name and the password of the target; a name alone is the password.
abbrev pub credentials : Option (String × Option String) → String × String
credentials none = ("", "")
credentials (some (name, none)) = ("", name)
credentials (some (name, some password)) = (name, password)

unfoldable pub is_cluster : Text → Url → Bool
is_cluster raw u = str_eq u.scheme "redis+cluster" || contains_text raw (codes "cluster=true")

unfoldable pub is_tls : Text → Url → Bool
is_tls raw u = str_eq u.scheme "rediss" || contains_text raw (codes "tls=true")

unfoldable pub target_at : Text → Url → ℤ → Target
target_at raw u port = record {
  url = raw;
  host = u.hostname;
  port = port;
  password = (credentials u.user).1;
  username = (credentials u.user).0;
  tls_enabled = if is_tls raw u then some true else none;
  cluster = is_cluster raw u;
}

abbrev pub target_of : Text → Option Url → Option Target
target_of raw none = none
target_of raw (some u) = elim (target_port u.port) [
  | none ↦ none
  | some port ↦ some (target_at raw u port)
]

unfoldable pub parse_target_url : (Text → Option Url) → Text → Option Target
parse_target_url parse raw = target_of (with_scheme raw) (parse (with_scheme raw))
