-- ===== src/Auth/Roles.antt =====
-- internal/auth/auth.go: RBACAuthorizer, whose map from a role to its permissions is a function. The
-- resource's identifier is not read. A missing user is `none`.
pub mod Ranks
use redis_meter.Base.{
  Bool, false, not, Option, none, some, List, [], ◌∷◌, String, str_eq, if◌then◌else◌, any,
}
use redis_meter.Auth.Model.{Role, Permission, User, AuthError}

unfoldable pub owner_permissions : List Permission
owner_permissions =
    "run:create" ∷ "run:read" ∷ "run:update" ∷ "run:delete" ∷ "baseline:manage" ∷ "team:manage"
    ∷ "org:manage" ∷ "apikey:manage" ∷ "audit:read" ∷ []

unfoldable pub admin_permissions : List Permission
admin_permissions =
    "run:create" ∷ "run:read" ∷ "run:update" ∷ "run:delete" ∷ "baseline:manage" ∷ "team:manage"
    ∷ "apikey:manage" ∷ "audit:read" ∷ []

unfoldable pub member_permissions : List Permission
member_permissions =
    "run:create" ∷ "run:read" ∷ "run:update" ∷ "baseline:manage" ∷ "apikey:manage" ∷ []

unfoldable pub viewer_permissions : List Permission
viewer_permissions = "run:read" ∷ []

-- The map of NewRBACAuthorizer; another role has no permissions.
unfoldable pub role_permissions : Role → List Permission
role_permissions role =
    if str_eq role "owner"
    then owner_permissions
    else (if str_eq role "admin"
        then admin_permissions
        else (if str_eq role "member"
            then member_permissions
            else (if str_eq role "viewer" then viewer_permissions else [])))

unfoldable pub get_permissions : Option User → List Permission
get_permissions none = []
get_permissions (some u) = role_permissions u.org_role

unfoldable pub has_permission : Option User → Permission → Bool
has_permission none permission = false
has_permission (some u) permission = any (λ p. str_eq p permission) (get_permissions (some u))

unfoldable pub run_permission : String → Permission
run_permission action =
    if str_eq action "create"
    then "run:create"
    else (if str_eq action "read"
        then "run:read"
        else (if str_eq action "update"
            then "run:update"
            else (if str_eq action "delete" then "run:delete" else "")))

-- The empty permission if the switch has no case.
unfoldable pub permission_for : String → String → Permission
permission_for resource action =
    if str_eq resource "run"
    then run_permission action
    else (if str_eq resource "baseline"
        then "baseline:manage"
        else (if str_eq resource "team"
            then "team:manage"
            else (if str_eq resource "org" then "org:manage" else "")))

unfoldable pub check_resource_access : Option User → String → String → Option AuthError
check_resource_access user resource action =
    if not (has_permission user (permission_for resource action))
    then some AuthError.permission_denied
    else none
