-- ===== src/Auth/Roles/Ranks.antt =====
-- The permissions of internal/auth/auth.go as a scale of ranks.
use redis_meter.Base.{
  ℕ, Bool, none, some, ◌≡◌, String, str_eq, leb, if◌then◌else◌, any, arith, inl, inr, Bool-cases,
}
use redis_meter.Auth.Model.{Role, Permission, User, AuthError}
use redis_meter.Auth.Roles.{
  owner_permissions, admin_permissions, member_permissions, viewer_permissions, role_permissions,
  get_permissions, has_permission, run_permission, permission_for, check_resource_access,
}

unfoldable pub rank : Role → ℕ
rank role =
    if str_eq role "owner"
    then 4
    else (if str_eq role "admin"
        then 3
        else (if str_eq role "member" then 2 else (if str_eq role "viewer" then 1 else 0)))

unfoldable pub needed_of_run : String → ℕ
needed_of_run action =
    if str_eq action "create"
    then 2
    else (if str_eq action "read"
        then 1
        else (if str_eq action "update" then 2 else (if str_eq action "delete" then 3 else 5)))

-- The least rank for an action on a resource; 5 is above every rank.
unfoldable pub needed : String → String → ℕ
needed resource action =
    if str_eq resource "run"
    then needed_of_run action
    else (if str_eq resource "baseline"
        then 2
        else (if str_eq resource "team" then 3 else (if str_eq resource "org" then 4 else 5)))

abbrev holds : Role → Permission → Bool
holds role p = any (λ q. str_eq q p) (role_permissions role)

module _ (role : Role) where
  holds_create : holds role "run:create" ≡ leb 2 (rank role)
  unfolding any role_permissions owner_permissions admin_permissions member_permissions
      viewer_permissions rank
  holds_create = ground arith

  holds_read : holds role "run:read" ≡ leb 1 (rank role)
  unfolding any role_permissions owner_permissions admin_permissions member_permissions
      viewer_permissions rank
  holds_read = ground arith

  holds_update : holds role "run:update" ≡ leb 2 (rank role)
  unfolding any role_permissions owner_permissions admin_permissions member_permissions
      viewer_permissions rank
  holds_update = ground arith

  holds_delete : holds role "run:delete" ≡ leb 3 (rank role)
  unfolding any role_permissions owner_permissions admin_permissions member_permissions
      viewer_permissions rank
  holds_delete = ground arith

  holds_baseline : holds role "baseline:manage" ≡ leb 2 (rank role)
  unfolding any role_permissions owner_permissions admin_permissions member_permissions
      viewer_permissions rank
  holds_baseline = ground arith

  holds_team : holds role "team:manage" ≡ leb 3 (rank role)
  unfolding any role_permissions owner_permissions admin_permissions member_permissions
      viewer_permissions rank
  holds_team = ground arith

  holds_org : holds role "org:manage" ≡ leb 4 (rank role)
  unfolding any role_permissions owner_permissions admin_permissions member_permissions
      viewer_permissions rank
  holds_org = ground arith

  holds_none : holds role "" ≡ leb 5 (rank role)
  unfolding any role_permissions owner_permissions admin_permissions member_permissions
      viewer_permissions rank
  holds_none = ground arith

  holds-run_permission :
      (action : String)
      → holds role (run_permission action) ≡ leb (needed_of_run action) (rank role)
  unfolding run_permission needed_of_run
  holds-run_permission action = elim (Bool-cases (str_eq action "create")) [
    | inl e ↦ rw (e, run_permission) holds_create
    | inr e ↦ elim (Bool-cases (str_eq action "read")) [
      | inl f ↦ rw (e, f, run_permission) holds_read
      | inr f ↦ elim (Bool-cases (str_eq action "update")) [
        | inl g ↦ rw (e, f, g, run_permission) holds_update
        | inr g ↦ elim (Bool-cases (str_eq action "delete")) [
          | inl h ↦ rw (e, f, g, h, run_permission) holds_delete
          | inr h ↦ rw (e, f, g, h, run_permission) holds_none
        ]
      ]
    ]
  ]

  holds-permission_for :
      (resource action : String)
      → holds role (permission_for resource action) ≡ leb (needed resource action) (rank role)
  unfolding permission_for needed
  holds-permission_for resource action = elim (Bool-cases (str_eq resource "run")) [
    | inl e ↦ rw (e, permission_for) (holds-run_permission action)
    | inr e ↦ elim (Bool-cases (str_eq resource "baseline")) [
      | inl f ↦ rw (e, f, permission_for) holds_baseline
      | inr f ↦ elim (Bool-cases (str_eq resource "team")) [
        | inl g ↦ rw (e, f, g, permission_for) holds_team
        | inr g ↦ elim (Bool-cases (str_eq resource "org")) [
          | inl h ↦ rw (e, f, g, h, permission_for) holds_org
          | inr h ↦ rw (e, f, g, h, permission_for) holds_none
        ]
      ]
    ]
  ]

-- A user gets access to a resource exactly if the rank of the role, owner over admin over member over
-- viewer over any other, reaches what the action needs: every role of the four reads a run, a member
-- also creates and updates runs and manages baselines, an admin also deletes runs and manages teams,
-- an owner also manages the organization, and nobody does anything else.
pub check_resource_access_iff :
    (u : User) (resource action : String)
    → check_resource_access (some u) resource action ≡ (
        if leb (needed resource action) (rank u.org_role)
        then none
        else some AuthError.permission_denied)
unfolding check_resource_access has_permission get_permissions
check_resource_access_iff u resource action =
    ground (arith, holds-permission_for u.org_role resource action)
