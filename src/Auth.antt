-- ===== src/Auth.antt =====
-- internal/auth/auth.go: users, their sessions and API keys (Model, Local) and the permissions of
-- roles (Roles).
pub mod Model
pub mod Local
pub mod Roles
pub mod Sessions
pub mod Keys
