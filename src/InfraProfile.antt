-- ===== src/InfraProfile.antt =====
-- internal/infraprofile: the profiles (Model, Predefined), their validation (Validation) and the
-- store of profiles in files (Store).
pub mod Model
pub mod Predefined
pub mod Validation
pub mod Store
pub mod Moves
pub mod Names
pub mod Refines
