-- ===== src/Org.antt =====
-- internal/org/org.go: organizations, teams, their members and the invitations. `mod`s of this
-- tree: the state (Model), one module per kind of operation, and the calls in sequence (Calls).
pub mod Model
pub mod Organizations
pub mod Teams
pub mod Members
pub mod Invitations
pub mod Calls
pub mod Owners
pub mod Invariant
pub mod Histories
pub mod Names
pub mod Removal
pub mod Reuse
