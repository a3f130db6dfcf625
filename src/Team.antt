-- ===== src/Team.antt =====
-- The members of a workspace and the invitations to it.
pub mod Store
pub mod Members
pub mod Owners
pub mod Keeping
pub mod Joining
