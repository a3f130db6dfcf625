-- ===== src/Inbox.antt =====
-- The shared inbox of a workspace: conversations and their messages.
pub mod Types
pub mod Store
pub mod Messages
pub mod Platforms
pub mod Replies
pub mod Kept
pub mod Frames
pub mod Arrivals
pub mod Statements
pub mod Handlers
pub mod Machine
pub mod Once
pub mod Unsent
