-- ===== src/Campaign.antt =====
-- The campaign component of the API gateway: its data (Types), the SQL table (Store, Repo), the
-- use case's lifecycle operations (Lifecycle) and what they guarantee (the other children).
pub mod Answers
pub mod Types
pub mod Task
pub mod Store
pub mod Repo
pub mod Audience
pub mod Lifecycle
pub mod Dispatch
pub mod Deliveries
pub mod Quiet
pub mod Edges
pub mod Moves
pub mod Machine
pub mod Approval
pub mod Revision
pub mod Sending
pub mod Preflight
pub mod Skipped
pub mod Forecast
pub mod Sent
pub mod Receipts
pub mod Retry
pub mod Stats
pub mod Breakdown
