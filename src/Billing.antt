-- ===== src/Billing.antt =====
-- Subscriptions: the plans and the row of a workspace (Types), the table of repository/
-- postgres_subscription.go (Store), and the events of the payment providers that
-- usecase/billing_usecase.go applies to it (Webhooks, Checkout).
pub mod Types
pub mod Store
pub mod Signatures
pub mod Webhooks
pub mod Lookups
pub mod Plans
pub mod Hooks
pub mod Moves
pub mod Effects
pub mod Refinement
pub mod Stale
pub mod Checkout
