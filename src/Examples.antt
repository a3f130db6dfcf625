-- ===== src/Examples.antt =====
-- The theorems at work on a small workspace.
mod World
mod Campaigns
mod Sending
mod Contacts
mod Limits
mod Team
mod Review
mod Workers
mod Billing
mod Vault
mod Inbox
mod Links
