-- ===== src/Contact.antt =====
-- The contacts component of the API gateway: the directory of recipients and the ledger of their
-- consent.
pub mod Types
pub mod Consent
pub mod Store
pub mod Directory
pub mod Honoured
pub mod Erasure
pub mod Import
pub mod ImportWrite
pub mod Rows
pub mod Tallies
