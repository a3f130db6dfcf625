-- ===== src/Review.antt =====
-- The review portal, where a brand answers by a link that it was sent.
pub mod Portal
pub mod LinkStore
pub mod Links
pub mod Handover
pub mod LinkRuns
pub mod LinkRows
pub mod Lasting
pub mod Answers
pub mod Order
