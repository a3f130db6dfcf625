-- ===== src/Lib.antt =====
-- OmniPulse is a platform for broadcast messages: agencies keep a directory of contacts, write
-- campaigns that their brands review, and send them by WhatsApp and Telegram. This library models
-- the core of its API gateway (apps/api-gateway/internal) and of the contracts that it shares with
-- its workers (shared/contracts), and proves what makes that core correct.
--
-- How the parts interact: a use case (usecase/) reads and changes tables through a repository
-- (repository/), publishes tasks on an event stream, and is told by the workers, by the same
-- stream, what came of each task. The handlers in front of it decode requests and are not modelled.
--
-- Files:
-- - Base: library names, Boolean tests on numbers (Tests), lists (Lists), signed integers (Int), Go
--   strings as lists of bytes (GoText) and pieces of them (Phrases), actions on a state that return a
--   value or an error (State), and what they keep (Frames).
-- - Campaign: domain/campaign.go and review.go (Types), shared/contracts (Task), the tables
--   (Store) and the statements of repository/postgres_campaign.go (Repo, Audience), the operations
--   of usecase/campaign.usecase.go (Lifecycle; Dispatch for TriggerDispatch; Preflight;
--   Deliveries for the workers' reports and RetryDeliveries) and the statistics (Stats). The other
--   children are proofs: Quiet, Edges, Moves, Answers (what a brand answers by a link) and Machine on
--   the life cycle, Approval and Revision on the guards, Sending, Skipped, Forecast and Sent on what is
--   published, Receipts, Retry and Breakdown on deliveries.
-- - Contact: domain/contact.go and consent.go (Types, Consent), repository/postgres_contact.go and
--   postgres_consent.go (Store), usecase/contact_usecase.go (Directory, Import, ImportWrite) and
--   usecase/consent_usecase.go (Directory); Honoured, Erasure, Rows and Tallies are proofs.
-- - Worker: apps/broadcast-worker and apps/api-gateway/internal/worker: what a worker reads and does
--   (Wire), the gateway's broadcast_sub.go (Failures, Adapters, Broadcast), the separate worker
--   (Standalone), telemetry_sub.go (Telemetry); Guards, Answers and Rivals are proofs.
-- - Review: usecase/review_usecase.go, what a brand decides by its link (Portal), and the making and
--   revoking of links (Links) with repository/postgres_review.go (LinkStore); Answers, Order, Handover,
--   LinkRows, LinkRuns and Lasting are proofs, with the sequences of operations on links (LinkRuns).
-- - Billing: domain/billing.go (Types), repository/postgres_subscription.go (Store), the signatures of
--   service/stripe_service.go and paystack_service.go (Signatures), usecase/billing_usecase.go
--   (Webhooks, Checkout); Lookups, Plans, Hooks, Moves, Effects, Refinement and Stale are proofs, with
--   the sequences of webhooks (Hooks) and the view of the plans (Moves).
-- - RateLimit: handler/ratelimit.go (Rules, Limiter); Window and Retry are proofs.
-- - Team: the members of domain/identity.go and repository/postgres_identity.go (Store),
--   usecase/team_usecase.go (Members); Owners, Keeping and Joining are proofs.
-- - Vault: utils/crypto.go, the credentials of channels; Roundtrip is a proof.
-- - Inbox: domain/inbox.go (Types), repository/postgres_inbox.go (Store, Messages),
--   usecase/inbox_usecase.go (Platforms, Replies) and the receipts of service/whatsapp_manager.go
--   (Replies); Kept, Frames, Arrivals, Statements, Handlers, Machine, Once and Unsent are proofs.
-- - Examples: the theorems applied to small data.
--
-- Correspondence. A method that returns `(value, error)` is a function from the state of its tables
-- to a value or an error and the next state; its name is the Go name in small letters with
-- underscores. A statement of SQL is one function, with its WHERE clause, that first asks the list
-- `faults` whether it fails: a theorem that does not speak of `faults` holds whatever fails, and one
-- that says that no statement fails assumes an empty list. A transaction changes the tables at its
-- commit. Times are natural numbers: seconds, and nanoseconds in RateLimit and of links. A text is
-- the list of its bytes. Error messages are constructors; log lines are left out.
--
-- Parameters. SHA-256, AES-GCM and base64 (record Cipher), what packages strings and unicode do
-- beyond ASCII (record Unicode), JSON decoding (record Json), mail.ParseAddress, the answers of the
-- messaging and payment providers, the ids that the database draws, and random tokens are arguments. Numbers that Go holds in an `int` are counts of rows or limits that start from one, far
-- below 2^63; they are natural numbers or integers.
--
-- Fuel. The loop over the pages of contacts (Campaign.Dispatch.dispatch_pages) runs on fuel, one more
-- than the number of contacts. A page that is not empty takes at least one contact off the rest, so
-- this is enough. All other loops are structural.
--
-- Not modelled: the pages that review links show, templates, tags, commerce, the lists that the inbox
-- shows, the deletion of contacts for good (which takes their conversations and messages away) and
-- of workspaces (with all their rows), and small services over time; and the AI engine, the
-- WhatsApp sessions, mail, media and the assembly of the server, which call services and libraries.
pub mod Base
pub mod Campaign
pub mod Contact
pub mod Billing
pub mod RateLimit
pub mod Review
pub mod Team
pub mod Worker
pub mod Inbox
pub mod Vault
pub mod Examples
