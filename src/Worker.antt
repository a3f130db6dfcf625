-- ===== src/Worker.antt =====
-- The workers behind the event stream.
pub mod Wire
pub mod Failures
pub mod Adapters
pub mod Broadcast
pub mod Standalone
pub mod Guards
pub mod Answers
pub mod Rivals
pub mod Telemetry
