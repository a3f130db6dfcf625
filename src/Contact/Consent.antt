-- ===== src/Contact/Consent.antt =====
-- apps/api-gateway/internal/domain/consent.go: an event of the ledger of consent.
use omnipulse_backend.Base.{ℕ, Text, Bool, true, false, Option}

pub data EventType : Type 0 where
  granted revoked : EventType

abbrev pub same_event : EventType → EventType → Bool
same_event granted granted = true
same_event revoked revoked = true
same_event _ _ = false

pub data Source : Type 0 where
  inbound_keyword web_form csv_import operator api : Source

-- `ConsentEvent`. `occurred_at` is `none` for the zero time, and an empty key is no key. What the
-- evidence says is text that nothing reads.
pub record ConsentEvent : Type 0 where
  pub tenant_id : Text
  pub contact_id : Text
  pub event_type : EventType
  pub source : Source
  pub channel : Text
  pub occurred_at : Option ℕ
  pub idempotency_key : Text
