-- ===== src/Inbox/Types.antt =====
-- The data of apps/api-gateway/internal/domain/inbox.go, with the enumerations that the CHECKs of
-- infra/postgres/migrations/000013_add_conversations_and_inbox.up.sql allow. Left out: who a
-- conversation's contact and user are beyond the address to write to, and the times of changes.
use omnipulse_backend.Base.{ℕ, Text, Bool, true, false, Option}

pub data ConversationStatus : Type 0 where
  opened closed waiting : ConversationStatus

-- `ai_state`
pub data AiState : Type 0 where
  active paused_by_human escalated disabled : AiState

pub data MessageDirection : Type 0 where
  inbound outbound : MessageDirection

pub data MessageSenderType : Type 0 where
  contact agent bot system : MessageSenderType

-- `CHECK (status IN ('sent', 'delivered', 'read', 'failed'))`
pub data MessageStatus : Type 0 where
  sent delivered read failed : MessageStatus

pub record Conversation : Type 0 where
  pub id : Text
  pub tenant_id : Text
  pub contact_id : Text
  pub channel : Text
  pub status : ConversationStatus
  pub assigned_to : Option Text
  pub last_message_text : Option Text
  pub last_message_at : ℕ
  pub unread_count : ℕ
  pub ai_state : AiState
  pub ai_paused_until : Option ℕ
  pub needs_human : Bool

pub record Message : Type 0 where
  pub id : Text
  pub tenant_id : Text
  pub conversation_id : Text
  pub direction : MessageDirection
  pub sender_type : MessageSenderType
  pub sender_id : Option Text
  pub body : Text
  pub media_url : Option Text
  pub media_type : Option Text
  pub platform_message_id : Option Text
  pub status : MessageStatus
  pub error_message : Option Text
  pub is_deleted : Bool
  pub edited_at : Option ℕ
  -- 0 is the zero time.
  pub created_at : ℕ

abbrev pub is_inbound : Message → Bool
is_inbound m = elim m.direction [ inbound ↦ true | outbound ↦ false ]

abbrev pub is_read : MessageStatus → Bool
is_read read = true
is_read _ = false
