-- ===== src/Campaign/Task.antt =====
-- shared/contracts: the task that asks a worker to deliver one message, and the worker's report;
-- `CampaignDelivery` of apps/api-gateway/internal/domain/campaign.go, the row kept for a target.
use omnipulse_backend.Base.{ℕ, Text, bytes, text_eq, Bool, true, false, Option, if◌then◌else◌}

-- `TargetType`: a destination, or a contact.
pub data TargetType : Type 0 where
  to_contact to_destination : TargetType

-- `TargetDispatchTask`. An empty contact id stands for none.
pub record Task : Type 0 where
  pub campaign_id : Text
  pub tenant_id : Text
  pub contact_id : Text
  pub target_type : TargetType
  pub first_name : Text
  pub target_platform : Text
  pub routing_value : Text
  pub message_body : Text
  pub media_url : Option Text
  pub expires_at : ℕ

pub data DeliveryStatus : Type 0 where
  queued sent delivered failed : DeliveryStatus

abbrev pub is_queued : DeliveryStatus → Bool
is_queued queued = true
is_queued _ = false

abbrev pub is_failed : DeliveryStatus → Bool
is_failed failed = true
is_failed _ = false

-- `CampaignDelivery`
pub record Delivery : Type 0 where
  pub id : Text
  pub campaign_id : Text
  pub contact_id : Option Text
  pub target_type : TargetType
  pub platform : Text
  pub routing_value : Text
  pub first_name : Text
  pub status : DeliveryStatus
  pub error_message : Option Text
  pub failure_code : Option Text
  pub retryable : Bool
  pub attempt_count : ℕ
  pub last_attempt_at : Option ℕ
  pub provider_message_id : Option Text

-- `TargetDeliveryResult`
pub record DeliveryResult : Type 0 where
  pub campaign_id : Text
  pub contact_id : Text
  pub target_type : Text
  pub platform : Text
  pub routing_value : Text
  pub first_name : Text
  pub status : DeliveryStatus
  pub error_message : Option Text
  pub failure_code : Option Text
  pub retryable : Bool
  pub provider_message_id : Option Text

-- `normalizedTargetType`
unfoldable pub normalized_target_type : Text → TargetType
unfolding text_eq
normalized_target_type t =
    if text_eq t (bytes "telegram_destination") then to_destination else to_contact
