-- ===== src/Contact/Types.antt =====
-- apps/api-gateway/internal/domain/contact.go: a contact. The column `status` admits two values.
use omnipulse_backend.Base.{ℕ, Text, Bool, true, false, Option}

pub data ContactStatus : Type 0 where
  active opted_out : ContactStatus

abbrev pub is_active : ContactStatus → Bool
is_active active = true
is_active opted_out = false

abbrev pub is_opted_out : ContactStatus → Bool
is_opted_out active = false
is_opted_out opted_out = true

-- `Contact`, without the tags, which another table holds.
pub record Contact : Type 0 where
  pub id : Text
  pub tenant_id : Text
  pub first_name : Text
  pub last_name : Text
  pub channel : Text
  pub routing_value : Text
  pub source : Text
  pub status : ContactStatus
  pub anonymized_at : Option ℕ
  pub delete_after_at : Option ℕ
