-- ===== src/Billing/Types.antt =====
-- apps/api-gateway/internal/domain/billing.go: the plans and the subscription of a workspace.
use omnipulse_backend.Base.{
  ℕ, ℤ, pos, minus_one, Text, bytes, Option, none, some, text_eq, if◌then◌else◌,
}

-- The strings of `PlanTier`; `unknown` is any other.
pub data PlanTier : Type 0 where
  starter growth agency : PlanTier
  unknown : Text → PlanTier

pub data Provider : Type 0 where
  free stripe paystack : Provider

pub data BillingCycle : Type 0 where
  monthly yearly : BillingCycle
  other_cycle : Text → BillingCycle

-- `PlanConfig`: prices in cents and kobo, limits with -1 for "unlimited".
pub record PlanConfig : Type 0 where
  pub name : Text
  pub usd_monthly : ℕ
  pub usd_yearly : ℕ
  pub ngn_monthly : ℕ
  pub ngn_yearly : ℕ
  pub message_limit : ℤ
  pub contact_limit : ℤ
  pub channel_limit : ℤ
  pub workspace_limit : ℤ

abbrev pub starter_plan : PlanConfig
starter_plan = record {
  name = bytes "Starter";
  usd_monthly = 0;
  usd_yearly = 0;
  ngn_monthly = 0;
  ngn_yearly = 0;
  message_limit = pos 1000;
  contact_limit = pos 500;
  channel_limit = pos 2;
  workspace_limit = pos 1;
}

abbrev pub growth_plan : PlanConfig
growth_plan = record {
  name = bytes "Growth";
  usd_monthly = 1400;
  usd_yearly = 14000;
  ngn_monthly = 650000;
  ngn_yearly = 6500000;
  message_limit = pos 25000;
  contact_limit = pos 5000;
  channel_limit = minus_one;
  workspace_limit = pos 3;
}

abbrev pub agency_plan : PlanConfig
agency_plan = record {
  name = bytes "Agency";
  usd_monthly = 3400;
  usd_yearly = 34000;
  ngn_monthly = 1750000;
  ngn_yearly = 17500000;
  message_limit = pos 100000;
  contact_limit = pos 25000;
  channel_limit = minus_one;
  workspace_limit = minus_one;
}

-- `AvailablePlans[tier]`, with `exists`.
unfoldable pub available_plans : PlanTier → Option PlanConfig
available_plans starter = some starter_plan
available_plans growth = some growth_plan
available_plans agency = some agency_plan
available_plans (unknown t) = none

-- The conversions `PlanTier(s)` and `BillingCycle(s)`.
unfoldable pub plan_tier : Text → PlanTier
unfolding text_eq
plan_tier t =
    if text_eq t (bytes "starter")
    then starter
    else if text_eq t (bytes "growth")
    then growth
    else if text_eq t (bytes "agency")
    then agency
    else unknown t

unfoldable pub billing_cycle : Text → BillingCycle
unfolding text_eq
billing_cycle t =
    if text_eq t (bytes "monthly")
    then monthly
    else if text_eq t (bytes "yearly")
    then yearly
    else other_cycle t

-- The status of a subscription is the provider's word for it.
pub record Subscription : Type 0 where
  pub tenant_id : Text
  pub provider : Provider
  pub customer_id : Text
  pub subscription_id : Text
  pub tier : PlanTier
  pub cycle : BillingCycle
  pub currency : Text
  pub amount : ℕ
  pub status : Text
  pub current_period_start : ℕ
  pub current_period_end : Option ℕ
  pub monthly_message_limit : ℤ
  pub contacts_limit : ℤ
  pub channels_limit : ℤ
