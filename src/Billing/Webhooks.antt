-- ===== src/Billing/Webhooks.antt =====
-- HandleStripeWebhook and HandlePaystackWebhook of
-- apps/api-gateway/internal/usecase/billing_usecase.go. How JSON decodes and how the package time
-- adds a month or a year are arguments, and so is what the commerce use case does with a payment
-- link.
use omnipulse_backend.Base.{
  ℕ, Text, bytes, text_eq, Unicode, to_upper, Bool, true, false, Option, none, some, ◌&&◌, ◌||◌,
  not, ltb, is_empty, if◌then◌else◌,
}
use omnipulse_backend.Base.State.{Outcome}
use omnipulse_backend.Billing.Types.{
  PlanTier, starter, growth, Provider, stripe, paystack, BillingCycle, monthly, yearly, PlanConfig,
  starter_plan, growth_plan, available_plans, plan_tier, billing_cycle, Subscription,
}
use omnipulse_backend.Billing.Store.{
  Error, bad_signature, bad_payload, M, pure, raise, ◌>>=◌, ◌>>◌, raise_if, get, attempt,
  get_by_subscription_id, get_by_customer_id, upsert,
}
use omnipulse_backend.Billing.Signatures.{verify_stripe_signature, verify_paystack_signature}

pub record CheckoutSession : Type 0 where
  pub customer : Text
  pub subscription : Text
  pub amount_total : ℕ
  pub currency : Text
  pub tenant_id : Text
  pub plan_tier : Text
  pub billing_cycle : Text

-- A `current_period_end` of zero stands for none.
pub record StripeSubscription : Type 0 where
  pub id : Text
  pub customer : Text
  pub status : Text
  pub current_period_end : ℕ

pub record Charge : Type 0 where
  pub reference : Text
  pub amount : ℕ
  pub status : Text
  pub customer_code : Text
  pub tenant_id : Text
  pub plan_tier : Text
  pub billing_cycle : Text
  pub intent : Text

pub record Services : Type 0 where
  pub hmac : Text → Text → Text
  pub stripe_secret : Text
  pub paystack_secret : Text
  -- The type and the data of an event.
  pub event_of : Text → Option (Text × Text)
  pub checkout_session_of : Text → Option CheckoutSession
  pub stripe_subscription_of : Text → Option StripeSubscription
  pub charge_of : Text → Option Charge
  pub disabled_of : Text → Option Text
  pub next_month : ℕ → ℕ
  pub next_year : ℕ → ℕ
  -- `HandlePaymentWebhook` of a reference and an amount, if there is a commerce use case.
  pub commerce : Option (Text → ℕ → Outcome Error (Unit {0}))

abbrev pub cycle_of : Text → BillingCycle
cycle_of t = if is_empty t then monthly else billing_cycle t

abbrev pub is_yearly : BillingCycle → Bool
is_yearly yearly = true
is_yearly _ = false

abbrev pub period_end : Services → BillingCycle → ℕ → ℕ
period_end v cycle now = if is_yearly cycle then v.next_year now else v.next_month now

-- A plan that is not for sale is taken for Growth.
abbrev pub plan_or_growth : PlanTier → PlanTier × PlanConfig
plan_or_growth tier = elim (available_plans tier) [
  | none ↦ (growth, growth_plan)
  | some config ↦ (tier, config)
]

abbrev pub activated :
    Provider
    → Text
    → Text
    → Text
    → PlanTier
    → PlanConfig
    → BillingCycle
    → Text
    → ℕ
    → ℕ
    → ℕ
    → Subscription
activated provider tenant customer id tier config cycle currency amount now until = record {
  tenant_id = tenant;
  provider = provider;
  customer_id = customer;
  subscription_id = id;
  tier = tier;
  cycle = cycle;
  currency = currency;
  amount = amount;
  status = bytes "active";
  current_period_start = now;
  current_period_end = some until;
  monthly_message_limit = config.message_limit;
  contacts_limit = config.contact_limit;
  channels_limit = config.channel_limit;
}

-- "Downgrade back to Free Starter."
abbrev pub canceled : Subscription → Subscription
canceled r = record r {
  tier = starter;
  status = bytes "canceled";
  monthly_message_limit = starter_plan.message_limit;
  contacts_limit = starter_plan.contact_limit;
  channels_limit = starter_plan.channel_limit;
}

-- `sub, err := m`, where the error is looked at only for the row: an error leaves no row.
abbrev pub row_or_nil : Option (Option Subscription) → Option Subscription
row_or_nil none = none
row_or_nil (some r) = r

unfoldable pub row_by_customer : Provider → Text → M (Option Subscription)
row_by_customer provider id = do
  found ← attempt (get_by_customer_id provider id)
  pure (row_or_nil found)

-- By subscription, or else by customer. An error of the second lookup leaves no row either.
unfoldable pub find_stripe : Text → Text → M (Option Subscription)
find_stripe id customer = do
  first ← attempt (get_by_subscription_id stripe id)
  elim (row_or_nil first) [ some r ↦ pure (some r) | none ↦ row_by_customer stripe customer ]

abbrev pub updated : StripeSubscription → Subscription → Subscription
updated o r =
    if ltb 0 o.current_period_end
    then record r { status = o.status; current_period_end = some o.current_period_end }
    else record r { status = o.status }

-- The row that was found, if any, is changed and written back.
unfoldable pub change : M (Option Subscription) → (Subscription → Subscription) → M (Unit {0})
change find f = do found ← find; elim found [ none ↦ pure tt | some r ↦ upsert (f r) ]

unfoldable pub handle_stripe_subscription_updated : Services → Text → M (Unit {0})
handle_stripe_subscription_updated v raw = elim (v.stripe_subscription_of raw) [
  | none ↦ raise bad_payload
  | some o ↦ change (find_stripe o.id o.customer) (updated o)
]

unfoldable pub handle_stripe_subscription_deleted : Services → Text → M (Unit {0})
handle_stripe_subscription_deleted v raw = elim (v.stripe_subscription_of raw) [
  | none ↦ raise bad_payload
  | some o ↦ change (find_stripe o.id o.customer) canceled
]

module _ ⦃uni : Unicode⦄ where
  unfoldable pub handle_stripe_checkout_completed : Services → Text → M (Unit {0})
  handle_stripe_checkout_completed v raw = elim (v.checkout_session_of raw) [
    | none ↦ raise bad_payload
    | some o ↦
        let (tier, config) = plan_or_growth (plan_tier o.plan_tier) in
        let cycle = cycle_of o.billing_cycle in
        let save : M (Unit {0}) = (do
          s ← get
          upsert (
              activated stripe o.tenant_id o.customer o.subscription tier config cycle
                (to_upper o.currency) o.amount_total s.now (period_end v cycle s.now))) in
        if is_empty o.tenant_id || is_empty o.plan_tier then pure tt else save
  ]

  unfoldable pub handle_stripe_webhook : Services → Text → Text → M (Unit {0})
  handle_stripe_webhook v body header = do
    s ← get
    raise_if (not (verify_stripe_signature v.hmac v.stripe_secret s.now body header)) bad_signature
    elim (v.event_of body) [
      | none ↦ raise bad_payload
      | some (kind, raw) ↦
          if text_eq kind (bytes "checkout.session.completed")
          then handle_stripe_checkout_completed v raw
          else if text_eq kind (bytes "customer.subscription.updated")
          then handle_stripe_subscription_updated v raw
          else if text_eq kind (bytes "customer.subscription.deleted")
          then handle_stripe_subscription_deleted v raw
          else pure tt
    ]

abbrev pub pay_link : Services → Charge → M (Unit {0})
pay_link v c = elim v.commerce [ none ↦ pure tt | some pay ↦ λ s. (pay c.reference c.amount, s) ]

unfoldable pub handle_paystack_charge_success : Services → Text → M (Unit {0})
handle_paystack_charge_success v raw = elim (v.charge_of raw) [
  | none ↦ raise bad_payload
  | some c ↦
      let cycle = cycle_of c.billing_cycle in
      let subscribe : M (Unit {0}) = (elim (available_plans (plan_tier c.plan_tier)) [
        | none ↦ pure tt
        | some config ↦ do
          s ← get
          upsert (
              activated paystack c.tenant_id c.customer_code c.reference (plan_tier c.plan_tier)
                config cycle (bytes "NGN") c.amount s.now (period_end v cycle s.now))
      ]) in
      if not (text_eq c.status (bytes "success")) || is_empty c.tenant_id
      then pure tt
      else if text_eq c.intent (bytes "payment_link")
      then pay_link v c
      else if not (is_empty c.intent) && not (text_eq c.intent (bytes "subscription"))
      then pure tt
      else subscribe
]

unfoldable pub handle_paystack_subscription_disabled : Services → Text → M (Unit {0})
handle_paystack_subscription_disabled v raw = elim (v.disabled_of raw) [
  | none ↦ raise bad_payload
  | some customer ↦ change (row_by_customer paystack customer) canceled
]

unfoldable pub handle_paystack_webhook : Services → Text → Text → M (Unit {0})
handle_paystack_webhook v body header = do
  raise_if (not (verify_paystack_signature v.hmac v.paystack_secret body header)) bad_signature
  elim (v.event_of body) [
    | none ↦ raise bad_payload
    | some (kind, raw) ↦
        if text_eq kind (bytes "charge.success")
        then handle_paystack_charge_success v raw
        else if text_eq kind (bytes "subscription.disable")
        then handle_paystack_subscription_disabled v raw
        else pure tt
  ]
