-- ===== src/Billing/Checkout.antt =====
-- GetSubscription, CreateCheckout and CreateCustomerPortal of usecase/billing_usecase.go. What
-- Stripe and Paystack answer is an argument, and so is the base address of the application.
use omnipulse_backend.Base.{
  Text, bytes, text_eq, Unicode, trim_space, to_upper, Bool, true, false, none, some, [], ◌∷◌, ◌++◌,
  ◌||◌, not, ◌==◌, reverse, is_empty, if◌then◌else◌,
}
use omnipulse_backend.Base.State.{Outcome}
use omnipulse_backend.Billing.Types.{
  PlanTier, starter, stripe, BillingCycle, monthly, other_cycle, PlanConfig, available_plans,
  Subscription,
}
use omnipulse_backend.Billing.Store.{
  Error, bad_plan, free_plan, no_portal, M, raise, ◌>>=◌, ◌>>◌, raise_if, get_by_tenant_id,
  same_provider,
}

pub record CheckoutRequest : Type 0 where
  pub plan_tier : PlanTier
  pub billing_cycle : BillingCycle
  pub currency : Text
  pub success_url : Text
  pub cancel_url : Text

-- What a provider is asked for, with the plan and the cycle, and the addresses to come back to.
pub data Order : Type 0 where
  paystack_transaction : PlanConfig → BillingCycle → Text → Order
  stripe_session : PlanConfig → BillingCycle → Text → Text → Order

abbrev drop_slashes : Text → Text
drop_slashes [] = []
drop_slashes (b ∷ t) = if b == b'/' then drop_slashes t else b ∷ t

-- `strings.TrimRight(base, "/")`
unfoldable pub trim_right_slash : Text → Text
trim_right_slash base = reverse (drop_slashes (reverse base))

abbrev pub or_page : Text → Text → Text → Text
or_page given base page = if is_empty given then trim_right_slash base ++ page else given

abbrev is_no_cycle : BillingCycle → Bool
is_no_cycle (other_cycle t) = is_empty t
is_no_cycle _ = false

abbrev pub or_monthly : BillingCycle → BillingCycle
or_monthly cycle = if is_no_cycle cycle then monthly else cycle

abbrev pub is_starter : PlanTier → Bool
is_starter starter = true
is_starter _ = false

abbrev pub get_subscription : Text → M Subscription
get_subscription tenant = get_by_tenant_id tenant

module _ ⦃uni : Unicode⦄ where
  -- What is asked of whom: Naira go to Paystack, all else to Stripe.
  unfoldable pub checkout_order : Text → PlanConfig → CheckoutRequest → Order
  checkout_order base plan r =
      let cycle = or_monthly r.billing_cycle in
      let success = or_page r.success_url base (bytes "/settings?billing_status=success") in
      let cancel = or_page r.cancel_url base (bytes "/settings?billing_status=canceled") in
      if text_eq (to_upper (trim_space r.currency)) (bytes "NGN")
      then paystack_transaction plan cycle success
      else stripe_session plan cycle success cancel

  -- The answer is the address of the checkout.
  unfoldable pub create_checkout : (Order → Outcome Error Text) → Text → CheckoutRequest → M Text
  create_checkout place base r = elim (available_plans r.plan_tier) [
    | none ↦ raise bad_plan
    | some plan ↦ do
      raise_if (is_starter r.plan_tier) free_plan
      λ s. (place (checkout_order base plan r), s)
  ]

-- `portal` is what Stripe answers for a customer and the address to come back to.
unfoldable pub create_customer_portal : (Text → Text → Outcome Error Text) → Text → Text → M Text
create_customer_portal portal base tenant = do
  r ← get_by_tenant_id tenant
  raise_if (not (same_provider r.provider stripe) || is_empty r.customer_id) no_portal
  λ s. (portal r.customer_id (trim_right_slash base ++ bytes "/settings"), s)
