-- ===== src/Billing/Plans.antt =====
-- What a workspace may use is what its plan gives, whatever the providers report.
use omnipulse_backend.Base.{
  Text, bytes, text_eq, Unicode, to_upper, Bool, Option, some, List, [], ◌∷◌, ◌≡◌, refl, subst, sym,
  ◌⊎◌, inl, inr, arith, All, Bool-cases, Option-cases,
}
use omnipulse_backend.Billing.Types.{
  PlanTier, starter, growth, agency, unknown, PlanConfig, starter_plan, available_plans, plan_tier,
  Subscription, stripe, paystack,
}
use omnipulse_backend.Billing.Store.{Store, M, first_row, of_customer, put_row, upsert}
use omnipulse_backend.Billing.Webhooks.{
  Services, StripeSubscription, row_by_customer, find_stripe, change,
  handle_stripe_checkout_completed, handle_stripe_subscription_updated,
  handle_stripe_subscription_deleted, handle_paystack_charge_success,
  handle_paystack_subscription_disabled, plan_or_growth, activated, canceled, updated, cycle_of,
  period_end,
}
use omnipulse_backend.Billing.Lookups.{
  upsert-cases, of_stripe, row_by_customer-Finds, find_stripe-Finds, change-cases, Finds,
}

-- The limits of the row are those of its plan, which is for sale.
abbrev pub Entitled : Subscription → Type 0
Entitled r =
    (c : PlanConfig) × (available_plans r.tier ≡ some c)
    × (r.monthly_message_limit ≡ c.message_limit)
    × (r.contacts_limit ≡ c.contact_limit)
    × (r.channels_limit ≡ c.channel_limit)

abbrev pub AllEntitled : Store → Type 0
AllEntitled s = All Entitled s.subscriptions

pub kept : (s u : Store) → u ≡ s → AllEntitled s → AllEntitled u
kept s u e h = subst (λ (x : Store). AllEntitled x) (sym e) h

pub first_row-Entitled :
    (p : Subscription → Bool) (rows : List Subscription) (r : Subscription)
    → All Entitled rows
    → first_row p rows ≡ some r
    → Entitled r
unfolding first_row
first_row-Entitled p [] r h e = cc
first_row-Entitled p (q ∷ rows) r h e = elim (Bool-cases (p q)) [
  | inl here ↦ let same : q ≡ r = ground arith in subst (λ (x : Subscription). Entitled x) same h.0
  | inr later ↦ first_row-Entitled p rows r h.1 (ground arith)
]

put_row-Entitled :
    (new : Subscription) (rows : List Subscription)
    → Entitled new
    → All Entitled rows
    → All Entitled (put_row new rows)
unfolding put_row
put_row-Entitled new [] h k = (h, tt)
put_row-Entitled new (r ∷ rows) h k = elim (Bool-cases (text_eq r.tenant_id new.tenant_id)) [
  | inl same ↦ rw same (h, k.1)
  | inr other ↦ rw other (k.0, put_row-Entitled new rows h k.1)
]

upsert-Entitled :
    (new : Subscription) (s : Store) → Entitled new → AllEntitled s → AllEntitled (upsert new s).1
upsert-Entitled new s h k = elim (upsert-cases new s) [
  | inl same ↦ subst (λ (rows : List Subscription). All Entitled rows) (sym same) k
  | inr put ↦
      subst (λ (rows : List Subscription). All Entitled rows) (sym put)
        (put_row-Entitled new s.subscriptions h k)
]

canceled-Entitled : (r : Subscription) → Entitled (canceled r)
unfolding available_plans
canceled-Entitled r = (starter_plan, refl, refl, refl, refl)

updated-Entitled : (o : StripeSubscription) (r : Subscription) → Entitled r → Entitled (updated o r)
updated-Entitled o r (c, tier, messages, contacts, channels) =
    (c, ground arith, ground arith, ground arith, ground arith)

plan_or_growth-for_sale :
    (tier : PlanTier) → available_plans (plan_or_growth tier).0 ≡ some (plan_or_growth tier).1
unfolding available_plans
plan_or_growth-for_sale starter = refl
plan_or_growth-for_sale growth = refl
plan_or_growth-for_sale agency = refl
plan_or_growth-for_sale (unknown t) = refl

abbrev Keeps : M (Unit {0}) → Type 0
Keeps m = (s : Store) → AllEntitled s → AllEntitled (m s).1

change-Entitled :
    (q : Subscription → Bool) (m : M (Option Subscription)) (f : Subscription → Subscription)
    → Finds q m
    → ((r : Subscription) → Entitled r → Entitled (f r))
    → Keeps (change m f)
change-Entitled q m f finds keeps s h = elim (change-cases q m f finds s) [
  | inl same ↦ subst (λ (rows : List Subscription). All Entitled rows) (sym same) h
  | inr (r, (p, e, holds), put) ↦
      subst (λ (rows : List Subscription). All Entitled rows) (sym put)
        (put_row-Entitled (f r) s.subscriptions
          (keeps r (first_row-Entitled p s.subscriptions r h e)) h)
]

-- Each of the handlers keeps it.
module _ (v : Services) (raw : Text) where
  pub handle_stripe_subscription_updated-Entitled : Keeps (handle_stripe_subscription_updated v raw)
  unfolding handle_stripe_subscription_updated
  handle_stripe_subscription_updated-Entitled s h =
      elim (Option-cases (v.stripe_subscription_of raw)) [
        | inl bad ↦
            let left : (handle_stripe_subscription_updated v raw s).1 ≡ s = ground (arith, bad) in
            kept s (handle_stripe_subscription_updated v raw s).1 left h
        | inr (o, read) ↦
            let done = change (find_stripe o.id o.customer) (updated o) s in
            let left : (handle_stripe_subscription_updated v raw s).1 ≡ done.1 =
              ground (arith, read) in
            kept done.1 (handle_stripe_subscription_updated v raw s).1 left (
              change-Entitled (of_stripe o.id o.customer) (find_stripe o.id o.customer) (updated o)
                (find_stripe-Finds o.id o.customer) (updated-Entitled o) s h)
      ]

  pub handle_stripe_subscription_deleted-Entitled : Keeps (handle_stripe_subscription_deleted v raw)
  unfolding handle_stripe_subscription_deleted
  handle_stripe_subscription_deleted-Entitled s h =
      elim (Option-cases (v.stripe_subscription_of raw)) [
        | inl bad ↦
            let left : (handle_stripe_subscription_deleted v raw s).1 ≡ s = ground (arith, bad) in
            kept s (handle_stripe_subscription_deleted v raw s).1 left h
        | inr (o, read) ↦
            let done = change (find_stripe o.id o.customer) canceled s in
            let left : (handle_stripe_subscription_deleted v raw s).1 ≡ done.1 =
              ground (arith, read) in
            kept done.1 (handle_stripe_subscription_deleted v raw s).1 left (
              change-Entitled (of_stripe o.id o.customer) (find_stripe o.id o.customer) canceled
                (find_stripe-Finds o.id o.customer) (λ r e. canceled-Entitled r) s h)
      ]

  pub handle_paystack_subscription_disabled-Entitled :
      Keeps (handle_paystack_subscription_disabled v raw)
  unfolding handle_paystack_subscription_disabled
  handle_paystack_subscription_disabled-Entitled s h = elim (Option-cases (v.disabled_of raw)) [
    | inl bad ↦
        let left : (handle_paystack_subscription_disabled v raw s).1 ≡ s = ground (arith, bad) in
        kept s (handle_paystack_subscription_disabled v raw s).1 left h
    | inr (id, read) ↦
        let done = change (row_by_customer paystack id) canceled s in
        let left : (handle_paystack_subscription_disabled v raw s).1 ≡ done.1 =
          ground (arith, read) in
        kept done.1 (handle_paystack_subscription_disabled v raw s).1 left (
          change-Entitled (of_customer paystack id) (row_by_customer paystack id) canceled
            (row_by_customer-Finds paystack id) (λ r e. canceled-Entitled r) s h)
  ]

  pub handle_paystack_charge_success-Entitled : Keeps (handle_paystack_charge_success v raw)
  unfolding handle_paystack_charge_success
  handle_paystack_charge_success-Entitled s h = elim (Option-cases (v.charge_of raw)) [
    | inl bad ↦
        let left : (handle_paystack_charge_success v raw s).1 ≡ s = ground (arith, bad) in
        kept s (handle_paystack_charge_success v raw s).1 left h
    | inr (c, read) ↦ elim (Option-cases (available_plans (plan_tier c.plan_tier))) [
      | inl unsold ↦
          let left : s ≡ (handle_paystack_charge_success v raw s).1 =
            ground (arith, read, unsold) in
          subst (λ (u : Store). AllEntitled u) left h
      | inr (config, sold) ↦
          let cycle = cycle_of c.billing_cycle in
          let new =
            activated paystack c.tenant_id c.customer_code c.reference (plan_tier c.plan_tier)
              config cycle (bytes "NGN") c.amount s.now (period_end v cycle s.now) in
          let left : ((handle_paystack_charge_success v raw s).1 ≡ s)
              ⊎ ((handle_paystack_charge_success v raw s).1 ≡ (upsert new s).1) =
            ground (arith, read, sold) in
          elim left [
            | inl same ↦ subst (λ (u : Store). AllEntitled u) (sym same) h
            | inr put ↦
                subst (λ (u : Store). AllEntitled u) (sym put)
                  (upsert-Entitled new s (config, sold, refl, refl, refl) h)
          ]
    ]
  ]

module _ ⦃uni : Unicode⦄ (v : Services) (raw : Text) where
  pub handle_stripe_checkout_completed-Entitled : Keeps (handle_stripe_checkout_completed v raw)
  unfolding handle_stripe_checkout_completed
  handle_stripe_checkout_completed-Entitled s h = elim (Option-cases (v.checkout_session_of raw)) [
    | inl bad ↦
        let left : (handle_stripe_checkout_completed v raw s).1 ≡ s = ground (arith, bad) in
        kept s (handle_stripe_checkout_completed v raw s).1 left h
    | inr (o, read) ↦
        let plan = plan_or_growth (plan_tier o.plan_tier) in
        let cycle = cycle_of o.billing_cycle in
        let new =
          activated stripe o.tenant_id o.customer o.subscription plan.0 plan.1 cycle
            (to_upper o.currency) o.amount_total s.now (period_end v cycle s.now) in
        let left : ((handle_stripe_checkout_completed v raw s).1 ≡ s)
            ⊎ ((handle_stripe_checkout_completed v raw s).1 ≡ (upsert new s).1) =
          ground (arith, read) in
        elim left [
          | inl same ↦ subst (λ (u : Store). AllEntitled u) (sym same) h
          | inr put ↦
              subst (λ (u : Store). AllEntitled u) (sym put)
                (upsert-Entitled new s
                  (plan.1, plan_or_growth-for_sale (plan_tier o.plan_tier), refl, refl, refl) h)
        ]
  ]
