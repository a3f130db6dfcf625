-- ===== src/Billing/Effects.antt =====
-- What each kind of event does to the plans of the workspaces.
use omnipulse_backend.Base.{
  Text, bytes, text_eq, text_eq_iff, Unicode, to_upper, is_empty, is_some, Bool, true, false, ◌||◌,
  some, List, ◌≡◌, ap, sym, subst, ◌∙◌, ◌⊎◌, inl, inr, arith, Bool-cases, Option-cases,
}
use omnipulse_backend.Billing.Types.{available_plans, plan_tier, Subscription, stripe, paystack}
use omnipulse_backend.Billing.Store.{Store, first_row, of_customer, put_row, upsert}
use omnipulse_backend.Billing.Webhooks.{
  CheckoutSession, StripeSubscription, Charge, Services, plan_or_growth, activated, canceled,
  updated, cycle_of, period_end, find_stripe, row_by_customer, change,
  handle_stripe_checkout_completed, handle_stripe_subscription_updated,
  handle_stripe_subscription_deleted, handle_paystack_charge_success,
  handle_paystack_subscription_disabled,
}
use omnipulse_backend.Billing.Lookups.{
  upsert-cases, Found, of_stripe, row_by_customer-Finds, find_stripe-Finds, change-cases,
}
use omnipulse_backend.Billing.Moves.{
  tier_in, tier_of, Move, stay, grant, revoke, apply, DistinctTenants, tier_in-put_row,
  tier_in-found,
}

-- A purchase that names a workspace and a plan.
abbrev pub IsNamed : CheckoutSession → Type 0
IsNamed o = (is_empty o.tenant_id ≡ false) × (is_empty o.plan_tier ≡ false)

-- A charge that names a workspace and a plan for sale, and is not for something else.
abbrev pub ForPlan : Charge → Type 0
ForPlan c =
    (is_empty c.tenant_id ≡ false)
    × (text_eq c.intent (bytes "payment_link") ≡ false)
    × (is_empty c.intent || text_eq c.intent (bytes "subscription") ≡ true)
    × (is_some (available_plans (plan_tier c.plan_tier)) ≡ true)

-- The rows were left, or one was put.
abbrev pub Moves : Store → Move → Store → Type 0
Moves s move t = (tenant : Text) → tier_of t tenant ≡ apply move (tier_of s) tenant

pub left-Moves : (s t : Store) → t.subscriptions ≡ s.subscriptions → Moves s stay t
left-Moves s t e tenant = ap (λ (rows : List Subscription). tier_in rows tenant) e

put-Moves :
    (s t : Store) (new : Subscription)
    → t.subscriptions ≡ put_row new s.subscriptions
    → Moves s (grant new.tenant_id new.tier) t
put-Moves s t new e tenant =
    ap (λ (rows : List Subscription). tier_in rows tenant) e
    ∙ tier_in-put_row new s.subscriptions tenant

cancel-Moves :
    (s t : Store) (r : Subscription)
    → t.subscriptions ≡ put_row (canceled r) s.subscriptions
    → Moves s (revoke r.tenant_id) t
cancel-Moves s t r e tenant =
    ap (λ (rows : List Subscription). tier_in rows tenant) e
    ∙ tier_in-put_row (canceled r) s.subscriptions tenant

update-Moves :
    (s t : Store) (o : StripeSubscription) (r : Subscription)
    → DistinctTenants s.subscriptions
    → (p : Subscription → Bool) → first_row p s.subscriptions ≡ some r
    → t.subscriptions ≡ put_row (updated o r) s.subscriptions
    → Moves s stay t
update-Moves s t o r apart p found e tenant =
    let put =
      ap (λ (rows : List Subscription). tier_in rows tenant) e
      ∙ tier_in-put_row (updated o r) s.subscriptions tenant in
    let had = tier_in-found p s.subscriptions r apart found in
    elim (Bool-cases (text_eq r.tenant_id tenant)) [
      | inr other ↦ ground (arith, put, other)
      | inl here ↦
          let same =
            ap (λ (x : Text). tier_in s.subscriptions x)
              ((text_eq_iff r.tenant_id tenant).0 here) in
          ground (arith, put, here, had, same)
    ]

pub carry : (s t u : Store) (move : Move) → t ≡ u → Moves s move u → Moves s move t
carry s t u move e h = subst (λ (x : Store). Moves s move x) (sym e) h

module _ (v : Services) (raw : Text) (s : Store) where
  pub deleted-Moves :
      let t = (handle_stripe_subscription_deleted v raw s).1 in
      (Moves s stay t)
      ⊎ ((o : StripeSubscription) × (r : Subscription) × (v.stripe_subscription_of raw ≡ some o)
          × Found (of_stripe o.id o.customer) s.subscriptions r
          × Moves s (revoke r.tenant_id) t)
  unfolding handle_stripe_subscription_deleted
  deleted-Moves =
      let t = (handle_stripe_subscription_deleted v raw s).1 in
      elim (Option-cases (v.stripe_subscription_of raw)) [
        | inl bad ↦ inl (left-Moves s t (ground (arith, bad)))
        | inr (o, read) ↦
            let q = of_stripe o.id o.customer in
            let m = find_stripe o.id o.customer in
            let u = (change m canceled s).1 in
            let e : t ≡ u = ground (arith, read) in
            elim (change-cases q m canceled (find_stripe-Finds o.id o.customer) s) [
              | inl same ↦ inl (carry s t u stay e (left-Moves s u same))
              | inr (r, found, put) ↦
                  inr
                    (o, r, read, found, carry s t u (revoke r.tenant_id) e (cancel-Moves s u r put))
            ]
      ]

  pub disabled-Moves :
      let t = (handle_paystack_subscription_disabled v raw s).1 in
      (Moves s stay t)
      ⊎ ((customer : Text) × (r : Subscription) × (v.disabled_of raw ≡ some customer)
          × Found (of_customer paystack customer) s.subscriptions r
          × Moves s (revoke r.tenant_id) t)
  unfolding handle_paystack_subscription_disabled
  disabled-Moves =
      let t = (handle_paystack_subscription_disabled v raw s).1 in
      elim (Option-cases (v.disabled_of raw)) [
        | inl bad ↦ inl (left-Moves s t (ground (arith, bad)))
        | inr (id, read) ↦
            let m = row_by_customer paystack id in
            let u = (change m canceled s).1 in
            let e : t ≡ u = ground (arith, read) in
            elim (change-cases (of_customer paystack id) m canceled
              (row_by_customer-Finds paystack id) s) [
                | inl same ↦ inl (carry s t u stay e (left-Moves s u same))
                | inr (r, found, put) ↦ inr (
                  id,
                  r,
                  read,
                  found,
                  carry s t u (revoke r.tenant_id) e (cancel-Moves s u r put),
                )
              ]
      ]

  pub updated-Moves :
      DistinctTenants s.subscriptions → Moves s stay (handle_stripe_subscription_updated v raw s).1
  unfolding handle_stripe_subscription_updated
  updated-Moves apart =
      let t = (handle_stripe_subscription_updated v raw s).1 in
      elim (Option-cases (v.stripe_subscription_of raw)) [
        | inl bad ↦ left-Moves s t (ground (arith, bad))
        | inr (o, read) ↦
            let m = find_stripe o.id o.customer in
            let u = (change m (updated o) s).1 in
            let e : t ≡ u = ground (arith, read) in
            elim (change-cases (of_stripe o.id o.customer) m (updated o)
              (find_stripe-Finds o.id o.customer) s) [
                | inl same ↦ carry s t u stay e (left-Moves s u same)
                | inr (r, (p, found, holds), put) ↦
                    carry s t u stay e (update-Moves s u o r apart p found put)
              ]
      ]

  pub charged-Moves :
      let t = (handle_paystack_charge_success v raw s).1 in
      (Moves s stay t)
      ⊎ ((c : Charge) × (v.charge_of raw ≡ some c)
          × (c.status ≡ bytes "success")
          × ForPlan c
          × Moves s (grant c.tenant_id (plan_tier c.plan_tier)) t)
  unfolding handle_paystack_charge_success
  charged-Moves =
      let t = (handle_paystack_charge_success v raw s).1 in
      elim (Option-cases (v.charge_of raw)) [
        | inl bad ↦ inl (left-Moves s t (ground (arith, bad)))
        | inr (c, read) ↦ elim (Option-cases (available_plans (plan_tier c.plan_tier))) [
          | inl unsold ↦ inl (left-Moves s t (ground (arith, read, unsold)))
          | inr (config, sold) ↦
              let cycle = cycle_of c.billing_cycle in
              let new =
                activated paystack c.tenant_id c.customer_code c.reference (plan_tier c.plan_tier)
                  config cycle (bytes "NGN") c.amount s.now (period_end v cycle s.now) in
              let u = (upsert new s).1 in
              elim (Bool-cases (text_eq c.status (bytes "success"))) [
                | inr unpaid ↦ inl (left-Moves s t (ground (arith, read, sold, unpaid)))
                | inl paid ↦
                    let left : (t ≡ s) ⊎ (ForPlan c × (t ≡ u)) = ground (arith, read, sold) in
                    let success = (text_eq_iff c.status (bytes "success")).0 paid in
                    elim left [
                      | inl same ↦ inl (left-Moves s t (ap (λ (x : Store). x.subscriptions) same))
                      | inr (plan, e) ↦ elim (upsert-cases new s) [
                        | inl failed ↦ inl (carry s t u stay e (left-Moves s u failed))
                        | inr put ↦ inr (
                          c,
                          read,
                          success,
                          plan,
                          carry s t u (grant c.tenant_id (plan_tier c.plan_tier)) e
                              (put-Moves s u new put),
                        )
                      ]
                    ]
              ]
        ]
      ]

  pub checkout-Moves :
      ⦃uni : Unicode⦄
      → let t = (handle_stripe_checkout_completed v raw s).1 in
        (Moves s stay t)
        ⊎ ((o : CheckoutSession) × (v.checkout_session_of raw ≡ some o)
            × IsNamed o
            × Moves s (grant o.tenant_id (plan_or_growth (plan_tier o.plan_tier)).0) t)
  unfolding handle_stripe_checkout_completed
  checkout-Moves =
      let t = (handle_stripe_checkout_completed v raw s).1 in
      elim (Option-cases (v.checkout_session_of raw)) [
        | inl bad ↦ inl (left-Moves s t (ground (arith, bad)))
        | inr (o, read) ↦
            let plan = plan_or_growth (plan_tier o.plan_tier) in
            let cycle = cycle_of o.billing_cycle in
            let new =
              activated stripe o.tenant_id o.customer o.subscription plan.0 plan.1 cycle
                (to_upper o.currency) o.amount_total s.now (period_end v cycle s.now) in
            let u = (upsert new s).1 in
            let left : (t ≡ s) ⊎ (IsNamed o × (t ≡ u)) = ground (arith, read) in
            elim left [
              | inl same ↦ inl (left-Moves s t (ap (λ (x : Store). x.subscriptions) same))
              | inr (named, e) ↦ elim (upsert-cases new s) [
                | inl failed ↦ inl (carry s t u stay e (left-Moves s u failed))
                | inr put ↦ inr (
                  o,
                  read,
                  named,
                  carry s t u (grant o.tenant_id plan.0) e (put-Moves s u new put),
                )
              ]
            ]
      ]
