-- ===== src/Billing/Refinement.antt =====
-- The webhooks as moves on the plans of the workspaces, each with what justifies it.
use omnipulse_backend.Base.{
  Text, bytes, text_eq, text_eq_iff, Unicode, true, some, ◌≡◌, refl, ap, ◌∙◌, inl, inr, arith,
  Bool-cases, Option-cases,
}
use omnipulse_backend.Billing.Types.{plan_tier, Subscription, paystack}
use omnipulse_backend.Billing.Store.{Store, of_customer}
use omnipulse_backend.Billing.Signatures.{verify_stripe_signature, verify_paystack_signature}
use omnipulse_backend.Billing.Webhooks.{
  CheckoutSession, StripeSubscription, Charge, Services, plan_or_growth,
  handle_stripe_checkout_completed, handle_stripe_subscription_updated,
  handle_stripe_subscription_deleted, handle_stripe_webhook, handle_paystack_charge_success,
  handle_paystack_subscription_disabled, handle_paystack_webhook,
}
use omnipulse_backend.Billing.Lookups.{Found, of_stripe}
use omnipulse_backend.Billing.Hooks.{Hook, stripe_hook, paystack_hook, handle_hook}
use omnipulse_backend.Billing.Moves.{Move, stay, grant, revoke, DistinctTenants}
use omnipulse_backend.Billing.Effects.{
  IsNamed, ForPlan, Moves, left-Moves, carry, deleted-Moves, disabled-Moves, updated-Moves,
  charged-Moves, checkout-Moves,
}

-- What has to have come for a move: for a plan, a signed payment for it; for an end, a signed notice
-- that names the customer or the subscription of the row.
abbrev pub Justified : ⦃uni : Unicode⦄ → Services → Hook → Store → Move → Type 0
Justified v hook s stay = Unit {0}
Justified v (stripe_hook body header) s (grant t tier) =
    (verify_stripe_signature v.hmac v.stripe_secret s.now body header ≡ true)
    × (raw : Text) × (o : CheckoutSession) × (v.event_of body
        ≡ some (bytes "checkout.session.completed", raw))
    × (v.checkout_session_of raw ≡ some o)
    × IsNamed o
    × (o.tenant_id ≡ t)
    × ((plan_or_growth (plan_tier o.plan_tier)).0 ≡ tier)
Justified v (paystack_hook body header) s (grant t tier) =
    (verify_paystack_signature v.hmac v.paystack_secret body header ≡ true)
    × (raw : Text) × (c : Charge) × (v.event_of body ≡ some (bytes "charge.success", raw))
    × (v.charge_of raw ≡ some c)
    × (c.status ≡ bytes "success")
    × ForPlan c
    × (c.tenant_id ≡ t)
    × (plan_tier c.plan_tier ≡ tier)
Justified v (stripe_hook body header) s (revoke t) =
    (verify_stripe_signature v.hmac v.stripe_secret s.now body header ≡ true)
    × (raw : Text) × (o : StripeSubscription) × (r : Subscription) × (v.event_of body
        ≡ some (bytes "customer.subscription.deleted", raw))
    × (v.stripe_subscription_of raw ≡ some o)
    × Found (of_stripe o.id o.customer) s.subscriptions r
    × (r.tenant_id ≡ t)
Justified v (paystack_hook body header) s (revoke t) =
    (verify_paystack_signature v.hmac v.paystack_secret body header ≡ true)
    × (raw : Text) × (customer : Text) × (r : Subscription) × (v.event_of body
        ≡ some (bytes "subscription.disable", raw))
    × (v.disabled_of raw ≡ some customer)
    × Found (of_customer paystack customer) s.subscriptions r
    × (r.tenant_id ≡ t)

is_event :
    (kind : Text) (word raw : Text)
    → text_eq kind word ≡ true
    → ◌≡◌ {A = Text × Text} (kind, raw) (word, raw)
is_event kind word raw h = ap (λ (x : Text). (x, raw)) ((text_eq_iff kind word).0 h)

module _ ⦃uni : Unicode⦄ (v : Services) (body header kind raw : Text) (s : Store) where
  stripe_event-refines :
      DistinctTenants s.subscriptions
      → verify_stripe_signature v.hmac v.stripe_secret s.now body header ≡ true
      → v.event_of body ≡ some (kind, raw)
      → (move : Move) × Justified v (stripe_hook body header) s move
        × Moves s move (handle_hook v (stripe_hook body header) s).1
  unfolding handle_hook handle_stripe_webhook
  stripe_event-refines apart signed read =
      let t = (handle_hook v (stripe_hook body header) s).1 in
      let paid = bytes "checkout.session.completed" in
      let changed = bytes "customer.subscription.updated" in
      let ended = bytes "customer.subscription.deleted" in
      elim (Bool-cases (text_eq kind paid)) [
        | inl is ↦
            let u = (handle_stripe_checkout_completed v raw s).1 in
            let e : t ≡ u = ground (arith, signed, read, is) in
            let event = read ∙ ap some (is_event kind paid raw is) in
            elim (checkout-Moves v raw s) [
              | inl same ↦ (stay, tt, carry s t u stay e same)
              | inr (o, found, named, moves) ↦
                  let tier = (plan_or_growth (plan_tier o.plan_tier)).0 in
                  (
                    grant o.tenant_id tier,
                    (signed, raw, o, event, found, named, refl, refl),
                    carry s t u (grant o.tenant_id tier) e moves,
                  )
            ]
        | inr a ↦ elim (Bool-cases (text_eq kind changed)) [
          | inl is ↦
              let u = (handle_stripe_subscription_updated v raw s).1 in
              let e : t ≡ u = ground (arith, signed, read, a, is) in
              (stay, tt, carry s t u stay e (updated-Moves v raw s apart))
          | inr b ↦ elim (Bool-cases (text_eq kind ended)) [
            | inr c ↦ (stay, tt, left-Moves s t (ground (arith, signed, read, a, b, c)))
            | inl is ↦
                let u = (handle_stripe_subscription_deleted v raw s).1 in
                let e : t ≡ u = ground (arith, signed, read, a, b, is) in
                let event = read ∙ ap some (is_event kind ended raw is) in
                elim (deleted-Moves v raw s) [
                  | inl same ↦ (stay, tt, carry s t u stay e same)
                  | inr (o, r, found, at, moves) ↦ (
                    revoke r.tenant_id,
                    (signed, raw, o, r, event, found, at, refl),
                    carry s t u (revoke r.tenant_id) e moves,
                  )
                ]
          ]
        ]
      ]

  paystack_event-refines :
      verify_paystack_signature v.hmac v.paystack_secret body header ≡ true
      → v.event_of body ≡ some (kind, raw)
      → (move : Move) × Justified v (paystack_hook body header) s move
        × Moves s move (handle_hook v (paystack_hook body header) s).1
  unfolding handle_hook handle_paystack_webhook
  paystack_event-refines signed read =
      let t = (handle_hook v (paystack_hook body header) s).1 in
      let paid = bytes "charge.success" in
      let ended = bytes "subscription.disable" in
      elim (Bool-cases (text_eq kind paid)) [
        | inl is ↦
            let u = (handle_paystack_charge_success v raw s).1 in
            let e : t ≡ u = ground (arith, signed, read, is) in
            let event = read ∙ ap some (is_event kind paid raw is) in
            elim (charged-Moves v raw s) [
              | inl same ↦ (stay, tt, carry s t u stay e same)
              | inr (c, found, success, plan, moves) ↦
                  let tier = plan_tier c.plan_tier in
                  (
                    grant c.tenant_id tier,
                    (signed, raw, c, event, found, success, plan, refl, refl),
                    carry s t u (grant c.tenant_id tier) e moves,
                  )
            ]
        | inr a ↦ elim (Bool-cases (text_eq kind ended)) [
          | inr b ↦ (stay, tt, left-Moves s t (ground (arith, signed, read, a, b)))
          | inl is ↦
              let u = (handle_paystack_subscription_disabled v raw s).1 in
              let e : t ≡ u = ground (arith, signed, read, a, is) in
              let event = read ∙ ap some (is_event kind ended raw is) in
              elim (disabled-Moves v raw s) [
                | inl same ↦ (stay, tt, carry s t u stay e same)
                | inr (customer, r, found, at, moves) ↦ (
                  revoke r.tenant_id,
                  (signed, raw, customer, r, event, found, at, refl),
                  carry s t u (revoke r.tenant_id) e moves,
                )
              ]
        ]
      ]

module _ ⦃uni : Unicode⦄ where
  -- Whatever a request holds and whatever statements fail, its effect on the plans of the
  -- workspaces is to leave all, to give one workspace a plan, or to put one back to Starter, and no
  -- other plan changes; a plan is given only for a signed payment that names the workspace and the
  -- plan (of Stripe, Growth for an unknown plan; of Paystack, a plan that is for sale, by a charge
  -- that succeeded and whose intent is not given or is `subscription`), and taken only for a signed
  -- notice that a subscription of the row, or of its customer, has ended. (A workspace has at most
  -- one row.)
  pub handle_hook-refines :
      (v : Services) (hook : Hook) (s : Store)
      → DistinctTenants s.subscriptions
      → (move : Move) × Justified v hook s move × Moves s move (handle_hook v hook s).1
  unfolding handle_hook handle_stripe_webhook handle_paystack_webhook
  handle_hook-refines v (stripe_hook body header) s apart =
      let t = (handle_hook v (stripe_hook body header) s).1 in
      elim (Bool-cases (verify_stripe_signature v.hmac v.stripe_secret s.now body header)) [
        | inr forged ↦ (stay, tt, left-Moves s t (ground (arith, forged)))
        | inl signed ↦ elim (Option-cases (v.event_of body)) [
          | inl bad ↦ (stay, tt, left-Moves s t (ground (arith, signed, bad)))
          | inr ((kind, raw), read) ↦
              stripe_event-refines v body header kind raw s apart signed read
        ]
      ]
  handle_hook-refines v (paystack_hook body header) s apart =
      let t = (handle_hook v (paystack_hook body header) s).1 in
      elim (Bool-cases (verify_paystack_signature v.hmac v.paystack_secret body header)) [
        | inr forged ↦ (stay, tt, left-Moves s t (ground (arith, forged)))
        | inl signed ↦ elim (Option-cases (v.event_of body)) [
          | inl bad ↦ (stay, tt, left-Moves s t (ground (arith, signed, bad)))
          | inr ((kind, raw), read) ↦ paystack_event-refines v body header kind raw s signed read
        ]
      ]
