-- ===== src/Billing/Hooks.antt =====
-- The webhooks of both providers in the order in which they come, each at its time, and with the
-- database statements that fail while it is handled.
use omnipulse_backend.Base.{
  ℕ, Text, Unicode, Bool, some, List, [], ◌∷◌, ◌≡◌, ◌⊎◌, inl, inr, arith, Option-cases,
}
use omnipulse_backend.Billing.Types.{Subscription, starter_plan, available_plans}
use omnipulse_backend.Billing.Store.{Store, M, ok, query, first_row, of_tenant, get_by_tenant_id}
use omnipulse_backend.Billing.Webhooks.{
  Services, handle_stripe_checkout_completed, handle_stripe_subscription_updated,
  handle_stripe_subscription_deleted, handle_stripe_webhook, handle_paystack_charge_success,
  handle_paystack_subscription_disabled, handle_paystack_webhook,
}
use omnipulse_backend.Billing.Plans.{
  Entitled, AllEntitled, kept, first_row-Entitled, handle_stripe_checkout_completed-Entitled,
  handle_stripe_subscription_updated-Entitled, handle_stripe_subscription_deleted-Entitled,
  handle_paystack_charge_success-Entitled, handle_paystack_subscription_disabled-Entitled,
}

-- The body and the signature header of a request.
pub data Hook : Type 0 where
  stripe_hook paystack_hook : Text → Text → Hook

-- A hook with the time at which it comes, and the statements that will fail.
abbrev pub Arrival : Type 0
Arrival = ℕ × List Bool × Hook

module _ ⦃uni : Unicode⦄ (v : Services) where
  unfoldable pub handle_hook : Hook → M (Unit {0})
  handle_hook (stripe_hook body header) = handle_stripe_webhook v body header
  handle_hook (paystack_hook body header) = handle_paystack_webhook v body header

  unfoldable pub run_hooks : List Arrival → Store → Store
  unfolding handle_hook
  run_hooks [] s = s
  run_hooks ((now, faults, hook) ∷ later) s =
      run_hooks later (handle_hook hook (record s { now = now; faults = faults })).1

  handle_hook-Entitled :
      (hook : Hook) (s : Store) → AllEntitled s → AllEntitled (handle_hook hook s).1
  unfolding handle_hook handle_stripe_webhook handle_paystack_webhook
  handle_hook-Entitled (stripe_hook body header) s h =
      let t = (handle_hook (stripe_hook body header) s).1 in
      elim (Option-cases (v.event_of body)) [
        | inl bad ↦ let left : t ≡ s = ground (arith, bad) in kept s t left h
        | inr ((kind, raw), read) ↦
            let a = handle_stripe_checkout_completed v raw s in
            let b = handle_stripe_subscription_updated v raw s in
            let c = handle_stripe_subscription_deleted v raw s in
            let left : (t ≡ s) ⊎ ((t ≡ a.1) ⊎ ((t ≡ b.1) ⊎ (t ≡ c.1))) = ground (arith, read) in
            elim left [
              | inl same ↦ kept s t same h
              | inr (inl e) ↦ kept a.1 t e (handle_stripe_checkout_completed-Entitled v raw s h)
              | inr (inr (inl e)) ↦
                  kept b.1 t e (handle_stripe_subscription_updated-Entitled v raw s h)
              | inr (inr (inr e)) ↦
                  kept c.1 t e (handle_stripe_subscription_deleted-Entitled v raw s h)
            ]
      ]
  handle_hook-Entitled (paystack_hook body header) s h =
      let t = (handle_hook (paystack_hook body header) s).1 in
      elim (Option-cases (v.event_of body)) [
        | inl bad ↦ let left : t ≡ s = ground (arith, bad) in kept s t left h
        | inr ((kind, raw), read) ↦
            let a = handle_paystack_charge_success v raw s in
            let b = handle_paystack_subscription_disabled v raw s in
            let left : (t ≡ s) ⊎ ((t ≡ a.1) ⊎ (t ≡ b.1)) = ground (arith, read) in
            elim left [
              | inl same ↦ kept s t same h
              | inr (inl e) ↦ kept a.1 t e (handle_paystack_charge_success-Entitled v raw s h)
              | inr (inr e) ↦
                  kept b.1 t e (handle_paystack_subscription_disabled-Entitled v raw s h)
            ]
      ]

  run_hooks-AllEntitled :
      (arrivals : List Arrival) (s : Store) → AllEntitled s → AllEntitled (run_hooks arrivals s)
  unfolding run_hooks
  run_hooks-AllEntitled [] s h = h
  run_hooks-AllEntitled ((now, faults, hook) ∷ later) s h =
      let t = record s { now = now; faults = faults } in
      run_hooks-AllEntitled later (handle_hook hook t).1 (handle_hook-Entitled hook t h)

get_by_tenant_id-Entitled :
    (tenant : Text) (s : Store) (r : Subscription)
    → AllEntitled s
    → (get_by_tenant_id tenant s).0 ≡ ok r
    → Entitled r
unfolding get_by_tenant_id query available_plans
get_by_tenant_id-Entitled tenant s r h e =
    elim (Option-cases (first_row (of_tenant tenant) s.subscriptions)) [
      | inl gone ↦ (
        starter_plan,
        ground (arith, gone, e),
        ground (arith, gone, e),
        ground (arith, gone, e),
        ground (arith, gone, e),
      )
      | inr (q, found) ↦
          let same : first_row (of_tenant tenant) s.subscriptions ≡ some r =
            ground (arith, found, e) in
          first_row-Entitled (of_tenant tenant) s.subscriptions r h same
    ]

module _ ⦃uni : Unicode⦄ (v : Services) where
  -- After any webhooks of both providers, in any order, signed or not, and whatever statements fail,
  -- the subscription that is read for a workspace is of a plan that is for sale, and its limits on
  -- messages, contacts and channels are those of that plan.
  pub run_hooks-Entitled :
      (arrivals : List Arrival) (tenant : Text) (s : Store) (r : Subscription)
      → AllEntitled s
      → (get_by_tenant_id tenant (run_hooks v arrivals s)).0 ≡ ok r
      → Entitled r
  run_hooks-Entitled arrivals tenant s r h e =
      get_by_tenant_id-Entitled tenant (run_hooks v arrivals s) r
        (run_hooks-AllEntitled v arrivals s h) e
