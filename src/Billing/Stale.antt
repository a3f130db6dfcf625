-- ===== src/Billing/Stale.antt =====
-- A notice of Stripe about a subscription that is not the one on record.
use omnipulse_backend.Base.{
  Text, Bool, true, false, none, some, List, [], ◌∷◌, ◌≡◌, subst, inl, inr, arith, Bool-cases,
  text_eq_refl,
}
use omnipulse_backend.Billing.Types.{starter, Subscription, stripe}
use omnipulse_backend.Billing.Store.{
  Store, ok, query, first_row, of_subscription, of_customer, is_allowed, put_row, upsert,
  get_by_subscription_id, get_by_customer_id,
}
use omnipulse_backend.Billing.Webhooks.{
  StripeSubscription, Services, canceled, find_stripe, row_by_customer, change,
  handle_stripe_subscription_deleted,
}
use omnipulse_backend.Billing.Moves.{tier_of, tier_in-put_row}

missed-apart :
    (p q : Subscription → Bool) (rows : List Subscription) (r : Subscription)
    → first_row p rows ≡ none
    → first_row q rows ≡ some r
    → p r ≡ false
unfolding first_row
missed-apart p q [] r h e = cc
missed-apart p q (x ∷ rows) r h e = elim (Bool-cases (q x)) [
  | inl here ↦
      let same : x ≡ r = ground arith in
      let miss : p x ≡ false = ground arith in subst (λ (y : Subscription). p y ≡ false) same miss
  | inr later ↦ missed-apart p q rows r (ground arith) (ground arith)
]

module _ (s : Store) (quiet : s.faults ≡ []) where
  upsert-quiet :
      (new : Subscription)
      → is_allowed new ≡ true
      → upsert new s ≡ (ok tt, record s { subscriptions = put_row new s.subscriptions })
  unfolding upsert query
  upsert-quiet new h = ground (arith, h, quiet)

  find_stripe-fallback :
      (id customer : Text)
      → first_row (of_subscription stripe id) s.subscriptions ≡ none
      → find_stripe id customer s
        ≡ (ok (first_row (of_customer stripe customer) s.subscriptions), s)
  unfolding find_stripe row_by_customer get_by_subscription_id get_by_customer_id query
  find_stripe-fallback id customer gone = ground (arith, gone, quiet)

-- The end of a subscription that is not the one on record, reported for the customer of the row,
-- as when the workspace has bought another plan, ends the plan that it has: the notice is taken
-- for granted, and the workspace is put back to Starter. (No database statement fails.)
pub handle_stripe_subscription_deleted-stale :
    (v : Services) (raw : Text) (o : StripeSubscription) (r : Subscription) (s : Store)
    → s.faults ≡ []
    → v.stripe_subscription_of raw ≡ some o
    → first_row (of_subscription stripe o.id) s.subscriptions ≡ none
    → first_row (of_customer stripe o.customer) s.subscriptions ≡ some r
    → is_allowed (canceled r) ≡ true
    → let out = handle_stripe_subscription_deleted v raw s in
      (of_subscription stripe o.id r ≡ false)
      × (out.0 ≡ ok tt)
      × (tier_of out.1 r.tenant_id ≡ starter)
unfolding handle_stripe_subscription_deleted change
handle_stripe_subscription_deleted-stale v raw o r s quiet read gone found allowed =
    let t = record s { subscriptions = put_row (canceled r) s.subscriptions } in
    let e : handle_stripe_subscription_deleted v raw s ≡ (ok tt, t) = ground (
      arith,
      read,
      find_stripe-fallback s quiet o.id o.customer gone,
      found,
      upsert-quiet s quiet (canceled r) allowed,
    ) in
    let tier = tier_in-put_row (canceled r) s.subscriptions r.tenant_id in
    (
      missed-apart (of_subscription stripe o.id) (of_customer stripe o.customer) s.subscriptions r
          gone found,
      ground (arith, e),
      ground (arith, e, tier, text_eq_refl r.tenant_id),
    )
