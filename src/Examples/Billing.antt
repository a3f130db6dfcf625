-- ===== src/Examples/Billing.antt =====
-- The theorems on the webhooks of the payment providers, applied.
use omnipulse_backend.Base.{
  bytes, text_eq, is_ascii, trim_space, to_upper, false, none, some, [], ◌∷◌, ◌+◌, ◌≡◌, refl,
  if◌then◌else◌,
}
use omnipulse_backend.Billing.Types.{
  starter, growth, available_plans, plan_tier, billing_cycle, growth_plan, Subscription, stripe,
  monthly,
}
use omnipulse_backend.Billing.Store.{
  Store, ok, query, first_row, of_subscription, put_row, upsert, is_allowed, get_by_tenant_id,
}
use omnipulse_backend.Billing.Signatures.{
  verify_stripe_signature, split_on, cut_at, read_pairs, parse_moment,
}
use omnipulse_backend.Billing.Webhooks.{
  Services, handle_stripe_webhook, handle_stripe_checkout_completed,
  handle_stripe_subscription_deleted, activated,
}
use omnipulse_backend.Billing.Plans.{Entitled}
use omnipulse_backend.Billing.Hooks.{
  Arrival, stripe_hook, handle_hook, run_hooks, run_hooks-Entitled,
}
use omnipulse_backend.Billing.Moves.{Move, tier_of}
use omnipulse_backend.Billing.Effects.{Moves}
use omnipulse_backend.Billing.Refinement.{Justified, handle_hook-refines}
use omnipulse_backend.Billing.Stale.{handle_stripe_subscription_deleted-stale}
use omnipulse_backend.Examples.World.{plain_unicode}
use omnipulse_backend.Examples.Campaigns.{acme}

-- Every signature is `5eal`; there is one purchase, of Growth by acme, and one end, of `old`.
abbrev services : Services
services = record {
  hmac = λ secret payload. bytes "5eal";
  stripe_secret = bytes "s";
  paystack_secret = bytes "p";
  event_of = λ body.
      if text_eq body (bytes "buy")
      then some (bytes "checkout.session.completed", bytes "session")
      else none;
  checkout_session_of = λ raw. some (record {
    customer = bytes "cus";
    subscription = bytes "new";
    amount_total = 1400;
    currency = bytes "usd";
    tenant_id = acme;
    plan_tier = bytes "growth";
    billing_cycle = [];
  });
  stripe_subscription_of = λ raw. some (record {
    id = bytes "old";
    customer = bytes "cus";
    status = bytes "canceled";
    current_period_end = 0;
  });
  charge_of = λ raw. none;
  disabled_of = λ raw. none;
  next_month = λ now. now + 30;
  next_year = λ now. now + 365;
  commerce = none;
}

abbrev purchase : Arrival
purchase = (1000, [], stripe_hook (bytes "buy") (bytes "t=990, v1=5eal"))

abbrev no_sales : Store
no_sales = record { subscriptions = []; faults = []; now = 1000 }

-- What acme has bought.
abbrev bought : Subscription
bought =
    activated stripe acme (bytes "cus") (bytes "new") growth growth_plan monthly (bytes "USD") 1400
      1000 1030

buys : (get_by_tenant_id acme (run_hooks services (purchase ∷ []) no_sales)).0 ≡ ok bought
unfolding run_hooks handle_stripe_webhook verify_stripe_signature handle_stripe_checkout_completed
    upsert query is_allowed put_row get_by_tenant_id first_row available_plans plan_tier to_upper
    billing_cycle text_eq split_on cut_at read_pairs parse_moment is_ascii trim_space
buys = refl

run_hooks-Entitled_example : Entitled bought
run_hooks-Entitled_example =
    run_hooks-Entitled services (purchase ∷ []) acme no_sales bought tt buys

handle_hook-refines_example :
    (move : Move) × Justified services
      (stripe_hook (bytes "buy") (bytes "t=990, v1=5eal"))
      no_sales
      move
    × Moves no_sales move
        (handle_hook services (stripe_hook (bytes "buy") (bytes "t=990, v1=5eal")) no_sales).1
handle_hook-refines_example =
    handle_hook-refines services (stripe_hook (bytes "buy") (bytes "t=990, v1=5eal")) no_sales tt

abbrev one_sale : Store
one_sale = record { subscriptions = bought ∷ []; faults = []; now = 1000 }

handle_stripe_subscription_deleted-stale_example :
    let out = handle_stripe_subscription_deleted services [] one_sale in
    (of_subscription stripe (bytes "old") bought ≡ false)
    × (out.0 ≡ ok tt)
    × (tier_of out.1 acme ≡ starter)
unfolding text_eq first_row is_allowed
handle_stripe_subscription_deleted-stale_example =
    handle_stripe_subscription_deleted-stale services []
      (record {
        id = bytes "old";
        customer = bytes "cus";
        status = bytes "canceled";
        current_period_end = 0;
      })
      bought one_sale refl refl refl refl refl
