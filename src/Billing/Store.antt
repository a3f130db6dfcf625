-- ===== src/Billing/Store.antt =====
-- The table `subscriptions` and its statements, repository/postgres_subscription.go. A workspace
-- has one row at most. An empty id of a customer or a subscription stands for NULL. The CHECK
-- constraints are those of infra/postgres/migrations/000012_add_subscriptions_and_billing.up.sql.
use omnipulse_backend.Base.{
  ℕ, Text, bytes, text_eq, text_mem, Bool, true, false, Option, none, some, List, [], ◌∷◌, ◌&&◌,
  not, is_empty, if◌then◌else◌,
}
use omnipulse_backend.Base.State.{Action}
pub use omnipulse_backend.Base.State.{
  ok, err, pure, raise, ◌>>=◌, ◌>>◌, raise_if, get, put, attempt,
}
use omnipulse_backend.Billing.Types.{
  PlanTier, starter, unknown, Provider, free, stripe, paystack, BillingCycle, monthly, other_cycle,
  starter_plan, Subscription,
}

pub data Error : Type 0 where
  database bad_signature bad_payload bad_plan free_plan no_portal : Error
  provider_error commerce_failed : Error

-- `faults` lists, statement by statement, which will fail.
pub record Store : Type 0 where
  pub subscriptions : List Subscription
  pub faults : List Bool
  pub now : ℕ

abbrev pub M : Type 0 → Type 0
M A = Action Store Error A

unfoldable pub query : M (Unit {0})
query s = elim s.faults [
  | [] ↦ (ok tt, s)
  | fails ∷ rest ↦ (if fails then err database else ok tt, record s { faults = rest })
]

abbrev pub same_provider : Provider → Provider → Bool
same_provider free free = true
same_provider stripe stripe = true
same_provider paystack paystack = true
same_provider _ _ = false

-- The first row that a WHERE clause keeps.
unfoldable pub first_row : (Subscription → Bool) → List Subscription → Option Subscription
first_row p [] = none
first_row p (r ∷ rows) = if p r then some r else first_row p rows

abbrev pub of_tenant : Text → Subscription → Bool
of_tenant tenant r = text_eq r.tenant_id tenant

-- NULL equals nothing.
abbrev pub of_subscription : Provider → Text → Subscription → Bool
of_subscription provider id r =
    same_provider r.provider provider
    && (not (is_empty r.subscription_id) && text_eq r.subscription_id id)

abbrev pub of_customer : Provider → Text → Subscription → Bool
of_customer provider id r =
    same_provider r.provider provider && (not (is_empty r.customer_id) && text_eq r.customer_id id)

-- A workspace without a row has the free plan.
abbrev pub free_starter : Text → ℕ → Subscription
free_starter tenant now = record {
  tenant_id = tenant;
  provider = free;
  customer_id = [];
  subscription_id = [];
  tier = starter;
  cycle = monthly;
  currency = bytes "USD";
  amount = 0;
  status = bytes "active";
  current_period_start = now;
  current_period_end = none;
  monthly_message_limit = starter_plan.message_limit;
  contacts_limit = starter_plan.contact_limit;
  channels_limit = starter_plan.channel_limit;
}

unfoldable pub get_by_tenant_id : Text → M Subscription
unfolding query
get_by_tenant_id tenant = do
  query
  s ← get
  elim (first_row (of_tenant tenant) s.subscriptions) [
    | none ↦ pure (free_starter tenant s.now)
    | some r ↦ pure r
  ]

unfoldable pub get_by_subscription_id : Provider → Text → M (Option Subscription)
unfolding query
get_by_subscription_id provider id = do
  query
  s ← get
  pure (first_row (of_subscription provider id) s.subscriptions)

unfoldable pub get_by_customer_id : Provider → Text → M (Option Subscription)
unfolding query
get_by_customer_id provider id = do
  query
  s ← get
  pure (first_row (of_customer provider id) s.subscriptions)

abbrev pub is_sold : PlanTier → Bool
is_sold (unknown t) = false
is_sold _ = true

abbrev pub is_known_cycle : BillingCycle → Bool
is_known_cycle (other_cycle t) = false
is_known_cycle _ = true

-- The CHECK constraints of the table.
unfoldable pub is_allowed : Subscription → Bool
unfolding text_eq
is_allowed r =
    is_sold r.tier
    && (is_known_cycle r.cycle
        && (text_mem r.currency (bytes "USD" ∷ bytes "NGN" ∷ [])
            && text_mem r.status
                (bytes "active" ∷ bytes "past_due" ∷ bytes "canceled" ∷ bytes "trialing" ∷ [])))

abbrev pub coalesce : Text → Text → Text
coalesce [] old = old
coalesce (b ∷ t) old = b ∷ t

-- The row that a conflict leaves: all is replaced, and ids that are NULL are kept.
abbrev pub merged : Subscription → Subscription → Subscription
merged new old = record new {
  customer_id = coalesce new.customer_id old.customer_id;
  subscription_id = coalesce new.subscription_id old.subscription_id;
}

unfoldable pub put_row : Subscription → List Subscription → List Subscription
put_row new [] = new ∷ []
put_row new (r ∷ rows) =
    if text_eq r.tenant_id new.tenant_id then merged new r ∷ rows else r ∷ put_row new rows

unfoldable pub upsert : Subscription → M (Unit {0})
unfolding query
upsert new = do
  query
  raise_if (not (is_allowed new)) database
  s ← get
  put (record s { subscriptions = put_row new s.subscriptions })
