-- ===== src/Campaign/Stats.antt =====
-- GetCampaignStats of repository/postgres_campaign.go, which the telemetry, the reports and the
-- health page read. The percentage of progress, a float, is left out; the two numbers that it is
-- made of are kept. `payments` is what the table of payments holds for the campaign. The groups of
-- a GROUP BY come in an order that is the database's; here it is that of their first rows, and the
-- rows may stand in any order.
use omnipulse_backend.Base.{
  ℕ, Text, bytes, text_eq, Bool, true, false, Option, none, some, List, [], ◌∷◌, ◌&&◌, ◌||◌, not,
  ◌+◌, is_empty, tally, select, if◌then◌else◌,
}
use omnipulse_backend.Campaign.Types.{Status, Campaign}
use omnipulse_backend.Campaign.Task.{Delivery, DeliveryStatus, sent, delivered, failed}
use omnipulse_backend.Campaign.Store.{
  Store, not_found, M, pure, raise, ◌>>=◌, ◌>>◌, get, attempt, query,
}

-- A row of the breakdown: how many deliveries failed with a code, and may or may not be retried.
pub record Group : Type 0 where
  pub code : Option Text
  pub retryable : Bool
  pub count : ℕ

pub record CampaignStats : Type 0 where
  pub campaign_id : Text
  pub tenant_id : Text
  pub status : Status
  pub total_targets : ℕ
  pub processed_targets : ℕ
  pub sent : ℕ
  pub delivered : ℕ
  pub failed : ℕ
  pub retryable_failed : ℕ
  pub terminal_failed : ℕ
  pub failure_breakdown : Text → Option ℕ
  pub revenue_kobo : ℕ
  pub paid_orders_count : ℕ

abbrev pub same_bool : Bool → Bool → Bool
same_bool true b = b
same_bool false b = not b

abbrev pub same_code : Option Text → Option Text → Bool
same_code none none = true
same_code (some a) (some b) = text_eq a b
same_code _ _ = false

-- One more row for the group of its code and flag.
unfoldable pub add_to_group : Option Text → Bool → List Group → List Group
add_to_group code flag [] = record { code = code; retryable = flag; count = 1 } ∷ []
add_to_group code flag (g ∷ gs) =
    if same_code g.code code && same_bool g.retryable flag
    then record g { count = g.count + 1 } ∷ gs
    else g ∷ add_to_group code flag gs

-- `GROUP BY failure_code, retryable`
unfoldable pub group_rows : List Delivery → List Group
group_rows [] = []
group_rows (d ∷ ds) = add_to_group d.failure_code d.retryable (group_rows ds)

-- `COALESCE(failure_code, 'unknown')`
abbrev pub code_name : Option Text → Text
code_name none = bytes "unknown"
code_name (some c) = c

-- `failureBreakdown[code] = cnt`, group by group: the last one stays.
unfoldable pub breakdown : List Group → Text → Option ℕ
breakdown [] name = none
breakdown (g ∷ gs) name = elim (breakdown gs name) [
  | some n ↦ some n
  | none ↦ if text_eq (code_name g.code) name then some g.count else none
]

-- `retryableFailed += cnt`, or `terminalFailed += cnt`.
unfoldable pub failed_in : Bool → List Group → ℕ
failed_in flag [] = 0
failed_in flag (g ∷ gs) = (if same_bool g.retryable flag then g.count else 0) + failed_in flag gs

abbrev pub same_status : DeliveryStatus → DeliveryStatus → Bool
same_status delivered delivered = true
same_status failed failed = true
same_status sent sent = true
same_status _ _ = false

-- The deliveries of a campaign with one of the three statuses that are counted.
abbrev pub with_status : Text → DeliveryStatus → Delivery → Bool
with_status id status d = text_eq d.campaign_id id && same_status d.status status

-- The header: an empty tenant stands for any.
unfoldable pub stats_header : Text → Text → Store → Option Campaign
stats_header tenant id s = elim (s.rows id) [
  | none ↦ none
  | some c ↦ if is_empty tenant || text_eq c.tenant_id tenant then some c else none
]

abbrev pub or_none : Option (Unit {0}) → List Group → List Group
or_none none gs = []
or_none (some u) gs = gs

abbrev pub paid_or_zero : Option (Unit {0}) → ℕ × ℕ → ℕ × ℕ
paid_or_zero none payments = (0, 0)
paid_or_zero (some u) payments = payments

unfoldable pub get_campaign_stats : ℕ × ℕ → Text → Text → M CampaignStats
unfolding query stats_header group_rows failed_in breakdown
get_campaign_stats payments tenant id = do
  query
  s ← get
  elim (stats_header tenant id s) [
    | none ↦ raise not_found
    | some c ↦ do
      query
      grouped ← attempt query
      paid ← attempt query
      let groups = or_none grouped (group_rows (select (with_status id failed) s.deliveries))
      let (kobo, orders) = paid_or_zero paid payments
      pure (record {
        campaign_id = id;
        tenant_id = c.tenant_id;
        status = c.status;
        total_targets = c.total_targets;
        processed_targets = c.processed_targets;
        sent = tally (with_status id sent) s.deliveries;
        delivered = tally (with_status id delivered) s.deliveries;
        failed = tally (with_status id failed) s.deliveries;
        retryable_failed = failed_in true groups;
        terminal_failed = failed_in false groups;
        failure_breakdown = breakdown groups;
        revenue_kobo = kobo;
        paid_orders_count = orders;
      })
  ]
