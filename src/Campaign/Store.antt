-- ===== src/Campaign/Store.antt =====
-- What the campaign repository and the event stream keep: the table `campaigns`, by id, and the
-- table `campaign_review_events`, newest first, and `require_campaign_approval` of the table
-- `tenant_settings` (`none` where a tenant has no row), the table `campaign_deliveries`, and the
-- tasks published on the event stream, oldest first. A statement that reaches the database may
-- fail: `faults` lists, statement by statement, which will (none that is listed means that it
-- succeeds).
use omnipulse_backend.Base.{
  ℕ, Text, Bool, Option, none, some, List, [], ◌∷◌, ◌&&◌, ltb, text_eq, if◌then◌else◌,
}
use omnipulse_backend.Base.State.{Outcome, Action}
pub use omnipulse_backend.Base.State.{
  ok, err, pure, raise, ◌>>=◌, ◌>>◌, raise_if, get, put, or_zero, attempt,
}
use omnipulse_backend.Campaign.Types.{Status, Campaign, ReviewEvent}
use omnipulse_backend.Campaign.Task.{Task, Delivery}

-- The errors that the operations return, one for each message of the source.
pub data Error : Type 0 where
  database not_found not_scheduled : Error
  empty_title empty_body too_soon changes_outstanding review_stale : Error
  awaiting_approval approval_required not_approver empty_reason : Error
  campaign_rejected quota_exceeded whatsapp_disconnected no_targets no_fuel : Error
  link_not_found link_expired bad_decision note_required not_reviewable : Error
  wrong_status : Status → Error

abbrev pub Result : Type 0 → Type 0
Result A = Outcome Error A

pub record Store : Type 0 where
  pub rows : Text → Option Campaign
  pub events : List ReviewEvent
  pub settings : Text → Option Bool
  pub deliveries : List Delivery
  pub outbox : List Task
  pub faults : List Bool
  pub now : ℕ

abbrev pub M : Type 0 → Type 0
M A = Action Store Error A

-- One statement is sent to the database.
unfoldable pub query : M (Unit {0})
query s = elim s.faults [
  | [] ↦ (ok tt, s)
  | fails ∷ rest ↦ (if fails then err database else ok tt, record s { faults = rest })
]

-- `WHERE tenant_id = $1 AND id = $2`
unfoldable pub find : Text → Text → Store → Option Campaign
find tenant id s = elim (s.rows id) [
  | none ↦ none
  | some c ↦ if text_eq c.tenant_id tenant then some c else none
]

abbrev pub set_row : Text → Option Campaign → Store → Store
set_row id c s = record s { rows = λ j. if text_eq j id then c else s.rows j }

-- The review event of a campaign with the greatest `created_at`, the newest one if they tie.
abbrev newer : Option ReviewEvent → ReviewEvent → ReviewEvent
newer none e = e
newer (some f) e = if ltb e.created_at f.created_at then f else e

unfoldable pub latest_review : Text → Text → List ReviewEvent → Option ReviewEvent
latest_review tenant id [] = none
latest_review tenant id (e ∷ es) =
    let rest = latest_review tenant id es in
    if text_eq e.event_tenant tenant && text_eq e.event_campaign id
    then some (newer rest e)
    else rest
