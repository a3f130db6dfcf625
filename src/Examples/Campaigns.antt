-- ===== src/Examples/Campaigns.antt =====
-- The theorems on campaigns, applied.
use omnipulse_backend.Base.{
  Text, bytes, text_eq, is_ascii, equal_fold, true, false, some, [], ◌∷◌, ◌≡◌, ◌≢◌, refl, ◌⊎◌,
}
use omnipulse_backend.Campaign.Types.{
  pending_approval, approved, rejected, scheduled, processing, Campaign, brand_review_current,
  brand_changes_outstanding, brand_review_stale,
}
use omnipulse_backend.Campaign.Store.{Store, ok, err, not_found, query, find, latest_review}
use omnipulse_backend.Campaign.Repo.{get_by_id, get_approval_setting, set_dispatching}
use omnipulse_backend.Campaign.Lifecycle.{schedule_campaign, is_approver}
use omnipulse_backend.Campaign.Audience.{
  count_audience_reachability, list_by_tenant, list_by_ids, list_unstarted_telegram_contact_ids,
}
use omnipulse_backend.Campaign.Dispatch.{
  is_past_dispatch, trigger_dispatch, dispatch_guards, over_quota, publish_targets,
  reachability_gates, whatsapp_ready, parse_string_list, dispatch_contacts, dispatch_pages,
  emit_contacts, emit_contact_task, publish_dispatch_task, dispatch_destinations, emit_destinations,
  emit_destination_task,
}
use omnipulse_backend.Campaign.Machine.{
  deletes, cancels, execute, run, phase, execute-Steps, run-phase,
}
use omnipulse_backend.Campaign.Edges.{Steps}
use omnipulse_backend.Campaign.Approval.{
  reading, schedule_campaign-pending, trigger_dispatch-guarded,
}
use omnipulse_backend.Examples.World.{plain_unicode, sample_json, shop, sale, approval, holding}

abbrev pub acme : Text
acme = bytes "acme"

abbrev pub the_sale : Text
the_sale = bytes "sale"

abbrev pub member : Text
member = bytes "member"

abbrev pub owner : Text
owner = bytes "Owner"

abbrev pub approved_row : Campaign
approved_row = sale approved (bytes "[telegram]") (bytes "[news]")

abbrev pub approved_sale : Store
approved_sale = holding approved_row (approval ∷ []) []

abbrev pending_row : Campaign
pending_row = sale pending_approval (bytes "[telegram]") (bytes "[]")

abbrev pending_sale : Store
pending_sale = holding pending_row [] []

abbrev pub started_row : Campaign
started_row = sale processing (bytes "[telegram]") (bytes "[]")

abbrev pub started_sale : Store
started_sale = holding started_row [] []

-- The approved sale can be sent.
pub dispatched : (trigger_dispatch shop member acme the_sale approved_sale).0 ≡ ok tt
unfolding text_eq trigger_dispatch get_by_id get_approval_setting query find latest_review
    brand_changes_outstanding brand_review_stale brand_review_current is_approver equal_fold
    is_ascii dispatch_guards over_quota publish_targets reachability_gates whatsapp_ready
    parse_string_list count_audience_reachability list_by_tenant list_by_ids
    list_unstarted_telegram_contact_ids dispatch_contacts dispatch_pages emit_contacts
    emit_contact_task publish_dispatch_task dispatch_destinations emit_destinations
    emit_destination_task set_dispatching
dispatched = refl

execute-Steps_example : Steps approved_sale (execute (deletes acme the_sale) approved_sale)
execute-Steps_example = execute-Steps (deletes acme the_sale) approved_sale

run-phase_example :
    (d : Campaign) × ((run (cancels acme the_sale ∷ []) started_sale).rows the_sale ≡ some d)
    × (phase d.status ≡ some true)
    × (d.tenant_id ≡ acme)
unfolding text_eq
run-phase_example =
    run-phase (cancels acme the_sale ∷ []) started_sale the_sale started_row true refl refl

schedule_campaign-pending_example :
    schedule_campaign owner acme the_sale 200 pending_sale ≡ (err not_found, pending_sale)
unfolding text_eq find brand_changes_outstanding latest_review brand_review_stale is_approver
    equal_fold
schedule_campaign-pending_example =
    schedule_campaign-pending owner acme the_sale 200 pending_sale pending_row refl refl refl

trigger_dispatch-guarded_example :
    (row : Campaign) × (find acme the_sale approved_sale ≡ some row)
    × (is_past_dispatch row.status ≡ false)
    × (row.status ≢ rejected)
    × (brand_changes_outstanding (reading acme the_sale approved_sale row) ≡ false)
    × (brand_review_stale (reading acme the_sale approved_sale row) ≡ false)
    × ((true ≡ false)
        ⊎ ((is_approver member ≡ true) ⊎ ((row.status ≡ approved) ⊎ (row.status ≡ scheduled))))
    × (over_quota shop ≡ false)
trigger_dispatch-guarded_example =
    trigger_dispatch-guarded shop member acme the_sale approved_sale refl dispatched
