-- ===== src/Examples/Sending.antt =====
-- The theorems on sending, revising and reporting, applied.
use omnipulse_backend.Base.{
  bytes, text_eq, is_ascii, ascii_trim, trim_space, true, false, some, none, [], ◌∷◌, ◌++◌, ◌≡◌,
  ◌≢◌, refl, inl, arith, length, map, tally, if◌then◌else◌,
}
use omnipulse_backend.Campaign.Types.{
  draft, approved, Campaign, brand_changes_outstanding, brand_review_stale, brand_approved,
  changes_requested,
}
use omnipulse_backend.Campaign.Store.{
  Store, ok, err, query, find, latest_review, whatsapp_disconnected,
}
use omnipulse_backend.Campaign.Repo.{get_by_id, update_content, record_decision}
use omnipulse_backend.Campaign.Lifecycle.{
  schedule_campaign, update_campaign, campaign_editable, normalize_campaign_content,
  notify_brand_of_revision,
}
use omnipulse_backend.Campaign.Dispatch.{
  trigger_dispatch, publish_targets, whatsapp_ready, parse_string_list,
}
use omnipulse_backend.Campaign.Deliveries.{
  record_delivery_result, claim_rows, reported, pending, retry_deliveries, retry_task, is_claimable,
}
use omnipulse_backend.Campaign.Revision.{
  revised, update_campaign-needs_review, record_decision-current,
}
use omnipulse_backend.Campaign.Approval.{reading}
use omnipulse_backend.Campaign.Preflight.{Report, preflight}
use omnipulse_backend.Campaign.Forecast.{all_tasks, all_targets, preflight-publish_targets}
use omnipulse_backend.Campaign.Sent.{sending, trigger_dispatch-sent, destinations_alone-refused}
use omnipulse_backend.Campaign.Receipts.{
  DistinctKeys, Settled, record_delivery_result-progress, record_delivery_result-again,
}
use omnipulse_backend.Campaign.Retry.{claimed, response, reopened, retry_deliveries-sent}
use omnipulse_backend.Examples.World.{
  plain_unicode, sample_json, shop, sale, approval, ann_failed, ann_delivered, holding,
}
use omnipulse_backend.Examples.Campaigns.{
  acme, the_sale, member, owner, approved_row, approved_sale, started_row, dispatched,
}

trigger_dispatch-sent_example :
    ((trigger_dispatch shop member acme the_sale approved_sale).1.outbox
      ≡ [] ++ all_tasks shop (reading acme the_sale approved_sale approved_row) 100)
    × ((trigger_dispatch shop member acme the_sale approved_sale).1.rows the_sale
        ≡ some (
            sending
              (all_targets shop (reading acme the_sale approved_sale approved_row))
              approved_row))
    × (length (all_tasks shop (reading acme the_sale approved_sale approved_row) 100)
        ≡ all_targets shop (reading acme the_sale approved_sale approved_row))
unfolding text_eq find latest_review parse_string_list
trigger_dispatch-sent_example =
    trigger_dispatch-sent shop member acme the_sale approved_sale approved_row refl refl refl
      dispatched

-- Ann and the destination; Bob has not started a chat.
two_targets : all_targets shop (reading acme the_sale approved_sale approved_row) ≡ 2
unfolding text_eq latest_review parse_string_list
two_targets = refl

preflight-publish_targets_example :
    (p : Report) × (preflight shop acme the_sale approved_sale ≡ (ok p, approved_sale))
    × ((publish_targets shop (reading acme the_sale approved_sale approved_row) approved_sale).0
        ≡ (if p.whatsapp_connected then ok p.sendable else err whatsapp_disconnected))
unfolding text_eq find latest_review parse_string_list
preflight-publish_targets_example =
    preflight-publish_targets shop acme the_sale approved_sale approved_row refl refl refl
      ((refl, (refl, tt)), ((refl, tt), (tt, tt)))

abbrev lone_row : Campaign
lone_row = sale approved (bytes "[]") (bytes "[news]")

abbrev lone_sale : Store
lone_sale = holding lone_row [] []

destinations_alone-refused_example :
    ((publish_targets shop (reading acme the_sale lone_sale lone_row) lone_sale).0
      ≡ err whatsapp_disconnected)
    × (p : Report) × (preflight shop acme the_sale lone_sale ≡ (ok p, lone_sale))
    × (p.whatsapp_connected ≡ true)
    × (p.sendable ≡ 1)
unfolding text_eq find latest_review parse_string_list whatsapp_ready
destinations_alone-refused_example =
    destinations_alone-refused shop acme the_sale lone_sale lone_row refl refl refl refl

abbrev revision : Campaign
revision = sale draft (bytes "[telegram]") (bytes "[]")

-- The brand asked for changes of the approved campaign.
abbrev objected_sale : Store
objected_sale = holding approved_row (record approval { decision = changes_requested } ∷ []) []

abbrev revised_sale : Campaign
revised_sale = reading acme the_sale objected_sale (revised objected_sale approved_row revision)

revises : (update_campaign none acme the_sale revision objected_sale).0 ≡ ok revised_sale
unfolding text_eq update_campaign get_by_id update_content query find latest_review
    campaign_editable normalize_campaign_content trim_space is_ascii ascii_trim
    notify_brand_of_revision
revises = refl

update_campaign-needs_review_example :
    ((schedule_campaign owner acme the_sale 500
        (update_campaign none acme the_sale revision objected_sale).1).0
      ≢ ok tt)
    × ((trigger_dispatch shop owner acme the_sale
          (update_campaign none acme the_sale revision objected_sale).1).0
        ≢ ok tt)
unfolding text_eq latest_review
update_campaign-needs_review_example =
    update_campaign-needs_review none acme the_sale revision revised_sale objected_sale 60 owner 500
      shop refl (omega arith) (omega arith, tt) refl revises

record_decision-current_example :
    let t = (record_decision approval approved_sale).1 in
    let read = reading acme the_sale t approved_row in
    (brand_review_stale read ≡ false)
    × (read.latest_review_decision ≡ some brand_approved)
    × (brand_changes_outstanding read ≡ false)
unfolding text_eq find
record_decision-current_example =
    record_decision-current approval approved_sale approved_row refl (omega arith, tt) refl
      (inl refl)

-- One of one target has failed.
abbrev tried_sale : Store
tried_sale = holding started_row [] (ann_failed ∷ [])

record_delivery_result-progress_example :
    let t = (record_delivery_result (bytes "d2") ann_delivered tried_sale).1 in
    let n = reported the_sale t.deliveries in
    DistinctKeys t.deliveries
    × (d : Campaign) × (t.rows the_sale ≡ some d)
    × (d.processed_targets ≡ n)
    × Settled started_row n (pending the_sale t.deliveries) d
unfolding text_eq
record_delivery_result-progress_example =
    record_delivery_result-progress (bytes "d2") ann_delivered tried_sale started_row refl refl
      (tt, tt)

record_delivery_result-again_example :
    let t = (record_delivery_result (bytes "d2") ann_delivered tried_sale).1 in
    let u = (record_delivery_result (bytes "d3") ann_delivered t).1 in
    reported the_sale u.deliveries ≡ reported the_sale t.deliveries
record_delivery_result-again_example =
    record_delivery_result-again (bytes "d2") (bytes "d3") ann_delivered ann_delivered tried_sale
      refl refl refl refl

retry_deliveries-sent_example :
    let l = claimed the_sale [] tried_sale in
    let t = (retry_deliveries acme the_sale [] tried_sale).1 in
    ((retry_deliveries acme the_sale [] tried_sale).0 ≡ ok (response l))
    × (t.outbox ≡ [] ++ map (retry_task (reading acme the_sale tried_sale started_row) 100) l)
    × (t.deliveries ≡ claim_rows (is_claimable the_sale []) 100 tried_sale.deliveries)
    × (tally (is_claimable the_sale []) t.deliveries ≡ 0)
    × (length l ≡ tally (is_claimable the_sale []) tried_sale.deliveries)
    × (t.rows the_sale ≡ some (reopened l started_row))
unfolding text_eq find
retry_deliveries-sent_example =
    retry_deliveries-sent acme the_sale [] tried_sale started_row refl refl refl
