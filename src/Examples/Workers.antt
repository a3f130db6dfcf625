-- ===== src/Examples/Workers.antt =====
-- The theorems on the workers and on what they report, applied.
use omnipulse_backend.Base.{
  ℕ, bytes, text_eq, true, false, Option, some, none, [], ◌∷◌, ◌≡◌, ◌≢◌, refl, ◌⊎◌, inr, ◌≤◌, ◌<◌,
  ◌+◌, tally, ◌&&◌,
}
use omnipulse_backend.Base.State.{ok}
use omnipulse_backend.Campaign.Types.{Status, processing, paused, cancelled, completed, other}
use omnipulse_backend.Campaign.Task.{Task, to_contact, failed}
use omnipulse_backend.Campaign.Store.{Store}
use omnipulse_backend.Campaign.Deliveries.{record_delivery_result}
use omnipulse_backend.Campaign.Stats.{CampaignStats, with_status, stats_header, get_campaign_stats}
use omnipulse_backend.Campaign.Breakdown.{is_named, get_campaign_stats-breakdown}
use omnipulse_backend.Worker.Wire.{World, answered, ack, nak}
use omnipulse_backend.Worker.Adapters.{message_of}
use omnipulse_backend.Worker.Broadcast.{execute_delivery}
use omnipulse_backend.Worker.Standalone.{process_task}
use omnipulse_backend.Worker.Failures.{classify_delivery_error}
use omnipulse_backend.Worker.Guards.{sends, execute_delivery-guarded}
use omnipulse_backend.Worker.Rivals.{process_task-unguarded}
use omnipulse_backend.Worker.Telemetry.{process_receipt, process_receipt-recorded}
use omnipulse_backend.Examples.World.{plain_unicode, ann_failed, ann_delivered, holding}
use omnipulse_backend.Examples.Campaigns.{acme, the_sale, started_row}

abbrev ann_task : Task
ann_task = record {
  campaign_id = the_sale;
  tenant_id = acme;
  contact_id = bytes "ann";
  target_type = to_contact;
  first_name = bytes "Ann";
  target_platform = bytes "telegram";
  routing_value = bytes "ann";
  message_body = bytes "Hi {{name}}, {first_name}!";
  media_url = none;
  expires_at = 900;
}

-- A Telegram bot whose API answers with a code.
abbrev world : Option Status → ℕ → World
world status code = record {
  now = 100;
  opted_out = some false;
  status_first = status;
  campaign = some (processing, 40);
  delivered_before = some false;
  attempts = some 3;
  publishes = true;
  credentials = λ platform. ok (bytes "creds");
  decrypt = λ raw. none;
  bot_token = λ raw. some (bytes "token");
  cloud_keys = λ raw. ([], []);
  device_id = λ raw. [];
  device = none;
  reach_device = none;
  post_telegram = λ token m. answered code;
  post_cloud = λ phone token m. answered 200;
  late_text = λ at now. [];
  age_text = λ at now. [];
}

greets : (message_of ann_task).text ≡ bytes "Hi Ann, Ann!"
unfolding message_of
greets = refl

classifies :
    classify_delivery_error (bytes "Telegram API returned status 502") 502 true
    ≡ (bytes "provider_error", true)
unfolding classify_delivery_error
classifies = refl

sends_once : sends (execute_delivery (world (some processing) 200) (some ann_task)) ≡ true
unfolding execute_delivery
sends_once = refl

execute_delivery-guarded_example :
    let w = world (some processing) 200 in
    (w.opted_out ≡ some false)
    × (w.status_first ≢ some paused)
    × (w.status_first ≢ some cancelled)
    × (w.delivered_before ≢ some true)
    × (status : Status) × (created : ℕ) × (w.campaign ≡ some (status, created))
    × (status ≢ completed)
    × (status ≢ other (bytes "failed"))
    × (((0 < ann_task.expires_at) × (w.now ≤ ann_task.expires_at))
        ⊎ ((ann_task.expires_at ≡ 0) × (w.now ≤ created + 1800)))
execute_delivery-guarded_example =
    execute_delivery-guarded (world (some processing) 200) ann_task sends_once

process_task-unguarded_example :
    (sends (execute_delivery (world (some cancelled) 200) (some ann_task)) ≡ false)
    × (sends (process_task (world (some cancelled) 200) (some ann_task)) ≡ true)
unfolding text_eq
process_task-unguarded_example =
    process_task-unguarded (world (some cancelled) 200) ann_task (bytes "creds") 200 40 processing
      (inr (refl, inr refl)) refl refl refl refl refl refl (λ token. refl)

-- Two failures of one code: one may be retried.
abbrev failed_twice : Store
failed_twice = holding started_row [] (
    record ann_failed { failure_code = some (bytes "provider_error") }
    ∷ record ann_failed {
      id = bytes "d2";
      failure_code = some (bytes "provider_error");
      retryable = false;
    }
    ∷ [])

get_campaign_stats-breakdown_example :
    (p : CampaignStats) × (get_campaign_stats (0, 0) [] the_sale failed_twice
      ≡ (ok p, failed_twice))
    × (p.failed ≡ tally (with_status the_sale failed) failed_twice.deliveries)
    × (p.retryable_failed + p.terminal_failed ≡ p.failed)
    × (n : ℕ) × (p.failure_breakdown (bytes "provider_error") ≡ some n)
    × (n
        < tally
            (λ d. with_status the_sale failed d && is_named (bytes "provider_error") d)
            failed_twice.deliveries)
unfolding text_eq stats_header
get_campaign_stats-breakdown_example =
    get_campaign_stats-breakdown (0, 0) [] the_sale (bytes "provider_error") failed_twice
      started_row refl refl refl refl

process_receipt-recorded_example :
    let (out, t) = record_delivery_result (bytes "d2") ann_delivered failed_twice in
    let ((answer, told), u) =
      process_receipt (0, 0) (bytes "d2") (some ann_delivered) failed_twice in
    ((answer ≡ ack) × (out ≡ ok tt) × (u.rows ≡ t.rows) × (u.deliveries ≡ t.deliveries))
    ⊎ ((answer ≡ nak)
        × (told ≡ [])
        × (u.rows ≡ failed_twice.rows)
        × (u.deliveries ≡ failed_twice.deliveries))
process_receipt-recorded_example =
    process_receipt-recorded (0, 0) (bytes "d2") ann_delivered failed_twice
