-- ===== src/Examples/World.antt =====
-- A workspace of one tenant, with three contacts, a destination and one campaign.
use omnipulse_backend.Base.{
  pos, Text, bytes, text_eq, Unicode, true, false, none, some, List, [], ◌∷◌, if◌then◌else◌,
}
use omnipulse_backend.Contact.Types.{Contact, active}
use omnipulse_backend.Billing.Types.{free, starter, monthly}
use omnipulse_backend.Campaign.Types.{Status, Campaign, ReviewEvent, brand_approved}
use omnipulse_backend.Campaign.Task.{Delivery, DeliveryResult, failed, delivered, to_contact}
use omnipulse_backend.Campaign.Store.{Store}
use omnipulse_backend.Campaign.Audience.{Workspace, Destination}
use omnipulse_backend.Campaign.Dispatch.{Json}

-- Everything beyond ASCII is left alone.
instance abbrev pub plain_unicode : Unicode
plain_unicode = record {
  trim_wide = λ t. t;
  lower_wide = λ t. t;
  upper_wide = λ t. t;
  fold_wide = λ s t. false;
  keyword_wide = λ t. t;
}

-- Three texts are understood.
instance abbrev pub sample_json : Json
sample_json = record {
  unmarshal_strings = λ t.
      if text_eq t (bytes "[]")
      then some []
      else if text_eq t (bytes "[telegram]")
      then some (bytes "telegram" ∷ [])
      else if text_eq t (bytes "[news]")
      then some (bytes "news" ∷ [])
      else none;
}

abbrev person : Text → Text → Text → Contact
person id channel source = record {
  id = id;
  tenant_id = bytes "acme";
  first_name = id;
  last_name = [];
  channel = channel;
  routing_value = id;
  source = source;
  status = active;
  anonymized_at = none;
  delete_after_at = none;
}

-- Ann has started a chat; Bob has not; Cat uses WhatsApp.
abbrev pub ann : Contact
ann = person (bytes "ann") (bytes "telegram") (bytes "inbound_webhook")

abbrev pub bob : Contact
bob = person (bytes "bob") (bytes "telegram") (bytes "import")

abbrev pub cat : Contact
cat = person (bytes "cat") (bytes "whatsapp") (bytes "import")

abbrev pub news : Destination
news = record { id = bytes "news"; title = bytes "News"; telegram_chat_id = bytes "n1" }

abbrev pub shop : Workspace
shop = record {
  contacts = ann ∷ bob ∷ cat ∷ [];
  has_inbound = λ id. false;
  has_events = λ id. true;
  destinations_by_ids = λ ids. news ∷ [];
  subscription = some (record {
    tenant_id = bytes "acme";
    provider = free;
    customer_id = [];
    subscription_id = [];
    tier = starter;
    cycle = monthly;
    currency = bytes "USD";
    amount = 0;
    status = bytes "active";
    current_period_start = 5;
    current_period_end = none;
    monthly_message_limit = pos 1000;
    channels_limit = pos 2;
    contacts_limit = pos 500;
  });
  deliveries_since = λ since. some 3;
  month_start = 0;
  channel_status = none;
}

abbrev pub sale : Status → Text → Text → Campaign
sale status channels destinations = record {
  id = bytes "sale";
  tenant_id = bytes "acme";
  title = bytes "Sale";
  message_body = bytes "All must go";
  external_template_code = none;
  media_url = none;
  delivery_type = bytes "direct_message";
  selected_channels = channels;
  selected_telegram_destination_ids = destinations;
  selected_contact_ids = bytes "[]";
  status = status;
  scheduled_at = none;
  submitted_by = none;
  submitted_at = none;
  approved_by = none;
  approved_at = none;
  rejection_reason = none;
  latest_review_decision = none;
  latest_review_note = [];
  latest_review_at = none;
  content_revised_at = none;
  brand_revision_notified = false;
  total_targets = 1;
  processed_targets = 0;
}

abbrev pub approval : ReviewEvent
approval = record {
  event_tenant = bytes "acme";
  event_campaign = bytes "sale";
  token_id = bytes "t";
  decision = brand_approved;
  note = [];
  reviewer_ip = [];
  created_at = 50;
}

abbrev pub ann_failed : Delivery
ann_failed = record {
  id = bytes "d1";
  campaign_id = bytes "sale";
  contact_id = some (bytes "ann");
  target_type = to_contact;
  platform = bytes "telegram";
  routing_value = bytes "ann";
  first_name = bytes "ann";
  status = failed;
  error_message = none;
  failure_code = none;
  retryable = true;
  attempt_count = 1;
  last_attempt_at = none;
  provider_message_id = none;
}

abbrev pub ann_delivered : DeliveryResult
ann_delivered = record {
  campaign_id = bytes "sale";
  contact_id = bytes "ann";
  target_type = bytes "contact";
  platform = bytes "telegram";
  routing_value = bytes "ann";
  first_name = bytes "ann";
  status = delivered;
  error_message = none;
  failure_code = none;
  retryable = false;
  provider_message_id = none;
}

-- A store that holds one campaign.
abbrev pub holding : Campaign → List ReviewEvent → List Delivery → Store
holding c events deliveries = record {
  rows = λ id. if text_eq id (bytes "sale") then some c else none;
  events = events;
  settings = λ tenant. some true;
  deliveries = deliveries;
  outbox = [];
  faults = [];
  now = 100;
}
