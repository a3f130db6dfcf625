-- ===== src/Campaign/Dispatch.antt =====
-- `TriggerDispatch` of apps/api-gateway/internal/usecase/campaign.usecase.go: the guards that run
-- before anything is published, the loop over the pages of contacts, and the tasks it emits.
use omnipulse_backend.Base.{
  ℕ, zero, suc, ◌+◌, pos, minus_one, leb_ℤ, eq_ℤ, Text, bytes, text_eq, text_mem, Unicode, Bool,
  true, false, Option, none, some, List, [], ◌∷◌, ◌++◌, ◌&&◌, ◌||◌, not, ltb, ◌==◌, is_empty,
  length, if◌then◌else◌,
}
use omnipulse_backend.Contact.Types.{Contact, is_active}
use omnipulse_backend.Billing.Types.{Subscription}
use omnipulse_backend.Campaign.Types.{
  Status, processing, paused, completed, cancelled, Campaign, is_approved, is_rejected,
  is_scheduled, brand_changes_outstanding, brand_review_stale,
}
use omnipulse_backend.Campaign.Task.{Task, to_contact, to_destination}
use omnipulse_backend.Campaign.Store.{
  changes_outstanding, review_stale, campaign_rejected, quota_exceeded, whatsapp_disconnected,
  no_targets, no_fuel, wrong_status, M, pure, raise, ◌>>=◌, ◌>>◌, raise_if, or_zero, get, put,
  query,
}
use omnipulse_backend.Campaign.Repo.{get_by_id, get_approval_setting, set_dispatching}
use omnipulse_backend.Campaign.Lifecycle.{is_approver, approval_error}
use omnipulse_backend.Campaign.Audience.{
  Workspace, Destination, count_audience_reachability, list_unstarted_telegram_contact_ids,
  list_by_tenant, list_by_ids,
}

-- `json.Unmarshal` into a `[]string`; `none` is its error.
pub record Json : Type 0 where
  pub unmarshal_strings : Text → Option (List Text)

-- `parseStringList`
unfoldable pub parse_string_list : ⦃json : Json⦄ → Text → List Text
parse_string_list ⦃json⦄ raw = elim (json.unmarshal_strings raw) [
  | none ↦ []
  | some values ↦ values
]

-- `whatsAppReady`
unfoldable pub whatsapp_ready : Workspace → Bool
whatsapp_ready w = elim w.channel_status [
  | none ↦ false
  | some none ↦ false
  | some (some status) ↦ text_eq status (bytes "connected")
]

-- `PublishDispatchTask`: the broker may refuse a task, by the same list of faults.
unfoldable pub publish_dispatch_task : Task → M (Unit {0})
unfolding query
publish_dispatch_task task = do query; s ← get; put (record s { outbox = s.outbox ++ task ∷ [] })

abbrev pub contact_task : Campaign → ℕ → Contact → Task
contact_task c now con = record {
  campaign_id = c.id;
  tenant_id = c.tenant_id;
  contact_id = con.id;
  target_type = to_contact;
  first_name = con.first_name;
  target_platform = con.channel;
  routing_value = con.routing_value;
  message_body = c.message_body;
  media_url = c.media_url;
  expires_at = now + 7200;
}

-- A failure to publish is only logged.
unfoldable pub emit_contact_task : Campaign → Contact → M (Unit {0})
unfolding publish_dispatch_task
emit_contact_task c con = do s ← get; or_zero tt (publish_dispatch_task (contact_task c s.now con))

abbrev pub destination_task : Campaign → ℕ → Destination → Task
destination_task c now dest = record {
  campaign_id = c.id;
  tenant_id = c.tenant_id;
  contact_id = [];
  target_type = to_destination;
  first_name = dest.title;
  target_platform = bytes "telegram";
  routing_value = dest.telegram_chat_id;
  message_body = c.message_body;
  media_url = c.media_url;
  expires_at = now + 7200;
}

unfoldable pub emit_destination_task : Campaign → Destination → M (Unit {0})
unfolding publish_dispatch_task
emit_destination_task c dest = do
  s ← get
  or_zero tt (publish_dispatch_task (destination_task c s.now dest))

-- The body of both loops over contacts: what is not wanted is skipped. Returns how many were not.
unfoldable pub emit_contacts : Campaign → (Contact → Bool) → List Contact → M ℕ
emit_contacts c wanted [] = pure 0
emit_contacts c wanted (con ∷ rest) =
    let others = emit_contacts c wanted rest in
    let emitted : M ℕ = (do emit_contact_task c con; n ← others; pure (suc n)) in
    if wanted con then emitted else others

abbrev pub page_size : ℕ
page_size = 100

-- `for { … page++ }` with fuel, from the offset `(page - 1) * pageSize` on.
unfoldable pub dispatch_pages : Workspace → Campaign → (Contact → Bool) → ℕ → ℕ → M ℕ
dispatch_pages w c wanted zero offset = raise no_fuel
dispatch_pages w c wanted (suc fuel) offset =
    let rest = dispatch_pages w c wanted fuel (offset + page_size) in
    do
      page ← list_by_tenant w page_size offset
      let more : ℕ → M ℕ = λ n. do m ← rest; pure (n + m)
      let here : M ℕ = do
        n ← emit_contacts c wanted page
        if ltb (length page) page_size then pure n else more n
      if is_empty page then pure 0 else here

-- The tests of the loop over explicitly selected contacts.
abbrev pub wants_selected : List Text → List Text → List Text → Contact → Bool
wants_selected ids channels unstarted con =
    text_mem con.id ids
    && (is_active con.status
        && (not (text_mem con.id unstarted)
            && (is_empty channels || text_mem con.channel channels)))

-- The tests of the loop over all contacts of the selected channels.
abbrev pub wants_channel : List Text → List Text → Contact → Bool
wants_channel channels unstarted con =
    (is_active con.status && text_mem con.channel channels) && not (text_mem con.id unstarted)

unfoldable pub dispatch_contacts : Workspace → Campaign → List Text → List Text → List Text → M ℕ
dispatch_contacts w c ids channels unstarted =
    let fuel = suc (length w.contacts) in
    if not (is_empty ids)
    then dispatch_pages w c (wants_selected ids channels unstarted) fuel 0
    else if not (is_empty channels)
    then dispatch_pages w c (wants_channel channels unstarted) fuel 0
    else pure 0

unfoldable pub emit_destinations : Campaign → List Destination → M ℕ
emit_destinations c [] = pure 0
emit_destinations c (d ∷ ds) = do
  emit_destination_task c d
  n ← emit_destinations c ds
  pure (suc n)

unfoldable pub dispatch_destinations : Workspace → Campaign → List Text → M ℕ
unfolding emit_destinations
dispatch_destinations w c ids =
    let found : M ℕ = (do ds ← list_by_ids w ids; emit_destinations c ds) in
    if is_empty ids then pure 0 else found

-- The statuses that the first guard refuses.
abbrev pub is_past_dispatch : Status → Bool
is_past_dispatch processing = true
is_past_dispatch completed = true
is_past_dispatch paused = true
is_past_dispatch cancelled = true
is_past_dispatch _ = false

abbrev limit_reached : Workspace → Subscription → Bool
limit_reached w sub =
    let since = if sub.current_period_start == 0 then w.month_start else sub.current_period_start in
    elim (w.deliveries_since since) [
      | none ↦ false
      | some sent ↦ leb_ℤ sub.monthly_message_limit (pos sent)
    ]

-- The plan's monthly quota; a reading that fails lets the dispatch pass.
unfoldable pub over_quota : Workspace → Bool
over_quota w = elim w.subscription [
  | none ↦ false
  | some sub ↦ not (eq_ℤ sub.monthly_message_limit minus_one) && limit_reached w sub
]

module _ ⦃uni : Unicode⦄ where
  -- The guards up to the quota.
  unfoldable pub dispatch_guards : Workspace → Text → Text → Campaign → M (Unit {0})
  unfolding over_quota
  dispatch_guards w role tenant c = do
    raise_if (is_past_dispatch c.status) (wrong_status c.status)
    raise_if (is_rejected c.status) campaign_rejected
    raise_if (brand_changes_outstanding c) changes_outstanding
    raise_if (brand_review_stale c) review_stale
    required ← or_zero false (get_approval_setting tenant)
    raise_if
        (required
          && (not (is_approver role)
              && (not (is_approved c.status) && not (is_scheduled c.status))))
        (approval_error c.status)
    raise_if (over_quota w) quota_exceeded

-- The reachability gates; returns the contacts to skip.
unfoldable pub reachability_gates : Workspace → List Text → List Text → M (List Text)
reachability_gates w ids channels = do
  reach ← count_audience_reachability w ids channels
  raise_if (ltb 0 reach.whatsapp_active && not (whatsapp_ready w)) whatsapp_disconnected
  if ltb 0 reach.telegram_unstarted then list_unstarted_telegram_contact_ids w ids else pure []

-- The gates and the two loops; returns `publishedTargets`.
unfoldable pub publish_targets : ⦃json : Json⦄ → Workspace → Campaign → M ℕ
publish_targets w c = do
  let channels = parse_string_list c.selected_channels
  let destinations = parse_string_list c.selected_telegram_destination_ids
  let contacts = parse_string_list c.selected_contact_ids
  unstarted ← reachability_gates w contacts channels
  n ← dispatch_contacts w c contacts channels unstarted
  m ← dispatch_destinations w c destinations
  pure (n + m)

unfoldable pub trigger_dispatch :
    ⦃uni : Unicode⦄ ⦃json : Json⦄ → Workspace → Text → Text → Text → M (Unit {0})
trigger_dispatch w role tenant id = do
  c ← get_by_id tenant id
  dispatch_guards w role tenant c
  total ← publish_targets w c
  raise_if (total == 0) no_targets
  set_dispatching tenant id total
