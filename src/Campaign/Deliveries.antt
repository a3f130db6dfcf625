-- ===== src/Campaign/Deliveries.antt =====
-- The table `campaign_deliveries`: apps/api-gateway/internal/repository/postgres_campaign.go
-- (RecordDeliveryResult, ClaimDeliveriesForRetry, ReleaseDeliveryClaims) and RetryDeliveries of
-- apps/api-gateway/internal/usecase/campaign.usecase.go.
use omnipulse_backend.Base.{
  ℕ, suc, ◌+◌, Text, bytes, text_eq, text_mem, Bool, true, false, Option, none, some, List, [], ◌∷◌,
  map, ◌&&◌, ◌||◌, not, ltb, leb, ◌==◌, is_empty, is_some, tally, select, length, if◌then◌else◌,
}
use omnipulse_backend.Campaign.Types.{processing, completed, Campaign, is_processing, is_completed}
use omnipulse_backend.Campaign.Task.{
  Task, TargetType, to_contact, to_destination, Delivery, queued, failed, is_queued, is_failed,
  DeliveryResult, normalized_target_type,
}
use omnipulse_backend.Campaign.Store.{
  wrong_status, database, Store, M, pure, ◌>>=◌, ◌>>◌, raise_if, attempt, get, put, query, find,
  set_row,
}
use omnipulse_backend.Campaign.Repo.{get_by_id, update_status}
use omnipulse_backend.Campaign.Dispatch.{publish_dispatch_task}

abbrev pub same_target : TargetType → TargetType → Bool
same_target to_contact to_contact = true
same_target to_destination to_destination = true
same_target _ _ = false

-- The unique key of the table: (campaign_id, target_type, routing_value).
abbrev pub same_key : DeliveryResult → Delivery → Bool
same_key r d =
    text_eq d.campaign_id r.campaign_id
    && (same_target d.target_type (normalized_target_type r.target_type)
        && text_eq d.routing_value r.routing_value)

-- `nullableContactID`
unfoldable pub nullable_contact_id : DeliveryResult → Option Text
unfolding text_eq
nullable_contact_id r =
    if text_eq r.target_type (bytes "telegram_destination") || is_empty r.contact_id
    then none
    else some r.contact_id

abbrev coalesce {ℓ} : {A : Type ℓ} → Option A → Option A → Option A
coalesce none b = b
coalesce (some a) b = some a

abbrev nonempty_or : Text → Text → Text
nonempty_or [] old = old
nonempty_or (b ∷ t) old = b ∷ t

-- The row that the INSERT would add.
abbrev pub fresh_row : Text → ℕ → DeliveryResult → Delivery
fresh_row id now r = record {
  id = id;
  campaign_id = r.campaign_id;
  contact_id = nullable_contact_id r;
  target_type = normalized_target_type r.target_type;
  platform = r.platform;
  routing_value = r.routing_value;
  first_name = r.first_name;
  status = r.status;
  error_message = r.error_message;
  failure_code = r.failure_code;
  retryable = r.retryable;
  attempt_count = 1;
  last_attempt_at = some now;
  provider_message_id = r.provider_message_id;
}

-- `ON CONFLICT … DO UPDATE SET`
abbrev pub conflict_row : ℕ → DeliveryResult → Delivery → Delivery
conflict_row now r d = record d {
  status = r.status;
  error_message = r.error_message;
  failure_code = r.failure_code;
  retryable = r.retryable;
  attempt_count = d.attempt_count + 1;
  last_attempt_at = some now;
  provider_message_id = coalesce r.provider_message_id d.provider_message_id;
  contact_id = coalesce d.contact_id (nullable_contact_id r);
  first_name = nonempty_or r.first_name d.first_name;
}

unfoldable pub upsert : Text → ℕ → DeliveryResult → List Delivery → List Delivery
upsert fresh now r [] = fresh_row fresh now r ∷ []
upsert fresh now r (d ∷ ds) =
    if same_key r d then conflict_row now r d ∷ ds else d ∷ upsert fresh now r ds

abbrev pub of_campaign : Text → Delivery → Bool
of_campaign id d = text_eq d.campaign_id id

-- COUNT(*), and COUNT(*) FILTER (WHERE status = 'queued').
abbrev pub reported : Text → List Delivery → ℕ
reported id ds = tally (λ d. of_campaign id d) ds

abbrev pub pending : Text → List Delivery → ℕ
pending id ds = tally (λ d. of_campaign id d && is_queued d.status) ds

abbrev pub progress_row : ℕ → ℕ → Campaign → Campaign
progress_row total waiting c = record c {
  processed_targets = total;
  status =
      if is_processing c.status
        && (ltb 0 c.total_targets && (leb c.total_targets total && waiting == 0))
      then completed
      else c.status;
}

abbrev pub recount : Text → Store → Store
recount id s = elim (s.rows id) [
  | none ↦ s
  | some c ↦
      set_row id (some (progress_row (reported id s.deliveries) (pending id s.deliveries) c)) s
]

-- `RecordDeliveryResult`: one transaction of an upsert, a recount and a commit. A row of a campaign
-- that does not exist is not admitted: `campaign_id` REFERENCES campaigns(id). (That the contact's
-- row must exist too is left out.)
unfoldable pub record_delivery_result : Text → DeliveryResult → M (Unit {0})
unfolding query upsert
record_delivery_result fresh r = do
  query
  query
  s ← get
  raise_if (not (is_some (s.rows r.campaign_id))) database
  query
  s ← get
  put (recount r.campaign_id (record s { deliveries = upsert fresh s.now r s.deliveries }))

-- The WHERE clause of the claim; empty ids are passed as NULL, which filters nothing.
abbrev pub is_claimable : Text → List Text → Delivery → Bool
is_claimable campaign ids d =
    of_campaign campaign d
    && (is_failed d.status && (d.retryable && (is_empty ids || text_mem d.id ids)))

abbrev pub claim_row : ℕ → Delivery → Delivery
claim_row now d = record d { status = queued; last_attempt_at = some now }

unfoldable pub claim_rows : (Delivery → Bool) → ℕ → List Delivery → List Delivery
claim_rows p now [] = []
claim_rows p now (d ∷ ds) = (if p d then claim_row now d else d) ∷ claim_rows p now ds

-- Without a tenant the campaign alone is joined on; an absent campaign claims nothing.
abbrev pub owns : Text → Text → Store → Bool
owns tenant campaign s =
    if is_empty tenant then is_some (s.rows campaign) else is_some (find tenant campaign s)

unfoldable pub claim_deliveries_for_retry : Text → Text → List Text → M (List Delivery)
unfolding query find
claim_deliveries_for_retry tenant campaign ids = do
  query
  s ← get
  let wanted : Delivery → Bool = λ d. owns tenant campaign s && is_claimable campaign ids d
  put (record s { deliveries = claim_rows wanted s.now s.deliveries })
  pure (map (claim_row s.now) (select wanted s.deliveries))

abbrev pub is_releasable : Text → List Text → Delivery → Bool
is_releasable campaign ids d = of_campaign campaign d && (text_mem d.id ids && is_queued d.status)

unfoldable pub release_rows : (Delivery → Bool) → List Delivery → List Delivery
release_rows p [] = []
release_rows p (d ∷ ds) = (if p d then record d { status = failed } else d) ∷ release_rows p ds

unfoldable pub release_delivery_claims : Text → List Text → M (Unit {0})
unfolding query
release_delivery_claims campaign ids =
    let released : Store → Store =
      λ s. record s { deliveries = release_rows (is_releasable campaign ids) s.deliveries } in
    let update : M (Unit {0}) = (do query; s ← get; put (released s)) in
    if is_empty ids then pure tt else update

abbrev contact_or_empty : Option Text → Text
contact_or_empty none = []
contact_or_empty (some id) = id

abbrev pub retry_task : Campaign → ℕ → Delivery → Task
retry_task c now d = record {
  campaign_id = c.id;
  tenant_id = c.tenant_id;
  contact_id = contact_or_empty d.contact_id;
  target_type = d.target_type;
  first_name = d.first_name;
  target_platform = d.platform;
  routing_value = d.routing_value;
  message_body = c.message_body;
  media_url = c.media_url;
  expires_at = now + 7200;
}

abbrev pub tick : Option (Unit {0}) → Delivery → ℕ × List Text → ℕ × List Text
tick none d (published, failures) = (published, d.id ∷ failures)
tick (some u) d (published, failures) = (suc published, failures)

-- The loop over the claimed rows: how many were published, and the ids of those that were not.
unfoldable pub republish : Campaign → List Delivery → M (ℕ × List Text)
republish c [] = pure (0, [])
republish c (d ∷ ds) = do
  s ← get
  done ← attempt (publish_dispatch_task (retry_task c s.now d))
  rest ← republish c ds
  pure (tick done d rest)

-- `RetryDeliveriesResponse`
pub record RetryResponse : Type 0 where
  pub retried : ℕ
  pub total_tasks : ℕ

-- A step whose error is only logged, and whether it succeeded.
abbrev pub try_if : Bool → M (Unit {0}) → M Bool
try_if false m = pure false
try_if true m = do r ← attempt m; pure (is_some r)

-- From the reopening of the campaign on: the rows are claimed.
unfoldable pub retry_tail : Text → Text → Campaign → List Delivery → M RetryResponse
retry_tail tenant id c claimed = do
  reopened ←
      try_if (not (is_empty claimed) && is_completed c.status) (update_status tenant id processing)
  outcome ← republish c claimed
  released ← try_if (not (is_empty outcome.1)) (release_delivery_claims id outcome.1)
  restored ← try_if (outcome.0 == 0 && reopened) (update_status tenant id completed)
  pure (record { retried = outcome.0; total_tasks = length claimed })

unfoldable pub retry_deliveries : Text → Text → List Text → M RetryResponse
unfolding retry_tail
retry_deliveries tenant id ids = do
  c ← get_by_id tenant id
  raise_if (not (is_processing c.status || is_completed c.status)) (wrong_status c.status)
  claimed ← claim_deliveries_for_retry tenant id ids
  retry_tail tenant id c claimed
