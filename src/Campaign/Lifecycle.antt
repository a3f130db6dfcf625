-- ===== src/Campaign/Lifecycle.antt =====
-- apps/api-gateway/internal/usecase/campaign.usecase.go: the operations that move a campaign from
-- draft to approval, schedule, pause and cancellation. The caller's role and the services that the
-- use case holds are arguments.
use omnipulse_backend.Base.{
  ℕ, ◌+◌, Text, bytes, Unicode, trim_space, equal_fold, Bool, true, false, Option, none, some, [],
  ◌∷◌, ◌&&◌, ◌||◌, not, ltb, is_empty, if◌then◌else◌,
}
use omnipulse_backend.Campaign.Types.{
  Status, draft, pending_approval, approved, rejected, scheduled, Campaign, is_draft, is_pending,
  is_approved, is_rejected, is_processing, is_paused, is_changes_requested,
  brand_changes_outstanding, brand_review_stale,
}
use omnipulse_backend.Campaign.Store.{
  Error, empty_title, empty_body, too_soon, changes_outstanding, review_stale, awaiting_approval,
  approval_required, not_approver, empty_reason, wrong_status, Result, ok, err, M, pure, ◌>>=◌,
  ◌>>◌, raise_if, or_zero, get,
}
use omnipulse_backend.Campaign.Repo.{
  get_by_id, create, update_content, cancel_scheduled_campaign, set_scheduled, pause_campaign,
  resume_campaign, cancel_campaign, delete_draft, submit_for_approval, approve_campaign,
  reject_campaign, get_approval_setting,
}

abbrev or_default : Text → Text → Text
or_default [] d = d
or_default (b ∷ t) d = b ∷ t

-- `campaignEditable`
unfoldable pub campaign_editable : Campaign → Bool
campaign_editable c = elim c.status [
  | draft ↦ true
  | rejected ↦ true
  | pending_approval ↦ is_changes_requested c.latest_review_decision
  | approved ↦ is_changes_requested c.latest_review_decision
  | _ ↦ false
]

-- `notifyBrandOfRevision`: the notifier may be missing or fail; a failure is only logged.
abbrev pub Notifier : Type 0
Notifier = Option (Campaign → Option ℕ)

unfoldable pub notify_brand_of_revision : Notifier → Campaign → Campaign
notify_brand_of_revision none c = c
notify_brand_of_revision (some send) c = elim (send c) [
  | none ↦ c
  | some sent ↦ record c { brand_revision_notified = ltb 0 sent }
]

abbrev is_schedulable : Status → Bool
is_schedulable draft = true
is_schedulable approved = true
is_schedulable pending_approval = true
is_schedulable _ = false

abbrev is_cancellable : Status → Bool
is_cancellable draft = true
is_cancellable scheduled = true
is_cancellable pending_approval = true
is_cancellable approved = true
is_cancellable _ = false

module _ ⦃uni : Unicode⦄ where
  -- `isApprover`, and the guard of ApproveCampaign and RejectCampaign.
  unfoldable pub is_approver : Text → Bool
  is_approver role = equal_fold role (bytes "owner") || equal_fold role (bytes "admin")

  -- `normalizeCampaignContent`
  unfoldable pub normalize_campaign_content : Campaign → Result Campaign
  normalize_campaign_content c =
      let title = trim_space c.title in
      let body = trim_space c.message_body in
      if is_empty title
      then err empty_title
      else if is_empty body
      then err empty_body
      else ok (record c {
        title = title;
        message_body = body;
        selected_channels = or_default c.selected_channels (bytes "[]");
        selected_telegram_destination_ids =
            or_default c.selected_telegram_destination_ids (bytes "[]");
        selected_contact_ids = or_default c.selected_contact_ids (bytes "[]");
        delivery_type = or_default c.delivery_type (bytes "direct_message");
      })

  abbrev lift : Result Campaign → M Campaign
  lift r s = (r, s)

  unfoldable pub create_campaign : Text → Campaign → M (Unit {0})
  create_campaign fresh c = do
    d ← lift (normalize_campaign_content c)
    create fresh (record d { status = draft; total_targets = 0; processed_targets = 0 })

  unfoldable pub update_campaign : Notifier → Text → Text → Campaign → M Campaign
  update_campaign notifier tenant id c = do
    existing ← get_by_id tenant id
    raise_if (not (campaign_editable existing)) (wrong_status existing.status)
    d ← lift (normalize_campaign_content c)
    update_content tenant id d (not (is_draft existing.status))
    updated ← get_by_id tenant id
    pure (notify_brand_of_revision notifier updated)

  -- What a caller who may not approve is told, by the status.
  abbrev pub approval_error : Status → Error
  approval_error pending_approval = awaiting_approval
  approval_error _ = approval_required

  unfoldable pub schedule_campaign : Text → Text → Text → ℕ → M (Unit {0})
  schedule_campaign role tenant id at = do
    c ← get_by_id tenant id
    s ← get
    raise_if (ltb at (s.now + 60)) too_soon
    raise_if (brand_changes_outstanding c) changes_outstanding
    raise_if (brand_review_stale c) review_stale
    required ← or_zero false (get_approval_setting tenant)
    raise_if (required && not (is_approver role) && not (is_approved c.status))
        (approval_error c.status)
    raise_if (not (is_schedulable c.status)) (wrong_status c.status)
    set_scheduled tenant id at

  unfoldable pub approve : Text → Text → Text → Text → M (Unit {0})
  approve role tenant id by = do
    raise_if (not (is_approver role)) not_approver
    c ← get_by_id tenant id
    raise_if (not (is_pending c.status)) (wrong_status c.status)
    raise_if (brand_changes_outstanding c) changes_outstanding
    approve_campaign tenant id by

  unfoldable pub reject : Text → Text → Text → Text → M (Unit {0})
  reject role tenant id reason = do
    raise_if (not (is_approver role)) not_approver
    let trimmed = trim_space reason
    raise_if (is_empty trimmed) empty_reason
    c ← get_by_id tenant id
    raise_if (not (is_pending c.status)) (wrong_status c.status)
    reject_campaign tenant id trimmed

unfoldable pub cancel_schedule : Text → Text → M (Unit {0})
cancel_schedule tenant id = cancel_scheduled_campaign tenant id

unfoldable pub pause : Text → Text → M (Unit {0})
pause tenant id = do
  c ← get_by_id tenant id
  raise_if (not (is_processing c.status)) (wrong_status c.status)
  pause_campaign tenant id

unfoldable pub resume : Text → Text → M (Unit {0})
resume tenant id = do
  c ← get_by_id tenant id
  raise_if (not (is_paused c.status)) (wrong_status c.status)
  resume_campaign tenant id

unfoldable pub cancel : Text → Text → M (Unit {0})
cancel tenant id = do
  c ← get_by_id tenant id
  raise_if (not (is_cancellable c.status)) (wrong_status c.status)
  cancel_campaign tenant id

unfoldable pub delete : Text → Text → M (Unit {0})
delete tenant id = do
  c ← get_by_id tenant id
  raise_if (not (is_draft c.status)) (wrong_status c.status)
  delete_draft tenant id

-- The approval notifier only sends messages.
unfoldable pub submit : Text → Text → Text → M (Unit {0})
submit tenant id by = do
  c ← get_by_id tenant id
  raise_if (not (is_draft c.status || is_rejected c.status)) (wrong_status c.status)
  submit_for_approval tenant id by
