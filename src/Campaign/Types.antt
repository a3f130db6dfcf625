-- ===== src/Campaign/Types.antt =====
-- apps/api-gateway/internal/domain/campaign.go and review.go: the campaign, the brand's decisions
-- on it, and what a decision still covers. Times are seconds; a nil pointer is `none`.
use omnipulse_backend.Base.{ℕ, Text, Bool, true, false, Option, none, some, ◌&&◌, not, ltb}

-- The strings that the column `status` takes, with any other string as `other`.
pub data Status : Type 0 where
  draft pending_approval approved rejected scheduled processing paused completed cancelled : Status
  other : Text → Status

pub data Decision : Type 0 where
  brand_approved changes_requested : Decision

abbrev pub is_draft : Status → Bool
is_draft draft = true
is_draft _ = false

abbrev pub is_pending : Status → Bool
is_pending pending_approval = true
is_pending _ = false

abbrev pub is_approved : Status → Bool
is_approved approved = true
is_approved _ = false

abbrev pub is_rejected : Status → Bool
is_rejected rejected = true
is_rejected _ = false

abbrev pub is_scheduled : Status → Bool
is_scheduled scheduled = true
is_scheduled _ = false

abbrev pub is_processing : Status → Bool
is_processing processing = true
is_processing _ = false

abbrev pub is_paused : Status → Bool
is_paused paused = true
is_paused _ = false

abbrev pub is_completed : Status → Bool
is_completed completed = true
is_completed _ = false

-- `Campaign`. The selected channels, destinations and contacts are JSON texts, as in the source.
-- The three fields `latest_review_*` are no columns: a read fills them from the review events.
pub record Campaign : Type 0 where
  pub id : Text
  pub tenant_id : Text
  pub title : Text
  pub message_body : Text
  pub external_template_code : Option Text
  pub media_url : Option Text
  pub delivery_type : Text
  pub selected_channels : Text
  pub selected_telegram_destination_ids : Text
  pub selected_contact_ids : Text
  pub status : Status
  pub scheduled_at : Option ℕ
  pub submitted_by : Option Text
  pub submitted_at : Option ℕ
  pub approved_by : Option Text
  pub approved_at : Option ℕ
  pub rejection_reason : Option Text
  pub latest_review_decision : Option Decision
  pub latest_review_note : Text
  pub latest_review_at : Option ℕ
  pub content_revised_at : Option ℕ
  pub brand_revision_notified : Bool
  pub total_targets : ℕ
  pub processed_targets : ℕ

-- `ReviewEvent`
pub record ReviewEvent : Type 0 where
  pub event_tenant : Text
  pub event_campaign : Text
  pub token_id : Text
  pub decision : Decision
  pub note : Text
  pub reviewer_ip : Text
  pub created_at : ℕ

-- The two nil tests of `BrandReviewCurrent`, then `!LatestReviewAt.Before(*ContentRevisedAt)`.
abbrev decided_since : Option ℕ → Option ℕ → Bool
decided_since none r = true
decided_since (some d) none = true
decided_since (some d) (some r) = not (ltb d r)

abbrev current : Option Decision → Option ℕ → Option ℕ → Bool
current none d r = false
current (some k) d r = decided_since d r

unfoldable pub brand_review_current : Campaign → Bool
brand_review_current c = current c.latest_review_decision c.latest_review_at c.content_revised_at

abbrev pub is_changes_requested : Option Decision → Bool
is_changes_requested none = false
is_changes_requested (some brand_approved) = false
is_changes_requested (some changes_requested) = true

abbrev pub has_decision : Option Decision → Bool
has_decision none = false
has_decision (some d) = true

unfoldable pub brand_changes_outstanding : Campaign → Bool
unfolding brand_review_current
brand_changes_outstanding c =
    is_changes_requested c.latest_review_decision && brand_review_current c

unfoldable pub brand_review_stale : Campaign → Bool
unfolding brand_review_current
brand_review_stale c = has_decision c.latest_review_decision && not (brand_review_current c)
