-- ===== src/Campaign/Repo.antt =====
-- apps/api-gateway/internal/repository/postgres_campaign.go: the statements that read and change
-- the table of campaigns, each with its WHERE clause; postgres_review.go's RecordDecision.
use omnipulse_backend.Base.{
  ℕ, Text, Bool, true, false, Option, none, some, [], ◌∷◌, if◌then◌else◌, is_some,
}
use omnipulse_backend.Campaign.Types.{
  Status, draft, pending_approval, approved, rejected, scheduled, processing, paused, cancelled,
  Campaign, ReviewEvent, is_draft, is_pending, is_paused, is_processing, is_scheduled,
}
use omnipulse_backend.Campaign.Store.{
  Error, database, not_found, not_scheduled, Store, M, pure, raise, ◌>>=◌, ◌>>◌, raise_if, get, put,
  query, find, set_row, latest_review,
}

-- `UPDATE campaigns SET f WHERE id AND tenant_id AND status IN (allowed)`, with the error for no
-- row affected.
update_where :
    Text → Text → (Status → Bool) → Error → (Store → Campaign → Option Campaign) → M (Unit {0})
unfolding query find
update_where tenant id allowed missing f = do
  query
  s ← get
  elim (find tenant id s) [
    | none ↦ raise missing
    | some c ↦ if allowed c.status then put (set_row id (f s c) s) else raise missing
  ]

abbrev pub opt_map {ℓ κ} : {A : Type ℓ} {B : Type κ} → (A → B) → Option A → Option B
opt_map f none = none
opt_map f (some a) = some (f a)

abbrev pub note_of : Option ReviewEvent → Text
note_of none = []
note_of (some e) = e.note

-- The columns that a read computes from the review events.
abbrev pub with_review : Campaign → Option ReviewEvent → Campaign
with_review c e = record c {
  latest_review_decision = opt_map (λ (v : ReviewEvent). v.decision) e;
  latest_review_note = note_of e;
  latest_review_at = opt_map (λ (v : ReviewEvent). v.created_at) e;
}

unfoldable pub get_by_id : Text → Text → M Campaign
unfolding query find
get_by_id tenant id = do
  query
  s ← get
  elim (find tenant id s) [
    | none ↦ raise not_found
    | some c ↦ pure (with_review c (latest_review tenant id s.events))
  ]

-- The id that the database draws for the new row is an argument; a taken one breaks the key.
unfoldable pub create : Text → Campaign → M (Unit {0})
unfolding query
create fresh c = do
  query
  s ← get
  raise_if (is_some (s.rows fresh)) database
  put (
      set_row fresh
        (some (record c {
          id = fresh;
          submitted_by = none;
          submitted_at = none;
          approved_by = none;
          approved_at = none;
          rejection_reason = none;
          content_revised_at = none;
          processed_targets = 0;
        }))
        s)

abbrev is_editable_row : Status → Bool
is_editable_row draft = true
is_editable_row rejected = true
is_editable_row pending_approval = true
is_editable_row approved = true
is_editable_row _ = false

abbrev reset_trail : Bool → Campaign → Campaign
reset_trail false c = c
reset_trail true c = record c {
  status = draft;
  submitted_by = none;
  submitted_at = none;
  approved_by = none;
  approved_at = none;
  rejection_reason = none;
}

unfoldable pub update_content : Text → Text → Campaign → Bool → M (Unit {0})
unfolding update_where
update_content tenant id c reset = update_where tenant id is_editable_row not_found λ s row.
    some (record (reset_trail reset row) {
      title = c.title;
      message_body = c.message_body;
      media_url = c.media_url;
      delivery_type = c.delivery_type;
      selected_channels = c.selected_channels;
      selected_telegram_destination_ids = c.selected_telegram_destination_ids;
      selected_contact_ids = c.selected_contact_ids;
      content_revised_at = some s.now;
    })

unfoldable pub cancel_scheduled_campaign : Text → Text → M (Unit {0})
unfolding update_where
cancel_scheduled_campaign tenant id =
    update_where tenant id is_scheduled not_scheduled
      λ s row. some (record row { status = draft; scheduled_at = none })

-- No status is asked for, and no row affected is no error.
abbrev set_any : Store → Option Campaign → Text → (Campaign → Campaign) → Store
set_any s none id f = s
set_any s (some c) id f = set_row id (some (f c)) s

unfoldable pub update_status : Text → Text → Status → M (Unit {0})
unfolding query find
update_status tenant id status = do
  query
  s ← get
  put (set_any s (find tenant id s) id (λ c. record c { status = status }))

unfoldable pub set_dispatching : Text → Text → ℕ → M (Unit {0})
unfolding query find
set_dispatching tenant id total = do
  query
  s ← get
  put (
      set_any s (find tenant id s) id
        (λ c. record c { status = processing; total_targets = total; processed_targets = 0 }))

abbrev is_schedulable_row : Status → Bool
is_schedulable_row draft = true
is_schedulable_row approved = true
is_schedulable_row _ = false

unfoldable pub set_scheduled : Text → Text → ℕ → M (Unit {0})
unfolding update_where
set_scheduled tenant id at =
    update_where tenant id is_schedulable_row not_found
      λ s row. some (record row { status = scheduled; scheduled_at = some at })

unfoldable pub pause_campaign : Text → Text → M (Unit {0})
unfolding update_where
pause_campaign tenant id =
    update_where tenant id is_processing not_found λ s row. some (record row { status = paused })

unfoldable pub resume_campaign : Text → Text → M (Unit {0})
unfolding update_where
resume_campaign tenant id =
    update_where tenant id is_paused not_found λ s row. some (record row { status = processing })

abbrev is_cancellable_row : Status → Bool
is_cancellable_row draft = true
is_cancellable_row scheduled = true
is_cancellable_row pending_approval = true
is_cancellable_row approved = true
is_cancellable_row _ = false

unfoldable pub cancel_campaign : Text → Text → M (Unit {0})
unfolding update_where
cancel_campaign tenant id =
    update_where tenant id is_cancellable_row not_found
      λ s row. some (record row { status = cancelled; scheduled_at = none })

-- The rows of other tables that refer to the draft, which go with it, are left out.
unfoldable pub delete_draft : Text → Text → M (Unit {0})
unfolding update_where
delete_draft tenant id = update_where tenant id is_draft not_found λ s row. none

abbrev is_submittable_row : Status → Bool
is_submittable_row draft = true
is_submittable_row rejected = true
is_submittable_row _ = false

unfoldable pub submit_for_approval : Text → Text → Text → M (Unit {0})
unfolding update_where
submit_for_approval tenant id by = update_where tenant id is_submittable_row not_found λ s row.
    some (record row {
      status = pending_approval;
      submitted_by = some by;
      submitted_at = some s.now;
      rejection_reason = none;
    })

unfoldable pub approve_campaign : Text → Text → Text → M (Unit {0})
unfolding update_where
approve_campaign tenant id by = update_where tenant id is_pending not_found λ s row.
    some (record row { status = approved; approved_by = some by; approved_at = some s.now })

unfoldable pub reject_campaign : Text → Text → Text → M (Unit {0})
unfolding update_where
reject_campaign tenant id reason =
    update_where tenant id is_pending not_found
      λ s row. some (record row { status = rejected; rejection_reason = some reason })

-- `PostgresReviewRepository.RecordDecision`
unfoldable pub record_decision : ReviewEvent → M (Unit {0})
unfolding query
record_decision e = do
  query
  s ← get
  put (record s { events = record e { created_at = s.now } ∷ s.events })

abbrev pub or_false : Option Bool → Bool
or_false none = false
or_false (some b) = b

-- `GetApprovalSetting`: a tenant without a row requires no approval.
unfoldable pub get_approval_setting : Text → M Bool
unfolding query
get_approval_setting tenant = do query; s ← get; pure (or_false (s.settings tenant))
