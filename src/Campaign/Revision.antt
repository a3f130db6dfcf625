-- ===== src/Campaign/Revision.antt =====
-- What a change of a campaign's content does to the approvals that were given for the old content.
use omnipulse_backend.Base.{
  ℕ, ◌≤◌, ◌<◌, Text, text_eq_refl, text_eq_iff, Unicode, Bool, not, is_some, sym, subst, true,
  false, Option, none, some, List, [], ◌∷◌, All, ◌≡◌, ◌≢◌, ◌⊎◌, inl, inr, Option-cases, arith,
}
use omnipulse_backend.Campaign.Types.{
  Status, draft, Campaign, ReviewEvent, brand_review_current, brand_changes_outstanding,
  brand_review_stale, is_draft, is_changes_requested,
}
use omnipulse_backend.Campaign.Store.{ok, Store, query, find, latest_review, set_row}
use omnipulse_backend.Campaign.Repo.{get_by_id, update_content, record_decision}
use omnipulse_backend.Campaign.Lifecycle.{
  Notifier, campaign_editable, normalize_campaign_content, update_campaign, schedule_campaign,
}
use omnipulse_backend.Campaign.Audience.{Workspace}
use omnipulse_backend.Campaign.Dispatch.{Json, trigger_dispatch}
use omnipulse_backend.Campaign.Quiet.{Outcome-cases}
use omnipulse_backend.Campaign.Moves.{find_row}
use omnipulse_backend.Campaign.Approval.{
  reading, get_by_id-quiet, get_by_id-missing, schedule_campaign-ok, trigger_dispatch-guarded,
}

abbrev if_draft : {A : Type 0} → Status → Option A → Option A
if_draft draft a = a
if_draft _ a = none

-- The row after a change of content: a draft with no trace of submission or approval.
abbrev pub revised : Store → Campaign → Campaign → Campaign
revised s row c = record row {
  status = draft;
  submitted_by = if_draft row.status row.submitted_by;
  submitted_at = if_draft row.status row.submitted_at;
  approved_by = if_draft row.status row.approved_by;
  approved_at = if_draft row.status row.approved_at;
  rejection_reason = if_draft row.status row.rejection_reason;
  title = c.title;
  message_body = c.message_body;
  media_url = c.media_url;
  delivery_type = c.delivery_type;
  selected_channels = c.selected_channels;
  selected_telegram_destination_ids = c.selected_telegram_destination_ids;
  selected_contact_ids = c.selected_contact_ids;
  content_revised_at = some s.now;
}

update_content-quiet :
    (tenant id : Text) (c : Campaign) (s : Store) (row : Campaign)
    → s.faults ≡ []
    → find tenant id s ≡ some row
    → campaign_editable (reading tenant id s row) ≡ true
    → update_content tenant id c (not (is_draft row.status)) s
      ≡ (ok tt, set_row id (some (revised s row c)) s)
unfolding update_content query campaign_editable
update_content-quiet tenant id c s row quiet e h = ground arith

find-set_row :
    (tenant id : Text) (s : Store) (row : Campaign)
    → row.tenant_id ≡ tenant
    → find tenant id (set_row id (some row) s) ≡ some row
unfolding find
find-set_row tenant id s row own = ground (arith, text_eq_refl id, text_eq_iff row.tenant_id tenant)

module _ ⦃uni : Unicode⦄ where
  -- A change of content succeeds only on a campaign that exists and may be edited, with a title and
  -- a body that are not blank. It stores the trimmed content and the time of the change, and the
  -- campaign is then a draft: unless it was one, nothing is left of its submission, approval or
  -- rejection. (No database statement fails.)
  pub update_campaign-ok :
      (n : Notifier) (tenant id : Text) (c out : Campaign) (s : Store)
      → s.faults ≡ []
      → (update_campaign n tenant id c s).0 ≡ ok out
      → (row : Campaign) × (d : Campaign) × (find tenant id s ≡ some row)
        × (campaign_editable (reading tenant id s row) ≡ true)
        × (normalize_campaign_content c ≡ ok d)
        × ((update_campaign n tenant id c s).1 ≡ set_row id (some (revised s row d)) s)
  unfolding update_campaign
  update_campaign-ok n tenant id c out s quiet h = elim (Option-cases (find tenant id s)) [
    | inl e ↦ ground (arith, get_by_id-missing tenant id s quiet e)
    | inr (row, e) ↦ elim (Outcome-cases (normalize_campaign_content c)) [
      | inr (x, k) ↦ ground (arith, get_by_id-quiet tenant id s row quiet e)
      | inl (d, k) ↦
          let read : get_by_id tenant id s ≡ (ok (reading tenant id s row), s) =
            get_by_id-quiet tenant id s row quiet e in
          let may : campaign_editable (reading tenant id s row) ≡ true = ground arith in
          let stored : update_content tenant id d (not (is_draft row.status)) s
              ≡ (ok tt, set_row id (some (revised s row d)) s) =
            update_content-quiet tenant id d s row quiet e may in
          let own : row.tenant_id ≡ tenant = (find_row tenant id s row e).1 in
          let reread =
            get_by_id-quiet tenant id (set_row id (some (revised s row d)) s) (revised s row d)
              quiet (find-set_row tenant id s (revised s row d) own) in
          (row, d, e, may, k, ground (arith, read, stored, reread))
    ]
  ]

-- No event is dated later than a time.
abbrev pub Until : ℕ → List ReviewEvent → Type 0
Until time es = All (λ (e : ReviewEvent). e.created_at ≤ time) es

latest_review-Until :
    (tenant id : Text) (time : ℕ) (es : List ReviewEvent) (e : ReviewEvent)
    → Until time es
    → latest_review tenant id es ≡ some e
    → e.created_at ≤ time
unfolding latest_review
latest_review-Until tenant id time [] e h k = ground arith
latest_review-Until tenant id time (x ∷ xs) e h k =
    elim (Option-cases (latest_review tenant id xs)) [
      | inl gone ↦ ground arith
      | inr (f, found) ↦ ground (arith, latest_review-Until tenant id time xs f h.1 found)
    ]

-- Whether the brand has decided on a campaign, by the events.
abbrev pub has_review : Text → Text → Store → Bool
has_review tenant id s = is_some (latest_review tenant id s.events)

revised-stale :
    (tenant id : Text) (s : Store) (row c : Campaign) (before : ℕ)
    → before < s.now
    → Until before s.events
    → has_review tenant id s ≡ true
    → brand_review_stale (reading tenant id s (revised s row c)) ≡ true
unfolding brand_review_stale brand_review_current
revised-stale tenant id s row c before past dated h =
    elim (Option-cases (latest_review tenant id s.events)) [
      | inl gone ↦ ground arith
      | inr (e, found) ↦ ground (arith, latest_review-Until tenant id before s.events e dated found)
    ]

module _ ⦃uni : Unicode⦄ ⦃json : Json⦄ where
  -- A change of content makes what the brand decided before it worthless: in the state right after a
  -- successful change, a campaign on which the brand had decided, all its decisions dated earlier,
  -- can neither be scheduled nor sent, by anybody, in whatever role. (No database statement fails.)
  pub update_campaign-needs_review :
      (n : Notifier) (tenant id : Text) (c out : Campaign) (s : Store) (before : ℕ) (role : Text)
      (at : ℕ) (w : Workspace)
      → s.faults ≡ []
      → before < s.now
      → Until before s.events
      → has_review tenant id s ≡ true
      → (update_campaign n tenant id c s).0 ≡ ok out
      → let t = (update_campaign n tenant id c s).1 in
        ((schedule_campaign role tenant id at t).0 ≢ ok tt)
        × ((trigger_dispatch w role tenant id t).0 ≢ ok tt)
  update_campaign-needs_review n tenant id c out s before role at w quiet past dated h k =
      let (row, d, e, may, norm, stored) = update_campaign-ok n tenant id c out s quiet k in
      let new = revised s row d in
      let t = set_row id (some new) s in
      let found : find tenant id t ≡ some new =
        find-set_row tenant id s new (find_row tenant id s row e).1 in
      let stale : brand_review_stale (reading tenant id t new) ≡ true =
        revised-stale tenant id s row d before past dated h in
      let refused : ((schedule_campaign role tenant id at t).0 ≢ ok tt)
          × ((trigger_dispatch w role tenant id t).0 ≢ ok tt) =
        (
          λ yes.
              let (there, here, a, b, fresh, g, i, j) =
                schedule_campaign-ok role tenant id at t quiet yes in
              ground arith,
          λ yes.
              let (there, here, a, b, g, fresh, i, j) =
                trigger_dispatch-guarded w role tenant id t quiet yes in
              ground arith,
        ) in
      subst
        (λ (u : Store).
          ((schedule_campaign role tenant id at u).0 ≢ ok tt)
          × ((trigger_dispatch w role tenant id u).0 ≢ ok tt))
        (sym stored) refused

  -- When the brand then approves, the decision covers the new content: the latest review is that
  -- decision, nothing is outdated and no change request is open.
  pub record_decision-current :
      (e : ReviewEvent) (s : Store) (row : Campaign)
      → s.faults ≡ []
      → Until s.now s.events
      → find e.event_tenant e.event_campaign s ≡ some row
      → ((row.content_revised_at ≡ none)
          ⊎ ((at : ℕ) × (row.content_revised_at ≡ some at) × (at ≤ s.now)))
      → let t = (record_decision e s).1 in
        let read = reading e.event_tenant e.event_campaign t row in
        (brand_review_stale read ≡ false)
        × (read.latest_review_decision ≡ some e.decision)
        × (brand_changes_outstanding read ≡ is_changes_requested (some e.decision))
  unfolding record_decision query latest_review brand_review_stale brand_changes_outstanding
      brand_review_current
  record_decision-current e s row quiet dated found revised_before =
      let tenant = e.event_tenant in
      let id = e.event_campaign in
      elim (Option-cases (latest_review tenant id s.events)) [
        | inl gone ↦ (
          ground (arith, text_eq_refl tenant, text_eq_refl id),
          ground (arith, text_eq_refl tenant, text_eq_refl id),
          ground (arith, text_eq_refl tenant, text_eq_refl id),
        )
        | inr (f, newest) ↦
            let earlier : f.created_at ≤ s.now =
              latest_review-Until tenant id s.now s.events f dated newest in
            (
              ground (arith, text_eq_refl tenant, text_eq_refl id),
              ground (arith, text_eq_refl tenant, text_eq_refl id),
              ground (arith, text_eq_refl tenant, text_eq_refl id),
            )
      ]
