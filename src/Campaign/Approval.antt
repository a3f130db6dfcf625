-- ===== src/Campaign/Approval.antt =====
-- When a campaign may be scheduled, sent and approved.
use omnipulse_backend.Base.{
  ℕ, ◌+◌, ◌≤◌, ltb, not, ◌&&◌, if◌then◌else◌, Bool, Text, text_eq_refl, Unicode, true, false, none,
  some, [], ◌≡◌, ◌≢◌, ◌⊎◌, inl, inr, Option-cases, arith,
}
use omnipulse_backend.Campaign.Types.{
  draft, pending_approval, approved, rejected, scheduled, Campaign, brand_changes_outstanding,
  brand_review_stale,
}
use omnipulse_backend.Campaign.Store.{
  Error, not_found, too_soon, changes_outstanding, review_stale, awaiting_approval, ok, err, Store,
  query, find, latest_review,
}
use omnipulse_backend.Campaign.Repo.{
  with_review, or_false, get_by_id, get_approval_setting, set_scheduled, approve_campaign,
}
use omnipulse_backend.Campaign.Lifecycle.{is_approver, schedule_campaign, approve}
use omnipulse_backend.Campaign.Dispatch.{
  is_past_dispatch, over_quota, dispatch_guards, Json, trigger_dispatch,
}
use omnipulse_backend.Campaign.Audience.{Workspace}

-- The campaign as a read returns it.
abbrev pub reading : Text → Text → Store → Campaign → Campaign
reading tenant id s row = with_review row (latest_review tenant id s.events)

-- Without a fault a read returns the row with its review, and changes nothing.
pub get_by_id-quiet :
    (tenant id : Text) (s : Store) (row : Campaign)
    → s.faults ≡ []
    → find tenant id s ≡ some row
    → get_by_id tenant id s ≡ (ok (reading tenant id s row), s)
unfolding get_by_id query
get_by_id-quiet tenant id s row quiet e = ground arith

pub get_by_id-missing :
    (tenant id : Text) (s : Store)
    → s.faults ≡ []
    → find tenant id s ≡ none
    → get_by_id tenant id s ≡ (err not_found, s)
unfolding get_by_id query
get_by_id-missing tenant id s quiet e = ground arith

pub get_approval_setting-quiet :
    (tenant : Text) (s : Store)
    → s.faults ≡ []
    → get_approval_setting tenant s ≡ (ok (or_false (s.settings tenant)), s)
unfolding get_approval_setting query
get_approval_setting-quiet tenant s quiet = ground arith

set_scheduled-quiet :
    (tenant id : Text) (at : ℕ) (s : Store) (row : Campaign)
    → s.faults ≡ []
    → find tenant id s ≡ some row
    → (set_scheduled tenant id at s).0 ≡ ok tt
    → ((row.status ≡ draft) ⊎ (row.status ≡ approved))
      × ((set_scheduled tenant id at s).1.rows id
          ≡ some (record row { status = scheduled; scheduled_at = some at }))
unfolding set_scheduled query
set_scheduled-quiet tenant id at s row quiet e h = ground (arith, text_eq_refl id)

module _ ⦃uni : Unicode⦄ where
  -- A campaign is scheduled only if it exists, is a draft or approved, at least a minute lies
  -- between now and the time, the brand has no change request open and no outdated decision, and,
  -- where the workspace requires approval, the caller is an owner or admin or the campaign is
  -- approved. It is then stored as scheduled at that time. (No database statement fails.)
  pub schedule_campaign-ok :
      (role tenant id : Text) (at : ℕ) (s : Store)
      → s.faults ≡ []
      → (schedule_campaign role tenant id at s).0 ≡ ok tt
      → (row : Campaign) × (find tenant id s ≡ some row)
        × (s.now + 60 ≤ at)
        × (brand_changes_outstanding (reading tenant id s row) ≡ false)
        × (brand_review_stale (reading tenant id s row) ≡ false)
        × ((row.status ≡ draft) ⊎ (row.status ≡ approved))
        × ((or_false (s.settings tenant) ≡ false)
            ⊎ ((is_approver role ≡ true) ⊎ (row.status ≡ approved)))
        × ((schedule_campaign role tenant id at s).1.rows id
            ≡ some (record row { status = scheduled; scheduled_at = some at }))
  unfolding schedule_campaign
  schedule_campaign-ok role tenant id at s quiet h = elim (Option-cases (find tenant id s)) [
    | inl e ↦ ground (arith, get_by_id-missing tenant id s quiet e)
    | inr (row, e) ↦
        let read : get_by_id tenant id s ≡ (ok (reading tenant id s row), s) =
          get_by_id-quiet tenant id s row quiet e in
        let setting : get_approval_setting tenant s ≡ (ok (or_false (s.settings tenant)), s) =
          get_approval_setting-quiet tenant s quiet in
        let stored : (set_scheduled tenant id at s).0 ≡ ok tt
            → ((row.status ≡ draft) ⊎ (row.status ≡ approved))
              × ((set_scheduled tenant id at s).1.rows id
                  ≡ some (record row { status = scheduled; scheduled_at = some at })) =
          set_scheduled-quiet tenant id at s row quiet e in
        (row, e, ground arith, ground arith, ground arith, ground arith, ground arith, ground arith)
  ]

  -- What is told of a pending campaign: the first objection of the use case, which has none of the
  -- status, or that the campaign is not found.
  abbrev pub pending_answer : Text → ℕ → ℕ → Bool → Campaign → Error
  pending_answer role at now required c =
      if ltb at (now + 60)
      then too_soon
      else if brand_changes_outstanding c
      then changes_outstanding
      else if brand_review_stale c
      then review_stale
      else if required && not (is_approver role)
      then awaiting_approval
      else not_found

  -- A campaign that is pending approval cannot be scheduled by anybody, and nothing is changed. An
  -- owner or admin, with enough lead time and no open or outdated review of the brand, passes every
  -- test of the use case, that of the status too, and is then told that there is no such campaign:
  -- the statement that would store the schedule matches no row. (No database statement fails.)
  pub schedule_campaign-pending :
      (role tenant id : Text) (at : ℕ) (s : Store) (row : Campaign)
      → s.faults ≡ []
      → find tenant id s ≡ some row
      → row.status ≡ pending_approval
      → schedule_campaign role tenant id at s ≡ (
        err (pending_answer role at s.now (or_false (s.settings tenant)) (reading tenant id s row)),
        s,
      )
  unfolding schedule_campaign set_scheduled query
  schedule_campaign-pending role tenant id at s row quiet found p = ground (
    arith,
    get_by_id-quiet tenant id s row quiet found,
    get_approval_setting-quiet tenant s quiet,
  )

  approve_campaign-quiet :
      (tenant id by : Text) (s : Store) (row : Campaign)
      → s.faults ≡ []
      → find tenant id s ≡ some row
      → row.status ≡ pending_approval
      → (approve_campaign tenant id by s).1.rows id
        ≡ some (record row { status = approved; approved_by = some by; approved_at = some s.now })
  unfolding approve_campaign query
  approve_campaign-quiet tenant id by s row quiet e h = ground (arith, text_eq_refl id)

  -- A campaign is approved only when the caller is an owner or admin, the campaign exists and is
  -- pending approval, and the brand has no change request open on the content; the approver and
  -- the time are then stored with it. (No database statement fails.)
  pub approve-ok :
      (role tenant id by : Text) (s : Store)
      → s.faults ≡ []
      → (approve role tenant id by s).0 ≡ ok tt
      → (is_approver role ≡ true)
        × (row : Campaign) × (find tenant id s ≡ some row)
        × (row.status ≡ pending_approval)
        × (brand_changes_outstanding (reading tenant id s row) ≡ false)
        × ((approve role tenant id by s).1.rows id
            ≡ some
                (record row { status = approved; approved_by = some by; approved_at = some s.now }))
  unfolding approve
  approve-ok role tenant id by s quiet h = elim (Option-cases (find tenant id s)) [
    | inl e ↦ ground (arith, get_by_id-missing tenant id s quiet e)
    | inr (row, e) ↦
        let read : get_by_id tenant id s ≡ (ok (reading tenant id s row), s) =
          get_by_id-quiet tenant id s row quiet e in
        let is_pending_row : row.status ≡ pending_approval = ground arith in
        (
          ground arith,
          row,
          e,
          is_pending_row,
          ground arith,
          ground (arith, approve_campaign-quiet tenant id by s row quiet e is_pending_row),
        )
  ]

  -- A dispatch that succeeds has passed every guard: the campaign existed, was a draft, pending,
  -- approved or scheduled one, or in a status unknown to the code; the brand had no change request
  -- open and no outdated decision; where the workspace requires approval the caller was an owner or
  -- admin, or the campaign approved or scheduled; and the month's quota was not reached.
  -- (No database statement and no publication fails.)
  pub trigger_dispatch-guarded :
      ⦃json : Json⦄ (w : Workspace) (role tenant id : Text) (s : Store)
      → s.faults ≡ []
      → (trigger_dispatch w role tenant id s).0 ≡ ok tt
      → (row : Campaign) × (find tenant id s ≡ some row)
        × (is_past_dispatch row.status ≡ false)
        × (row.status ≢ rejected)
        × (brand_changes_outstanding (reading tenant id s row) ≡ false)
        × (brand_review_stale (reading tenant id s row) ≡ false)
        × ((or_false (s.settings tenant) ≡ false)
            ⊎ ((is_approver role ≡ true) ⊎ ((row.status ≡ approved) ⊎ (row.status ≡ scheduled))))
        × (over_quota w ≡ false)
  unfolding trigger_dispatch dispatch_guards
  trigger_dispatch-guarded w role tenant id s quiet h = elim (Option-cases (find tenant id s)) [
    | inl e ↦ ground (arith, get_by_id-missing tenant id s quiet e)
    | inr (row, e) ↦
        let read : get_by_id tenant id s ≡ (ok (reading tenant id s row), s) =
          get_by_id-quiet tenant id s row quiet e in
        let setting : get_approval_setting tenant s ≡ (ok (or_false (s.settings tenant)), s) =
          get_approval_setting-quiet tenant s quiet in
        let passed : (dispatch_guards w role tenant (reading tenant id s row) s).0 ≡ ok tt =
          ground arith in
        (
          row,
          e,
          ground arith,
          λ r. ground arith,
          ground arith,
          ground arith,
          ground arith,
          ground arith,
        )
  ]
