-- ===== src/Review/Answers.antt =====
-- What a brand's answer does to its campaign.
use omnipulse_backend.Base.{
  ℕ, ◌≤◌, Text, Unicode, true, false, none, some, [], ◌∷◌, ◌&&◌, Bool-cases, ◌≡◌, ◌≢◌, refl, ap,
  sym, subst, ◌∙◌, ◌⊎◌, inl, inr, arith, if◌then◌else◌,
}
use omnipulse_backend.Campaign.Types.{
  approved, is_pending, Decision, changes_requested, brand_changes_outstanding, Campaign,
}
use omnipulse_backend.Campaign.Store.{Store, ok, query, find, set_row}
use omnipulse_backend.Campaign.Repo.{record_decision, approve_campaign}
use omnipulse_backend.Campaign.Lifecycle.{approve, schedule_campaign}
use omnipulse_backend.Campaign.Audience.{Workspace}
use omnipulse_backend.Campaign.Dispatch.{Json, trigger_dispatch}
use omnipulse_backend.Campaign.Moves.{find_same}
use omnipulse_backend.Campaign.Approval.{
  reading, get_by_id-quiet, approve-ok, schedule_campaign-ok, trigger_dispatch-guarded,
}
use omnipulse_backend.Campaign.Revision.{Until, record_decision-current}
use omnipulse_backend.Review.Portal.{
  Token, is_settled, is_approval, approved_by, advance, answer_event, answer,
}

-- The store once an answer is recorded.
abbrev pub answered : Token → Decision → Text → Text → Store → Store
answered t d note ip s = record s {
  events = record (answer_event t d note ip) { created_at = s.now } ∷ s.events;
}

record_decision-quiet :
    (t : Token) (d : Decision) (note ip : Text) (s : Store)
    → s.faults ≡ []
    → record_decision (answer_event t d note ip) s ≡ (ok tt, answered t d note ip s)
unfolding record_decision query
record_decision-quiet t d note ip s quiet = ground arith

approve_campaign-store :
    (tenant id by : Text) (s : Store) (row : Campaign)
    → s.faults ≡ []
    → find tenant id s ≡ some row
    → is_pending row.status ≡ true
    → approve_campaign tenant id by s ≡ (
      ok tt,
      set_row id
          (some (record row { status = approved; approved_by = some by; approved_at = some s.now }))
          s,
    )
unfolding approve_campaign query
approve_campaign-store tenant id by s row quiet e h = ground arith

-- The store after an answer: an approval moves a campaign that is pending approval.
abbrev pub settle : Token → Decision → Campaign → Store → Store
settle t d row s =
    if is_approval d && is_pending row.status
    then set_row t.campaign_id
        (some (record row {
          status = approved;
          approved_by = some (approved_by t.label);
          approved_at = some s.now;
        }))
        s
    else s

advance-quiet :
    (t : Token) (d : Decision) (s : Store) (row : Campaign)
    → s.faults ≡ []
    → find t.tenant_id t.campaign_id s ≡ some row
    → advance t d row.status s ≡ (ok tt, settle t d row s)
unfolding advance
advance-quiet t d s row quiet e = elim (Bool-cases (is_approval d && is_pending row.status)) [
  | inr stays ↦ ground (arith, stays)
  | inl moves ↦
      let pends : is_pending row.status ≡ true = ground (arith, moves) in
      ground (
        arith,
        moves,
        approve_campaign-store t.tenant_id t.campaign_id (approved_by t.label) s row quiet e pends,
      )
]

-- The answer by a link that was found is accepted on a campaign that is open for review;
-- it is recorded, and an approval moves a campaign that is pending approval to approved, in the
-- name of the client, while a request for changes moves nothing. (No database statement fails.)
pub answer-quiet :
    (t : Token) (d : Decision) (note ip : Text) (s : Store) (row : Campaign)
    → s.faults ≡ []
    → find t.tenant_id t.campaign_id s ≡ some row
    → is_settled row.status ≡ false
    → answer t d note ip s ≡ (ok tt, settle t d row (answered t d note ip s))
unfolding answer
answer-quiet t d note ip s row quiet e unsettled =
    let u = answered t d note ip s in
    let there : find t.tenant_id t.campaign_id u ≡ some row =
      find_same t.tenant_id t.campaign_id s u refl ∙ e in
    ground (
      arith,
      unsettled,
      get_by_id-quiet t.tenant_id t.campaign_id s row quiet e,
      record_decision-quiet t d note ip s quiet,
      advance-quiet t d u row quiet there,
    )

module _ ⦃uni : Unicode⦄ ⦃json : Json⦄ where
  -- While a change request is open, nobody can approve, schedule or send.
  outstanding-refused :
      (w : Workspace) (role tenant id by : Text) (at : ℕ) (s : Store) (row : Campaign)
      → s.faults ≡ []
      → find tenant id s ≡ some row
      → brand_changes_outstanding (reading tenant id s row) ≡ true
      → ((approve role tenant id by s).0 ≢ ok tt)
        × ((schedule_campaign role tenant id at s).0 ≢ ok tt)
        × ((trigger_dispatch w role tenant id s).0 ≢ ok tt)
  outstanding-refused w role tenant id by at s row quiet e asks = (
    λ yes.
        let (a, there, here, b, none_asked, c) = approve-ok role tenant id by s quiet yes in
        ground arith,
    λ yes.
        let (there, here, a, none_asked, b, c, d, f) =
          schedule_campaign-ok role tenant id at s quiet yes in
        ground arith,
    λ yes.
        let (there, here, a, b, none_asked, c, d, f) =
          trigger_dispatch-guarded w role tenant id s quiet yes in
        ground arith,
  )

  -- A brand that asks for changes, on a campaign that is open for review, keeps everybody, in
  -- whatever role, from approving, scheduling or sending it as it is. (No database statement fails,
  -- and no answer or revision is dated in the future.)
  pub answer-objects :
      (t : Token) (note ip : Text) (s : Store) (row : Campaign) (w : Workspace) (role by : Text)
      (at : ℕ)
      → s.faults ≡ []
      → Until s.now s.events
      → ((row.content_revised_at ≡ none)
          ⊎ ((past : ℕ) × (row.content_revised_at ≡ some past) × (past ≤ s.now)))
      → find t.tenant_id t.campaign_id s ≡ some row
      → is_settled row.status ≡ false
      → let u = (answer t changes_requested note ip s).1 in
        ((approve role t.tenant_id t.campaign_id by u).0 ≢ ok tt)
        × ((schedule_campaign role t.tenant_id t.campaign_id at u).0 ≢ ok tt)
        × ((trigger_dispatch w role t.tenant_id t.campaign_id u).0 ≢ ok tt)
  answer-objects t note ip s row w role by at quiet dated revised_before e unsettled =
      let tenant = t.tenant_id in
      let id = t.campaign_id in
      let u = answered t changes_requested note ip s in
      let (a, b, asks) =
        record_decision-current (answer_event t changes_requested note ip) s row quiet dated e
          revised_before in
      let left : (answer t changes_requested note ip s).1 ≡ u =
        ap (λ p. p.1) (answer-quiet t changes_requested note ip s row quiet e unsettled) in
      let wrote : (record_decision (answer_event t changes_requested note ip) s).1 ≡ u =
        ap (λ p. p.1) (record_decision-quiet t changes_requested note ip s quiet) in
      let asks_still : brand_changes_outstanding (reading tenant id u row) ≡ true =
        subst (λ (v : Store). brand_changes_outstanding (reading tenant id v row) ≡ true) wrote
          asks in
      subst
        (λ (v : Store).
          ((approve role tenant id by v).0 ≢ ok tt)
          × ((schedule_campaign role tenant id at v).0 ≢ ok tt)
          × ((trigger_dispatch w role tenant id v).0 ≢ ok tt))
        (sym left)
        (outstanding-refused w role tenant id by at u row quiet (find_same tenant id s u refl ∙ e)
          asks_still)
