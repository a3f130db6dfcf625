-- ===== src/Campaign/Edges.antt =====
-- The diagram of a campaign's life, and that the operations of a single row follow it.
use omnipulse_backend.Base.{
  ℕ, Text, text_eq_iff, Unicode, Bool, true, false, Option, none, some, ◌≡◌, refl, sym, subst, ◌∙◌,
  ◌⊎◌, inl, inr, not, arith,
}
use omnipulse_backend.Campaign.Types.{
  Status, is_draft, draft, pending_approval, approved, rejected, scheduled, processing, paused,
  completed, cancelled, other, Campaign,
}
use omnipulse_backend.Campaign.Task.{DeliveryResult}
use omnipulse_backend.Campaign.Store.{Store}
use omnipulse_backend.Campaign.Repo.{
  get_by_id, create, update_content, set_scheduled, cancel_scheduled_campaign, pause_campaign,
  resume_campaign, cancel_campaign, delete_draft, submit_for_approval, approve_campaign,
  reject_campaign, get_approval_setting,
}
use omnipulse_backend.Campaign.Lifecycle.{
  Notifier, normalize_campaign_content, create_campaign, update_campaign, schedule_campaign,
  approve, reject, cancel_schedule, pause, resume, cancel, delete, submit,
}
use omnipulse_backend.Campaign.Quiet.{Outcome-cases, get_by_id-Quiet, get_approval_setting-Quiet}
use omnipulse_backend.Campaign.Deliveries.{record_delivery_result}

-- The changes of status that an operation may make.
abbrev pub edge : Status → Status → Bool
edge draft pending_approval = true
edge draft scheduled = true
edge draft processing = true
edge draft cancelled = true
edge pending_approval approved = true
edge pending_approval rejected = true
edge pending_approval draft = true
edge pending_approval processing = true
edge pending_approval cancelled = true
edge approved draft = true
edge approved scheduled = true
edge approved processing = true
edge approved cancelled = true
edge rejected draft = true
edge rejected pending_approval = true
edge scheduled draft = true
edge scheduled processing = true
edge scheduled cancelled = true
edge processing paused = true
edge processing completed = true
edge paused processing = true
edge completed processing = true
edge (other t) processing = true
edge _ _ = false

-- How one row may change: not at all, born as a draft, deleted as a draft, or along an edge.
abbrev pub IsStep : Option Campaign → Option Campaign → Type 0
IsStep none none = Unit {0}
IsStep none (some d) = d.status ≡ draft
IsStep (some c) none = c.status ≡ draft
IsStep (some c) (some d) =
    ((d.status ≡ c.status) ⊎ (edge c.status d.status ≡ true))
    × (d.id ≡ c.id)
    × (d.tenant_id ≡ c.tenant_id)

pub IsStep-refl : (r : Option Campaign) → IsStep r r
IsStep-refl none = tt
IsStep-refl (some c) = (inl refl, refl, refl)

-- A step of the table: of every row.
abbrev pub Steps : Store → Store → Type 0
Steps s t = (j : Text) → IsStep (s.rows j) (t.rows j)

pub cancel_schedule-Steps : (tenant id : Text) (s : Store) → Steps s (cancel_schedule tenant id s).1
unfolding cancel_schedule cancel_scheduled_campaign
cancel_schedule-Steps tenant id s j = ground (arith, text_eq_iff j id, IsStep-refl (s.rows j))

pub pause-Steps : (tenant id : Text) (s : Store) → Steps s (pause tenant id s).1
unfolding pause get_by_id pause_campaign
pause-Steps tenant id s j = ground (arith, text_eq_iff j id, IsStep-refl (s.rows j))

pub resume-Steps : (tenant id : Text) (s : Store) → Steps s (resume tenant id s).1
unfolding resume get_by_id resume_campaign
resume-Steps tenant id s j = ground (arith, text_eq_iff j id, IsStep-refl (s.rows j))

pub cancel-Steps : (tenant id : Text) (s : Store) → Steps s (cancel tenant id s).1
unfolding cancel get_by_id cancel_campaign
cancel-Steps tenant id s j = ground (arith, text_eq_iff j id, IsStep-refl (s.rows j))

pub delete-Steps : (tenant id : Text) (s : Store) → Steps s (delete tenant id s).1
unfolding delete get_by_id delete_draft
delete-Steps tenant id s j = ground (arith, text_eq_iff j id, IsStep-refl (s.rows j))

pub submit-Steps : (tenant id by : Text) (s : Store) → Steps s (submit tenant id by s).1
unfolding submit get_by_id submit_for_approval
submit-Steps tenant id by s j = ground (arith, text_eq_iff j id, IsStep-refl (s.rows j))

pub approve-Steps :
    ⦃uni : Unicode⦄ (role tenant id by : Text) (s : Store) → Steps s (approve role tenant id by s).1
unfolding approve get_by_id approve_campaign
approve-Steps role tenant id by s j = ground (arith, text_eq_iff j id, IsStep-refl (s.rows j))

pub reject-Steps :
    ⦃uni : Unicode⦄ (role tenant id reason : Text) (s : Store)
    → Steps s (reject role tenant id reason s).1
unfolding reject get_by_id reject_campaign
reject-Steps role tenant id reason s j = ground (arith, text_eq_iff j id, IsStep-refl (s.rows j))

pub create_campaign-Steps :
    ⦃uni : Unicode⦄ (id : Text) (c : Campaign) (s : Store) → Steps s (create_campaign id c s).1
unfolding create_campaign normalize_campaign_content create
create_campaign-Steps id c s j = ground (arith, text_eq_iff j id, IsStep-refl (s.rows j))

pub record_delivery_result-Steps :
    (id : Text) (r : DeliveryResult) (s : Store) → Steps s (record_delivery_result id r s).1
unfolding record_delivery_result
record_delivery_result-Steps id r s j =
    ground (arith, text_eq_iff j r.campaign_id, IsStep-refl (s.rows j))

set_scheduled-Steps :
    (tenant id : Text) (at : ℕ) (s : Store) → Steps s (set_scheduled tenant id at s).1
unfolding set_scheduled
set_scheduled-Steps tenant id at s j = ground (arith, text_eq_iff j id, IsStep-refl (s.rows j))

update_content-Steps :
    (tenant id : Text) (c : Campaign) (reset : Bool) (s : Store)
    → Steps s (update_content tenant id c reset s).1
unfolding update_content
update_content-Steps tenant id c reset s j =
    ground (arith, text_eq_iff j id, IsStep-refl (s.rows j))

-- A step from a table with the same rows.
pub Steps-from : (s t u : Store) → t.rows ≡ s.rows → Steps t u → Steps s u
Steps-from s t u e h j = subst (λ (r : Text → Option Campaign). IsStep (r j) (u.rows j)) e (h j)

pub Steps-to : (s t u : Store) → u.rows ≡ t.rows → Steps s t → Steps s u
Steps-to s t u e h j = subst (λ (r : Text → Option Campaign). IsStep (s.rows j) (r j)) (sym e) (h j)

pub Steps-same : (s t : Store) → t.rows ≡ s.rows → Steps s t
Steps-same s t e j =
    subst (λ (r : Text → Option Campaign). IsStep (s.rows j) (r j)) (sym e) (IsStep-refl (s.rows j))

pub schedule_campaign-Steps :
    ⦃uni : Unicode⦄ (role tenant id : Text) (at : ℕ) (s : Store)
    → Steps s (schedule_campaign role tenant id at s).1
unfolding schedule_campaign
schedule_campaign-Steps role tenant id at s j =
    let t = (get_by_id tenant id s).1 in
    let u = (get_approval_setting tenant t).1 in
    let e : t.rows ≡ s.rows = get_by_id-Quiet tenant id s in
    let f : u.rows ≡ s.rows = get_approval_setting-Quiet tenant t ∙ e in
    ground (
      arith,
      Steps-same s t e j,
      Steps-same s u f j,
      Steps-from s u (set_scheduled tenant id at u).1 f (set_scheduled-Steps tenant id at u) j,
    )

pub update_campaign-Steps :
    ⦃uni : Unicode⦄ (notifier : Notifier) (tenant id : Text) (c : Campaign) (s : Store)
    → Steps s (update_campaign notifier tenant id c s).1
unfolding update_campaign normalize_campaign_content
update_campaign-Steps notifier tenant id c s j = elim (Outcome-cases (get_by_id tenant id s).0) [
  | inr (x, e) ↦
      ground (arith, Steps-same s (get_by_id tenant id s).1 (get_by_id-Quiet tenant id s) j)
  | inl (old, e) ↦
      let t = (get_by_id tenant id s).1 in
      let q : t.rows ≡ s.rows = get_by_id-Quiet tenant id s in
      elim (Outcome-cases (normalize_campaign_content c)) [
        | inr (x, f) ↦ ground (arith, Steps-same s t q j)
        | inl (d, f) ↦
            let u = (update_content tenant id d (not (is_draft old.status)) t).1 in
            let saved : Steps s u = Steps-from s t u q (update_content-Steps tenant id d _ t) in
            ground (
              arith,
              Steps-same s t q j,
              saved j,
              Steps-to s u (get_by_id tenant id u).1 (get_by_id-Quiet tenant id u) saved j,
            )
      ]
]
