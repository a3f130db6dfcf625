-- ===== src/Campaign/Machine.antt =====
-- The operations on campaigns of usecase/campaign.usecase.go, the workers' reports and the answer
-- of a brand (Decide of usecase/review_usecase.go) as commands, and what holds along any sequence
-- of them. The deletion of a workspace, which takes its campaigns away, is not among them.
use omnipulse_backend.Base.{
  ℕ, Text, Unicode, Bool, true, false, Option, none, some, List, [], ◌∷◌, ◌≡◌, refl, ◌⊎◌, inl, inr,
  ◌∙◌, Option-cases, arith,
}
use mathlib.Core.Path.{subst₂}
use omnipulse_backend.Campaign.Types.{
  Status, processing, paused, completed, cancelled, Campaign, ReviewEvent,
}
use omnipulse_backend.Campaign.Task.{DeliveryResult}
use omnipulse_backend.Campaign.Store.{Store}
use omnipulse_backend.Campaign.Repo.{record_decision}
use omnipulse_backend.Campaign.Audience.{Workspace}
use omnipulse_backend.Campaign.Lifecycle.{
  Notifier, create_campaign, update_campaign, schedule_campaign, approve, reject, cancel_schedule,
  pause, resume, cancel, delete, submit,
}
use omnipulse_backend.Campaign.Dispatch.{Json, trigger_dispatch}
use omnipulse_backend.Campaign.Deliveries.{record_delivery_result, retry_deliveries}
use omnipulse_backend.Campaign.Edges.{
  edge, IsStep, IsStep-refl, Steps, create_campaign-Steps, update_campaign-Steps,
  schedule_campaign-Steps, approve-Steps, reject-Steps, cancel_schedule-Steps, pause-Steps,
  resume-Steps, cancel-Steps, delete-Steps, submit-Steps, record_delivery_result-Steps,
}
use omnipulse_backend.Review.Portal.{Tokens, decide}
use omnipulse_backend.Campaign.Answers.{decide-Steps}
use omnipulse_backend.Campaign.Moves.{trigger_dispatch-Steps, retry_deliveries-Steps}

-- `brand_decides` is the statement RecordDecision alone; `later` lets time pass and says which
-- statements will fail.
pub data Command : Type 0 where
  creates : Text → Campaign → Command
  updates : Notifier → Text → Text → Campaign → Command
  schedules : Text → Text → Text → ℕ → Command
  cancels_schedule pauses resumes cancels deletes : Text → Text → Command
  submits : Text → Text → Text → Command
  approves rejects : Text → Text → Text → Text → Command
  dispatches : Workspace → Text → Text → Text → Command
  reports : Text → DeliveryResult → Command
  retries : Text → Text → List Text → Command
  brand_decides : ReviewEvent → Command
  answers_by_link : Tokens → Text → Text → Text → Text → Command
  later : ℕ → List Bool → Command

module _ ⦃uni : Unicode⦄ ⦃json : Json⦄ where
  unfoldable pub execute : Command → Store → Store
  execute (creates id c) s = (create_campaign id c s).1
  execute (updates n tenant id c) s = (update_campaign n tenant id c s).1
  execute (schedules role tenant id at) s = (schedule_campaign role tenant id at s).1
  execute (cancels_schedule tenant id) s = (cancel_schedule tenant id s).1
  execute (pauses tenant id) s = (pause tenant id s).1
  execute (resumes tenant id) s = (resume tenant id s).1
  execute (cancels tenant id) s = (cancel tenant id s).1
  execute (deletes tenant id) s = (delete tenant id s).1
  execute (submits tenant id by) s = (submit tenant id by s).1
  execute (approves role tenant id by) s = (approve role tenant id by s).1
  execute (rejects role tenant id reason) s = (reject role tenant id reason s).1
  execute (dispatches w role tenant id) s = (trigger_dispatch w role tenant id s).1
  execute (reports id r) s = (record_delivery_result id r s).1
  execute (retries tenant id ids) s = (retry_deliveries tenant id ids s).1
  execute (brand_decides e) s = (record_decision e s).1
  execute (answers_by_link tokens raw decision note ip) s = (decide tokens raw decision note ip s).1
  execute (later now faults) s = record s { now = now; faults = faults }

  unfoldable pub run : List Command → Store → Store
  run [] s = s
  run (k ∷ ks) s = run ks (execute k s)

  -- Whatever of these operations is run, whatever its arguments, the database faults on the way and
  -- the state of the tables: each row of the table of campaigns stays as it was, or it is a new row
  -- in status draft, or a draft that is deleted, or its status moves along an edge of the diagram,
  -- its id and workspace unchanged.
  pub execute-Steps : (k : Command) (s : Store) → Steps s (execute k s)
  unfolding execute record_decision
  execute-Steps (creates id c) s = create_campaign-Steps id c s
  execute-Steps (updates n tenant id c) s = update_campaign-Steps n tenant id c s
  execute-Steps (schedules role tenant id at) s = schedule_campaign-Steps role tenant id at s
  execute-Steps (cancels_schedule tenant id) s = cancel_schedule-Steps tenant id s
  execute-Steps (pauses tenant id) s = pause-Steps tenant id s
  execute-Steps (resumes tenant id) s = resume-Steps tenant id s
  execute-Steps (cancels tenant id) s = cancel-Steps tenant id s
  execute-Steps (deletes tenant id) s = delete-Steps tenant id s
  execute-Steps (submits tenant id by) s = submit-Steps tenant id by s
  execute-Steps (approves role tenant id by) s = approve-Steps role tenant id by s
  execute-Steps (rejects role tenant id reason) s = reject-Steps role tenant id reason s
  execute-Steps (dispatches w role tenant id) s = trigger_dispatch-Steps w role tenant id s
  execute-Steps (reports id r) s = record_delivery_result-Steps id r s
  execute-Steps (retries tenant id ids) s = retry_deliveries-Steps tenant id ids s
  execute-Steps (brand_decides e) s = λ j. ground (arith, IsStep-refl (s.rows j))
  execute-Steps (answers_by_link tokens raw decision note ip) s =
      decide-Steps tokens raw decision note ip s
  execute-Steps (later now faults) s = λ j. IsStep-refl (s.rows j)

  -- Whether a campaign has begun to be sent, or was cancelled.
  abbrev pub Phase : Type 0
  Phase = Option Bool

  abbrev pub phase : Status → Phase
  phase processing = some true
  phase paused = some true
  phase completed = some true
  phase cancelled = some false
  phase _ = none

  edge-phase : (a b : Status) (p : Bool) → edge a b ≡ true → phase a ≡ some p → phase b ≡ some p
  edge-phase a b p e h = ground arith

  -- A campaign that has begun to be sent, or was cancelled, stays in that phase whatever commands
  -- follow (its workspace is not deleted): it is itself never deleted, a sent one is never
  -- cancelled or made editable again, and a cancelled one is never sent.
  pub run-phase :
      (ks : List Command) (s : Store) (j : Text) (c : Campaign) (p : Bool)
      → s.rows j ≡ some c
      → phase c.status ≡ some p
      → (d : Campaign) × ((run ks s).rows j ≡ some d)
        × (phase d.status ≡ some p)
        × (d.tenant_id ≡ c.tenant_id)
  unfolding run
  run-phase [] s j c p found h = (c, found, h, refl)
  run-phase (k ∷ ks) s j c p found h = elim (Option-cases ((execute k s).rows j)) [
    | inl gone ↦ ground (arith, execute-Steps k s j)
    | inr (d, kept) ↦
        let step : ((d.status ≡ c.status) ⊎ (edge c.status d.status ≡ true))
            × (d.id ≡ c.id)
            × (d.tenant_id ≡ c.tenant_id) =
          subst₂ IsStep found kept (execute-Steps k s j) in
        let still : phase d.status ≡ some p = ground (arith, edge-phase c.status d.status p) in
        let (e, last, same, own) = run-phase ks (execute k s) j d p kept still in
        (e, last, same, own ∙ step.2)
  ]
