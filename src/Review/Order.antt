-- ===== src/Review/Order.antt =====
-- An answer is recorded before its campaign moves.
use omnipulse_backend.Base.{Text, ◌∷◌, ◌&&◌, Bool-cases, ◌≡◌, refl, ◌⊎◌, inl, inr, arith}
use omnipulse_backend.Base.State.{Outcome, Outcome-cases}
use omnipulse_backend.Campaign.Types.{Status, is_pending, Decision}
use omnipulse_backend.Campaign.Store.{Error, Store, M, ok, err, query}
use omnipulse_backend.Campaign.Repo.{get_by_id, record_decision, approve_campaign}
use omnipulse_backend.Campaign.Quiet.{get_by_id-Quiet}
use omnipulse_backend.Review.Portal.{
  Token, is_approval, is_settled, approved_by, tolerate, advance, answer_event, answer,
}

-- Neither the answers nor the clock change.
abbrev Silent : {A : Type 0} → M A → Type 0
Silent m = (s : Store) → ((m s).1.events ≡ s.events) × ((m s).1.now ≡ s.now)

get_by_id-Silent : (tenant id : Text) → Silent (get_by_id tenant id)
unfolding get_by_id query
get_by_id-Silent tenant id s = (ground arith, ground arith)

approve_campaign-Silent : (tenant id by : Text) → Silent (approve_campaign tenant id by)
unfolding approve_campaign query
approve_campaign-Silent tenant id by s = (ground arith, ground arith)

tolerate-Silent : (tenant id : Text) (r : Outcome Error (Unit {0})) → Silent (tolerate tenant id r)
tolerate-Silent tenant id (ok u) s = (refl, refl)
tolerate-Silent tenant id (err e) s =
    let (a, b) = get_by_id-Silent tenant id s in (ground (arith, a), ground (arith, b))

advance-Silent : (t : Token) (d : Decision) (status : Status) → Silent (advance t d status)
unfolding advance
advance-Silent t d status s =
    let by = approved_by t.label in
    let u = (approve_campaign t.tenant_id t.campaign_id by s).1 in
    let (a, b) = approve_campaign-Silent t.tenant_id t.campaign_id by s in
    let (c, f) =
      tolerate-Silent t.tenant_id t.campaign_id (approve_campaign t.tenant_id t.campaign_id by s).0
        u in
    elim (Bool-cases (is_approval d && is_pending status)) [
      | inr stays ↦ (ground (arith, stays), ground (arith, stays))
      | inl moves ↦ (ground (arith, moves, a, c), ground (arith, moves, b, f))
    ]

-- An attempt to record an answer leaves the campaigns, and adds the answer if it succeeds.
record_decision-adds :
    (t : Token) (d : Decision) (note ip : Text) (s : Store)
    → let out = record_decision (answer_event t d note ip) s in
      (out.1.rows ≡ s.rows)
      × ((u : Unit {0})
          → out.0 ≡ ok u
          → out.1.events ≡ record (answer_event t d note ip) { created_at = s.now } ∷ s.events)
unfolding record_decision query
record_decision-adds t d note ip s = (ground arith, λ u done. ground (arith, done))

-- An answer is recorded before its campaign moves: whatever fails, either no campaign has changed,
-- or the answer, with the link, the decision and the time, is the newest on record.
pub answer-recorded :
    (t : Token) (d : Decision) (note ip : Text) (s : Store)
    → let u = (answer t d note ip s).1 in
      (u.rows ≡ s.rows)
      ⊎ (u.events ≡ record (answer_event t d note ip) { created_at = s.now } ∷ s.events)
unfolding answer
answer-recorded t d note ip s =
    let read = get_by_id t.tenant_id t.campaign_id s in
    let same = get_by_id-Quiet t.tenant_id t.campaign_id s in
    let (kept, clock) = get_by_id-Silent t.tenant_id t.campaign_id s in
    let written = record_decision (answer_event t d note ip) read.1 in
    let (rows, adds) = record_decision-adds t d note ip read.1 in
    elim (Outcome-cases read.0) [
      | inr (e, failed) ↦ inl (ground (arith, failed, same))
      | inl (c, found) ↦ elim (Bool-cases (is_settled c.status)) [
        | inl settled ↦ inl (ground (arith, found, settled, same))
        | inr opens ↦ elim (Outcome-cases written.0) [
          | inr (e, failed) ↦ inl (ground (arith, found, opens, failed, rows, same))
          | inl (u, done) ↦
              let (silent, b) = advance-Silent t d c.status written.1 in
              inr (ground (arith, found, opens, done, adds u done, silent, kept, clock))
        ]
      ]
    ]
