-- ===== src/Campaign/Answers.antt =====
-- A brand's answer by a link (Decide of apps/api-gateway/internal/usecase/review_usecase.go) follows
-- the diagram of a campaign's life.
use omnipulse_backend.Base.{
  Text, Unicode, ◌&&◌, ◌≡◌, refl, ◌∙◌, inl, inr, Bool-cases, Option-cases, arith, text_eq_iff,
}
use omnipulse_backend.Base.State.{Outcome, ok, err}
use omnipulse_backend.Campaign.Types.{Status, is_pending, Decision}
use omnipulse_backend.Campaign.Store.{Error, Store}
use omnipulse_backend.Campaign.Repo.{get_by_id, record_decision, approve_campaign}
use omnipulse_backend.Campaign.Quiet.{Quiet, Outcome-cases, get_by_id-Quiet}
use omnipulse_backend.Campaign.Edges.{IsStep-refl, Steps, Steps-from, Steps-to, Steps-same}
use omnipulse_backend.Review.Portal.{
  Token, Tokens, approved_by, is_approval, tolerate, advance, answer_event, answer, resolve_token,
  kept_note, parse_review_decision, decide,
}

approve_campaign-Steps :
    (tenant id by : Text) (s : Store) → Steps s (approve_campaign tenant id by s).1
unfolding approve_campaign
approve_campaign-Steps tenant id by s j = ground (arith, text_eq_iff j id, IsStep-refl (s.rows j))

tolerate-Quiet : (tenant id : Text) (o : Outcome Error (Unit {0})) → Quiet (tolerate tenant id o)
tolerate-Quiet tenant id (ok u) s = refl
tolerate-Quiet tenant id (err x) s = ground (arith, get_by_id-Quiet tenant id s)

record_decision-Quiet :
    (t : Token) (d : Decision) (note ip : Text) → Quiet (record_decision (answer_event t d note ip))
unfolding record_decision
record_decision-Quiet t d note ip s = ground arith

advance-Steps :
    (t : Token) (d : Decision) (status : Status) (s : Store) → Steps s (advance t d status s).1
unfolding advance
advance-Steps t d status s j =
    let tenant = t.tenant_id in
    let id = t.campaign_id in
    let (done, u) = approve_campaign tenant id (approved_by t.label) s in
    let moved : Steps s u = approve_campaign-Steps tenant id (approved_by t.label) s in
    elim (Bool-cases (is_approval d && is_pending status)) [
      | inr waits ↦ ground (arith, waits, IsStep-refl (s.rows j))
      | inl goes ↦ ground (
        arith,
        goes,
        Steps-to s u (tolerate tenant id done u).1 (tolerate-Quiet tenant id done u) moved j,
      )
    ]

answer-Steps :
    (t : Token) (d : Decision) (note ip : Text) (s : Store) → Steps s (answer t d note ip s).1
unfolding answer
answer-Steps t d note ip s j =
    let a = (get_by_id t.tenant_id t.campaign_id s).1 in
    let b = (record_decision (answer_event t d note ip) a).1 in
    let e : a.rows ≡ s.rows = get_by_id-Quiet t.tenant_id t.campaign_id s in
    let f : b.rows ≡ s.rows = record_decision-Quiet t d note ip a ∙ e in
    elim (Outcome-cases (get_by_id t.tenant_id t.campaign_id s).0) [
      | inr (x, k) ↦ ground (arith, k, Steps-same s a e j)
      | inl (c, k) ↦
          let u = (advance t d c.status b).1 in
          ground (
            arith,
            k,
            Steps-same s a e j,
            Steps-same s b f j,
            Steps-from s b u f (advance-Steps t d c.status b) j,
          )
    ]

module _ ⦃uni : Unicode⦄ where
  resolve_token-Quiet : (tokens : Tokens) (raw : Text) → Quiet (resolve_token tokens raw)
  unfolding resolve_token
  resolve_token-Quiet tokens raw s = ground arith

  pub decide-Steps :
      (tokens : Tokens) (raw decision note ip : Text) (s : Store)
      → Steps s (decide tokens raw decision note ip s).1
  unfolding decide
  decide-Steps tokens raw decision note ip s j =
      let t = (resolve_token tokens raw s).1 in
      let e : t.rows ≡ s.rows = resolve_token-Quiet tokens raw s in
      elim (Option-cases (parse_review_decision decision)) [
        | inl bad ↦ ground (arith, bad, IsStep-refl (s.rows j))
        | inr (d, good) ↦ elim (Outcome-cases (resolve_token tokens raw s).0) [
          | inr (x, k) ↦ ground (arith, good, k, IsStep-refl (s.rows j), Steps-same s t e j)
          | inl (link, k) ↦
              let u = (answer link d (kept_note note) ip t).1 in
              ground (
                arith,
                good,
                k,
                IsStep-refl (s.rows j),
                Steps-from s t u e (answer-Steps link d (kept_note note) ip t) j,
              )
        ]
      ]
