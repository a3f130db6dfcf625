-- ===== src/Review/Portal.antt =====
-- Decide of apps/api-gateway/internal/usecase/review_usecase.go, up to the page that it answers
-- with, and what a link must be to be used. `tokens` is the table `campaign_review_tokens`, looked
-- up by the hash of the raw token; the time of the last view, which only a list shows, is left out,
-- but the statement that writes it may fail. Who is told of a decision is left out.
use omnipulse_backend.Base.{
  ℕ, Text, bytes, text_mem, Unicode, trim_space, to_lower, Bool, true, false, Option, none, some,
  is_some, [], ◌∷◌, ◌++◌, ◌&&◌, not, ltb, is_empty, take, if◌then◌else◌,
}
use omnipulse_backend.Base.State.{Outcome, outcome_of}
use omnipulse_backend.Campaign.Types.{
  Status, scheduled, processing, completed, paused, cancelled, rejected, is_pending, is_approved,
  Decision, brand_approved, changes_requested, is_changes_requested, Campaign, ReviewEvent,
}
use omnipulse_backend.Campaign.Store.{
  Error, link_not_found, link_expired, bad_decision, note_required, not_reviewable, M, ok, err,
  pure, raise, ◌>>=◌, ◌>>◌, raise_if, get, attempt, query,
}
use omnipulse_backend.Campaign.Repo.{get_by_id, record_decision, approve_campaign}

-- `ReviewToken`
pub record Token : Type 0 where
  pub id : Text
  pub tenant_id : Text
  pub campaign_id : Text
  pub label : Text
  pub expires_at : ℕ
  pub revoked_at : Option ℕ

abbrev pub Tokens : Type 0
Tokens = Text → Option Token

-- The statuses on which the brand's answer is refused.
abbrev pub is_settled : Status → Bool
is_settled scheduled = true
is_settled processing = true
is_settled completed = true
is_settled paused = true
is_settled cancelled = true
is_settled rejected = true
is_settled _ = false

-- `reviewNoteMaxLen`
abbrev pub note_limit : ℕ
note_limit = 2000

abbrev pub approved_by : Text → Text
approved_by [] = bytes "client_review"
approved_by (b ∷ label) = bytes "client:" ++ (b ∷ label)

abbrev pub is_approval : Decision → Bool
is_approval brand_approved = true
is_approval changes_requested = false

abbrev approved_row : Outcome Error Campaign → Bool
approved_row (ok c) = is_approved c.status
approved_row (err e) = false

-- "A concurrent reviewer may have approved it first": then the error is none.
abbrev pub tolerate : Text → Text → Outcome Error (Unit {0}) → M (Unit {0})
tolerate tenant id (ok u) = pure tt
tolerate tenant id (err e) = do
  latest ← outcome_of (get_by_id tenant id)
  raise_if (not (approved_row latest)) e

-- What follows the recording of the answer.
unfoldable pub advance : Token → Decision → Status → M (Unit {0})
advance t d status =
    let approve : M (Unit {0}) = (do
      done ← outcome_of (approve_campaign t.tenant_id t.campaign_id (approved_by t.label))
      tolerate t.tenant_id t.campaign_id done) in
    if is_approval d && is_pending status then approve else pure tt

abbrev pub answer_event : Token → Decision → Text → Text → ReviewEvent
answer_event t d note ip = record {
  event_tenant = t.tenant_id;
  event_campaign = t.campaign_id;
  token_id = t.id;
  decision = d;
  note = note;
  reviewer_ip = ip;
  created_at = 0;
}

-- The answer by a link that was found.
unfoldable pub answer : Token → Decision → Text → Text → M (Unit {0})
answer t d note ip = do
  c ← get_by_id t.tenant_id t.campaign_id
  raise_if (is_settled c.status) not_reviewable
  record_decision (answer_event t d note ip)
  advance t d c.status

module _ ⦃uni : Unicode⦄ where
  unfoldable pub parse_review_decision : Text → Option Decision
  parse_review_decision raw =
      let word = to_lower (trim_space raw) in
      if text_mem word (bytes "approve" ∷ bytes "approved" ∷ [])
      then some brand_approved
      else if text_mem word
          (bytes "request_changes" ∷ bytes "changes_requested" ∷ bytes "request-changes" ∷ [])
      then some changes_requested
      else none

  unfoldable pub resolve_token : Tokens → Text → M Token
  unfolding query
  resolve_token tokens raw = do
    let name = trim_space raw
    raise_if (is_empty name) link_not_found
    query
    elim (tokens name) [
      | none ↦ raise link_not_found
      | some t ↦ do
        raise_if (is_some t.revoked_at) link_not_found
        s ← get
        raise_if (ltb t.expires_at s.now) link_expired
        touched ← attempt query
        pure t
    ]

  abbrev pub kept_note : Text → Text
  kept_note raw = take note_limit (trim_space raw)

  unfoldable pub decide : Tokens → Text → Text → Text → Text → M (Unit {0})
  decide tokens raw decision raw_note ip = elim (parse_review_decision decision) [
    | none ↦ raise bad_decision
    | some d ↦ do
      raise_if (is_changes_requested (some d) && is_empty (kept_note raw_note)) note_required
      t ← resolve_token tokens raw
      answer t d (kept_note raw_note) ip
  ]
