-- ===== src/Review/LinkStore.antt =====
-- The table `campaign_review_tokens` of apps/api-gateway/cmd/main.go, with its rows newest first,
-- and the statements of apps/api-gateway/internal/repository/postgres_review.go on it. Times are in
-- nanoseconds.
use omnipulse_backend.Base.{
  ℕ, suc, Text, text_eq, Bool, Option, none, some, is_some, List, [], ◌∷◌, ◌&&◌, not, any, select,
  if◌then◌else◌,
}
use omnipulse_backend.Base.State.{Action, ok, err, pure, raise, ◌>>=◌, ◌>>◌, raise_if, get}
use omnipulse_backend.Review.Portal.{Token, Tokens}

pub data LinkError : Type 0 where
  database no_campaign not_shareable bad_recipient outcome_unavailable no_mailer : LinkError
  no_random no_link : LinkError

-- A row, with the hash under which it is found.
pub record Row : Type 0 where
  pub token : Token
  pub hash : Text
  pub recipient_email : Text
  pub created_by : Text

-- To whom, and the raw token in the link.
pub data Mail : Type 0 where
  report request revision : Text → Text → Mail

-- The ids that the database draws, the raw tokens that are made of random bytes, where there are
-- any, and how many of each are used.
pub record Desk : Type 0 where
  pub links : List Row
  pub ids : ℕ → Text
  pub drawn : ℕ
  pub randoms : ℕ → Option Text
  pub rolled : ℕ
  pub mails : List Mail
  pub faults : List Bool
  pub now : ℕ

abbrev pub L : Type 0 → Type 0
L A = Action Desk LinkError A

unfoldable pub ask : L (Unit {0})
ask s = elim s.faults [
  | [] ↦ (ok tt, s)
  | fails ∷ rest ↦ (if fails then err database else ok tt, record s { faults = rest })
]

abbrev pub change : (Desk → Desk) → L (Unit {0})
change f s = (ok tt, f s)

abbrev pub need : {A : Type 0} → Option A → LinkError → L A
need none e = raise e
need (some a) e = pure a

-- `token_hash` is UNIQUE.
unfoldable pub add_token : Row → L Token
unfolding text_eq
add_token row = do
  s ← get
  raise_if (any (λ (r : Row). text_eq r.hash row.hash) s.links) database
  let t : Token = record row.token { id = s.ids s.drawn; revoked_at = none }
  change (λ s. record s { links = record row { token = t } ∷ s.links; drawn = suc s.drawn })
  pure t

unfoldable pub create_token : Row → L Token
unfolding ask add_token
create_token row = do ask; add_token row

-- `WHERE id = $1 AND tenant_id = $2 AND campaign_id = $3 AND revoked_at IS NULL`
abbrev pub is_revocable : Text → Text → Text → Row → Bool
is_revocable tenant campaign id r =
    text_eq r.token.id id
    && (text_eq r.token.tenant_id tenant
        && (text_eq r.token.campaign_id campaign && not (is_some r.token.revoked_at)))

abbrev pub revoke_if : Bool → ℕ → Row → Row
revoke_if b now r = if b then record r { token = record r.token { revoked_at = some now } } else r

abbrev pub revoke_rows : (Row → Bool) → ℕ → List Row → List Row
revoke_rows p now [] = []
revoke_rows p now (r ∷ rs) = revoke_if (p r) now r ∷ revoke_rows p now rs

unfoldable pub revoke_token : Text → Text → Text → L (Unit {0})
unfolding ask
revoke_token tenant campaign id = do
  ask
  s ← get
  raise_if (not (any (is_revocable tenant campaign id) s.links)) no_link
  change (λ s. record s { links = revoke_rows (is_revocable tenant campaign id) s.now s.links })

unfoldable pub list_tokens : Text → Text → L (List Row)
unfolding ask
list_tokens tenant campaign = do
  ask
  s ← get
  pure (
      select (λ r. text_eq r.token.tenant_id tenant && text_eq r.token.campaign_id campaign)
        s.links)

-- The row of a hash.
abbrev pub of_hash : Text → List Row → Option Token
of_hash h [] = none
of_hash h (r ∷ rs) = if text_eq r.hash h then some r.token else of_hash h rs

-- What `FindTokenByHash` finds of a raw token.
abbrev pub tokens_of : (Text → Text) → List Row → Tokens
tokens_of hash rows raw = of_hash (hash raw) rows
