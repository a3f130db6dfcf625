-- ===== src/Review/Links.antt =====
-- The links by which a brand reviews a campaign: CreateLink, EmailBrandLink, NotifyBrandRevision
-- and mintLink of apps/api-gateway/internal/usecase/review_usecase.go. The campaign is the one that
-- GetByID found, if it did.
use omnipulse_backend.Base.{
  ℕ, suc, ℤ, pos, negsuc, ◌+◌, ◌*◌, ◌%◌, Text, text_eq, text_mem, Unicode, trim_space, to_lower,
  equal_fold, Bool, true, false, Option, none, some, is_some, List, [], ◌∷◌, ◌||◌, not, ltb, leb,
  is_empty, take, ◌==◌, if◌then◌else◌,
}
use omnipulse_backend.Base.State.{pure, ◌>>=◌, ◌>>◌, raise_if, get, attempt}
use omnipulse_backend.Campaign.Types.{
  Status, scheduled, processing, completed, paused, cancelled, rejected, other, Campaign,
}
use omnipulse_backend.Review.LinkStore.{
  L, Mail, Row, ask, bad_recipient, change, create_token, list_tokens, need, no_campaign, no_mailer,
  no_random, not_shareable, outcome_unavailable, report, request, revision,
}

-- What is returned once.
pub record ReviewLink : Type 0 where
  pub raw : Text
  pub label : Text
  pub expires_at : ℕ

-- `reviewTokenTTLDefault` and `reviewTokenTTLMax`
abbrev pub ttl_default : ℕ
ttl_default = 604800000000000

abbrev pub ttl_max : ℕ
ttl_max = 2592000000000000

abbrev day : ℕ
day = 86400000000000

-- `time.Duration` has 64 bits: from 2^63 on it is negative.
abbrev pub clamp_ttl : ℕ → ℕ
clamp_ttl ttl =
    if ttl == 0 || leb 9223372036854775808 ttl
    then ttl_default
    else if ltb ttl_max ttl
    then ttl_max
    else ttl

abbrev pub ttl_of_days : ℤ → ℕ
ttl_of_days (negsuc n) = ttl_default
ttl_of_days (pos n) = if n == 0 then ttl_default else (n * day) % 18446744073709551616

-- `crypto/rand`
unfoldable pub generate_review_token : L Text
generate_review_token = do
  s ← get
  change (λ s. record s { rolled = suc s.rolled })
  need (s.randoms s.rolled) no_random

abbrev pub report_stage : Status → Bool
report_stage scheduled = true
report_stage processing = true
report_stage completed = true
report_stage paused = true
report_stage cancelled = true
report_stage _ = false

abbrev pub is_rejected : Status → Bool
is_rejected rejected = true
is_rejected _ = false

-- The statuses for which a link can be sent.
abbrev pub is_emailable : Status → Bool
is_emailable (other t) = false
is_emailable rejected = false
is_emailable _ = true

abbrev pub mail_for : Status → Text → Text → Mail
mail_for status to raw = if report_stage status then report to raw else request to raw

-- A recipient and the label that was last used.
abbrev pub Recipient : Type 0
Recipient = Text × Text

-- `hash` is SHA-256 in hexadecimal.
module _ ⦃uni : Unicode⦄ (hash : Text → Text) where
  unfoldable pub mint_link : Campaign → Text → Text → ℕ → Text → L ReviewLink
  unfolding generate_review_token create_token trim_space
  mint_link c raw_label created_by ttl recipient = do
    let label = take 120 (trim_space raw_label)
    raw ← generate_review_token
    s ← get
    let expires = s.now + clamp_ttl ttl
    t ← create_token (record {
      token = record {
        id = [];
        tenant_id = c.tenant_id;
        campaign_id = c.id;
        label = label;
        expires_at = expires;
        revoked_at = none;
      };
      hash = hash raw;
      recipient_email = trim_space recipient;
      created_by = created_by;
    })
    pure (record { raw = raw; label = label; expires_at = expires })

  unfoldable pub create_link : Option Campaign → Text → Text → ℤ → L ReviewLink
  unfolding mint_link
  create_link campaign label created_by days = do
    c ← need campaign no_campaign
    raise_if (is_rejected c.status) not_shareable
    mint_link c label created_by (ttl_of_days days) []

  abbrev pub label_or : Text → Text → Text
  label_or email name = if is_empty name then email else name

  abbrev pub is_address : Option Text → Text → Bool
  is_address none email = false
  is_address (some address) email = equal_fold address email

  -- `mail.ParseAddress`, and whether there is a mailer. What the branding holds is only shown.
  unfoldable pub email_brand_link :
      (Text → Option Text) → Bool → Option Campaign → Text → Text → Text → L ReviewLink
  unfolding mint_link trim_space equal_fold ask
  email_brand_link parse has_mailer campaign recipient name sent_by = do
    let email = trim_space recipient
    raise_if (not (is_address (parse email) email)) bad_recipient
    c ← need campaign no_campaign
    raise_if (is_rejected c.status) not_shareable
    raise_if (not (is_emailable c.status)) outcome_unavailable
    raise_if (not has_mailer) no_mailer
    link ← mint_link c (label_or email (trim_space name)) sent_by (2 * ttl_default) email
    brand ← attempt ask
    change (λ s. record s { mails = mail_for c.status email link.raw ∷ s.mails })
    pure link

  -- Each address once, with the label of its newest link that is not revoked.
  unfoldable pub recipients : List Text → List Row → List Recipient
  unfolding trim_space to_lower text_eq
  recipients seen [] = []
  recipients seen (r ∷ rs) =
      let email = to_lower (trim_space r.recipient_email) in
      let skipped = recipients seen rs in
      let taken = (email, r.token.label) ∷ recipients (email ∷ seen) rs in
      if is_empty email || (is_some r.token.revoked_at || text_mem email seen)
      then skipped
      else taken

  abbrev pub sent_to : Text → Option ReviewLink → L ℕ
  sent_to email none = pure 0
  sent_to email (some link) = do
    change (λ s. record s { mails = revision email link.raw ∷ s.mails })
    pure 1

  -- A link that cannot be made is passed over.
  unfoldable pub mint_all : Campaign → Text → List Recipient → L ℕ
  unfolding mint_link
  mint_all c created_by [] = pure 0
  mint_all c created_by (r ∷ rs) = do
    made ← attempt (mint_link c r.1 created_by (2 * ttl_default) r.0)
    n ← sent_to r.0 made
    m ← mint_all c created_by rs
    pure (n + m)

  unfoldable pub notify_brand_revision : Bool → Campaign → Text → L ℕ
  unfolding list_tokens recipients mint_all ask
  notify_brand_revision has_mailer c created_by =
      let notify : L ℕ = (do
        rows ← list_tokens c.tenant_id c.id
        let them = recipients [] rows
        let branded : L ℕ = (do brand ← attempt ask; mint_all c created_by them)
        if is_empty them then pure 0 else branded) in
      if has_mailer then notify else pure 0
