-- ===== src/Contact/Directory.antt =====
-- The operations on single contacts: RegisterContact and DeleteRecipient of
-- apps/api-gateway/internal/usecase/contact_usecase.go, and consent_usecase.go. What an event's
-- evidence says is left out. `capacity` is the plan's contact limit, `none` where the use case has
-- no subscription to read, and -1 for no limit.
use omnipulse_backend.Base.{
  ℕ, ◌+◌, ℤ, pos, minus_one, leb_ℤ, eq_ℤ, Text, bytes, text_mem, Unicode, trim_space, to_lower,
  is_ascii, ascii_lower, Bool, true, false, Option, none, some, List, [], ◌∷◌, ◌++◌, ◌&&◌, ◌||◌,
  not, leb, ◌==◌, is_empty, is_space, if◌then◌else◌, reverse,
}
use omnipulse_backend.Contact.Types.{active, Contact}
use omnipulse_backend.Contact.Consent.{
  ConsentEvent, EventType, granted, revoked, Source, inbound_keyword, operator,
}
use omnipulse_backend.Contact.Store.{
  blank_name, unknown_channel, blank_routing, over_capacity, blank_id, M, pure, ◌>>=◌, ◌>>◌,
  raise_if, get, attempt, get_by_routing_value, create_contact, count_contacts, apply_event,
  anonymize,
}

abbrev known_channels : List Text
known_channels = bytes "whatsapp" ∷ bytes "telegram" ∷ bytes "instagram" ∷ bytes "x" ∷ []

-- Whether a plan with this limit has no room for one contact more. A count that fails lets it pass.
abbrev is_full : Option ℤ → Option ℕ → Bool
is_full none total = false
is_full (some limit) none = false
is_full (some limit) (some total) = not (eq_ℤ limit minus_one) && leb_ℤ limit (pos total)

abbrev or_manual : Text → Text
or_manual [] = bytes "manual"
or_manual (b ∷ t) = b ∷ t

-- The guard on the plan's capacity, for a contact that is not in the directory.
abbrev check_capacity : Option ℤ → Text → M (Unit {0})
check_capacity capacity tenant = do
  total ← attempt (count_contacts tenant)
  raise_if (not (is_empty tenant) && is_full capacity total) over_capacity

abbrev is_none : {A : Type 0} → Option A → Bool
is_none none = true
is_none (some a) = false

-- The characters of a keyword: letters and digits, a run of spaces and dashes as one space.
abbrev is_word : ℕ → Bool
is_word b = (leb b'a' b && leb b b'z') || (leb b'0' b && leb b b'9')

abbrev is_gap : ℕ → Bool
is_gap b = is_space b || (b == b'-' || b == b'_')

-- The loop of `normalizeKeyword`: the text so far, reversed, and whether it ends in a space.
abbrev keyword_loop : Text → Bool → Text → Text
keyword_loop acc last [] = reverse acc
keyword_loop acc last (b ∷ t) =
    if is_word b
    then keyword_loop (b ∷ acc) false t
    else if is_gap b && (not last && not (is_empty acc))
    then keyword_loop (32 ∷ acc) true t
    else keyword_loop acc last t

abbrev opt_out_keywords : List Text
opt_out_keywords =
    bytes "stop"
    ∷ bytes "stop all"
    ∷ bytes "unsubscribe"
    ∷ bytes "cancel"
    ∷ bytes "end"
    ∷ bytes "quit"
    ∷ bytes "opt out"
    ∷ bytes "optout"
    ∷ []

abbrev opt_in_keywords : List Text
opt_in_keywords = bytes "start" ∷ bytes "unstop" ∷ bytes "resume" ∷ []

-- What the ledger is told of an erasure.
abbrev pub erasure_event : Text → Contact → ConsentEvent
erasure_event tenant c = record {
  tenant_id = tenant;
  contact_id = c.id;
  event_type = revoked;
  source = operator;
  channel = c.channel;
  occurred_at = none;
  idempotency_key = [];
}

-- `AnonymizedRetention`, in seconds.
abbrev pub anonymized_retention : ℕ
anonymized_retention = 2592000

module _ ⦃uni : Unicode⦄ where
  unfoldable pub register_contact : Option ℤ → Contact → M Text
  register_contact capacity c = do
    let name = trim_space c.first_name
    raise_if (is_empty name) blank_name
    let channel = trim_space (to_lower c.channel)
    raise_if (not (text_mem channel known_channels)) unknown_channel
    let routing = trim_space c.routing_value
    raise_if (is_empty routing) blank_routing
    existing ← attempt (get_by_routing_value c.tenant_id channel routing)
    if is_none existing then check_capacity capacity c.tenant_id else pure tt
    create_contact (record c {
      first_name = name;
      channel = channel;
      routing_value = routing;
      source = or_manual c.source;
      status = active;
    })

  unfoldable pub normalize_keyword : Text → Text
  normalize_keyword t =
      if is_ascii t then trim_space (keyword_loop [] false (ascii_lower t)) else uni.keyword_wide t

  -- `ClassifyConsentKeyword`
  unfoldable pub classify_keyword : Text → Option EventType
  unfolding normalize_keyword
  classify_keyword t =
      let word = normalize_keyword t in
      if text_mem word opt_out_keywords
      then some revoked
      else if text_mem word opt_in_keywords
      then some granted
      else none

  abbrev inbound_key : Text → Text → Text
  inbound_key channel [] = []
  inbound_key channel (b ∷ id) = bytes "inbound:" ++ (channel ++ (bytes ":" ++ (b ∷ id)))

  -- `RecordKeyword`: the decision, and whether it was newly recorded; `none` for no keyword.
  unfoldable pub record_keyword : Text → Text → Text → Text → Text → M (Option EventType × Bool)
  record_keyword tenant channel routing message text = elim (classify_keyword text) [
    | none ↦ pure (none, false)
    | some t ↦ do
      c ← get_by_routing_value tenant channel routing
      applied ← apply_event (record {
        tenant_id = tenant;
        contact_id = c.id;
        event_type = t;
        source = inbound_keyword;
        channel = channel;
        occurred_at = none;
        idempotency_key = inbound_key channel message;
      })
      pure (some t, applied)
  ]

  unfoldable pub delete_recipient : Text → Text → M Contact
  delete_recipient tenant id = do
    raise_if (is_empty (trim_space id)) blank_id
    s ← get
    c ← anonymize tenant id (s.now + anonymized_retention)
    written ← attempt (apply_event (erasure_event tenant c))
    pure c

-- `RecordDecision` of the use case; the type of the event is one of the two.
unfoldable pub record_choice : Text → Text → EventType → Source → M Bool
record_choice tenant contact t source = apply_event (record {
  tenant_id = tenant;
  contact_id = contact;
  event_type = t;
  source = source;
  channel = [];
  occurred_at = none;
  idempotency_key = [];
})
