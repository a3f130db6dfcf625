-- ===== src/Contact/Import.antt =====
-- `ImportContacts` of apps/api-gateway/internal/usecase/contact_usecase.go. A message to the
-- operator is a constructor. `capacity` is as for RegisterContact; the ledger is always there.
use omnipulse_backend.Base.{
  ℕ, suc, Text, bytes, text_eq, text_mem, Unicode, trim_space, to_lower, trim_prefix, Bool, Option,
  none, some, List, [], ◌∷◌, ◌++◌, ◌&&◌, ◌||◌, not, ltb, leb, is_empty, length, select,
  if◌then◌else◌,
}
use omnipulse_backend.Base.State.{Outcome}
use omnipulse_backend.Contact.Types.{Contact}
use omnipulse_backend.Contact.Consent.{EventType, granted, revoked}
use omnipulse_backend.Contact.Store.{ok, err}

-- `ContactImportRow`
pub record Row : Type 0 where
  pub first_name : Text
  pub last_name : Text
  pub channel : Text
  pub routing_value : Text
  pub consent : Text
  pub consent_note : Text

-- `ContactImportRequest`
pub record Request : Type 0 where
  pub default_channel : Text
  pub default_consent : Text
  pub rows : List Row

pub data Complaint : Type 0 where
  unknown_channel no_channel bad_routing bad_consent not_checked previously_opted_out : Complaint
  not_saved consent_not_recorded : Complaint

-- `ContactImportError`
pub record Problem : Type 0 where
  pub row : ℕ
  pub routing : Text
  pub complaint : Complaint

-- `ContactImportSummary`
pub record Summary : Type 0 where
  pub total : ℕ
  pub created : ℕ
  pub existing : ℕ
  pub duplicates : ℕ
  pub invalid : ℕ
  pub consent_granted : ℕ
  pub consent_revoked : ℕ
  pub no_consent : ℕ
  pub errors : List Problem
  pub truncated_errors : Bool

-- `importErrorLimit`
abbrev pub error_limit : ℕ
error_limit = 50

-- `addError`
unfoldable pub add_error : ℕ → Text → Complaint → Summary → Summary
add_error n routing why s = record s {
  invalid = suc s.invalid;
  errors =
      if ltb (length s.errors) error_limit
      then s.errors ++ (record { row = n; routing = routing; complaint = why }) ∷ []
      else s.errors;
}

abbrev no_evidence : List Text
no_evidence = [] ∷ bytes "unknown" ∷ bytes "not recorded" ∷ bytes "unrecorded" ∷ bytes "none" ∷ []

abbrev grants : List Text
grants =
    bytes "granted"
    ∷ bytes "opt_in"
    ∷ bytes "optin"
    ∷ bytes "opted_in"
    ∷ bytes "optedin"
    ∷ bytes "opt-in"
    ∷ bytes "yes"
    ∷ bytes "true"
    ∷ bytes "1"
    ∷ bytes "subscribed"
    ∷ bytes "active"
    ∷ []

abbrev revocations : List Text
revocations =
    bytes "revoked"
    ∷ bytes "opt_out"
    ∷ bytes "optout"
    ∷ bytes "opted_out"
    ∷ bytes "optedout"
    ∷ bytes "opt-out"
    ∷ bytes "no"
    ∷ bytes "false"
    ∷ bytes "0"
    ∷ bytes "unsubscribed"
    ∷ bytes "stopped"
    ∷ []

abbrev is_digit : ℕ → Bool
is_digit b = leb b'0' b && leb b b'9'

-- What one row becomes before anything is looked up.
pub record Prepared : Type 0 where
  pub number : ℕ
  pub first_name : Text
  pub last_name : Text
  pub channel : Text
  pub routing : Text
  pub consent : Option EventType
  pub known_as : Option Contact

-- The state of the first loop: the rows so far, last first, the keys seen, and the summary.
pub record Progress : Type 0 where
  pub prepared : List Prepared
  pub seen : List Text
  pub summary : Summary

abbrev or_else : Text → Text → Text
or_else [] d = d
or_else (b ∷ t) d = b ∷ t

module _ ⦃uni : Unicode⦄ where
  -- `parseImportConsent`: the inner `none` is "no evidence supplied", the outer one is refused.
  unfoldable pub parse_import_consent : Text → Option (Option EventType)
  parse_import_consent raw =
      let word = to_lower (trim_space raw) in
      if text_mem word no_evidence
      then some none
      else if text_mem word grants
      then some (some granted)
      else if text_mem word revocations
      then some (some revoked)
      else none

  unfoldable pub normalize_import_channel : Text → Option Text
  normalize_import_channel raw =
      let word = to_lower (trim_space raw) in
      if text_mem word
        (bytes "whatsapp" ∷ bytes "wa" ∷ bytes "whatsapp_business" ∷ bytes "whatsapp business" ∷ [])
      then some (bytes "whatsapp")
      else if text_mem word (bytes "telegram" ∷ bytes "tg" ∷ [])
      then some (bytes "telegram")
      else if text_mem word (bytes "instagram" ∷ bytes "ig" ∷ [])
      then some (bytes "instagram")
      else if text_mem word (bytes "x" ∷ bytes "twitter" ∷ [])
      then some (bytes "x")
      else none

  abbrev phone : Text → Option Text
  phone value =
      let digits = trim_prefix (select is_digit value) (bytes "00") in
      if ltb (length digits) 7 || ltb 15 (length digits) then none else some digits

  abbrev handle : Text → Text → Option Text
  handle channel value =
      let bare = trim_prefix value (bytes "@") in
      let name =
        if text_eq channel (bytes "instagram") || text_eq channel (bytes "x")
        then to_lower bare
        else bare in
      if is_empty name then none else if ltb 255 (length name) then none else some name

  unfoldable pub normalize_import_routing : Text → Text → Option Text
  normalize_import_routing channel raw =
      let value = trim_space raw in
      if text_eq channel (bytes "whatsapp")
      then phone value
      else if text_mem channel (bytes "telegram" ∷ bytes "instagram" ∷ bytes "x" ∷ [])
      then handle channel value
      else none

  abbrev complain : ℕ → Text → Complaint → Progress → Progress
  complain n routing why p = record p { summary = add_error n routing why p.summary }

  -- The channel of a row: its own, or the default; `none` with what is wrong.
  abbrev pub row_channel : Text → Row → Outcome Complaint Text
  row_channel default_channel row =
      if not (is_empty (trim_space row.channel))
      then elim (normalize_import_channel row.channel) [
        | none ↦ err unknown_channel
        | some channel ↦ ok channel
      ]
      else if is_empty default_channel
      then err no_channel
      else ok default_channel

  abbrev pub row_consent : Option EventType → Row → Option (Option EventType)
  row_consent default_consent row =
      if not (is_empty (trim_space row.consent))
      then parse_import_consent row.consent
      else some default_consent

  abbrev pub row_key : Text → Text → Text
  row_key channel routing = channel ++ (bytes "|" ++ routing)

  abbrev pub keep_row : ℕ → Row → Text → Text → Option EventType → Progress → Progress
  keep_row n row channel routing consent p =
      if text_mem (row_key channel routing) p.seen
      then record p { summary = record p.summary { duplicates = suc p.summary.duplicates } }
      else record p {
        seen = row_key channel routing ∷ p.seen;
        prepared =
            (record {
              number = n;
              first_name = or_else (trim_space row.first_name) routing;
              last_name = trim_space row.last_name;
              channel = channel;
              routing = routing;
              consent = consent;
              known_as = none;
            })
            ∷ p.prepared;
      }

  -- What a row says: the channel, the routing value and the consent, or the complaint and the
  -- routing value that it shows.
  abbrev pub read_row :
      Text → Option EventType → Row → Outcome (Text × Complaint) (Text × Text × Option EventType)
  read_row default_channel default_consent row = elim (row_channel default_channel row) [
    | err why ↦ err (row.routing_value, why)
    | ok channel ↦ elim (normalize_import_routing channel row.routing_value) [
      | none ↦ err (row.routing_value, bad_routing)
      | some routing ↦ elim (row_consent default_consent row) [
        | none ↦ err (routing, bad_consent)
        | some consent ↦ ok (channel, routing, consent)
      ]
    ]
  ]

  abbrev pub enter_row :
      ℕ → Row → Outcome (Text × Complaint) (Text × Text × Option EventType) → Progress → Progress
  enter_row n row (err (routing, why)) p = complain n routing why p
  enter_row n row (ok (channel, routing, consent)) p = keep_row n row channel routing consent p

  -- The body of the first loop.
  unfoldable pub prepare_row : Text → Option EventType → ℕ → Row → Progress → Progress
  prepare_row default_channel default_consent n row p =
      enter_row n row (read_row default_channel default_consent row) p

  unfoldable pub prepare_rows : Text → Option EventType → ℕ → List Row → Progress → Progress
  prepare_rows channel consent n [] p = p
  prepare_rows channel consent n (row ∷ rows) p =
      prepare_rows channel consent (suc n) rows (prepare_row channel consent n row p)
