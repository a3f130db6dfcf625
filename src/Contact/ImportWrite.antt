-- ===== src/Contact/ImportWrite.antt =====
-- The rest of `ImportContacts` of apps/api-gateway/internal/usecase/contact_usecase.go: every
-- recipient is looked up, the plan's limit is enforced, and the rows are written one by one.
use omnipulse_backend.Base.{
  ℕ, suc, ◌+◌, ℤ, pos, minus_one, leb_ℤ, eq_ℤ, Text, bytes, Unicode, trim_space, Bool, true, false,
  Option, none, some, List, [], ◌∷◌, ◌&&◌, not, ltb, is_empty, length, tally, reverse,
  if◌then◌else◌,
}
use omnipulse_backend.Base.State.{Outcome, outcome_of}
use omnipulse_backend.Contact.Types.{active, is_opted_out, Contact}
use omnipulse_backend.Contact.Consent.{EventType, granted, revoked, csv_import, ConsentEvent}
use omnipulse_backend.Contact.Store.{
  Error, not_found, over_capacity, missing_tenant, no_rows, too_many_rows, bad_default_channel,
  bad_default_consent, M, ok, err, pure, raise, ◌>>=◌, ◌>>◌, raise_if, attempt,
  get_by_routing_value, create_contact, count_contacts, apply_event,
}
use omnipulse_backend.Contact.Import.{
  Row, Request, Prepared, Summary, not_checked, previously_opted_out, not_saved,
  consent_not_recorded, add_error, parse_import_consent, normalize_import_channel, prepare_rows,
}

abbrev pub is_not_found : Error → Bool
is_not_found not_found = true
is_not_found _ = false

-- What the lookup of one row leaves: the row with what was found, or the complaint.
abbrev pub looked_up :
    Prepared → Outcome Error Contact → List Prepared × Summary → List Prepared × Summary
looked_up row (ok c) (rows, s) = (record row { known_as = some c } ∷ rows, s)
looked_up row (err e) (rows, s) =
    if is_not_found e
    then (row ∷ rows, s)
    else (rows, add_error row.number row.routing not_checked s)

-- The loop of lookups, which collects the rows that remain, last first.
unfoldable pub lookup_rows :
    Text → List Prepared → List Prepared × Summary → M (List Prepared × Summary)
lookup_rows tenant [] acc = pure acc
lookup_rows tenant (row ∷ rows) acc = do
  found ← outcome_of (get_by_routing_value tenant row.channel row.routing)
  lookup_rows tenant rows (looked_up row found acc)

abbrev pub is_new : Prepared → Bool
is_new row = elim row.known_as [ none ↦ true | some c ↦ false ]

abbrev or_nothing : Option ℕ → ℕ
or_nothing none = 0
or_nothing (some n) = n

-- The plan's limit, against what is in use and what is new; a count that fails is taken as 0.
unfoldable pub check_import_quota : Option ℤ → Text → List Prepared → M (Unit {0})
check_import_quota none tenant rows = pure tt
check_import_quota (some limit) tenant rows = do
  total ← attempt (count_contacts tenant)
  raise_if (not (leb_ℤ (pos (or_nothing total + tally is_new rows)) limit)) over_capacity

-- A plan without a limit is not checked.
abbrev pub limited : Option ℤ → Option ℤ
limited none = none
limited (some limit) = if eq_ℤ limit minus_one then none else some limit

abbrev is_granted : Option EventType → Bool
is_granted none = false
is_granted (some granted) = true
is_granted (some revoked) = false

-- "An opt-out is only reversible by the recipient."
abbrev pub is_refused : Prepared → Bool
is_refused row = elim row.known_as [
  | none ↦ false
  | some c ↦ is_opted_out c.status && is_granted row.consent
]

abbrev pub count_row : Prepared → Summary → Summary
count_row row s =
    if is_new row
    then record s { created = suc s.created }
    else record s { existing = suc s.existing }

abbrev pub count_consent : Option EventType → Summary → Summary
count_consent none s = record s { no_consent = suc s.no_consent }
count_consent (some granted) s = record s { consent_granted = suc s.consent_granted }
count_consent (some revoked) s = record s { consent_revoked = suc s.consent_revoked }

abbrev pub consent_event : Text → Text → Prepared → EventType → ConsentEvent
consent_event tenant contact row t = record {
  tenant_id = tenant;
  contact_id = contact;
  event_type = t;
  source = csv_import;
  channel = row.channel;
  occurred_at = none;
  idempotency_key = [];
}

abbrev pub new_contact : Text → Prepared → Contact
new_contact tenant row = record {
  id = [];
  tenant_id = tenant;
  first_name = row.first_name;
  last_name = row.last_name;
  channel = row.channel;
  routing_value = row.routing;
  source = bytes "csv_import";
  status = active;
  anonymized_at = none;
  delete_after_at = none;
}

-- The consent of a row that was saved, under the contact's id.
unfoldable pub record_consent : Text → Text → Prepared → Summary → M Summary
record_consent tenant contact row s = elim row.consent [
  | none ↦ pure (count_consent none s)
  | some t ↦ do
    written ← attempt (apply_event (consent_event tenant contact row t))
    pure (elim written [
      | none ↦ add_error row.number row.routing consent_not_recorded s
      | some applied ↦ count_consent (some t) s
    ])
]

-- The body of the last loop.
unfoldable pub write_row : Text → Prepared → Summary → M Summary
write_row tenant row s =
    let save : M Summary = (do
      saved ← attempt (create_contact (new_contact tenant row))
      elim saved [
        | none ↦ pure (add_error row.number row.routing not_saved s)
        | some id ↦ record_consent tenant id row (count_row row s)
      ]) in
    if is_refused row then pure (add_error row.number row.routing previously_opted_out s) else save

unfoldable pub write_rows : Text → List Prepared → Summary → M Summary
write_rows tenant [] s = pure s
write_rows tenant (row ∷ rows) s = do t ← write_row tenant row s; write_rows tenant rows t

abbrev pub empty_summary : ℕ → Summary
empty_summary n = record {
  total = n;
  created = 0;
  existing = 0;
  duplicates = 0;
  invalid = 0;
  consent_granted = 0;
  consent_revoked = 0;
  no_consent = 0;
  errors = [];
  truncated_errors = false;
}

abbrev pub finish : Summary → Summary
finish s = record s { truncated_errors = ltb (length s.errors) s.invalid }

-- `ContactImportMaxRows`
abbrev pub max_rows : ℕ
max_rows = 1000

module _ ⦃uni : Unicode⦄ where
  abbrev pub default_channel_of : Text → Option Text
  default_channel_of raw =
      if is_empty (trim_space raw) then some [] else normalize_import_channel raw

  -- The loops, for defaults that are understood.
  unfoldable pub import_rows : Option ℤ → Text → Text → Option EventType → List Row → M Summary
  import_rows capacity tenant channel consent rows = do
    let p =
        prepare_rows channel consent 1 rows
          (record { prepared = []; seen = []; summary = empty_summary (length rows) })
    found ← lookup_rows tenant (reverse p.prepared) ([], p.summary)
    check_import_quota (limited capacity) tenant (reverse found.0)
    s ← write_rows tenant (reverse found.0) found.1
    pure (finish s)

  unfoldable pub import_contacts : Option ℤ → Text → Request → M Summary
  import_contacts capacity tenant req = do
    raise_if (is_empty (trim_space tenant)) missing_tenant
    raise_if (is_empty req.rows) no_rows
    raise_if (ltb max_rows (length req.rows)) too_many_rows
    elim (default_channel_of req.default_channel) [
      | none ↦ raise bad_default_channel
      | some channel ↦ elim (parse_import_consent req.default_consent) [
        | none ↦ raise bad_default_consent
        | some consent ↦ import_rows capacity tenant channel consent req.rows
      ]
    ]
