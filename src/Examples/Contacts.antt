-- ===== src/Examples/Contacts.antt =====
-- The theorems on contacts and their consent, applied.
use omnipulse_backend.Base.{
  ℕ, ◌+◌, Text, bytes, text_eq, is_ascii, ascii_trim, trim_space, to_lower, trim_prefix, false,
  none, [], ◌∷◌, All, ◌≡◌, refl, inl, inr, arith,
}
use omnipulse_backend.Contact.Consent.{revoked, web_form, ConsentEvent}
use omnipulse_backend.Contact.Store.{
  Store, ok, query, apply_event, create_contact, anonymize, latest_event, get_by_routing_value,
  count_contacts,
}
use omnipulse_backend.Contact.Directory.{delete_recipient}
use omnipulse_backend.Contact.Import.{
  Request, Summary, bad_routing, add_error, parse_import_consent, normalize_import_channel,
  normalize_import_routing, prepare_row, prepare_rows,
}
use omnipulse_backend.Contact.ImportWrite.{
  lookup_rows, check_import_quota, record_consent, write_row, write_rows, import_rows,
  import_contacts,
}
use omnipulse_backend.Contact.Honoured.{
  Sound, DistinctDraws, Unused, apply_event-Sound, create_contact-Sound,
}
use omnipulse_backend.Contact.Erasure.{Erased, delete_recipient-Erased}
use omnipulse_backend.Contact.Tallies.{Accounted, import_contacts-Accounted}
use omnipulse_backend.Examples.World.{plain_unicode, ann, bob, cat}

-- Ids that are numbers, which no contact of the sample has.
abbrev number_id : ℕ → Text
number_id n = (1000 + n) ∷ []

abbrev directory : Store
directory = record {
  contacts = ann ∷ bob ∷ [];
  events = [];
  draws = number_id;
  drawn = 0;
  faults = [];
  now = 100;
}

directory-Unused : Unused directory
unfolding text_eq latest_event
directory-Unused n le = ((ground arith, (ground arith, tt)), refl)

abbrev stop : ConsentEvent
stop = record {
  tenant_id = bytes "acme";
  contact_id = bytes "ann";
  event_type = revoked;
  source = web_form;
  channel = bytes "telegram";
  occurred_at = none;
  idempotency_key = bytes "k";
}

apply_event-Sound_example : Sound (apply_event stop directory).1
unfolding text_eq latest_event
apply_event-Sound_example =
    apply_event-Sound stop directory (inr refl, (inl refl, tt))
      ((inl refl, (inl refl, tt)), directory-Unused)

distinct_ids : DistinctDraws directory
unfolding text_eq
distinct_ids m n lt = ground arith

create_contact-Sound_example : Sound (create_contact cat directory).1
unfolding latest_event
create_contact-Sound_example =
    create_contact-Sound cat directory distinct_ids ((inl refl, (inl refl, tt)), directory-Unused)

delete_recipient-Erased_example :
    All
      (Erased (bytes "acme") (bytes "ann"))
      (delete_recipient (bytes "acme") (bytes "ann") directory).1.contacts
unfolding text_eq delete_recipient anonymize apply_event query trim_space is_ascii ascii_trim
    latest_event
delete_recipient-Erased_example =
    delete_recipient-Erased (bytes "acme") (bytes "ann") directory _ refl

abbrev request : Request
request = record {
  default_channel = bytes "tg";
  default_consent = [];
  rows =
      (record {
        first_name = [];
        last_name = [];
        channel = [];
        routing_value = bytes "@dan";
        consent = bytes "yes";
        consent_note = [];
      })
      ∷ (record {
        first_name = [];
        last_name = [];
        channel = [];
        routing_value = [];
        consent = [];
        consent_note = [];
      })
      ∷ [];
}

abbrev answer : Summary
answer = record {
  total = 2;
  created = 1;
  existing = 0;
  duplicates = 0;
  invalid = 1;
  consent_granted = 1;
  consent_revoked = 0;
  no_consent = 0;
  errors = (record { row = 2; routing = []; complaint = bad_routing }) ∷ [];
  truncated_errors = false;
}

imported : (import_contacts none (bytes "acme") request directory).0 ≡ ok answer
unfolding text_eq import_contacts import_rows parse_import_consent normalize_import_channel
    normalize_import_routing prepare_rows prepare_row add_error lookup_rows check_import_quota
    write_rows write_row record_consent get_by_routing_value create_contact count_contacts
    apply_event query trim_space to_lower is_ascii ascii_trim trim_prefix latest_event
imported = refl

import_contacts-Accounted_example : Accounted 2 answer
import_contacts-Accounted_example =
    import_contacts-Accounted none (bytes "acme") request directory answer imported
