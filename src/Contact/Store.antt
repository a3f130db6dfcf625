-- ===== src/Contact/Store.antt =====
-- The tables `contacts` and `consent_events`: apps/api-gateway/internal/repository/
-- postgres_contact.go and postgres_consent.go. The events stand newest record first. `draws` are
-- the ids that the database draws for new rows, of which `drawn` are used; `faults` lists which
-- statements fail.
use omnipulse_backend.Base.{
  ℕ, suc, Text, bytes, text_eq, Bool, true, false, Option, none, some, List, [], ◌∷◌, ◌++◌, map,
  ◌&&◌, not, ltb, any, is_empty, tally, if◌then◌else◌,
}
pub use omnipulse_backend.Base.State.{
  ok, err, pure, raise, ◌>>=◌, ◌>>◌, raise_if, get, put, or_zero, attempt,
}
use omnipulse_backend.Base.State.{Action}
use omnipulse_backend.Contact.Types.{ContactStatus, active, opted_out, Contact}
use omnipulse_backend.Contact.Consent.{EventType, granted, revoked, same_event, ConsentEvent}

pub data Error : Type 0 where
  database not_found blank_name unknown_channel blank_routing over_capacity : Error
  missing_tenant no_rows too_many_rows bad_default_channel bad_default_consent blank_id : Error

pub record Store : Type 0 where
  pub contacts : List Contact
  pub events : List ConsentEvent
  pub draws : ℕ → Text
  pub drawn : ℕ
  pub faults : List Bool
  pub now : ℕ

abbrev pub M : Type 0 → Type 0
M A = Action Store Error A

unfoldable pub query : M (Unit {0})
query s = elim s.faults [
  | [] ↦ (ok tt, s)
  | fails ∷ rest ↦ (if fails then err database else ok tt, record s { faults = rest })
]

-- The first row that passes a test.
abbrev pub first {ℓ} : {A : Type ℓ} → (A → Bool) → List A → Option A
first p [] = none
first p (x ∷ xs) = if p x then some x else first p xs

-- `WHERE tenant_id = $1 AND channel = $2 AND routing_value = $3`, the unique key of the table.
abbrev pub has_key : Text → Text → Text → Contact → Bool
has_key tenant channel routing c =
    text_eq c.tenant_id tenant && (text_eq c.channel channel && text_eq c.routing_value routing)

unfoldable pub get_by_routing_value : Text → Text → Text → M Contact
unfolding query
get_by_routing_value tenant channel routing = do
  query
  s ← get
  elim (first (has_key tenant channel routing) s.contacts) [
    | none ↦ raise not_found
    | some c ↦ pure c
  ]

abbrev pub inserted : Contact → Store → Contact
inserted c s = record c { id = s.draws s.drawn; anonymized_at = none; delete_after_at = none }

-- `Create`: on a conflict the row is kept (but for `updated_at`, which is not modelled). Returns
-- the id of the row.
unfoldable pub create_contact : Contact → M Text
unfolding query
create_contact c = do
  query
  s ← get
  elim (first (has_key c.tenant_id c.channel c.routing_value) s.contacts) [
    | some old ↦ pure old.id
    | none ↦ do
      put (record s { contacts = s.contacts ++ inserted c s ∷ []; drawn = suc s.drawn })
      pure (s.draws s.drawn)
  ]

-- The total that ListWithFilter returns for a filter that asks for nothing.
unfoldable pub count_contacts : Text → M ℕ
unfolding query
count_contacts tenant = do query; s ← get; pure (tally (λ c. text_eq c.tenant_id tenant) s.contacts)

abbrev when : Option ℕ → ℕ
when none = 0
when (some t) = t

abbrev pub dated : ℕ → Option ℕ → ℕ
dated now none = now
dated now (some t) = t

abbrev later : Option ConsentEvent → ConsentEvent → ConsentEvent
later none e = e
later (some f) e = if ltb (when e.occurred_at) (when f.occurred_at) then f else e

-- `ORDER BY occurred_at DESC, recorded_at DESC LIMIT 1`
unfoldable pub latest_event : Text → List ConsentEvent → Option ConsentEvent
latest_event id [] = none
latest_event id (e ∷ es) =
    let rest = latest_event id es in if text_eq e.contact_id id then some (later rest e) else rest

abbrev pub status_for : EventType → ContactStatus
status_for granted = active
status_for revoked = opted_out

abbrev is_type : EventType → Option ConsentEvent → Bool
is_type t none = false
is_type t (some e) = same_event e.event_type t

-- The UPDATE that projects an event, by the ledger that holds it.
abbrev pub project_row : ConsentEvent → List ConsentEvent → Contact → Contact
project_row e events c =
    if text_eq c.id e.contact_id
      && (text_eq c.tenant_id e.tenant_id && is_type e.event_type (latest_event c.id events))
    then record c { status = status_for e.event_type }
    else c

-- `ON CONFLICT (tenant_id, idempotency_key)`; an empty key is NULL, which conflicts with nothing.
abbrev pub replayed : ConsentEvent → List ConsentEvent → Bool
replayed e events =
    if is_empty e.idempotency_key
    then false
    else any (λ f. text_eq f.tenant_id e.tenant_id && text_eq f.idempotency_key e.idempotency_key)
        events

abbrev pub applying : ConsentEvent → Store → Store
applying e s =
    let stored = record e { occurred_at = some (dated s.now e.occurred_at) } in
    record s {
      events = stored ∷ s.events;
      contacts = map (project_row stored (stored ∷ s.events)) s.contacts;
    }

-- `ApplyEvent`, one transaction: it begins, inserts, projects and commits, and is rolled back
-- unless all of that succeeds. An event refers to a row of `contacts`. Returns false for a replay.
unfoldable pub apply_event : ConsentEvent → M Bool
unfolding query latest_event
apply_event e = do
  query
  query
  s ← get
  let store : M Bool = (do
    raise_if (not (any (λ c. text_eq c.id e.contact_id) s.contacts)) database
    query
    query
    t ← get
    put (applying e t)
    pure true)
  if replayed e s.events then pure false else store

-- The row after `Anonymize`.
abbrev pub anonymized : ℕ → ℕ → Contact → Contact
anonymized now delete_after c = record c {
  first_name = bytes "Redacted recipient";
  last_name = [];
  routing_value = bytes "redacted-" ++ c.id;
  status = opted_out;
  anonymized_at = some (dated now c.anonymized_at);
  delete_after_at = some (dated delete_after c.delete_after_at);
}

abbrev pub is_row : Text → Text → Contact → Bool
is_row tenant id c = text_eq c.tenant_id tenant && text_eq c.id id

unfoldable pub anonymize : Text → Text → ℕ → M Contact
unfolding query
anonymize tenant id delete_after = do
  query
  s ← get
  elim (first (is_row tenant id) s.contacts) [
    | none ↦ raise not_found
    | some c ↦ do
      put (record s {
        contacts =
            map (λ d. if is_row tenant id d then anonymized s.now delete_after d else d) s.contacts;
      })
      pure (anonymized s.now delete_after c)
  ]
