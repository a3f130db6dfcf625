-- ===== src/Contact/Erasure.antt =====
-- What the erasure of a recipient leaves of the row.
use omnipulse_backend.Base.{
  ℕ, ◌+◌, Text, bytes, Unicode, trim_space, false, some, none, List, [], ◌∷◌, ◌++◌, map, All,
  is_empty, Bool-cases, Option-cases, Option, ◌≡◌, refl, sym, subst, ◌⊎◌, inl, inr, arith,
  if◌then◌else◌,
}
use omnipulse_backend.Base.State.{Outcome-cases}
use omnipulse_backend.Contact.Types.{opted_out, Contact}
use omnipulse_backend.Contact.Consent.{revoked, ConsentEvent}
use omnipulse_backend.Contact.Store.{
  Store, M, ok, attempt, query, first, is_row, anonymize, anonymized, apply_event, project_row,
}
use omnipulse_backend.Contact.Directory.{delete_recipient, erasure_event, anonymized_retention}
use omnipulse_backend.Contact.Honoured.{stored, apply_event-cases}

-- The row of a recipient who was Erased: out of every audience, and not to be reached.
abbrev pub Erased : Text → Text → Contact → Type 0
Erased tenant id d =
    (is_row tenant id d ≡ false)
    ⊎ ((d.status ≡ opted_out)
        × (d.first_name ≡ bytes "Redacted recipient")
        × (d.last_name ≡ [])
        × (d.routing_value ≡ bytes "redacted-" ++ d.id))

map-Erased :
    (tenant id : Text) (now after : ℕ) (cons : List Contact)
    → All
        (Erased tenant id)
        (map (λ d. if is_row tenant id d then anonymized now after d else d) cons)
map-Erased tenant id now after [] = tt
map-Erased tenant id now after (c ∷ cons) = (ground arith, map-Erased tenant id now after cons)

anonymize-Erased :
    (tenant id : Text) (after : ℕ) (s : Store) (c : Contact)
    → (anonymize tenant id after s).0 ≡ ok c
    → All (Erased tenant id) (anonymize tenant id after s).1.contacts
unfolding anonymize query
anonymize-Erased tenant id after s c h = elim (Option-cases (first (is_row tenant id) s.contacts)) [
  | inl gone ↦ ground arith
  | inr (d, found) ↦ ground (arith, map-Erased tenant id s.now after s.contacts)
]

project-Erased :
    (tenant id : Text) (e : ConsentEvent) (events : List ConsentEvent) (cons : List Contact)
    → e.event_type ≡ revoked
    → All (Erased tenant id) cons
    → All (Erased tenant id) (map (project_row e events) cons)
project-Erased tenant id e events [] r h = tt
project-Erased tenant id e events (c ∷ cons) r h =
    (ground (arith, h.0), project-Erased tenant id e events cons r h.1)

apply-Erased :
    (tenant id : Text) (e : ConsentEvent) (s : Store)
    → e.event_type ≡ revoked
    → All (Erased tenant id) s.contacts
    → All (Erased tenant id) (apply_event e s).1.contacts
apply-Erased tenant id e s r h = elim (apply_event-cases e s) [
  | inl (c, v, d, n) ↦ subst (λ (cons : List Contact). All (Erased tenant id) cons) (sym c) h
  | inr (known, c, v, d, n) ↦
      subst (λ (cons : List Contact). All (Erased tenant id) cons) (sym c)
        (project-Erased tenant id (stored e s) (stored e s ∷ s.events) s.contacts r h)
]

attempt-total :
    {A : Type 0} (m : M A) (s : Store) → (r : Option A) × (attempt m s ≡ (ok r, (m s).1))
attempt-total m s = elim (Outcome-cases (m s).0) [
  | inl (a, e) ↦ (some a, ground arith)
  | inr (x, e) ↦ (none, ground arith)
]

-- An erasure that is confirmed has blanked the recipient's row: its first name and address are
-- replaced, its last name is empty and it is opted out, whether or not the revocation could then be
-- written to the ledger.
pub delete_recipient-Erased :
    ⦃uni : Unicode⦄ (tenant id : Text) (s : Store) (c : Contact)
    → (delete_recipient tenant id s).0 ≡ ok c
    → All (Erased tenant id) (delete_recipient tenant id s).1.contacts
unfolding delete_recipient
delete_recipient-Erased tenant id s c h =
    let after = s.now + anonymized_retention in
    let t = (anonymize tenant id after s).1 in
    elim (Bool-cases (is_empty (trim_space id))) [
      | inl blank ↦ ground arith
      | inr given ↦ elim (Outcome-cases (anonymize tenant id after s).0) [
        | inr (x, e) ↦ ground arith
        | inl (d, e) ↦
            let event = erasure_event tenant d in
            let gone : All (Erased tenant id) (apply_event event t).1.contacts =
              apply-Erased tenant id event t refl (anonymize-Erased tenant id after s d e) in
            let (r, tried) = attempt-total (apply_event event) t in
            let last : (delete_recipient tenant id s).1.contacts
                ≡ (apply_event event t).1.contacts =
              ground (arith, tried) in
            subst (λ (cons : List Contact). All (Erased tenant id) cons) (sym last) gone
      ]
    ]
