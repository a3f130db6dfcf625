-- ===== src/Contact/Honoured.antt =====
-- Who revoked consent last is not active: applying an event of the ledger and creating a contact
-- keep this, whatever fails.
use omnipulse_backend.Base.{
  ℕ, suc, ◌≤◌, ◌<◌, Text, text_eq, text_eq_iff, Bool, true, false, Option, none, some, Option-cases,
  Bool-cases, List, [], ◌∷◌, ◌++◌, map, any, All, All-append, ◌≡◌, ◌∙◌, sym, subst, ◌⊎◌, inl, inr,
  arith,
}
use omnipulse_backend.Contact.Types.{opted_out, Contact}
use omnipulse_backend.Contact.Consent.{revoked, same_event, ConsentEvent}
use omnipulse_backend.Contact.Store.{
  Store, latest_event, project_row, replayed, apply_event, query, create_contact, inserted, has_key,
  first, dated,
}

abbrev revoked_last : Option ConsentEvent → Bool
revoked_last none = false
revoked_last (some e) = same_event e.event_type revoked

-- A contact whose latest event is a revocation is opted out.
abbrev pub IsHonoured : List ConsentEvent → Contact → Type 0
IsHonoured events c = (revoked_last (latest_event c.id events) ≡ false) ⊎ (c.status ≡ opted_out)

-- No event is recorded for a contact in the name of a workspace that is not the contact's.
abbrev pub Own : ConsentEvent → Contact → Type 0
Own e c = (text_eq e.contact_id c.id ≡ false) ⊎ (text_eq c.tenant_id e.tenant_id ≡ true)

-- The ids that are still to be drawn are not in use.
abbrev pub Unused : Store → Type 0
Unused s =
    (n : ℕ)
    → s.drawn ≤ n
    → All (λ (c : Contact). text_eq c.id (s.draws n) ≡ false) s.contacts
      × (latest_event (s.draws n) s.events ≡ none)

abbrev pub Honoured : Store → Type 0
Honoured s = All (IsHonoured s.events) s.contacts

project-IsHonoured :
    (e : ConsentEvent) (events : List ConsentEvent) (c : Contact)
    → Own e c
    → IsHonoured events c
    → IsHonoured (e ∷ events) (project_row e (e ∷ events) c)
unfolding latest_event
project-IsHonoured e events c owned h = elim (Option-cases (latest_event c.id events)) [
  | inl gone ↦ ground (arith, text_eq_iff e.contact_id c.id, text_eq_iff c.id e.contact_id)
  | inr (f, found) ↦ ground (arith, text_eq_iff e.contact_id c.id, text_eq_iff c.id e.contact_id)
]

map-IsHonoured :
    (e : ConsentEvent) (events : List ConsentEvent) (cons : List Contact)
    → All (Own e) cons
    → All (IsHonoured events) cons
    → All (IsHonoured (e ∷ events)) (map (project_row e (e ∷ events)) cons)
map-IsHonoured e events [] o h = tt
map-IsHonoured e events (c ∷ cons) o h =
    (project-IsHonoured e events c o.0 h.0, map-IsHonoured e events cons o.1 h.1)

-- The tables are as they were.
abbrev pub Same : Store → Store → Type 0
Same s t =
    (t.contacts ≡ s.contacts) × (t.events ≡ s.events) × (t.draws ≡ s.draws) × (t.drawn ≡ s.drawn)

-- What the two invariants are about.
abbrev pub Sound : Store → Type 0
Sound s = Honoured s × Unused s

Sound-Same : (s t : Store) → Same s t → Sound s → Sound t
Sound-Same s t (c, e, d, n) h =
    subst
      (λ (cons : List Contact).
        All (IsHonoured t.events) cons
        × ((m : ℕ)
            → t.drawn ≤ m
            → All (λ (x : Contact). text_eq x.id (t.draws m) ≡ false) cons
              × (latest_event (t.draws m) t.events ≡ none)))
      (sym c)
      (subst
        (λ (es : List ConsentEvent).
          All (IsHonoured es) s.contacts
          × ((m : ℕ)
              → t.drawn ≤ m
              → All (λ (x : Contact). text_eq x.id (t.draws m) ≡ false) s.contacts
                × (latest_event (t.draws m) es ≡ none)))
        (sym e)
        (
          h.0,
          λ m le.
              subst
                (λ (draws : ℕ → Text).
                  All (λ (x : Contact). text_eq x.id (draws m) ≡ false) s.contacts
                  × (latest_event (draws m) s.events ≡ none))
                (sym d) (h.1 m (rw (← n) le)),
        ))

-- The event as the ledger stores it.
abbrev pub stored : ConsentEvent → Store → ConsentEvent
stored e s = record e { occurred_at = some (dated s.now e.occurred_at) }

-- An event is applied to a row of the table, or nothing changes.
abbrev pub Applied : ConsentEvent → Store → Store → Type 0
Applied e s t =
    (any (λ c. text_eq c.id e.contact_id) s.contacts ≡ true)
    × (t.contacts ≡ map (project_row (stored e s) (stored e s ∷ s.events)) s.contacts)
    × (t.events ≡ stored e s ∷ s.events)
    × (t.draws ≡ s.draws)
    × (t.drawn ≡ s.drawn)

pub apply_event-cases :
    (e : ConsentEvent) (s : Store) → Same s (apply_event e s).1 ⊎ Applied e s (apply_event e s).1
unfolding apply_event query
apply_event-cases e s = elim (Bool-cases (replayed e s.events)) [
  | inl again ↦ inl (ground arith, ground arith, ground arith, ground arith)
  | inr new ↦ elim (Bool-cases (any (λ c. text_eq c.id e.contact_id) s.contacts)) [
    | inr absent ↦ inl (ground arith, ground arith, ground arith, ground arith)
    | inl known ↦ ground arith
  ]
]

absent-id :
    (e : ConsentEvent) (i : Text) (cons : List Contact)
    → any (λ c. text_eq c.id e.contact_id) cons ≡ true
    → All (λ (x : Contact). text_eq x.id i ≡ false) cons
    → text_eq e.contact_id i ≡ false
absent-id e i [] h k = ground arith
absent-id e i (c ∷ cons) h k = elim (Bool-cases (text_eq c.id e.contact_id)) [
  | inl same ↦ ground (arith, text_eq_iff c.id e.contact_id, k.0)
  | inr other ↦ absent-id e i cons (ground arith) k.1
]

map-ids :
    (e : ConsentEvent) (events : List ConsentEvent) (i : Text) (cons : List Contact)
    → All (λ (x : Contact). text_eq x.id i ≡ false) cons
    → All (λ (x : Contact). text_eq x.id i ≡ false) (map (project_row e events) cons)
map-ids e events i [] h = tt
map-ids e events i (c ∷ cons) h = (ground (arith, h.0), map-ids e events i cons h.1)

latest-other :
    (e : ConsentEvent) (i : Text) (events : List ConsentEvent)
    → text_eq e.contact_id i ≡ false
    → latest_event i (e ∷ events) ≡ latest_event i events
unfolding latest_event
latest-other e i events h = ground arith

-- Applying an event keeps both invariants, whatever fails, for an event in the name of the
-- workspace of its contact: the latest decision of a recipient is respected, also where events
-- arrive late or again.
pub apply_event-Sound :
    (e : ConsentEvent) (s : Store) → All (Own e) s.contacts → Sound s → Sound (apply_event e s).1
apply_event-Sound e s owned (h, unused) =
    let t = (apply_event e s).1 in
    let es = stored e s ∷ s.events in
    elim (apply_event-cases e s) [
      | inl same ↦ Sound-Same s t same (h, unused)
      | inr (known, c, v, d, n) ↦
          let mid = record s {
            contacts = map (project_row (stored e s) es) s.contacts;
            events = es;
          } in
          Sound-Same mid t (c, v, d, n)
            (
              map-IsHonoured (stored e s) s.events s.contacts owned h,
              λ m le. (
                map-ids (stored e s) es (s.draws m) s.contacts (unused m le).0,
                latest-other (stored e s) (s.draws m) s.events
                      (absent-id e (s.draws m) s.contacts known (unused m le).0)
                    ∙ (unused m le).1,
              ),
            )
    ]

-- The database draws no id twice.
abbrev pub DistinctDraws : Store → Type 0
DistinctDraws s = (m n : ℕ) → m < n → text_eq (s.draws m) (s.draws n) ≡ false

abbrev pub Created : Contact → Store → Store → Type 0
Created c s t =
    (t.contacts ≡ s.contacts ++ inserted c s ∷ [])
    × (t.events ≡ s.events)
    × (t.draws ≡ s.draws)
    × (t.drawn ≡ suc s.drawn)

create_contact-cases :
    (c : Contact) (s : Store) → Same s (create_contact c s).1 ⊎ Created c s (create_contact c s).1
unfolding create_contact query
create_contact-cases c s =
    elim (Option-cases (first (has_key c.tenant_id c.channel c.routing_value) s.contacts)) [
      | inl new ↦ ground arith
      | inr (old, found) ↦ inl (ground arith, ground arith, ground arith, ground arith)
    ]

pub create_contact-Sound :
    (c : Contact) (s : Store) → DistinctDraws s → Sound s → Sound (create_contact c s).1
create_contact-Sound c s distinct (h, unused) =
    let t = (create_contact c s).1 in
    elim (create_contact-cases c s) [
      | inl same ↦ Sound-Same s t same (h, unused)
      | inr (a, v, d, n) ↦
          let fresh : latest_event (s.draws s.drawn) s.events ≡ none =
            (unused s.drawn (omega arith)).1 in
          let mid = record s { contacts = s.contacts ++ inserted c s ∷ []; drawn = suc s.drawn } in
          Sound-Same mid t (a, v, d, n)
            (
              All-append (IsHonoured s.events) s.contacts (inserted c s ∷ []) h
                  (inl (ground (arith, fresh)), tt),
              λ m le. (
                All-append (λ (x : Contact). text_eq x.id (s.draws m) ≡ false) s.contacts
                    (inserted c s ∷ []) (unused m (omega (arith, le))).0
                    (distinct s.drawn m (omega (arith, le)), tt),
                (unused m (omega (arith, le))).1,
              ),
            )
    ]
