-- ===== src/Campaign/Skipped.antt =====
-- The contacts that a dispatch skips since they never started a chat: the list of their ids that
-- the dispatch looks up, against the test that the preflight counts.
use omnipulse_backend.Base.{
  ℕ, ◌+◌, ◌-◌, Text, text_eq, text_eq_refl, text_eq_comm, text_mem, Bool, false, not, ◌&&◌, List,
  [], ◌∷◌, map, select, tally, All, is_empty, ltb, ◌≡◌, refl, inl, inr, Bool-cases, arith, ◌∙◌,
  if◌then◌else◌, ap,
}
use omnipulse_backend.Contact.Types.{Contact, is_active}
use omnipulse_backend.Campaign.Audience.{Workspace, passes, in_audience, is_unstarted}
use omnipulse_backend.Campaign.Dispatch.{wants_selected, wants_channel}

abbrev ids_of : List Contact → List Text
ids_of cons = map (λ (c : Contact). c.id) cons

abbrev Unused : Text → List Contact → Type 0
Unused i cons = All (λ (c : Contact). text_eq c.id i ≡ false) cons

-- The primary key of the table of contacts: no two rows have one id.
abbrev pub DistinctIds : List Contact → Type 0
DistinctIds [] = Unit
DistinctIds (c ∷ cons) = Unused c.id cons × DistinctIds cons

Unused-absent :
    (u : Contact → Bool) (i : Text) (cons : List Contact)
    → Unused i cons
    → text_mem i (ids_of (select u cons)) ≡ false
Unused-absent u i [] h = refl
Unused-absent u i (c ∷ cons) h = ground (arith, Unused-absent u i cons h.1)

-- Membership in the list of ids, for the contacts of a list that do not have the id `i`.
other_id :
    (i : Text) (old new : List Text) (u : Contact → Bool) (cons : List Contact)
    → ((j : Text) → text_eq i j ≡ false → text_mem j new ≡ text_mem j old)
    → Unused i cons
    → All (λ (c : Contact). text_mem c.id old ≡ u c) cons
    → All (λ (c : Contact). text_mem c.id new ≡ u c) cons
other_id i old new u [] same h k = tt
other_id i old new u (c ∷ cons) same h k =
    (same c.id (text_eq_comm i c.id ∙ h.0) ∙ k.0, other_id i old new u cons same h.1 k.1)

head_skipped :
    (u : Contact → Bool) (c : Contact) (cons : List Contact) (j : Text)
    → text_eq c.id j ≡ false
    → text_mem j (ids_of (select u (c ∷ cons))) ≡ text_mem j (ids_of (select u cons))
head_skipped u c cons j h = ground arith

-- Where the ids differ, a contact's id is among those of the selected contacts exactly when the
-- contact itself is selected.
listed-selected :
    (u : Contact → Bool) (cons : List Contact)
    → DistinctIds cons
    → All (λ (c : Contact). text_mem c.id (ids_of (select u cons)) ≡ u c) cons
listed-selected u [] h = tt
listed-selected u (c ∷ cons) h = (
  ground (arith, Unused-absent u c.id cons h.0, text_eq_refl c.id),
  other_id c.id (ids_of (select u cons)) (ids_of (select u (c ∷ cons))) u cons
      (head_skipped u c cons) h.0 (listed-selected u cons h.1),
)

-- The arithmetic of the preflight on one list: those active, less those active but not started.
split-tally :
    (w : Workspace) (ids channels skipped : List Text) (wanted : Contact → Bool)
    (cons : List Contact)
    → All
        (λ (c : Contact).
          wanted c
          ≡ (is_active c.status && in_audience ids channels c) && not (text_mem c.id skipped))
        cons
    → All
        (λ (c : Contact).
          (is_active c.status && in_audience ids channels c && text_mem c.id skipped)
          ≡ (is_unstarted w c && in_audience ids channels c))
        cons
    → tally wanted cons + tally (λ c. is_unstarted w c && in_audience ids channels c) cons
      ≡ tally (λ c. is_active c.status && in_audience ids channels c) cons
split-tally w ids channels skipped wanted [] h k = refl
split-tally w ids channels skipped wanted (c ∷ cons) h k =
    ground (arith, split-tally w ids channels skipped wanted cons h.1 k.1)

-- The test of the loop that a dispatch runs over the contacts.
abbrev pub wants : List Text → List Text → List Text → Contact → Bool
wants [] channels skipped = wants_channel channels skipped
wants (i ∷ ids) channels skipped = wants_selected (i ∷ ids) channels skipped

wants_lem :
    (ids channels skipped : List Text) (c : Contact)
    → is_empty ids && is_empty channels ≡ false
    → wants ids channels skipped c
      ≡ (is_active c.status && in_audience ids channels c) && not (text_mem c.id skipped)
wants_lem [] channels skipped c h = ground arith
wants_lem (i ∷ ids) channels skipped c h = ground arith

wants-All :
    (ids channels skipped : List Text) (cons : List Contact)
    → is_empty ids && is_empty channels ≡ false
    → All
        (λ (c : Contact).
          wants ids channels skipped c
          ≡ (is_active c.status && in_audience ids channels c) && not (text_mem c.id skipped))
        cons
wants-All ids channels skipped [] h = tt
wants-All ids channels skipped (c ∷ cons) h =
    (wants_lem ids channels skipped c h, wants-All ids channels skipped cons h)

-- The ids that ListUnstartedTelegramContactIDs returns.
abbrev pub unstarted_ids : Workspace → List Text → List Text
unstarted_ids w ids =
    map (λ (c : Contact). c.id) (select (λ c. is_unstarted w c && passes ids c.id) w.contacts)

listed-All :
    (w : Workspace) (ids channels listed : List Text) (cons : List Contact)
    → All (λ (c : Contact). text_mem c.id listed ≡ is_unstarted w c && passes ids c.id) cons
    → All
        (λ (c : Contact).
          (is_active c.status && in_audience ids channels c && text_mem c.id listed)
          ≡ (is_unstarted w c && in_audience ids channels c))
        cons
listed-All w ids channels listed [] h = tt
listed-All w ids channels listed (c ∷ cons) h =
    (ground (arith, h.0), listed-All w ids channels listed cons h.1)

none-All :
    (w : Workspace) (ids channels : List Text) (cons : List Contact)
    → tally (λ c. is_unstarted w c && in_audience ids channels c) cons ≡ 0
    → All
        (λ (c : Contact).
          (is_active c.status && in_audience ids channels c && text_mem c.id [])
          ≡ (is_unstarted w c && in_audience ids channels c))
        cons
none-All w ids channels [] h = tt
none-All w ids channels (c ∷ cons) h = (ground arith, none-All w ids channels cons (ground arith))

-- The contacts that a dispatch skips: those on the list, which is looked up only if the count says
-- that there are any.
abbrev pub skipped_ids : Workspace → List Text → List Text → List Text
skipped_ids w ids channels =
    if ltb 0 (tally (λ c. is_unstarted w c && in_audience ids channels c) w.contacts)
    then unstarted_ids w ids
    else []

ltb_zero : (n : ℕ) → ltb 0 n ≡ false → n ≡ 0
ltb_zero n h = ground arith

-- How many contacts the loop of a dispatch publishes to, by the two counts of a preflight.
pub wants-tally :
    (w : Workspace) (ids channels : List Text)
    → DistinctIds w.contacts
    → is_empty ids && is_empty channels ≡ false
    → tally (wants ids channels (skipped_ids w ids channels)) w.contacts
      ≡ tally (λ c. is_active c.status && in_audience ids channels c) w.contacts
        - tally (λ c. is_unstarted w c && in_audience ids channels c) w.contacts
wants-tally w ids channels distinct some_audience =
    let unstarted = tally (λ c. is_unstarted w c && in_audience ids channels c) w.contacts in
    let finish : (listed : List Text)
        → skipped_ids w ids channels ≡ listed
        → All
            (λ (c : Contact).
              (is_active c.status && in_audience ids channels c && text_mem c.id listed)
              ≡ (is_unstarted w c && in_audience ids channels c))
            w.contacts
        → tally (wants ids channels (skipped_ids w ids channels)) w.contacts
          ≡ tally (λ c. is_active c.status && in_audience ids channels c) w.contacts - unstarted =
      λ listed e k. omega (
        arith,
        split-tally w ids channels listed (wants ids channels listed) w.contacts
            (wants-All ids channels listed w.contacts some_audience) k,
        ap (λ (l : List Text). tally (wants ids channels l) w.contacts) e,
      ) in
    let choose : Bool → List Text = λ b. if b then unstarted_ids w ids else [] in
    elim (Bool-cases (ltb 0 unstarted)) [
      | inl some_skipped ↦ finish (unstarted_ids w ids) (ap choose some_skipped) (
          listed-All w ids channels (unstarted_ids w ids) w.contacts
            (listed-selected (λ c. is_unstarted w c && passes ids c.id) w.contacts distinct))
      | inr none_skipped ↦
          finish [] (ap choose none_skipped)
            (none-All w ids channels w.contacts (ltb_zero unstarted none_skipped))
    ]
