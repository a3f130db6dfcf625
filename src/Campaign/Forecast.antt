-- ===== src/Campaign/Forecast.antt =====
-- What a dispatch publishes, in closed form, and that a preflight reports exactly that.
use omnipulse_backend.Base.{
  ℕ, suc, ◌+◌, ◌-◌, Text, Bool, true, false, not, ◌&&◌, ◌||◌, some, List, [], ◌∷◌, ◌++◌, map,
  length, tally, is_empty, ltb, ◌≡◌, refl, ap, sym, inl, inr, Bool-cases, arith, if◌then◌else◌,
}
use omnipulse_backend.Contact.Types.{Contact, is_active}
use omnipulse_backend.Campaign.Types.{Campaign}
use omnipulse_backend.Campaign.Task.{Task}
use omnipulse_backend.Campaign.Store.{whatsapp_disconnected, ok, err, Store, pure, query, find}
use omnipulse_backend.Campaign.Repo.{get_by_id}
use omnipulse_backend.Campaign.Audience.{
  Workspace, Destination, in_audience, is_unstarted, is_whatsapp, count_audience_consent,
  count_audience_reachability, list_unstarted_telegram_contact_ids, list_by_ids,
}
use omnipulse_backend.Campaign.Dispatch.{
  Json, parse_string_list, whatsapp_ready, destination_task, publish_dispatch_task,
  emit_destination_task, emit_destinations, dispatch_contacts, dispatch_destinations,
  reachability_gates, publish_targets, wants_selected, wants_channel,
}
use omnipulse_backend.Campaign.Quiet.{Outcome-cases}
use omnipulse_backend.Campaign.Approval.{reading, get_by_id-quiet}
use omnipulse_backend.Campaign.Sending.{
  publishing, tasks_of, publishing_nil, publishing_twice, dispatch_pages-quiet,
}
use omnipulse_backend.Campaign.Skipped.{DistinctIds, wants, skipped_ids, wants-tally}
use omnipulse_backend.Campaign.Preflight.{
  Report, audience_report, destinations_report, preflight_audience, preflight_destinations,
  preflight_of, preflight, blank, conclude,
}

-- The number of active WhatsApp contacts in the audience.
abbrev pub whatsapp_targets : Workspace → List Text → List Text → ℕ
whatsapp_targets w ids channels =
    tally (λ c. is_active c.status && (is_whatsapp c && in_audience ids channels c)) w.contacts

-- A dispatch is refused for want of a WhatsApp session.
abbrev pub needs_whatsapp : Workspace → List Text → List Text → Bool
needs_whatsapp w ids channels = ltb 0 (whatsapp_targets w ids channels) && not (whatsapp_ready w)

pub reachability_gates-quiet :
    (w : Workspace) (ids channels : List Text) (s : Store)
    → s.faults ≡ []
    → reachability_gates w ids channels s ≡ (
      if needs_whatsapp w ids channels
          then err whatsapp_disconnected
          else ok (skipped_ids w ids channels),
      s,
    )
unfolding reachability_gates count_audience_reachability list_unstarted_telegram_contact_ids query
reachability_gates-quiet w ids channels s quiet = ground arith

-- The loop over the contacts, all of whose pages are read.
pub dispatch_contacts-quiet :
    (w : Workspace) (c : Campaign) (ids channels skipped : List Text) (s : Store)
    → s.faults ≡ []
    → is_empty ids && is_empty channels ≡ false
    → dispatch_contacts w c ids channels skipped s ≡ (
      ok (tally (wants ids channels skipped) w.contacts),
      publishing s (tasks_of c s.now (wants ids channels skipped) w.contacts),
    )
unfolding dispatch_contacts
dispatch_contacts-quiet w c [] [] skipped s quiet h = ground arith
dispatch_contacts-quiet w c [] (ch ∷ chs) skipped s quiet h =
    dispatch_pages-quiet w c (wants_channel (ch ∷ chs) skipped) (suc (length w.contacts)) 0 s quiet
      (omega arith)
dispatch_contacts-quiet w c (i ∷ ids) channels skipped s quiet h =
    dispatch_pages-quiet w c (wants_selected (i ∷ ids) channels skipped) (suc (length w.contacts)) 0
      s quiet (omega arith)

emit_destination_task-quiet :
    (c : Campaign) (d : Destination) (s : Store)
    → s.faults ≡ []
    → emit_destination_task c d s ≡ (ok tt, publishing s (destination_task c s.now d ∷ []))
unfolding emit_destination_task publish_dispatch_task query
emit_destination_task-quiet c d s quiet = ground arith

emit_destinations-quiet :
    (c : Campaign) (ds : List Destination) (s : Store)
    → s.faults ≡ []
    → emit_destinations c ds s ≡ (ok (length ds), publishing s (map (destination_task c s.now) ds))
unfolding emit_destinations
emit_destinations-quiet c [] s quiet = ap (λ t. (ok 0, t)) (sym (publishing_nil s))
emit_destinations-quiet c (d ∷ ds) s quiet =
    let t = publishing s (destination_task c s.now d ∷ []) in
    ground (
      arith,
      emit_destination_task-quiet c d s quiet,
      emit_destinations-quiet c ds t quiet,
      publishing_twice s (destination_task c s.now d ∷ []) (map (destination_task c s.now) ds),
    )

-- The destinations that a list of ids stands for; an empty list is not looked up.
abbrev pub destinations_of : Workspace → List Text → List Destination
destinations_of w [] = []
destinations_of w (i ∷ ids) = w.destinations_by_ids (i ∷ ids)

dispatch_destinations-quiet :
    (w : Workspace) (c : Campaign) (ids : List Text) (s : Store)
    → s.faults ≡ []
    → dispatch_destinations w c ids s ≡ (
      ok (length (destinations_of w ids)),
      publishing s (map (destination_task c s.now) (destinations_of w ids)),
    )
unfolding dispatch_destinations list_by_ids query
dispatch_destinations-quiet w c [] s quiet = ap (λ t. (ok 0, t)) (sym (publishing_nil s))
dispatch_destinations-quiet w c (i ∷ ids) s quiet =
    ground (arith, emit_destinations-quiet c (w.destinations_by_ids (i ∷ ids)) s quiet)

not-true : {b : Bool} → not b ≡ true → b ≡ false
not-true {b = b} h = ground arith

module _ ⦃json : Json⦄ (w : Workspace) (c : Campaign) where
  abbrev pub channels : List Text
  channels = parse_string_list c.selected_channels

  abbrev pub contacts : List Text
  contacts = parse_string_list c.selected_contact_ids

  abbrev pub destinations : List Destination
  destinations = destinations_of w (parse_string_list c.selected_telegram_destination_ids)

  abbrev pub refused : Bool
  refused = needs_whatsapp w contacts channels

  -- Whether the campaign names contacts or channels.
  abbrev pub has_audience : Bool
  has_audience = not (is_empty contacts && is_empty channels)

  abbrev pub wanted : Contact → Bool
  wanted = wants contacts channels (skipped_ids w contacts channels)

  -- The tasks of a dispatch: those of the contacts, then those of the destinations.
  abbrev pub all_tasks : ℕ → List Task
  all_tasks now = tasks_of c now wanted w.contacts ++ map (destination_task c now) destinations

  abbrev pub all_targets : ℕ
  all_targets = tally wanted w.contacts + length destinations

  -- Without a fault a dispatch is refused before anything is published, or publishes all its tasks.
  pub publish_targets-quiet :
      (s : Store)
      → s.faults ≡ []
      → has_audience ≡ true
      → publish_targets w c s ≡ (
          if refused
          then (err whatsapp_disconnected, s)
          else (ok all_targets, publishing s (all_tasks s.now)))
  unfolding publish_targets
  publish_targets-quiet s quiet h =
      let skipped = skipped_ids w contacts channels in
      let t = publishing s (tasks_of c s.now wanted w.contacts) in
      let ds = map (destination_task c s.now) destinations in
      let gates = reachability_gates-quiet w contacts channels s quiet in
      let loop = dispatch_contacts-quiet w c contacts channels skipped s quiet (not-true h) in
      let sent =
        dispatch_destinations-quiet w c (parse_string_list c.selected_telegram_destination_ids) t
          quiet in
      elim (Bool-cases refused) [
        | inl stops ↦ ground (arith, gates)
        | inr goes ↦
            ground
              (arith, gates, loop, sent, publishing_twice s (tasks_of c s.now wanted w.contacts) ds)
      ]

  abbrev active : ℕ
  active = tally (λ con. is_active con.status && in_audience contacts channels con) w.contacts

  abbrev unstarted : ℕ
  unstarted = tally (λ con. is_unstarted w con && in_audience contacts channels con) w.contacts

  preflight_audience-quiet :
      (s : Store) (p : Report)
      → s.faults ≡ []
      → p.sendable ≡ 0
      → (q : Report) × (preflight_audience w contacts channels p s ≡ (ok q, s))
        × (q.whatsapp_connected ≡ not refused)
        × (q.sendable ≡ active - unstarted)
  unfolding preflight_audience count_audience_consent count_audience_reachability query
  preflight_audience-quiet s p quiet h =
      let counts = (count_audience_consent w contacts channels s).0 in
      elim (Outcome-cases counts) [
        | inr (x, e) ↦ ground arith
        | inl (n, e) ↦ elim (Outcome-cases (count_audience_reachability w contacts channels s).0) [
          | inr (x, f) ↦ ground arith
          | inl (r, f) ↦ (
            audience_report p n r (not (ltb 0 r.whatsapp_active) || whatsapp_ready w),
            ground arith,
            ground arith,
            ground arith,
          )
        ]
      ]

  preflight_destinations-quiet :
      (s : Store) (p : Report) (ids : List Text)
      → s.faults ≡ []
      → (q : Report) × (preflight_destinations w ids p s ≡ (ok q, s))
        × (q.whatsapp_connected ≡ p.whatsapp_connected)
        × (q.sendable ≡ p.sendable + length (w.destinations_by_ids ids))
  unfolding preflight_destinations list_by_ids query
  preflight_destinations-quiet s p ids quiet = (
    destinations_report p (length (w.destinations_by_ids ids)),
    ground arith,
    ground arith,
    ground arith,
  )

  -- The step of a preflight for the destinations, which is left out where none are named.
  pub destinations_step :
      (s : Store) (p : Report)
      → s.faults ≡ []
      → let ids = parse_string_list c.selected_telegram_destination_ids in
        (q : Report) × ((if is_empty ids then pure p else preflight_destinations w ids p) s
          ≡ (ok q, s))
        × (q.whatsapp_connected ≡ p.whatsapp_connected)
        × (q.sendable ≡ p.sendable + length destinations)
  destinations_step s p quiet = go (parse_string_list c.selected_telegram_destination_ids)
    where
      go :
          (ids : List Text)
          → (q : Report) × ((if is_empty ids then pure p else preflight_destinations w ids p) s
              ≡ (ok q, s))
            × (q.whatsapp_connected ≡ p.whatsapp_connected)
            × (q.sendable ≡ p.sendable + length (destinations_of w ids))
      go [] = (p, refl, refl, omega arith)
      go (i ∷ ids) = preflight_destinations-quiet s p (i ∷ ids) quiet

  preflight_of-quiet :
      (s : Store)
      → s.faults ≡ []
      → has_audience ≡ true
      → DistinctIds w.contacts
      → (q : Report) × (preflight_of w c s ≡ (ok q, s))
        × (q.whatsapp_connected ≡ not refused)
        × (q.sendable ≡ all_targets)
  unfolding preflight_of
  preflight_of-quiet s quiet h distinct =
      let (p, ran, connected, counted) = preflight_audience-quiet s (blank c) quiet refl in
      let (q, then_ran, same, more) = destinations_step s p quiet in
      let exact : tally wanted w.contacts ≡ active - unstarted =
        wants-tally w contacts channels distinct (not-true h) in
      (conclude q, ground (arith, ran, then_ran), ground arith, omega (arith, counted, more, exact))

-- A preflight tells what a dispatch would do. For a campaign that names contacts or channels, in a
-- workspace whose contacts have distinct ids, a preflight answers, and changes nothing; the
-- dispatch's publishing step then is refused if the report says that WhatsApp is not connected, and
-- otherwise publishes exactly as many targets as the report calls sendable. (No database statement
-- and no publication fails.)
pub preflight-publish_targets :
    ⦃json : Json⦄ (w : Workspace) (tenant id : Text) (s : Store) (row : Campaign)
    → s.faults ≡ []
    → find tenant id s ≡ some row
    → has_audience w (reading tenant id s row) ≡ true
    → DistinctIds w.contacts
    → (p : Report) × (preflight w tenant id s ≡ (ok p, s))
      × ((publish_targets w (reading tenant id s row) s).0
          ≡ (if p.whatsapp_connected then ok p.sendable else err whatsapp_disconnected))
unfolding preflight
preflight-publish_targets w tenant id s row quiet found h distinct =
    let c = reading tenant id s row in
    let read : get_by_id tenant id s ≡ (ok c, s) = get_by_id-quiet tenant id s row quiet found in
    let (q, ran, connected, exact) = preflight_of-quiet w c s quiet h distinct in
    let sent = publish_targets-quiet w c s quiet h in
    (q, ground (arith, read, ran), ground (arith, sent, connected, exact))
