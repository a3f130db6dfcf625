-- ===== src/Campaign/Sent.antt =====
-- What a dispatch that succeeds leaves behind.
use omnipulse_backend.Base.{
  ℕ, Text, text_eq_refl, Unicode, true, false, some, List, [], ◌++◌, map, length, length-append,
  length-select, select, ◌≡◌, refl, ap, ◌∙◌, inl, inr, Bool-cases, arith, not, is_empty, ◌∷◌, ◌&&◌,
  length-map,
}
use omnipulse_backend.Campaign.Types.{processing, Campaign}
use omnipulse_backend.Campaign.Task.{Task}
use omnipulse_backend.Campaign.Store.{
  whatsapp_disconnected, Result, ok, err, Store, query, find, set_row,
}
use omnipulse_backend.Campaign.Repo.{get_by_id, set_dispatching}
use omnipulse_backend.Campaign.Audience.{Workspace}
use omnipulse_backend.Campaign.Dispatch.{
  Json, contact_task, destination_task, dispatch_guards, publish_targets, trigger_dispatch,
}
use omnipulse_backend.Campaign.Approval.{reading, get_by_id-quiet, get_approval_setting-quiet}
use omnipulse_backend.Campaign.Preflight.{Report, blank, conclude, preflight, preflight_of}
use omnipulse_backend.Campaign.Sending.{publishing, tasks_of}
use omnipulse_backend.Campaign.Forecast.{
  needs_whatsapp, reachability_gates-quiet, destinations_step, channels, contacts, has_audience,
  refused, wanted, destinations, all_tasks, all_targets, publish_targets-quiet,
}

dispatch_guards-quiet :
    ⦃uni : Unicode⦄ (w : Workspace) (role tenant : Text) (c : Campaign) (s : Store)
    → s.faults ≡ []
    → (dispatch_guards w role tenant c s).1 ≡ s
unfolding dispatch_guards
dispatch_guards-quiet w role tenant c s quiet =
    ground (arith, get_approval_setting-quiet tenant s quiet)

-- The row of a campaign that is being sent.
abbrev pub sending : ℕ → Campaign → Campaign
sending n row = record row { status = processing; total_targets = n; processed_targets = 0 }

set_dispatching-quiet :
    (tenant id : Text) (n : ℕ) (s : Store) (row : Campaign)
    → s.faults ≡ []
    → find tenant id s ≡ some row
    → set_dispatching tenant id n s ≡ (ok tt, set_row id (some (sending n row)) s)
unfolding set_dispatching query
set_dispatching-quiet tenant id n s row quiet found = ground arith

set_row-here :
    (id : Text) (row : Campaign) (s : Store) → (set_row id (some row) s).rows id ≡ some row
set_row-here id row s = ground (arith, text_eq_refl id)

find-publishing :
    (tenant id : Text) (s : Store) (ts : List Task)
    → find tenant id (publishing s ts) ≡ find tenant id s
unfolding find
find-publishing tenant id s ts = refl

length-all_tasks :
    ⦃json : Json⦄ (w : Workspace) (c : Campaign) (now : ℕ)
    → length (all_tasks w c now) ≡ all_targets w c
length-all_tasks w c now = omega (
  arith,
  length-append (tasks_of c now (wanted w c) w.contacts)
      (map (destination_task c now) (destinations w c)),
  length-map (contact_task c now) (select (wanted w c) w.contacts),
  length-select (wanted w c) w.contacts,
  length-map (destination_task c now) (destinations w c),
)

-- The store that a successful dispatch leaves.
abbrev pub sent_store : ⦃json : Json⦄ → Workspace → Campaign → Text → Campaign → Store → Store
sent_store w c id row s =
    set_row id (some (sending (all_targets w c) row)) (publishing s (all_tasks w c s.now))

trigger_dispatch-store :
    ⦃uni : Unicode⦄ ⦃json : Json⦄ (w : Workspace) (role tenant id : Text) (s : Store)
    (row : Campaign)
    → s.faults ≡ []
    → find tenant id s ≡ some row
    → has_audience w (reading tenant id s row) ≡ true
    → (trigger_dispatch w role tenant id s).0 ≡ ok tt
    → (trigger_dispatch w role tenant id s).1 ≡ sent_store w (reading tenant id s row) id row s
unfolding trigger_dispatch
trigger_dispatch-store w role tenant id s row quiet found h done =
    let c = reading tenant id s row in
    let t = publishing s (all_tasks w c s.now) in
    let read : get_by_id tenant id s ≡ (ok c, s) = get_by_id-quiet tenant id s row quiet found in
    let guarded : (dispatch_guards w role tenant c s).1 ≡ s =
      dispatch_guards-quiet w role tenant c s quiet in
    let sent = publish_targets-quiet w c s quiet h in
    let marked : set_dispatching tenant id (all_targets w c) t ≡ (ok tt, sent_store w c id row s) =
      set_dispatching-quiet tenant id (all_targets w c) t row quiet
        (find-publishing tenant id s (all_tasks w c s.now) ∙ found) in
    elim (Bool-cases (refused w c)) [
      | inl stops ↦ ground (arith, read, guarded, sent)
      | inr goes ↦ ground (arith, read, guarded, sent, marked)
    ]

-- What a dispatch that succeeds leaves behind, for a campaign that names contacts or channels: the
-- task of each wanted contact and of each destination, once and in order, after what was on the
-- stream; and the campaign in status processing, with their number as its targets, none of them
-- processed. (No database statement and no publication fails.)
pub trigger_dispatch-sent :
    ⦃uni : Unicode⦄ ⦃json : Json⦄ (w : Workspace) (role tenant id : Text) (s : Store)
    (row : Campaign)
    → s.faults ≡ []
    → find tenant id s ≡ some row
    → has_audience w (reading tenant id s row) ≡ true
    → (trigger_dispatch w role tenant id s).0 ≡ ok tt
    → let c = reading tenant id s row in
      let t = (trigger_dispatch w role tenant id s).1 in
      (t.outbox ≡ s.outbox ++ all_tasks w c s.now)
      × (t.rows id ≡ some (sending (all_targets w c) row))
      × (length (all_tasks w c s.now) ≡ all_targets w c)
trigger_dispatch-sent w role tenant id s row quiet found h done =
    let c = reading tenant id s row in
    let e = trigger_dispatch-store w role tenant id s row quiet found h done in
    (
      ap (λ (u : Store). u.outbox) e,
      ap (λ (u : Store). u.rows id) e ∙ set_row-here id (sending (all_targets w c) row) s,
      length-all_tasks w c s.now,
    )

publish_targets-refused :
    ⦃json : Json⦄ (w : Workspace) (c : Campaign) (s : Store)
    → s.faults ≡ []
    → refused w c ≡ true
    → publish_targets w c s ≡ (err whatsapp_disconnected, s)
unfolding publish_targets
publish_targets-refused w c s quiet stops =
    ground (arith, reachability_gates-quiet w (contacts w c) (channels w c) s quiet)

no_audience-refused :
    (w : Workspace) (ids chans : List Text)
    → not (is_empty ids && is_empty chans) ≡ false
    → needs_whatsapp w [] [] ≡ true
    → needs_whatsapp w ids chans ≡ true
no_audience-refused w [] [] h need = need
no_audience-refused w [] (ch ∷ chs) h need = ground arith
no_audience-refused w (i ∷ ids) chans h need = ground arith

preflight_of-destinations :
    ⦃json : Json⦄ (w : Workspace) (c : Campaign) (s : Store)
    → s.faults ≡ []
    → has_audience w c ≡ false
    → (p : Report) × (preflight_of w c s ≡ (ok p, s))
      × (p.whatsapp_connected ≡ true)
      × (p.sendable ≡ length (destinations w c))
unfolding preflight_of
preflight_of-destinations w c s quiet h =
    let (q, ran, same, more) = destinations_step w c s (blank c) quiet in
    (conclude q, ground (arith, ran), ground (arith, same), omega (arith, more))

-- Where a campaign names destinations alone, no contacts and no channels, the two disagree: if the
-- workspace has an active WhatsApp contact, whoever it is, and no WhatsApp session, the dispatch's
-- publishing step is refused for want of one, while a preflight reports every destination as
-- sendable and WhatsApp as connected. (No database statement fails.)
pub destinations_alone-refused :
    ⦃json : Json⦄ (w : Workspace) (tenant id : Text) (s : Store) (row : Campaign)
    → s.faults ≡ []
    → find tenant id s ≡ some row
    → has_audience w (reading tenant id s row) ≡ false
    → needs_whatsapp w [] [] ≡ true
    → ((publish_targets w (reading tenant id s row) s).0 ≡ err whatsapp_disconnected)
      × (p : Report) × (preflight w tenant id s ≡ (ok p, s))
      × (p.whatsapp_connected ≡ true)
      × (p.sendable ≡ length (destinations w (reading tenant id s row)))
unfolding preflight
destinations_alone-refused w tenant id s row quiet found h need =
    let c = reading tenant id s row in
    let read : get_by_id tenant id s ≡ (ok c, s) = get_by_id-quiet tenant id s row quiet found in
    let (p, ran, connected, counted) = preflight_of-destinations w c s quiet h in
    let stops : refused w c ≡ true = no_audience-refused w (contacts w c) (channels w c) h need in
    (
      ap (λ (r : Result ℕ × Store). r.0) (publish_targets-refused w c s quiet stops),
      p,
      ground (arith, read, ran),
      connected,
      counted,
    )
