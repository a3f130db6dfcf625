-- ===== src/Campaign/Quiet.antt =====
-- Actions that leave the table of campaigns as it is, and how actions are put together from them.
use omnipulse_backend.Base.{
  ℕ, zero, suc, Text, Bool, List, [], ◌∷◌, ◌≡◌, refl, arith, inl, inr, ◌+◌,
}
use omnipulse_backend.Contact.Types.{Contact}
use omnipulse_backend.Campaign.Types.{Campaign}
use omnipulse_backend.Campaign.Task.{Task, Delivery}
pub use omnipulse_backend.Base.State.{Outcome-cases}
use omnipulse_backend.Campaign.Store.{Store, M, query}
use omnipulse_backend.Campaign.Repo.{get_by_id, get_approval_setting}
use omnipulse_backend.Campaign.Audience.{
  Workspace, Destination, count_audience_reachability, list_unstarted_telegram_contact_ids,
  list_by_tenant, list_by_ids,
}
use omnipulse_backend.Campaign.Dispatch.{
  publish_dispatch_task, emit_contact_task, emit_destination_task, emit_contacts, dispatch_pages,
  page_size, dispatch_contacts, emit_destinations, dispatch_destinations, reachability_gates,
  publish_targets, Json, parse_string_list,
}
use omnipulse_backend.Campaign.Deliveries.{
  claim_deliveries_for_retry, release_delivery_claims, republish,
}

abbrev pub Quiet : {A : Type 0} → M A → Type 0
Quiet m = (s : Store) → (m s).1.rows ≡ s.rows

pub query-Quiet : Quiet query
unfolding query
query-Quiet s = ground arith

pub get_by_id-Quiet : (tenant id : Text) → Quiet (get_by_id tenant id)
unfolding get_by_id
get_by_id-Quiet tenant id s = ground arith

pub get_approval_setting-Quiet : (tenant : Text) → Quiet (get_approval_setting tenant)
unfolding get_approval_setting
get_approval_setting-Quiet tenant s = ground arith

publish-Quiet : (t : Task) → Quiet (publish_dispatch_task t)
unfolding publish_dispatch_task
publish-Quiet t s = ground arith

emit_contact_task-Quiet : (c : Campaign) (con : Contact) → Quiet (emit_contact_task c con)
unfolding emit_contact_task
emit_contact_task-Quiet c con s = ground arith

emit_destination_task-Quiet : (c : Campaign) (d : Destination) → Quiet (emit_destination_task c d)
unfolding emit_destination_task
emit_destination_task-Quiet c d s = ground arith

emit_contacts-Quiet :
    (c : Campaign) (wanted : Contact → Bool) (cons : List Contact)
    → Quiet (emit_contacts c wanted cons)
unfolding emit_contacts
emit_contacts-Quiet c wanted [] s = refl
emit_contacts-Quiet c wanted (con ∷ rest) s = ground (
  arith,
  emit_contact_task-Quiet c con s,
  emit_contacts-Quiet c wanted rest s,
  emit_contacts-Quiet c wanted rest (emit_contact_task c con s).1,
)

list_by_tenant-Quiet : (w : Workspace) (limit offset : ℕ) → Quiet (list_by_tenant w limit offset)
unfolding list_by_tenant
list_by_tenant-Quiet w limit offset s = ground arith

list_by_ids-Quiet : (w : Workspace) (ids : List Text) → Quiet (list_by_ids w ids)
unfolding list_by_ids
list_by_ids-Quiet w ids s = ground arith

dispatch_pages-Quiet :
    (w : Workspace) (c : Campaign) (wanted : Contact → Bool) (fuel offset : ℕ)
    → Quiet (dispatch_pages w c wanted fuel offset)
unfolding dispatch_pages
dispatch_pages-Quiet w c wanted zero offset s = refl
dispatch_pages-Quiet w c wanted (suc fuel) offset s =
    let t = (list_by_tenant w page_size offset s).1 in
    elim (Outcome-cases (list_by_tenant w page_size offset s).0) [
      | inl (page, e) ↦ ground (
        arith,
        list_by_tenant-Quiet w page_size offset s,
        emit_contacts-Quiet c wanted page t,
        dispatch_pages-Quiet w c wanted fuel (offset + page_size) (emit_contacts c wanted page t).1,
      )
      | inr (x, e) ↦ ground (arith, list_by_tenant-Quiet w page_size offset s)
    ]

dispatch_contacts-Quiet :
    (w : Workspace) (c : Campaign) (ids channels unstarted : List Text)
    → Quiet (dispatch_contacts w c ids channels unstarted)
unfolding dispatch_contacts
dispatch_contacts-Quiet w c [] [] unstarted s = refl
dispatch_contacts-Quiet w c [] (ch ∷ chs) unstarted s = dispatch_pages-Quiet w c _ _ 0 s
dispatch_contacts-Quiet w c (i ∷ is) channels unstarted s = dispatch_pages-Quiet w c _ _ 0 s

emit_destinations-Quiet : (c : Campaign) (ds : List Destination) → Quiet (emit_destinations c ds)
unfolding emit_destinations
emit_destinations-Quiet c [] s = refl
emit_destinations-Quiet c (d ∷ ds) s = ground (
  arith,
  emit_destination_task-Quiet c d s,
  emit_destinations-Quiet c ds (emit_destination_task c d s).1,
)

dispatch_destinations-Quiet :
    (w : Workspace) (c : Campaign) (ids : List Text) → Quiet (dispatch_destinations w c ids)
unfolding dispatch_destinations list_by_ids query
dispatch_destinations-Quiet w c ids s = grind (arith, emit_destinations-Quiet)

reachability_gates-Quiet :
    (w : Workspace) (ids channels : List Text) → Quiet (reachability_gates w ids channels)
unfolding reachability_gates count_audience_reachability list_unstarted_telegram_contact_ids
reachability_gates-Quiet w ids channels s = ground arith

pub publish_targets-Quiet :
    ⦃json : Json⦄ (w : Workspace) (c : Campaign) → Quiet (publish_targets w c)
unfolding publish_targets
publish_targets-Quiet w c s =
    let channels = parse_string_list c.selected_channels in
    let ids = parse_string_list c.selected_contact_ids in
    let dests = parse_string_list c.selected_telegram_destination_ids in
    let a = (reachability_gates w ids channels s).1 in
    let aq : a.rows ≡ s.rows = reachability_gates-Quiet w ids channels s in
    elim (Outcome-cases (reachability_gates w ids channels s).0) [
      | inr (x, e) ↦ ground (arith, aq)
      | inl (un, e) ↦
          let n = (dispatch_contacts w c ids channels un a).1 in
          ground (
            arith,
            aq,
            dispatch_contacts-Quiet w c ids channels un a,
            dispatch_destinations-Quiet w c dests n,
          )
    ]

pub claim-Quiet :
    (tenant id : Text) (ids : List Text) → Quiet (claim_deliveries_for_retry tenant id ids)
unfolding claim_deliveries_for_retry
claim-Quiet tenant id ids s = ground arith

pub release-Quiet : (id : Text) (ids : List Text) → Quiet (release_delivery_claims id ids)
unfolding release_delivery_claims
release-Quiet id ids s = ground arith

pub republish-Quiet : (c : Campaign) (ds : List Delivery) → Quiet (republish c ds)
unfolding republish publish_dispatch_task
republish-Quiet c [] s = refl
republish-Quiet c (d ∷ ds) s = grind (arith, republish-Quiet c ds)
