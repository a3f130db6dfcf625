-- ===== src/Campaign/Moves.antt =====
-- A dispatch and a retry follow the diagram of a campaign's life too.
use omnipulse_backend.Base.{
  ℕ, ◌==◌, Text, text_eq_iff, Unicode, Bool, true, false, not, ◌&&◌, ◌||◌, is_empty, Option, none,
  some, Option-cases, Bool-cases, List, [], ◌∷◌, ◌≡◌, refl, sym, ap, subst, ◌⊎◌, ◌∙◌, inl, inr,
  arith,
}
use omnipulse_backend.Campaign.Types.{
  Status, processing, completed, Campaign, is_processing, is_completed,
}
use omnipulse_backend.Campaign.Task.{Delivery}
use omnipulse_backend.Campaign.Store.{M, attempt, Store, ok, find}
use omnipulse_backend.Campaign.Repo.{get_by_id, set_dispatching, update_status}
use omnipulse_backend.Campaign.Audience.{Workspace}
use omnipulse_backend.Campaign.Dispatch.{
  Json, publish_dispatch_task, dispatch_guards, publish_targets, trigger_dispatch,
}
use omnipulse_backend.Campaign.Deliveries.{
  claim_deliveries_for_retry, tick, retry_task, republish, release_delivery_claims, try_if,
  retry_tail, retry_deliveries,
}
use omnipulse_backend.Campaign.Quiet.{
  Quiet, Outcome-cases, get_by_id-Quiet, get_approval_setting-Quiet, publish_targets-Quiet,
  claim-Quiet, republish-Quiet, release-Quiet,
}
use omnipulse_backend.Campaign.Edges.{edge, IsStep, IsStep-refl, Steps, Steps-from, Steps-same}

-- The row that a tenant finds is the row of that id, and the tenant's.
pub find_row :
    (tenant id : Text) (s : Store) (row : Campaign)
    → find tenant id s ≡ some row
    → (s.rows id ≡ some row) × (row.tenant_id ≡ tenant)
unfolding find
find_row tenant id s row h = elim (Option-cases (s.rows id)) [
  | inl e ↦ ground arith
  | inr (c, e) ↦ ground (arith, text_eq_iff c.tenant_id tenant)
]

-- What a successful read returns: the row found, with its status.
pub get_by_id-ok :
    (tenant id : Text) (s : Store) (c : Campaign)
    → (get_by_id tenant id s).0 ≡ ok c
    → (row : Campaign) × (find tenant id s ≡ some row) × (c.status ≡ row.status)
unfolding get_by_id
get_by_id-ok tenant id s c h = elim (Option-cases (find tenant id s)) [
  | inl e ↦ ground arith
  | inr (row, e) ↦ (row, e, ground arith)
]

dispatch_guards-Quiet :
    ⦃uni : Unicode⦄ (w : Workspace) (role tenant : Text) (c : Campaign)
    → Quiet (dispatch_guards w role tenant c)
unfolding dispatch_guards
dispatch_guards-Quiet w role tenant c s = ground (arith, get_approval_setting-Quiet tenant s)

-- What passes the guards is in a status that a dispatch may leave.
dispatch_guards-edge :
    ⦃uni : Unicode⦄ (w : Workspace) (role tenant : Text) (c : Campaign) (s : Store)
    → (dispatch_guards w role tenant c s).0 ≡ ok tt
    → edge c.status processing ≡ true
unfolding dispatch_guards
dispatch_guards-edge w role tenant c s h = ground arith

-- What is found depends on the rows alone.
pub find_same :
    (tenant id : Text) (s t : Store) → t.rows ≡ s.rows → find tenant id t ≡ find tenant id s
unfolding find
find_same tenant id s t e = rw e

set_dispatching-Steps :
    (tenant id : Text) (total : ℕ) (s : Store) (row : Campaign)
    → find tenant id s ≡ some row
    → edge row.status processing ≡ true
    → Steps s (set_dispatching tenant id total s).1
unfolding set_dispatching
set_dispatching-Steps tenant id total s row f h j =
    ground (arith, text_eq_iff j id, find_row tenant id s row f, IsStep-refl (s.rows j))

pub trigger_dispatch-Steps :
    ⦃uni : Unicode⦄ ⦃json : Json⦄ (w : Workspace) (role tenant id : Text) (s : Store)
    → Steps s (trigger_dispatch w role tenant id s).1
unfolding trigger_dispatch
trigger_dispatch-Steps w role tenant id s j =
    let t = (get_by_id tenant id s).1 in
    let tq : t.rows ≡ s.rows = get_by_id-Quiet tenant id s in
    elim (Outcome-cases (get_by_id tenant id s).0) [
      | inr (x, e) ↦ ground (arith, Steps-same s t tq j)
      | inl (c, e) ↦
          let g = (dispatch_guards w role tenant c t).1 in
          let gq : g.rows ≡ s.rows = dispatch_guards-Quiet w role tenant c t ∙ tq in
          let p = (publish_targets w c g).1 in
          let pq : p.rows ≡ s.rows = publish_targets-Quiet w c g ∙ gq in
          let (row, found, same) = get_by_id-ok tenant id s c e in
          elim (Outcome-cases (dispatch_guards w role tenant c t).0) [
            | inr (x, f) ↦ ground (arith, Steps-same s g gq j)
            | inl (u, f) ↦
                let here : find tenant id p ≡ some row = find_same tenant id s p pq ∙ found in
                let may : edge row.status processing ≡ true =
                  rw (← same) (dispatch_guards-edge w role tenant c t f) in
                elim (Outcome-cases (publish_targets w c g).0) [
                  | inr (x, k) ↦ ground (arith, Steps-same s p pq j)
                  | inl (total, k) ↦
                      let sent : Steps s (set_dispatching tenant id total p).1 =
                        Steps-from s p (set_dispatching tenant id total p).1 pq
                          (set_dispatching-Steps tenant id total p row here may) in
                      ground (arith, Steps-same s p pq j, sent j)
                ]
          ]
    ]

-- A row is as it was, or reopened, or completed again.
abbrev Reopened : Text → Campaign → Store → Store → Text → Type 0
Reopened id row s t j =
    (t.rows j ≡ s.rows j)
    ⊎ ((j ≡ id)
        × ((t.rows j ≡ some (record row { status = processing }))
            ⊎ (t.rows j ≡ some (record row { status = completed }))))

abbrev settled : Bool → Status
settled true = completed
settled false = processing

update_status-Reopened :
    (tenant id : Text) (row : Campaign) (b : Bool) (s t : Store) (j : Text)
    → s.rows id ≡ some row
    → Reopened id row s t j
    → Reopened id row s (update_status tenant id (settled b) t).1 j
unfolding update_status find
update_status-Reopened tenant id row b s t j found (inl e) =
    ground (arith, text_eq_iff j id, ap t.rows {x = j} {y = id}, ap s.rows {x = j} {y = id})
update_status-Reopened tenant id row b s t j found (inr h) =
    ground (arith, text_eq_iff j id, ap t.rows {x = j} {y = id}, ap s.rows {x = j} {y = id})

Reopened-same :
    (id : Text) (row : Campaign) (s t u : Store) (j : Text)
    → u.rows ≡ t.rows
    → Reopened id row s t j
    → Reopened id row s u j
Reopened-same id row s t u j e h =
    subst
      (λ (r : Text → Option Campaign).
        (r j ≡ s.rows j)
        ⊎ ((j ≡ id)
            × ((r j ≡ some (record row { status = processing }))
                ⊎ (r j ≡ some (record row { status = completed })))))
      (sym e) h

-- A step that may be left out, and whose error is only logged.
try_if-Reopened :
    (id : Text) (row : Campaign) (b : Bool) (m : M (Unit {0})) (s t : Store) (j : Text)
    → Reopened id row s t j
    → Reopened id row s (m t).1 j
    → Reopened id row s (try_if b m t).1 j
try_if-Reopened id row false m s t j h k = h
try_if-Reopened id row true m s t j h k = elim (Outcome-cases (m t).0) [
  | inl (a, e) ↦ ground (arith, h, k)
  | inr (x, e) ↦ ground (arith, h, k)
]

Reopened-IsStep :
    (id : Text) (row : Campaign) (s t : Store) (j : Text)
    → s.rows id ≡ some row
    → (is_processing row.status || is_completed row.status) ≡ true
    → Reopened id row s t j
    → IsStep (s.rows j) (t.rows j)
Reopened-IsStep id row s t j found may (inl e) = rw e (IsStep-refl (s.rows j))
Reopened-IsStep id row s t j found may (inr (here, h)) = ground (arith, ap s.rows {x = j} {y = id})

-- The outcome of a step that never fails.
try_if-total : (b : Bool) (m : M (Unit {0})) (s : Store) → (d : Bool) × ((try_if b m s).0 ≡ ok d)
try_if-total false m s = (false, refl)
try_if-total true m s = elim (Outcome-cases (m s).0) [
  | inl (a, e) ↦ (true, ground arith)
  | inr (x, e) ↦ (false, ground arith)
]

attempt-total : (m : M (Unit {0})) (s : Store) → (d : Option (Unit {0})) × ((attempt m s).0 ≡ ok d)
attempt-total m s = elim (Outcome-cases (m s).0) [
  | inl (a, e) ↦ (some a, ground arith)
  | inr (x, e) ↦ (none, ground arith)
]

republish-total :
    (c : Campaign) (ds : List Delivery) (s : Store)
    → (p : ℕ × List Text) × ((republish c ds s).0 ≡ ok p)
unfolding republish
republish-total c [] s = ((0, []), refl)
republish-total c (d ∷ ds) s =
    let m = publish_dispatch_task (retry_task c s.now d) in
    let (o, e) = attempt-total m s in
    let (p, f) = republish-total c ds (attempt m s).1 in (tick o d p, ground arith)

-- What follows the claim of a retry leaves each row as it was, or the campaign's own reopened.
retry_tail-Reopened :
    (tenant id : Text) (c row : Campaign) (claimed : List Delivery) (s k : Store) (j : Text)
    → s.rows id ≡ some row
    → k.rows ≡ s.rows
    → Reopened id row s (retry_tail tenant id c claimed k).1 j
unfolding retry_tail
retry_tail-Reopened tenant id c row claimed s k j found kq =
    let b = not (is_empty claimed) && is_completed c.status in
    let r = (try_if b (update_status tenant id processing) k).1 in
    let rh : Reopened id row s r j =
      try_if-Reopened id row b (update_status tenant id processing) s k j
        (Reopened-same id row s s k j kq (inl refl))
        (update_status-Reopened tenant id row false s k j found
          (Reopened-same id row s s k j kq (inl refl))) in
    let o = (republish c claimed r).1 in
    let oh : Reopened id row s o j =
      Reopened-same id row s r o j (republish-Quiet c claimed r) rh in
    let (d, de) = try_if-total b (update_status tenant id processing) k in
    let (p, pe) = republish-total c claimed r in
    let m = release_delivery_claims id p.1 in
    let l = (try_if (not (is_empty p.1)) m o).1 in
    let lh : Reopened id row s l j =
      try_if-Reopened id row (not (is_empty p.1)) m s o j oh
        (Reopened-same id row s o (m o).1 j (release-Quiet id p.1 o) oh) in
    let x = (try_if (p.0 == 0 && d) (update_status tenant id completed) l).1 in
    let xh : Reopened id row s x j =
      try_if-Reopened id row (p.0 == 0 && d) (update_status tenant id completed) s l j lh
        (update_status-Reopened tenant id row true s l j found lh) in
    let (e, ee) = try_if-total (not (is_empty p.1)) m o in
    let (f, fe) = try_if-total (p.0 == 0 && d) (update_status tenant id completed) l in
    ground (arith, xh)

pub retry_deliveries-Steps :
    (tenant id : Text) (ids : List Text) (s : Store) → Steps s (retry_deliveries tenant id ids s).1
unfolding retry_deliveries
retry_deliveries-Steps tenant id ids s j =
    let t = (get_by_id tenant id s).1 in
    let tq : t.rows ≡ s.rows = get_by_id-Quiet tenant id s in
    elim (Outcome-cases (get_by_id tenant id s).0) [
      | inr (x, e) ↦ ground (arith, Steps-same s t tq j)
      | inl (c, e) ↦
          let (row, found, same) = get_by_id-ok tenant id s c e in
          let k = (claim_deliveries_for_retry tenant id ids t).1 in
          let kq : k.rows ≡ s.rows = claim-Quiet tenant id ids t ∙ tq in
          let (here, own) = find_row tenant id s row found in
          elim (Bool-cases (is_processing c.status || is_completed c.status)) [
            | inr refused ↦ ground (arith, Steps-same s t tq j)
            | inl may ↦
                let after : (claimed : List Delivery)
                    → IsStep (s.rows j) ((retry_tail tenant id c claimed k).1.rows j) =
                  λ claimed.
                    Reopened-IsStep id row s (retry_tail tenant id c claimed k).1 j here
                      (rw (← same) may)
                      (retry_tail-Reopened tenant id c row claimed s k j here kq) in
                elim (Outcome-cases (claim_deliveries_for_retry tenant id ids t).0) [
                  | inr (x, f) ↦ ground (arith, Steps-same s k kq j)
                  | inl (claimed, f) ↦ ground (arith, after claimed)
                ]
          ]
    ]
