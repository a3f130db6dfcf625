-- ===== src/Campaign/Receipts.antt =====
-- The table of deliveries under the worker's reports: one row for each target, however often it is
-- reported, and what that makes of the campaign's progress.
use omnipulse_backend.Base.{
  ℕ, suc, ◌≤◌, ◌<◌, Text, text_eq, text_eq_comm, text_eq_refl, Bool, true, false, ◌&&◌, none, some,
  List, [], ◌∷◌, All, any, ◌≡◌, refl, ap, sym, ◌∙◌, ◌⊎◌, inl, inr, arith, if◌then◌else◌,
  Option-cases, subst,
}
use omnipulse_backend.Campaign.Types.{processing, completed, Campaign, is_processing}
use omnipulse_backend.Campaign.Task.{TargetType, Delivery, DeliveryResult, normalized_target_type}
use omnipulse_backend.Campaign.Store.{Result, ok, Store, query}
use omnipulse_backend.Campaign.Deliveries.{
  same_target, same_key, upsert, reported, pending, progress_row, recount, record_delivery_result,
}

-- Two rows for one target.
abbrev pub same_row : Delivery → Delivery → Bool
same_row d e =
    text_eq e.campaign_id d.campaign_id
    && (same_target e.target_type d.target_type && text_eq e.routing_value d.routing_value)

-- The unique key of the table.
abbrev pub DistinctKeys : List Delivery → Type 0
DistinctKeys [] = Unit
DistinctKeys (d ∷ ds) = All (λ (e : Delivery). same_row d e ≡ false) ds × DistinctKeys ds

same_target_sym : (a b : TargetType) → same_target a b ≡ same_target b a
same_target_sym a b = ground arith

upsert-apart :
    (fresh : Text) (now : ℕ) (r : DeliveryResult) (d : Delivery) (ds : List Delivery)
    → same_key r d ≡ false
    → All (λ (e : Delivery). same_row d e ≡ false) ds
    → All (λ (e : Delivery). same_row d e ≡ false) (upsert fresh now r ds)
unfolding upsert
upsert-apart fresh now r d [] h k = ground (
  arith,
  text_eq_comm d.campaign_id r.campaign_id,
  text_eq_comm d.routing_value r.routing_value,
  same_target_sym d.target_type (normalized_target_type r.target_type),
)
upsert-apart fresh now r d (e ∷ ds) h k = ground (arith, upsert-apart fresh now r d ds h k.1)

-- A report keeps one row for each target.
pub upsert-DistinctKeys :
    (fresh : Text) (now : ℕ) (r : DeliveryResult) (ds : List Delivery)
    → DistinctKeys ds
    → DistinctKeys (upsert fresh now r ds)
unfolding upsert
upsert-DistinctKeys fresh now r [] h = (tt, tt)
upsert-DistinctKeys fresh now r (d ∷ ds) h =
    ground (arith, upsert-apart fresh now r d ds, upsert-DistinctKeys fresh now r ds h.1)

-- Whether a target has a row.
abbrev pub known : DeliveryResult → List Delivery → Bool
known r ds = any (λ d. same_key r d) ds

upsert-reported :
    (fresh : Text) (now : ℕ) (r : DeliveryResult) (ds : List Delivery)
    → reported r.campaign_id (upsert fresh now r ds)
      ≡ (if known r ds then reported r.campaign_id ds else suc (reported r.campaign_id ds))
unfolding upsert
upsert-reported fresh now r [] = ground (arith, text_eq_refl r.campaign_id)
upsert-reported fresh now r (d ∷ ds) =
    ground (arith, upsert-reported fresh now r ds, text_eq_refl r.campaign_id)

upsert-known :
    (fresh : Text) (now : ℕ) (r : DeliveryResult) (ds : List Delivery)
    → known r (upsert fresh now r ds) ≡ true
unfolding upsert
upsert-known fresh now r [] =
    ground (arith, text_eq_refl r.campaign_id, text_eq_refl r.routing_value)
upsert-known fresh now r (d ∷ ds) = ground (arith, upsert-known fresh now r ds)

-- The deliveries and the row after a report, where no statement fails.
abbrev pub noted : Text → DeliveryResult → Store → List Delivery
noted fresh r s = upsert fresh s.now r s.deliveries

record-store :
    (fresh : Text) (r : DeliveryResult) (s : Store) (c : Campaign)
    → s.faults ≡ []
    → s.rows r.campaign_id ≡ some c
    → record_delivery_result fresh r s
      ≡ (ok tt, recount r.campaign_id (record s { deliveries = noted fresh r s }))
unfolding record_delivery_result query
record-store fresh r s c quiet found = ground arith

record-missing :
    (fresh : Text) (r : DeliveryResult) (s : Store)
    → s.faults ≡ []
    → s.rows r.campaign_id ≡ none
    → (record_delivery_result fresh r s).1 ≡ s
unfolding record_delivery_result query
record-missing fresh r s quiet gone = ground arith

recount-deliveries : (id : Text) (s : Store) → (recount id s).deliveries ≡ s.deliveries
recount-deliveries id s = elim (Option-cases (s.rows id)) [
  | inl e ↦ ground arith
  | inr (c, e) ↦ ground arith
]

recount-row :
    (id : Text) (s : Store) (c : Campaign)
    → s.rows id ≡ some c
    → (recount id s).rows id
      ≡ some (progress_row (reported id s.deliveries) (pending id s.deliveries) c)
recount-row id s c e = ground (arith, text_eq_refl id)

-- The two outcomes of a recount.
abbrev pub Settled : Campaign → ℕ → ℕ → Campaign → Type 0
Settled c n waiting d =
    ((c.status ≡ processing)
      × (d.status ≡ completed)
      × (0 < c.total_targets)
      × (c.total_targets ≤ n)
      × (waiting ≡ 0))
    ⊎ ((d.status ≡ c.status)
        × ((is_processing c.status ≡ false)
            ⊎ ((c.total_targets ≡ 0) ⊎ ((n < c.total_targets) ⊎ (0 < waiting)))))

progress_row-Settled :
    (n waiting : ℕ) (c : Campaign) → Settled c n waiting (progress_row n waiting c)
progress_row-Settled n waiting c = ground arith

-- A worker's report on a campaign that exists: the table of deliveries keeps one row for each
-- target, and the campaign's count of processed targets becomes the number of its rows. It is
-- completed if it was being processed, has targets, all of them have a row and none of its rows is
-- queued for another attempt; else it keeps its status, and one of these is not so.
-- (No database statement fails.)
pub record_delivery_result-progress :
    (fresh : Text) (r : DeliveryResult) (s : Store) (c : Campaign)
    → s.faults ≡ []
    → s.rows r.campaign_id ≡ some c
    → DistinctKeys s.deliveries
    → let t = (record_delivery_result fresh r s).1 in
      let n = reported r.campaign_id t.deliveries in
      DistinctKeys t.deliveries
      × (d : Campaign) × (t.rows r.campaign_id ≡ some d)
      × (d.processed_targets ≡ n)
      × Settled c n (pending r.campaign_id t.deliveries) d
record_delivery_result-progress fresh r s c quiet found keys =
    let id = r.campaign_id in
    let ds = noted fresh r s in
    let n = reported id ds in
    let waiting = pending id ds in
    let mid = record s { deliveries = ds } in
    let stored : (record_delivery_result fresh r s).1 ≡ recount id mid =
      ap (λ (p : Result (Unit {0}) × Store). p.1) (record-store fresh r s c quiet found) in
    let e : (record_delivery_result fresh r s).1.deliveries ≡ ds =
      ap (λ (u : Store). u.deliveries) stored ∙ recount-deliveries id mid in
    let now_row : (record_delivery_result fresh r s).1.rows id ≡ some (progress_row n waiting c) =
      ap (λ (u : Store). u.rows id) stored ∙ recount-row id mid c found in
    subst
      (λ (l : List Delivery).
        DistinctKeys l
        × (d : Campaign) × ((record_delivery_result fresh r s).1.rows id ≡ some d)
        × (d.processed_targets ≡ reported id l)
        × Settled c (reported id l) (pending id l) d)
      (sym e)
      (
        upsert-DistinctKeys fresh s.now r s.deliveries keys,
        progress_row n waiting c,
        now_row,
        refl,
        progress_row-Settled n waiting c,
      )

record-deliveries :
    (fresh : Text) (r : DeliveryResult) (s : Store) (c : Campaign)
    → s.faults ≡ []
    → s.rows r.campaign_id ≡ some c
    → let t = (record_delivery_result fresh r s).1 in
      (t.deliveries ≡ noted fresh r s)
      × (t.faults ≡ [])
      × (d : Campaign) × (t.rows r.campaign_id ≡ some d)
record-deliveries fresh r s c quiet found =
    let id = r.campaign_id in
    let d = progress_row (reported id (noted fresh r s)) (pending id (noted fresh r s)) c in
    let stored = record-store fresh r s c quiet found in
    (
      ground (arith, stored, found),
      ground (arith, stored, found),
      d,
      ground (arith, stored, found, text_eq_refl id),
    )

known-same :
    (r again : DeliveryResult) (ds : List Delivery)
    → again.campaign_id ≡ r.campaign_id
    → again.target_type ≡ r.target_type
    → again.routing_value ≡ r.routing_value
    → known again ds ≡ known r ds
known-same r again [] a b c = refl
known-same r again (d ∷ ds) a b c = ground (arith, known-same r again ds a b c)

-- A report that arrives again counts for nothing: whatever came of the target the second time, the
-- campaign has as many rows as after the first. (No database statement fails.)
pub record_delivery_result-again :
    (fresh fresh_again : Text) (r again : DeliveryResult) (s : Store)
    → s.faults ≡ []
    → again.campaign_id ≡ r.campaign_id
    → again.target_type ≡ r.target_type
    → again.routing_value ≡ r.routing_value
    → let t = (record_delivery_result fresh r s).1 in
      let u = (record_delivery_result fresh_again again t).1 in
      reported r.campaign_id u.deliveries ≡ reported r.campaign_id t.deliveries
record_delivery_result-again fresh fresh_again r again s quiet a b c =
    elim (Option-cases (s.rows r.campaign_id)) [
      | inl gone ↦
          let t = (record_delivery_result fresh r s).1 in
          let same : t ≡ s = record-missing fresh r s quiet gone in
          let still : (record_delivery_result fresh_again again s).1 ≡ s =
            record-missing fresh_again again s quiet (ap (λ i. s.rows i) a ∙ gone) in
          ap (λ (x : Store). reported r.campaign_id x.deliveries)
            (ap (λ (x : Store). (record_delivery_result fresh_again again x).1) same
              ∙ (still ∙ sym same))
      | inr (row, found) ↦
          let t = (record_delivery_result fresh r s).1 in
          let (te, tq, d, kept) = record-deliveries fresh r s row quiet found in
          let (ue, uq, e, rest) =
            record-deliveries fresh_again again t d tq (ap (λ i. t.rows i) a ∙ kept) in
          let here : known r t.deliveries ≡ true =
            ap (λ ds. known r ds) te ∙ upsert-known fresh s.now r s.deliveries in
          let there : known again t.deliveries ≡ true =
            known-same r again t.deliveries a b c ∙ here in
          let counted = upsert-reported fresh_again t.now again t.deliveries in
          ap (λ ds. reported r.campaign_id ds) ue
          ∙ (ap (λ i. reported i (upsert fresh_again t.now again t.deliveries)) (sym a)
              ∙ (counted
                  ∙ (ap
                        (λ (k : Bool).
                          if k
                          then reported again.campaign_id t.deliveries
                          else suc (reported again.campaign_id t.deliveries))
                        there
                      ∙ ap (λ i. reported i t.deliveries) a)))
    ]
