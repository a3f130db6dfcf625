-- ===== src/Worker/Telemetry.antt =====
-- processReceipt of apps/api-gateway/internal/worker/telemetry_sub.go: a receipt that a worker has
-- published is written to the tables, and the workspace is told. The percentages of a
-- notification, and its texts, are left out. Where the notification cannot be stored, the receipt
-- is acknowledged all the same.
use omnipulse_backend.Base.{
  ℕ, Text, Bool, true, false, Option, none, some, List, [], ◌∷◌, ◌&&◌, not, ltb, ◌==◌, is_empty,
  ◌≡◌, ◌⊎◌, inl, inr, arith, if◌then◌else◌,
}
use omnipulse_backend.Base.State.{Outcome, ok, err, Outcome-cases}
use omnipulse_backend.Campaign.Types.{Status, completed}
use omnipulse_backend.Campaign.Task.{DeliveryResult}
use omnipulse_backend.Campaign.Store.{Error, Store, query}
use omnipulse_backend.Campaign.Deliveries.{record_delivery_result}
use omnipulse_backend.Campaign.Stats.{CampaignStats, get_campaign_stats}
use omnipulse_backend.Worker.Wire.{Effect, ack, nak, term}

-- What the workspace is told.
pub data Told : Type 0 where
  progress : CampaignStats → DeliveryResult → Told
  campaign_completed : Text → Text → ℕ → ℕ → ℕ → Told

abbrev pub is_completed : Status → Bool
is_completed completed = true
is_completed _ = false

abbrev pub is_done : CampaignStats → Bool
is_done p =
    is_completed p.status
    && ((p.processed_targets == p.total_targets)
        && (ltb 0 p.total_targets && not (is_empty p.tenant_id)))

-- Stats that cannot be read tell nothing.
abbrev pub tell : DeliveryResult → Outcome Error CampaignStats → List Told
tell r (err e) = []
tell r (ok p) =
    progress p r
    ∷ (if is_done p
        then campaign_completed p.tenant_id r.campaign_id p.delivered p.failed p.total_targets ∷ []
        else [])

-- `none` is a receipt that cannot be decoded.
unfoldable pub process_receipt :
    ℕ × ℕ → Text → Option DeliveryResult → Store → (Effect × List Told) × Store
process_receipt payments fresh none s = ((term, []), s)
process_receipt payments fresh (some r) s =
    let (out, t) = record_delivery_result fresh r s in
    let (read, u) = get_campaign_stats payments [] r.campaign_id t in
    elim out [ err e ↦ ((nak, []), t) | ok done ↦ ((ack, tell r read), u) ]

get_campaign_stats-same :
    (payments : ℕ × ℕ) (tenant id : Text) (s : Store)
    → let t = (get_campaign_stats payments tenant id s).1 in
      (t.rows ≡ s.rows) × (t.deliveries ≡ s.deliveries)
unfolding get_campaign_stats query
get_campaign_stats-same payments tenant id s = (ground arith, ground arith)

record_delivery_result-failed :
    (fresh : Text) (r : DeliveryResult) (s : Store) (e : Error)
    → (record_delivery_result fresh r s).0 ≡ err e
    → ((record_delivery_result fresh r s).1.rows ≡ s.rows)
      × ((record_delivery_result fresh r s).1.deliveries ≡ s.deliveries)
unfolding record_delivery_result query
record_delivery_result-failed fresh r s e h = (ground (arith, h), ground (arith, h))

-- Whatever fails, a receipt is acknowledged only if its transaction was committed, and then the
-- tables are as the transaction left them; otherwise it stays on the stream, nobody is told, and
-- the tables are as they were.
pub process_receipt-recorded :
    (payments : ℕ × ℕ) (fresh : Text) (r : DeliveryResult) (s : Store)
    → let (out, t) = record_delivery_result fresh r s in
      let ((answer, told), u) = process_receipt payments fresh (some r) s in
      ((answer ≡ ack) × (out ≡ ok tt) × (u.rows ≡ t.rows) × (u.deliveries ≡ t.deliveries))
      ⊎ ((answer ≡ nak) × (told ≡ []) × (u.rows ≡ s.rows) × (u.deliveries ≡ s.deliveries))
unfolding process_receipt
process_receipt-recorded payments fresh r s =
    let t = (record_delivery_result fresh r s).1 in
    let (rows, deliveries) = get_campaign_stats-same payments [] r.campaign_id t in
    elim (Outcome-cases (record_delivery_result fresh r s).0) [
      | inl (done, e) ↦ inl (
        ground (arith, e),
        ground (arith, e),
        ground (arith, e, rows),
        ground (arith, e, deliveries),
      )
      | inr (x, e) ↦
          let (a, b) = record_delivery_result-failed fresh r s x e in
          inr (ground (arith, e), ground (arith, e), ground (arith, e, a), ground (arith, e, b))
    ]
