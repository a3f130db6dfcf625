-- ===== src/Worker/Guards.antt =====
-- What holds whenever a worker asks a provider to send.
use omnipulse_backend.Base.{
  ℕ, ◌≤◌, ◌<◌, ◌+◌, bytes, text_eq, Unicode, Bool, true, false, some, List, ◌≡◌, ◌≢◌, subst, ltb,
  ◌⊎◌, inl, inr, arith, any, Bool-cases, Option-cases,
}
use omnipulse_backend.Campaign.Types.{Status, paused, completed, cancelled, other}
use omnipulse_backend.Campaign.Task.{Task}
use omnipulse_backend.Worker.Wire.{Effect, send, World}
use omnipulse_backend.Worker.Broadcast.{
  is_over, is_expired, deliver_in_time, deliver_running, deliver_admitted, execute_delivery,
}

abbrev pub is_send : Effect → Bool
is_send (send m) = true
is_send _ = false

-- A provider is asked to send something.
abbrev pub sends : List Effect → Bool
sends es = any is_send es

is_over-completed : (status : Status) → is_over status ≡ false → status ≢ completed
is_over-completed status live e =
    let same : is_over completed ≡ false = subst (λ (x : Status). is_over x ≡ false) e live in cc

is_over-failed : (status : Status) → is_over status ≡ false → status ≢ other (bytes "failed")
unfolding text_eq
is_over-failed status live e =
    let same : is_over (other (bytes "failed")) ≡ false =
      subst (λ (x : Status). is_over x ≡ false) e live in
    cc

is_expired-open :
    (w : World) (t : Task) (created : ℕ)
    → is_expired w t created ≡ false
    → ((0 < t.expires_at) × (w.now ≤ t.expires_at))
      ⊎ ((t.expires_at ≡ 0) × (w.now ≤ created + 1800))
is_expired-open w t created h = elim (Bool-cases (ltb 0 t.expires_at)) [
  | inl dated ↦ inl (ground arith, ground arith)
  | inr undated ↦ inr (ground arith, ground arith)
]

module _ ⦃uni : Unicode⦄ where
  execute_delivery-admitted :
      (w : World) (t : Task)
      → sends (execute_delivery w (some t)) ≡ true
      → (w.opted_out ≡ some false)
        × (w.status_first ≢ some paused)
        × (w.status_first ≢ some cancelled)
        × (w.delivered_before ≢ some true)
        × (status : Status) × (created : ℕ) × (w.campaign ≡ some (status, created))
        × (is_over status ≡ false)
        × (is_expired w t created ≡ false)
  unfolding execute_delivery deliver_admitted deliver_running deliver_in_time
  execute_delivery-admitted w t h = elim (Option-cases w.campaign) [
    | inl gone ↦ ground (arith, h, gone)
    | inr ((status, created), found) ↦ (
      ground (arith, h, found),
      ground (arith, h, found),
      ground (arith, h, found),
      ground (arith, h, found),
      status,
      created,
      found,
      ground (arith, h, found),
      ground (arith, h, found),
    )
  ]

  -- Whenever the gateway's worker asks a provider to send, the consent query found no opt-out; the
  -- first read of the campaign did not find it paused or cancelled, and the second found it neither
  -- completed nor failed; no earlier delivery to the recipient was found; and the dispatch window is
  -- open, or the campaign of a task without one is at most half an hour old.
  pub execute_delivery-guarded :
      (w : World) (t : Task)
      → sends (execute_delivery w (some t)) ≡ true
      → (w.opted_out ≡ some false)
        × (w.status_first ≢ some paused)
        × (w.status_first ≢ some cancelled)
        × (w.delivered_before ≢ some true)
        × (status : Status) × (created : ℕ) × (w.campaign ≡ some (status, created))
        × (status ≢ completed)
        × (status ≢ other (bytes "failed"))
        × (((0 < t.expires_at) × (w.now ≤ t.expires_at))
            ⊎ ((t.expires_at ≡ 0) × (w.now ≤ created + 1800)))
  execute_delivery-guarded w t h =
      let (heard, running, kept, fresh, status, created, found, live, open_still) =
        execute_delivery-admitted w t h in
      (
        heard,
        running,
        kept,
        fresh,
        status,
        created,
        found,
        (λ e. is_over-completed status live e),
        (λ e. is_over-failed status live e),
        is_expired-open w t created open_still,
      )
