-- ===== src/Worker/Broadcast.antt =====
-- executeDelivery of apps/api-gateway/internal/worker/broadcast_sub.go: what the worker does with
-- one task. Encoding a receipt as JSON does not fail. Times are seconds.
use omnipulse_backend.Base.{
  ℕ, Text, bytes, text_eq, Unicode, Bool, true, false, Option, none, some, List, [], ◌∷◌, ◌++◌,
  ◌&&◌, ◌+◌, ◌*◌, ltb, if◌then◌else◌,
}
use omnipulse_backend.Campaign.Types.{Status, paused, completed, cancelled, other}
use omnipulse_backend.Campaign.Task.{Task, DeliveryStatus, delivered, failed, DeliveryResult}
use omnipulse_backend.Worker.Wire.{
  Effect, report, dead_letter, ack, nak, term, nak_after, crash, World, Verdict, sent_by, refused,
  crashed, delivery_normalized_target_type, em_dash,
}
use omnipulse_backend.Worker.Failures.{classify_delivery_error}
use omnipulse_backend.Worker.Adapters.{transmit}

abbrev pub receipt : Task → DeliveryStatus → Option Text → Option Text → Bool → DeliveryResult
receipt t status message code retryable = record {
  campaign_id = t.campaign_id;
  contact_id = t.contact_id;
  target_type = delivery_normalized_target_type t.target_type;
  platform = t.target_platform;
  routing_value = t.routing_value;
  first_name = t.first_name;
  status = status;
  error_message = message;
  failure_code = code;
  retryable = retryable;
  provider_message_id = none;
}

abbrev pub failure : Task → Text → Text → Bool → DeliveryResult
failure t reason code retryable = receipt t failed (some reason) (some code) retryable

-- The receipt is published, and the task is answered for; or it is left for another time.
abbrev pub settle : World → DeliveryResult → List Effect
settle w r = report r ∷ (if w.publishes then ack else nak) ∷ []

abbrev pub opt_out_reason : Text
opt_out_reason =
    bytes "Recipient has explicitly opted out "
    ++ (em_dash ++ bytes " message suppressed by MessageRail compliance engine")

abbrev pub unverified_reason : Text
unverified_reason = bytes "Delivery paused because recipient consent could not be verified"

-- The status `failed` is no constructor of its own.
abbrev pub is_over : Status → Bool
is_over completed = true
is_over (other t) = text_eq t (bytes "failed")
is_over _ = false

-- The dispatch window has closed, or a task without one is half an hour old. The end of the window
-- is an int64 in the code, which is set to a time or left 0; a negative one is left out.
abbrev pub is_expired : World → Task → ℕ → Bool
is_expired w t created =
    if ltb 0 t.expires_at then ltb t.expires_at w.now else ltb (created + 1800) w.now

abbrev pub expired_reason : World → Task → ℕ → Text
expired_reason w t created =
    if ltb 0 t.expires_at
    then bytes "message expired: dispatch window closed at " ++ w.late_text t.expires_at w.now
    else bytes "legacy task expired: campaign was created "
      ++ (w.age_text created w.now ++ bytes " ago (max 30m)")

abbrev pub delivery_attempts : World → ℕ
delivery_attempts w = elim w.attempts [ none ↦ 1 | some n ↦ n ]

abbrev pub max_retries : ℕ
max_retries = 3

module _ ⦃uni : Unicode⦄ where
  -- A failure that may pass is put off twice; any other ends in the dead letter queue.
  unfoldable pub conclude : World → Task → Verdict → List Effect
  unfolding classify_delivery_error
  conclude w t (sent_by tried) = tried ++ settle w (receipt t delivered none none false)
  conclude w t (crashed tried) = tried ++ crash ∷ []
  conclude w t (refused tried reason transient http) =
      let n = delivery_attempts w in
      let (code, retryable) = classify_delivery_error reason http transient in
      if transient && ltb n max_retries
      then tried ++ nak_after (n * 3) ∷ []
      else tried ++ dead_letter t reason n transient ∷ settle w (failure t reason code retryable)

  -- Guards 2 and 3: no second delivery, and none after the window.
  unfoldable pub deliver_in_time : World → Task → ℕ → List Effect
  unfolding conclude transmit
  deliver_in_time w t created =
      let go = conclude w t (transmit w t) in
      let late = failure t (expired_reason w t created) (bytes "window_expired") false in
      elim w.delivered_before [
        | some true ↦ ack ∷ []
        | _ ↦ if is_expired w t created then report late ∷ ack ∷ [] else go
      ]

  -- Guard 1: no delivery for a campaign that is gone, completed or failed.
  unfoldable pub deliver_running : World → Task → List Effect
  unfolding deliver_in_time
  deliver_running w t = elim w.campaign [
    | none ↦ ack ∷ []
    | some (status, created) ↦ if is_over status then ack ∷ [] else deliver_in_time w t created
  ]

  -- A paused campaign keeps its tasks, a cancelled one loses them.
  unfoldable pub deliver_admitted : World → Task → List Effect
  unfolding deliver_running
  deliver_admitted w t = elim w.status_first [
    | none ↦ deliver_running w t
    | some status ↦ elim status [
      | paused ↦ nak_after 5 ∷ []
      | cancelled ↦ ack ∷ []
      | _ ↦ deliver_running w t
    ]
  ]

  -- `none` is a task that cannot be decoded. Guard 0 is consent, and an error is a refusal.
  unfoldable pub execute_delivery : World → Option Task → List Effect
  unfolding deliver_admitted
  execute_delivery w none = term ∷ []
  execute_delivery w (some t) = elim w.opted_out [
    | none ↦ settle w (failure t unverified_reason (bytes "blocked") false)
    | some true ↦ settle w (failure t opt_out_reason (bytes "blocked") false)
    | some false ↦ deliver_admitted w t
  ]
