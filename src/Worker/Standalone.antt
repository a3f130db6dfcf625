-- ===== src/Worker/Standalone.antt =====
-- apps/broadcast-worker/internal/worker/broadcast_sub.go: the worker that runs as a program of its
-- own, on the same queue of the stream as that of the gateway. From the verdict of a provider on,
-- its code is that of the gateway (Broadcast.conclude).
use omnipulse_backend.Base.{
  ℕ, Text, bytes, text_eq, Unicode, replace_all, decimal, true, false, Option, none, some, List, [],
  ◌∷◌, ◌++◌, ◌||◌, ◌==◌, is_empty, if◌then◌else◌,
}
use omnipulse_backend.Base.State.{Outcome, ok, err}
use omnipulse_backend.Campaign.Task.{Task}
use omnipulse_backend.Worker.Wire.{
  Message, Effect, send, report, ack, term, Reply, malformed, unreachable, answered, World, Verdict,
  sent_by, refused, crashed, image_of, em_dash,
}
use omnipulse_backend.Worker.Adapters.{is_transient, greeting_name}
use omnipulse_backend.Worker.Broadcast.{
  failure, settle, opt_out_reason, is_over, is_expired, expired_reason, conclude,
}

module _ ⦃uni : Unicode⦄ where
  unfoldable pub personalize_plain : Text → Text → Text
  unfolding replace_all
  personalize_plain body name =
      let a = replace_all body (bytes "{first_name}") name in
      let b = replace_all a (bytes "{name}") name in replace_all b (bytes "{username}") name

  unfoldable pub plain_message : Task → Message
  unfolding greeting_name personalize_plain
  plain_message t = record {
    platform = t.target_platform;
    to = t.routing_value;
    text = personalize_plain t.message_body (greeting_name t.first_name);
    image = image_of t.media_url;
  }

unfoldable pub plain_telegram_reply : Message → Reply → Verdict
unfolding decimal
plain_telegram_reply m (malformed e) =
    refused [] (bytes "failed to construct telegram request: " ++ e) false 0
plain_telegram_reply m (unreachable e) =
    refused (send m ∷ []) (bytes "network error calling telegram API: " ++ e) true 0
plain_telegram_reply m (answered code) =
    if code == 200
    then sent_by (send m ∷ [])
    else refused (send m ∷ [])
        (bytes "telegram API rejected message (status " ++ (decimal code ++ bytes ")"))
        (is_transient code) code

unfoldable pub plain_telegram : World → Message → Verdict
unfolding plain_telegram_reply
plain_telegram w m = elim (w.credentials (bytes "telegram")) [
  | err e ↦ refused [] (bytes "failed to find active telegram channel for tenant: " ++ e) false 0
  | ok raw ↦ elim (w.bot_token raw) [
    | none ↦ refused [] (bytes "failed to parse telegram token credentials") false 0
    | some token ↦
        if is_empty token
        then refused [] (bytes "failed to parse telegram token credentials") false 0
        else plain_telegram_reply m (w.post_telegram token m)
  ]
]

unfoldable pub plain_cloud_reply : Message → Reply → Verdict
unfolding decimal
plain_cloud_reply m (malformed e) = crashed []
plain_cloud_reply m (unreachable e) =
    refused (send m ∷ []) (bytes "network error calling WhatsApp Cloud API: " ++ e) true 0
plain_cloud_reply m (answered code) =
    if (code == 200) || (code == 201)
    then sent_by (send m ∷ [])
    else refused (send m ∷ [])
        (bytes "WhatsApp API rejected message (status " ++ (decimal code ++ bytes ")"))
        (is_transient code) code

unfoldable pub by_cloud : World → Text → Message → Verdict
unfolding plain_cloud_reply
by_cloud w raw m =
    let (phone, token) = w.cloud_keys raw in
    if is_empty phone || is_empty token
    then refused [] (bytes "WhatsApp channel credentials missing") false 0
    else plain_cloud_reply m (w.post_cloud phone token m)

-- A device that cannot be reached refuses before anything is sent.
unfoldable pub by_device : Outcome Text (Message → Outcome Text Text) → Message → Verdict
by_device (err e) m = refused [] e false 0
by_device (ok session) m = elim (session m) [
  | ok id ↦ sent_by (send m ∷ [])
  | err e ↦ refused (send m ∷ []) (bytes "failed to send WhatsApp message: " ++ e) false 0
]

-- Credentials name a paired device, or hold the keys of the Cloud API.
unfoldable pub plain_whatsapp : World → Message → Verdict
unfolding by_cloud by_device
plain_whatsapp w m = elim (w.credentials (bytes "whatsapp")) [
  | err e ↦ refused [] (bytes "no active WhatsApp channel configured for tenant: " ++ e) false 0
  | ok raw ↦ if is_empty (w.device_id raw) then by_cloud w raw m else elim w.reach_device [
    | none ↦ by_cloud w raw m
    | some reach ↦ by_device (reach (w.device_id raw)) m
  ]
]

module _ ⦃uni : Unicode⦄ where
  unfoldable pub transmit_plain : World → Task → Verdict
  unfolding plain_telegram plain_whatsapp plain_message text_eq
  transmit_plain w t =
      let m = plain_message t in
      if text_eq t.target_platform (bytes "telegram")
      then plain_telegram w m
      else if text_eq t.target_platform (bytes "whatsapp")
      then plain_whatsapp w m
      else refused []
          (bytes "unsupported platform '"
            ++ (t.target_platform
                ++ (bytes "' " ++ (em_dash ++ bytes " no delivery adapter configured"))))
          false 0

  -- Guards 2 and 3.
  unfoldable pub process_in_time : World → Task → ℕ → List Effect
  unfolding conclude transmit_plain
  process_in_time w t created =
      let go = conclude w t (transmit_plain w t) in
      let late = failure t (expired_reason w t created) (bytes "window_expired") false in
      elim w.delivered_before [
        | some true ↦ ack ∷ []
        | _ ↦ if is_expired w t created then report late ∷ ack ∷ [] else go
      ]

  -- Guard 1.
  unfoldable pub process_running : World → Task → List Effect
  unfolding process_in_time
  process_running w t = elim w.campaign [
    | none ↦ ack ∷ []
    | some (status, created) ↦ if is_over status then ack ∷ [] else process_in_time w t created
  ]

  -- Guard 0 stops a recipient who has opted out; where the query fails, the delivery goes on.
  unfoldable pub process_task : World → Option Task → List Effect
  unfolding process_running
  process_task w none = term ∷ []
  process_task w (some t) = elim w.opted_out [
    | some true ↦ settle w (failure t opt_out_reason (bytes "blocked") false)
    | _ ↦ process_running w t
  ]
