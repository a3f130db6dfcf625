-- ===== src/Worker/Adapters.antt =====
-- The adapters of apps/api-gateway/internal/worker/broadcast_sub.go: what is sent to whom, by which
-- of Telegram, a paired WhatsApp device and the WhatsApp Cloud API, and what is made of the answer.
use omnipulse_backend.Base.{
  ℕ, Text, bytes, text_eq, Unicode, trim_space, replace_all, decimal, Bool, true, false, none, some,
  List, [], ◌∷◌, ◌++◌, ◌||◌, leb, ◌==◌, is_empty, if◌then◌else◌,
}
use omnipulse_backend.Base.State.{ok, err}
use omnipulse_backend.Campaign.Task.{Task}
use omnipulse_backend.Worker.Wire.{
  Message, Effect, send, Reply, malformed, unreachable, answered, World, Verdict, sent_by, refused,
  crashed, image_of, em_dash,
}

-- A status on which another try may help.
abbrev pub is_transient : ℕ → Bool
is_transient code = (code == 429) || leb 500 code

-- Credentials that cannot be decrypted are taken as they are: old rows hold plain text.
abbrev pub opened : World → Text → Text
opened w raw = elim (w.decrypt raw) [ none ↦ raw | some plain ↦ plain ]

module _ ⦃uni : Unicode⦄ where
  unfoldable pub greeting_name : Text → Text
  unfolding trim_space
  greeting_name first = let name = trim_space first in if is_empty name then bytes "there" else name

  unfoldable pub personalize : Text → Text → Text
  unfolding replace_all
  personalize body name =
      let a = replace_all body (bytes "{{first_name}}") name in
      let b = replace_all a (bytes "{first_name}") name in
      let c = replace_all b (bytes "{{name}}") name in
      let d = replace_all c (bytes "{name}") name in
      let e = replace_all d (bytes "{{username}}") name in replace_all e (bytes "{username}") name

  unfoldable pub message_of : Task → Message
  unfolding greeting_name personalize
  message_of t = record {
    platform = t.target_platform;
    to = t.routing_value;
    text = personalize t.message_body (greeting_name t.first_name);
    image = image_of t.media_url;
  }

-- The answer of the Telegram API.
unfoldable pub telegram_reply : Message → Reply → Verdict
unfolding decimal
telegram_reply m (malformed e) =
    refused [] (bytes "failed to construct telegram request: " ++ e) false 0
telegram_reply m (unreachable e) =
    refused (send m ∷ []) (bytes "network error calling Telegram API: " ++ e) true 0
telegram_reply m (answered code) =
    if code == 200
    then sent_by (send m ∷ [])
    else refused (send m ∷ []) (bytes "Telegram API returned status " ++ decimal code)
        (is_transient code) code

unfoldable pub telegram : World → Task → Message → Verdict
unfolding telegram_reply
telegram w t m = elim (w.credentials (bytes "telegram")) [
  | err e ↦
      refused []
        (bytes "no active Telegram channel configured for tenant "
          ++ (t.tenant_id ++ (bytes ": " ++ e)))
        false 0
  | ok raw ↦ elim (w.bot_token (opened w raw)) [
    | none ↦ refused [] (bytes "failed to parse telegram bot credentials") false 0
    | some token ↦
        if is_empty token
        then refused [] (bytes "failed to parse telegram bot credentials") false 0
        else telegram_reply m (w.post_telegram token m)
  ]
]

-- The answer of the Cloud API. The error of a request that cannot be built is dropped, and nil used.
unfoldable pub cloud_reply : Message → List Effect → Reply → Verdict
unfolding decimal
cloud_reply m tried (malformed e) = crashed tried
cloud_reply m tried (unreachable e) =
    refused (tried ++ send m ∷ []) (bytes "network error calling WhatsApp Cloud API: " ++ e) true 0
cloud_reply m tried (answered code) =
    if (code == 200) || (code == 201)
    then sent_by (tried ++ send m ∷ [])
    else refused (tried ++ send m ∷ [])
        (bytes "WhatsApp Cloud API rejected message (status " ++ (decimal code ++ bytes ")"))
        (is_transient code) code

unfoldable pub cloud : World → Message → List Effect → Verdict
unfolding cloud_reply
cloud w m tried = elim (w.credentials (bytes "whatsapp")) [
  | err e ↦ refused tried (bytes "no active WhatsApp channel found: " ++ e) false 0
  | ok raw ↦
      let (phone, token) = w.cloud_keys (opened w raw) in
      if is_empty phone || is_empty token
      then refused tried
          (bytes "WhatsApp Multi-Device disconnected and no Cloud API credentials found") false 0
      else cloud_reply m tried (w.post_cloud phone token m)
]

-- A paired device first, and the Cloud API where that fails.
unfoldable pub whatsapp : World → Message → Verdict
unfolding cloud
whatsapp w m = elim w.device [
  | none ↦ cloud w m []
  | some device ↦ elim (device m) [
    | ok id ↦ sent_by (send m ∷ [])
    | err e ↦ cloud w m (send m ∷ [])
  ]
]

module _ ⦃uni : Unicode⦄ where
  unfoldable pub transmit : World → Task → Verdict
  unfolding telegram whatsapp message_of text_eq
  transmit w t =
      let m = message_of t in
      if text_eq t.target_platform (bytes "telegram")
      then telegram w t m
      else if text_eq t.target_platform (bytes "whatsapp")
      then whatsapp w m
      else refused []
          (bytes "unsupported platform '"
            ++ (t.target_platform
                ++ (bytes "' " ++ (em_dash ++ bytes " no delivery adapter configured"))))
          false 0
