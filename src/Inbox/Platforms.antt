-- ===== src/Inbox/Platforms.antt =====
-- How SendReply of apps/api-gateway/internal/usecase/inbox_usecase.go sends.
-- `Platforms` holds what other parts of the gateway, the session of WhatsApp and the two providers
-- answer.
use omnipulse_backend.Base.{
  ℕ, Text, bytes, text_eq, decimal, Bool, Option, none, some, [], ◌∷◌, ◌++◌, ◌||◌, not, leb,
  is_empty, ◌==◌, if◌then◌else◌,
}
use omnipulse_backend.Inbox.Types.{Conversation}
use omnipulse_backend.Inbox.Store.{
  no_channel, no_credentials, no_answer, refused, bad_token, bad_channel, Payload, text_payload,
  image_payload, Event, session_sent, posted, M, pure, raise, ◌>>=◌, ◌>>◌, raise_if, or_raise, emit,
}

-- The answer to a request: its status, and the id in its body, if there is one.
pub data Answer (A : Type 0) : Type 0 where
  unreachable : Answer A
  answered : ℕ → Option A → Answer A

pub record Platforms : Type 0 where
  -- `waManager`, and the id of what it sent: `none` for an error.
  pub session : Option (Text → Text → Option Text → Option Text)
  -- The phone_number_id and access_token of the active channel of a workspace, empty where missing.
  pub cloud : Text → Option (Text × Text)
  -- The bot_token, and `none` for credentials that cannot be read.
  pub bot : Text → Option (Option Text)
  -- Whether `http.NewRequestWithContext` makes a request of a URL.
  pub builds : Text → Bool
  pub graph_call : Text → Payload → Answer Text
  -- The numbers of Telegram's messages; 0 where there is none.
  pub bot_call : Text → Payload → Answer ℕ
  -- `aiAgentRepo != nil` and `broadcaster != nil`
  pub has_ai : Bool
  pub has_hub : Bool

-- An image where the media URL is not empty.
abbrev pub payload_of : Text → Text → Option Text → Payload
payload_of to body none = text_payload to body
payload_of to body (some []) = text_payload to body
payload_of to body (some (b ∷ link)) = image_payload to (b ∷ link) body

abbrev pub graph_url : Text → Text
graph_url phone = bytes "https://graph.facebook.com/v21.0/" ++ (phone ++ bytes "/messages")

abbrev pub bot_url : Text → Text → Text
bot_url token method = bytes "https://api.telegram.org/bot" ++ (token ++ method)

abbrev pub send_method : Option Text → Text
send_method none = bytes "/sendMessage"
send_method (some []) = bytes "/sendMessage"
send_method (some (b ∷ link)) = bytes "/sendPhoto"

abbrev pub number_text : Option ℕ → Option Text
number_text none = none
number_text (some n) = if n == 0 then none else some (decimal n)

abbrev pub graph_answer : Answer Text → M (Option Text)
graph_answer unreachable = raise no_answer
graph_answer (answered status id) = do raise_if (leb 400 status) refused; pure id

abbrev pub bot_answer : Answer ℕ → M (Option Text)
bot_answer unreachable = raise no_answer
bot_answer (answered status id) = do raise_if (not (status == 200)) refused; pure (number_text id)

-- A request that cannot be made is no error.
unfoldable pub post_graph : Platforms → Text → Payload → M (Option Text)
post_graph w url payload =
    let call : M (Option Text) = (do
      emit (posted url payload)
      graph_answer (w.graph_call url payload)) in
    if w.builds url then call else pure none

unfoldable pub post_bot : Platforms → Text → Payload → M (Option Text)
post_bot w url payload =
    let call : M (Option Text) = (do
      emit (posted url payload)
      bot_answer (w.bot_call url payload)) in
    if w.builds url then call else pure none

unfoldable pub by_cloud : Platforms → Text → Text → Text → Option Text → M (Option Text)
unfolding post_graph
by_cloud w tenant to body media = do
  channel ← or_raise (w.cloud tenant) no_channel
  raise_if (is_empty channel.0 || is_empty channel.1) no_credentials
  post_graph w (graph_url channel.0) (payload_of to body media)

abbrev pub sent_or : Option Text → M (Option Text) → M (Option Text)
sent_or none m = m
sent_or (some id) m = pure (some id)

abbrev pub by_session :
    Option (Text → Text → Option Text → Option Text) → Text → Text → Option Text → M (Option Text)
by_session none to body media = pure none
by_session (some send) to body media = do
  emit (session_sent to body media)
  pure (send to body media)

-- The session first, and the Cloud API where there is none or it fails.
unfoldable pub by_whatsapp : Platforms → Text → Text → Text → Option Text → M (Option Text)
unfolding by_cloud
by_whatsapp w tenant to body media = do
  id ← by_session w.session to body media
  sent_or id (by_cloud w tenant to body media)

unfoldable pub by_telegram : Platforms → Text → Text → Text → Option Text → M (Option Text)
unfolding post_bot
by_telegram w tenant to body media = do
  channel ← or_raise (w.bot tenant) no_channel
  token ← or_raise channel bad_token
  raise_if (is_empty token) bad_token
  post_bot w (bot_url token (send_method media)) (payload_of to body media)

-- The id that the platform gave.
unfoldable pub dispatch_reply :
    Platforms → Text → Conversation → Text → Text → Option Text → M (Option Text)
unfolding by_whatsapp by_telegram
dispatch_reply w tenant c to body media =
    if text_eq c.channel (bytes "whatsapp")
    then by_whatsapp w tenant to body media
    else if text_eq c.channel (bytes "telegram")
    then by_telegram w tenant to body media
    else raise bad_channel

abbrev pub tell_if : Bool → Event → M (Unit {0})
tell_if b e = if b then emit e else pure tt
