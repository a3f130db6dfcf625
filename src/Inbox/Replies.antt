-- ===== src/Inbox/Replies.antt =====
-- apps/api-gateway/internal/usecase/inbox_usecase.go: replies, and the editing and deleting of
-- messages; and the receipts of WhatsApp that service/whatsapp_manager.go takes. Times are in
-- seconds.
use omnipulse_backend.Base.{
  ℕ, ℤ, ◌+◌, Text, bytes, text_eq, atoi, Bool, false, Option, none, some, is_some, List, [], ◌∷◌,
  ◌&&◌, is_empty, if◌then◌else◌,
}
use omnipulse_backend.Inbox.Types.{
  Conversation, Message, MessageStatus, sent, outbound, agent, paused_by_human,
}
use omnipulse_backend.Inbox.Store.{
  not_recorded, empty_body, Payload, edit_payload, delete_payload, Event, session_edited,
  session_revoked, posted, told_message, told_ai_state, told_edit, told_delete, told_status, M,
  pure, ◌>>=◌, ◌>>◌, raise_if, get, or_raise, attempt, emit, get_conversation,
  set_conversation_ai_state,
}
use omnipulse_backend.Inbox.Messages.{
  create_message, edit_message_row, delete_message_row, update_message_status_by_platform_id,
}
use omnipulse_backend.Inbox.Platforms.{Platforms, bot_url, by_session, dispatch_reply, tell_if}

-- The AI keeps silent for half an hour.
unfoldable pub hand_off : Platforms → Text → Text → M (Unit {0})
unfolding set_conversation_ai_state
hand_off w tenant id =
    let pause : M (Unit {0}) = (do
      s ← get
      set ←
          attempt (set_conversation_ai_state tenant id paused_by_human (some (s.now + 1800)) false)
      tell_if w.has_hub (told_ai_state id)) in
    if w.has_ai then pause else pure tt

abbrev pub reply_message : Text → Text → Text → Text → Option Text → Option Text → ℕ → Message
reply_message tenant user conversation body media platform_id now = record {
  id = [];
  tenant_id = tenant;
  conversation_id = conversation;
  direction = outbound;
  sender_type = agent;
  sender_id = some user;
  body = body;
  media_url = media;
  media_type = none;
  platform_message_id = platform_id;
  status = sent;
  error_message = none;
  is_deleted = false;
  edited_at = none;
  created_at = now;
}

-- The message that was sent, recorded.
unfoldable pub record_reply : Message → M Message
unfolding create_message
record_reply m = do recorded ← attempt (create_message m); or_raise recorded not_recorded

unfoldable pub send_reply : Platforms → Text → Text → Text → Text → Option Text → M Message
unfolding get_conversation dispatch_reply record_reply hand_off
send_reply w tenant user id body media = do
  found ← get_conversation tenant id
  platform_id ← dispatch_reply w tenant found.0 found.1 body media
  s ← get
  row ← record_reply (reply_message tenant user id body media platform_id s.now)
  hand_off w tenant id
  tell_if w.has_hub (told_message row.id)
  pure row

abbrev pub bot_number : Platforms → Text → Option ℤ → (ℤ → Payload) → M (Unit {0})
bot_number w url none payload = pure tt
bot_number w url (some number) payload = tell_if (w.builds url) (posted url (payload number))

-- A change of a message passed on to Telegram, whose answer is not looked at.
abbrev pub push_bot : Platforms → Option (Option Text) → Text → Text → (ℤ → Payload) → M (Unit {0})
push_bot w none platform_id method payload = pure tt
push_bot w (some none) platform_id method payload = pure tt
push_bot w (some (some [])) platform_id method payload = pure tt
push_bot w (some (some (b ∷ token))) platform_id method payload =
    bot_number w (bot_url (b ∷ token) method) (atoi platform_id) payload

abbrev pub push_on :
    Platforms → Text → Conversation → Text → Event → Text → (ℤ → Payload) → M (Unit {0})
push_on w tenant c platform_id by_session method payload =
    if text_eq c.channel (bytes "whatsapp") && is_some w.session
    then emit by_session
    else if text_eq c.channel (bytes "telegram")
    then push_bot w (w.bot tenant) platform_id method payload
    else pure tt

-- A change of a message passed on to its platform, if it has an id there.
abbrev pub push :
    Platforms
    → Text
    → Option (Conversation × Text)
    → Option Text
    → (Text → Text → Event)
    → Text
    → (Text → ℤ → Payload)
    → M (Unit {0})
push w tenant none platform_id by_session method payload = pure tt
push w tenant (some found) none by_session method payload = pure tt
push w tenant (some found) (some []) by_session method payload = pure tt
push w tenant (some (c, to)) (some (b ∷ p)) by_session method payload =
    push_on w tenant c (b ∷ p) (by_session to (b ∷ p)) method (payload to)

unfoldable pub push_edit : Platforms → Text → Message → Text → M (Unit {0})
unfolding get_conversation atoi
push_edit w tenant m body = do
  found ← attempt (get_conversation tenant m.conversation_id)
  push w tenant found m.platform_message_id (λ to id. session_edited to id body)
      (bytes "/editMessageText") (λ to number. edit_payload to number body)

unfoldable pub push_delete : Platforms → Text → Message → M (Unit {0})
unfolding get_conversation atoi
push_delete w tenant m = do
  found ← attempt (get_conversation tenant m.conversation_id)
  push w tenant found m.platform_message_id session_revoked (bytes "/deleteMessage") delete_payload

unfoldable pub edit_message : Platforms → Text → Text → Text → M Message
unfolding edit_message_row push_edit
edit_message w tenant id body = do
  raise_if (is_empty body) empty_body
  m ← edit_message_row tenant id body
  push_edit w tenant m body
  tell_if w.has_hub (told_edit m.id)
  pure m

unfoldable pub delete_message : Platforms → Text → Text → M (Unit {0})
unfolding delete_message_row push_delete
delete_message w tenant id = do
  m ← delete_message_row tenant id
  push_delete w tenant m
  tell_if w.has_hub (told_delete m.id)

abbrev pub tell_known : Bool → Option Message → M (Unit {0})
tell_known has_hub none = pure tt
tell_known has_hub (some m) = tell_if has_hub (told_status m.id)

-- A receipt of WhatsApp, for each of its messages: one that is not known is passed over.
unfoldable pub take_receipt : Bool → Text → MessageStatus → List Text → M (Unit {0})
unfolding update_message_status_by_platform_id
take_receipt has_hub tenant status [] = pure tt
take_receipt has_hub tenant status (id ∷ ids) = do
  updated ← attempt (update_message_status_by_platform_id tenant id status)
  tell_known has_hub updated
  take_receipt has_hub tenant status ids
