-- ===== src/Inbox/Handlers.antt =====
-- Each use case of Inbox.Replies keeps messages, and counts none as unread that has not come in.
use omnipulse_backend.Base.{ℕ, ℤ, Text, atoi, Bool, Option, none, some, List, [], ◌∷◌}
use omnipulse_backend.Inbox.Types.{Conversation, Message, MessageStatus}
use omnipulse_backend.Inbox.Store.{Event, Payload, M}
use omnipulse_backend.Base.Frames.{Keeps, keeps}
use omnipulse_backend.Inbox.Frames.{Step, Step-refl, frames, get_conversation-Step}
use omnipulse_backend.Inbox.Arrivals.{create_message-Step}
use omnipulse_backend.Inbox.Statements.{
  set_conversation_ai_state-Step, update_message_status_by_platform_id-Step, edit_message_row-Step,
  delete_message_row-Step,
}
use omnipulse_backend.Inbox.Platforms.{
  bot_url, Platforms, Answer, unreachable, answered, graph_answer, bot_answer, post_graph, post_bot,
  by_cloud, sent_or, by_session, by_whatsapp, by_telegram, dispatch_reply,
}
use omnipulse_backend.Inbox.Replies.{
  hand_off, record_reply, send_reply, bot_number, push_bot, push, push_edit, push_delete,
  edit_message, delete_message, tell_known, take_receipt,
}

graph_answer-Step : (a : Answer Text) → Keeps Step (graph_answer a)
graph_answer-Step unreachable = keeps Step-refl
graph_answer-Step (answered status id) = search frames depth 20

bot_answer-Step : (a : Answer ℕ) → Keeps Step (bot_answer a)
bot_answer-Step unreachable = keeps Step-refl
bot_answer-Step (answered status id) = search frames depth 20

by_session-Step :
    (o : Option (Text → Text → Option Text → Option Text)) (to body : Text) (media : Option Text)
    → Keeps Step (by_session o to body media)
by_session-Step none to body media = search frames depth 20
by_session-Step (some send) to body media = search frames depth 20

sent_or-Step : (o : Option Text) (m : M (Option Text)) → Keeps Step m → Keeps Step (sent_or o m)
sent_or-Step none m h = h
sent_or-Step (some id) m h = search frames depth 20

module _ (w : Platforms) where
  post_graph-Step : (url : Text) (payload : Payload) → Keeps Step (post_graph w url payload)
  unfolding post_graph
  post_graph-Step url payload = search (frames, graph_answer-Step) depth 20

  post_bot-Step : (url : Text) (payload : Payload) → Keeps Step (post_bot w url payload)
  unfolding post_bot
  post_bot-Step url payload = search (frames, bot_answer-Step) depth 20

  by_cloud-Step :
      (tenant to body : Text) (media : Option Text) → Keeps Step (by_cloud w tenant to body media)
  unfolding by_cloud
  by_cloud-Step tenant to body media = search (frames, post_graph-Step) depth 20

  by_whatsapp-Step :
      (tenant to body : Text) (media : Option Text)
      → Keeps Step (by_whatsapp w tenant to body media)
  unfolding by_whatsapp
  by_whatsapp-Step tenant to body media =
      search (frames, by_session-Step, sent_or-Step, by_cloud-Step) depth 20

  by_telegram-Step :
      (tenant to body : Text) (media : Option Text)
      → Keeps Step (by_telegram w tenant to body media)
  unfolding by_telegram
  by_telegram-Step tenant to body media = search (frames, post_bot-Step) depth 12

  hand_off-Step : (tenant id : Text) → Keeps Step (hand_off w tenant id)
  unfolding hand_off
  hand_off-Step tenant id = search (frames, set_conversation_ai_state-Step) depth 12

  dispatch_reply-Step :
      (tenant : Text) (c : Conversation) (to body : Text) (media : Option Text)
      → Keeps Step (dispatch_reply w tenant c to body media)
  unfolding dispatch_reply
  dispatch_reply-Step tenant c to body media =
      search (frames, by_whatsapp-Step, by_telegram-Step) depth 20

  record_reply-Step : (m : Message) → Keeps Step (record_reply m)
  unfolding record_reply
  record_reply-Step m = search (frames, create_message-Step) depth 20

  pub send_reply-Step :
      (tenant user id body : Text) (media : Option Text)
      → Keeps Step (send_reply w tenant user id body media)
  unfolding send_reply
  send_reply-Step tenant user id body media =
      search (frames, get_conversation-Step, dispatch_reply-Step, record_reply-Step, hand_off-Step)
        depth 20

  bot_number-Step :
      (url : Text) (number : Option ℤ) (payload : ℤ → Payload)
      → Keeps Step (bot_number w url number payload)
  bot_number-Step url none payload = keeps Step-refl
  bot_number-Step url (some number) payload = search frames depth 20

  push_bot-Step :
      (token : Option (Option Text)) (platform_id method : Text) (payload : ℤ → Payload)
      → Keeps Step (push_bot w token platform_id method payload)
  push_bot-Step none platform_id method payload = keeps Step-refl
  push_bot-Step (some none) platform_id method payload = keeps Step-refl
  push_bot-Step (some (some [])) platform_id method payload = keeps Step-refl
  push_bot-Step (some (some (b ∷ token))) platform_id method payload =
      bot_number-Step (bot_url (b ∷ token) method) (atoi platform_id) payload

  push-Step :
      (tenant : Text) (found : Option (Conversation × Text)) (platform_id : Option Text)
      (by : Text → Text → Event) (method : Text) (payload : Text → ℤ → Payload)
      → Keeps Step (push w tenant found platform_id by method payload)
  push-Step tenant none platform_id by method payload = keeps Step-refl
  push-Step tenant (some (c, to)) none by method payload = keeps Step-refl
  push-Step tenant (some (c, to)) (some []) by method payload = keeps Step-refl
  push-Step tenant (some (c, to)) (some (b ∷ p)) by method payload =
      search (frames, push_bot-Step) depth 20

  pub edit_message-Step : (tenant id body : Text) → Keeps Step (edit_message w tenant id body)
  unfolding edit_message push_edit
  edit_message-Step tenant id body =
      search (frames, edit_message_row-Step, get_conversation-Step, push-Step) depth 20

  pub delete_message-Step : (tenant id : Text) → Keeps Step (delete_message w tenant id)
  unfolding delete_message push_delete
  delete_message-Step tenant id =
      search (frames, delete_message_row-Step, get_conversation-Step, push-Step) depth 20

tell_known-Step : (b : Bool) (o : Option Message) → Keeps Step (tell_known b o)
tell_known-Step b none = keeps Step-refl
tell_known-Step b (some m) = search frames depth 20

pub take_receipt-Step :
    (has_hub : Bool) (tenant : Text) (status : MessageStatus) (ids : List Text)
    → Keeps Step (take_receipt has_hub tenant status ids)
unfolding take_receipt
take_receipt-Step has_hub tenant status [] = keeps Step-refl
take_receipt-Step has_hub tenant status (id ∷ ids) = search (
  frames,
  update_message_status_by_platform_id-Step,
  tell_known-Step,
  take_receipt-Step has_hub tenant status ids,
)
