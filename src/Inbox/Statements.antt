-- ===== src/Inbox/Statements.antt =====
-- Each statement of Inbox.Store and Inbox.Messages keeps messages, and counts none as unread that
-- has not come in.
use omnipulse_backend.Base.{
  ℕ, suc, ◌≤◌, Text, Bool, true, false, Option, none, some, List, [], ◌∷◌, ◌++◌, All-append, not,
  ◌≡◌, refl, arith,
}
use omnipulse_backend.Inbox.Types.{
  Conversation, ConversationStatus, AiState, Message, MessageStatus, is_inbound,
}
use omnipulse_backend.Inbox.Store.{
  Store, Error, update, get_or_create_conversation, or_create, update_conversation_status,
  assign_conversation, fresh_conversation, bulk_assign_conversations, mark_conversation_as_read,
  set_conversation_ai_state,
}
use omnipulse_backend.Inbox.Messages.{
  belongs_to, update_message, update_message_status_by_platform_id, edit_message_row,
  delete_message_row, refresh_last, is_changeable, next_status, shown_or, latest,
}
use omnipulse_backend.Inbox.Kept.{Kept, Grown-refl, Grown-update, incoming, Bounds-Grown}
use omnipulse_backend.Base.Frames.{Keeps, keeps}
use omnipulse_backend.Inbox.Frames.{Step, Step-refl, frames, Calm, update_conversations-Step}

or_create-Step :
    (o : Option Conversation) (b : Bool) (id tenant contact channel : Text) (now : ℕ)
    → Keeps Step (or_create o b (fresh_conversation id tenant contact channel now))
or_create-Step none b id tenant contact channel now =
    let fresh = fresh_conversation id tenant contact channel now in
    let h : (s : Store)
        → Step s (record s { conversations = s.conversations ++ fresh ∷ []; drawn = suc s.drawn }) =
      λ s. (
        Grown-refl s.messages,
        λ b.
            All-append (λ (c : Conversation). c.unread_count ≤ incoming c s.messages)
              s.conversations (fresh ∷ []) b (omega arith, tt),
      ) in
    search (frames, h) depth 20
or_create-Step (some c) b id tenant contact channel now = keeps Step-refl

pub get_or_create_conversation-Step :
    (tenant contact channel : Text) → Keeps Step (get_or_create_conversation tenant contact channel)
unfolding get_or_create_conversation
get_or_create_conversation-Step tenant contact channel = search (frames, or_create-Step) depth 20

pub update_conversation_status-Step :
    (tenant id : Text) (status : ConversationStatus)
    → Keeps Step (update_conversation_status tenant id status)
unfolding update_conversation_status
update_conversation_status-Step tenant id status =
    let calm : Calm (λ c. record c { status = status }) = λ c. (refl, refl, omega arith) in
    search (frames, update_conversations-Step, calm) depth 20

pub assign_conversation-Step :
    (tenant id : Text) (user : Option Text) → Keeps Step (assign_conversation tenant id user)
unfolding assign_conversation
assign_conversation-Step tenant id user =
    let calm : Calm (λ c. record c { assigned_to = user }) = λ c. (refl, refl, omega arith) in
    search (frames, update_conversations-Step, calm) depth 20

pub bulk_assign_conversations-Step :
    (tenant : Text) (ids : List Text) (user : Option Text)
    → Keeps Step (bulk_assign_conversations tenant ids user)
unfolding bulk_assign_conversations
bulk_assign_conversations-Step tenant ids user =
    let calm : Calm (λ c. record c { assigned_to = user }) = λ c. (refl, refl, omega arith) in
    search (frames, update_conversations-Step, calm) depth 20

pub mark_conversation_as_read-Step :
    (tenant id : Text) → Keeps Step (mark_conversation_as_read tenant id)
unfolding mark_conversation_as_read
mark_conversation_as_read-Step tenant id =
    let calm : Calm (λ c. record c { unread_count = 0 }) = λ c. (refl, refl, omega arith) in
    search (frames, update_conversations-Step, calm) depth 20

pub set_conversation_ai_state-Step :
    (tenant id : Text) (state : AiState) (until : Option ℕ) (needs : Bool)
    → Keeps Step (set_conversation_ai_state tenant id state until needs)
unfolding set_conversation_ai_state
set_conversation_ai_state-Step tenant id state until needs =
    let calm : Calm
        (λ c. record c { ai_state = state; ai_paused_until = until; needs_human = needs }) =
      λ c. (refl, refl, omega arith) in
    search (frames, update_conversations-Step, calm) depth 20

update_message-Step :
    (p : Message → Bool) (f : Message → Message) (missing : Error)
    → ((m : Message) → p m ≡ true → Kept m (f m))
    → Keeps Step (update_message p f missing)
unfolding update_message
update_message-Step p f missing keep =
    let h : (s : Store) → Step s (record s { messages = update p f s.messages }) = λ s.
      (let grown = Grown-update p f s.messages keep in
        (grown, Bounds-Grown s.messages (update p f s.messages) s.conversations grown)) in
    search (frames, h) depth 20

status-Kept :
    (m : Message) (new : MessageStatus) → Kept m (record m { status = next_status m.status new })
status-Kept m new = record {
  same_id = refl;
  same_tenant = refl;
  same_conversation = refl;
  same_direction = refl;
  same_platform_id = refl;
  inbound_kept = λ h. (refl, refl);
  deleted_kept = λ h. (refl, h);
  read_kept = λ h. ground arith;
}

pub update_message_status_by_platform_id-Step :
    (tenant platform_id : Text) (status : MessageStatus)
    → Keeps Step (update_message_status_by_platform_id tenant platform_id status)
unfolding update_message_status_by_platform_id
update_message_status_by_platform_id-Step tenant platform_id status =
    update_message-Step _ _ _ λ m h. status-Kept m status

refresh_last-Step :
    (tenant conversation text : Text) → Keeps Step (refresh_last tenant conversation text)
unfolding refresh_last
refresh_last-Step tenant conversation text =
    let calm : (s : Store)
        → Calm (λ c. record c {
          last_message_text = some (shown_or text (latest (belongs_to c) s.messages));
        }) =
      λ s c. (refl, refl, omega arith) in
    search (frames, update_conversations-Step, calm) depth 20

body-Kept :
    (m : Message) (body : Text) (deleted : Bool) (edited : Option ℕ)
    → not (is_inbound m) ≡ true
    → m.is_deleted ≡ false
    → Kept m (record m { body = body; is_deleted = deleted; edited_at = edited })
body-Kept m body deleted edited out alive = record {
  same_id = refl;
  same_tenant = refl;
  same_conversation = refl;
  same_direction = refl;
  same_platform_id = refl;
  inbound_kept = λ h. ground arith;
  deleted_kept = λ h. ground arith;
  read_kept = λ h. refl;
}

pub edit_message_row-Step : (tenant id body : Text) → Keeps Step (edit_message_row tenant id body)
unfolding edit_message_row
edit_message_row-Step tenant id body =
    let kept : (s : Store) (m : Message)
        → is_changeable tenant id m ≡ true
        → Kept m (record m { body = body; edited_at = some s.now }) =
      λ s m h. body-Kept m body m.is_deleted (some s.now) (ground arith) (ground arith) in
    search (frames, update_message-Step, refresh_last-Step, kept) depth 20

pub delete_message_row-Step : (tenant id : Text) → Keeps Step (delete_message_row tenant id)
unfolding delete_message_row
delete_message_row-Step tenant id =
    let kept : (m : Message)
        → is_changeable tenant id m ≡ true
        → Kept m (record m { is_deleted = true; body = [] }) =
      λ m h. body-Kept m [] true m.edited_at (ground arith) (ground arith) in
    search (frames, update_message-Step, refresh_last-Step, kept) depth 20
