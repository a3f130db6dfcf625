-- ===== src/Inbox/Messages.antt =====
-- The statements on messages of apps/api-gateway/internal/repository/postgres_inbox.go, with the
-- index of infra/postgres/migrations/000014_add_message_idempotency.up.sql. Of two latest messages
-- of the same moment the one stored later counts.
use omnipulse_backend.Base.{
  ℕ, suc, ◌+◌, Text, bytes, text_eq, Bool, true, false, Option, none, some, List, [], ◌∷◌, ◌++◌,
  ◌&&◌, not, any, ltb, ◌==◌, if◌then◌else◌,
}
use omnipulse_backend.Inbox.Types.{
  Conversation, Message, MessageStatus, sent, delivered, read, failed, is_inbound, is_read,
}
use omnipulse_backend.Inbox.Store.{
  Error, database, message_exists, message_not_found, not_editable, already_deleted, M, pure, ◌>>=◌,
  ◌>>◌, raise_if, get, modify, or_raise, attempt, query, first, update, is_conversation,
  update_conversations,
}

abbrev pub is_platform : Text → Text → Message → Bool
is_platform tenant platform_id m =
    text_eq m.tenant_id tenant
    && elim m.platform_message_id [ none ↦ false | some p ↦ text_eq p platform_id ]

abbrev pub has_platform_id : Text → Option Text → Message → Bool
has_platform_id tenant none m = false
has_platform_id tenant (some p) m = is_platform tenant p m

-- `if msg.CreatedAt.IsZero()`
abbrev pub dated : ℕ → Message → Message
dated now m = record m { created_at = if m.created_at == 0 then now else m.created_at }

-- The lookup of a message that has come before. An empty id is not looked up.
unfoldable pub check_duplicate : Text → Option Text → M (Unit {0})
unfolding query
check_duplicate tenant none = pure tt
check_duplicate tenant (some []) = pure tt
check_duplicate tenant (some (b ∷ p)) = do
  query
  s ← get
  raise_if (any (is_platform tenant (b ∷ p)) s.messages) message_exists

-- `REFERENCES conversations(id)`
abbrev pub refers_to : Message → Conversation → Bool
refers_to m c = text_eq c.id m.conversation_id

-- The INSERT: the unique index, the conversation that is referred to, and the defaults of the
-- columns that it leaves out.
unfoldable pub insert_row : Message → M Message
insert_row m = do
  s ← get
  raise_if (any (has_platform_id m.tenant_id m.platform_message_id) s.messages) message_exists
  raise_if (not (any (refers_to m) s.conversations)) database
  let row : Message = record m { id = s.draws s.drawn; is_deleted = false; edited_at = none }
  modify (λ s. record s { messages = s.messages ++ row ∷ []; drawn = suc s.drawn })
  pure row

abbrev pub unread_increment : Message → ℕ
unread_increment m = if is_inbound m then 1 else 0

abbrev pub bump : Message → Conversation → Conversation
bump m c = record c {
  last_message_text = some m.body;
  last_message_at = m.created_at;
  unread_count = c.unread_count + unread_increment m;
}

unfoldable pub insert_message : Message → M Message
unfolding query insert_row
insert_message m = do query; insert_row m

unfoldable pub create_message : Message → M Message
unfolding check_duplicate insert_message update_conversations
create_message raw = do
  s ← get
  let m = dated s.now raw
  check_duplicate m.tenant_id m.platform_message_id
  row ← insert_message m
  updated ← attempt (update_conversations (is_conversation m.tenant_id m.conversation_id) (bump m))
  pure row

abbrev pub is_delivered : MessageStatus → Bool
is_delivered delivered = true
is_delivered _ = false

-- `IN ('sent', 'failed')`
abbrev pub is_undelivered : MessageStatus → Bool
is_undelivered sent = true
is_undelivered failed = true
is_undelivered _ = false

-- The CASE of the UPDATE.
abbrev pub next_status : MessageStatus → MessageStatus → MessageStatus
next_status old new =
    if is_read old
    then read
    else if is_read new
    then read
    else if is_delivered new && is_undelivered old
    then delivered
    else new

-- An UPDATE of messages that returns the row.
unfoldable pub update_message : (Message → Bool) → (Message → Message) → Error → M Message
unfolding query
update_message p f missing = do
  query
  s ← get
  m ← or_raise (first p s.messages) missing
  modify (λ s. record s { messages = update p f s.messages })
  pure (f m)

unfoldable pub update_message_status_by_platform_id : Text → Text → MessageStatus → M Message
unfolding update_message
update_message_status_by_platform_id tenant platform_id status =
    update_message (is_platform tenant platform_id)
      (λ m. record m { status = next_status m.status status }) message_not_found

-- `AND direction = 'outbound' AND COALESCE(is_deleted, false) = false`
abbrev pub is_changeable : Text → Text → Message → Bool
is_changeable tenant id m =
    text_eq m.id id && (text_eq m.tenant_id tenant && (not (is_inbound m) && not m.is_deleted))

-- The bytes of the text with its sign.
abbrev pub deleted_text : Text
deleted_text = 240 ∷ 159 ∷ 154 ∷ 171 ∷ bytes " This message was deleted"

abbrev pub shown : Message → Text
shown m = if m.is_deleted then deleted_text else m.body

-- `ORDER BY created_at DESC LIMIT 1`
abbrev pub latest : (Message → Bool) → List Message → Option Message
latest p [] = none
latest p (m ∷ ms) =
    let rest = latest p ms in
    if p m
    then elim rest [
      | none ↦ some m
      | some n ↦ if ltb n.created_at m.created_at then some m else some n
    ]
    else rest

abbrev pub belongs_to : Conversation → Message → Bool
belongs_to c m = text_eq m.conversation_id c.id && text_eq m.tenant_id c.tenant_id

abbrev pub shown_or : Text → Option Message → Text
shown_or text none = text
shown_or text (some m) = shown m

-- The conversation shows its latest message as it now is, or else the text given.
unfoldable pub refresh_last : Text → Text → Text → M (Option ℕ)
unfolding update_conversations
refresh_last tenant conversation text = do
  s ← get
  attempt (
      update_conversations (is_conversation tenant conversation) (λ c. record c {
        last_message_text = some (shown_or text (latest (belongs_to c) s.messages));
      }))

unfoldable pub edit_message_row : Text → Text → Text → M Message
unfolding update_message refresh_last
edit_message_row tenant id body = do
  s ← get
  m ←
      update_message (is_changeable tenant id)
        (λ m. record m { body = body; edited_at = some s.now }) not_editable
  refreshed ← refresh_last m.tenant_id m.conversation_id body
  pure m

unfoldable pub delete_message_row : Text → Text → M Message
unfolding update_message refresh_last
delete_message_row tenant id = do
  m ←
      update_message (is_changeable tenant id) (λ m. record m { is_deleted = true; body = [] })
        already_deleted
  refreshed ← refresh_last m.tenant_id m.conversation_id deleted_text
  pure m
