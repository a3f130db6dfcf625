-- ===== src/Inbox/Store.antt =====
-- The tables `conversations` and `messages`, and the statements on conversations of
-- apps/api-gateway/internal/repository/postgres_inbox.go and (SetConversationAIState)
-- postgres_ai_agent.go. Of other tables the statements read which contacts there are, with the
-- address to write to, and who is a member of a workspace. `draws` are the ids that the database
-- draws, of which `drawn` are used; `faults` lists which statements fail. The lists of
-- conversations and messages that are only shown are left out.
use omnipulse_backend.Base.{
  bytes, is_some, ℕ, ℤ, suc, Text, text_eq, text_mem, Bool, true, false, Option, none, some, List,
  [], ◌∷◌, ◌++◌, ◌&&◌, not, tally, is_empty, length, ◌==◌, if◌then◌else◌,
}
use omnipulse_backend.Base.State.{Action}
pub use omnipulse_backend.Base.State.{
  ok, err, pure, raise, ◌>>=◌, ◌>>◌, raise_if, get, put, attempt,
}
use omnipulse_backend.Inbox.Types.{
  Conversation, ConversationStatus, opened, AiState, active, Message,
}

pub data Error : Type 0 where
  database conversation_not_found not_assignable none_asked_for some_not_assigned : Error
  message_exists message_not_found not_editable already_deleted empty_body : Error
  no_channel no_credentials no_answer refused bad_token bad_channel not_recorded : Error

-- The JSON that is posted: to whom, and the text, or the link of an image and its caption, or the
-- number of a message and its new text, or only the number.
pub data Payload : Type 0 where
  text_payload : Text → Text → Payload
  image_payload : Text → Text → Text → Payload
  edit_payload : Text → ℤ → Text → Payload
  delete_payload : Text → ℤ → Payload

-- What the inbox asks of the platforms, and tells the browsers that show it.
pub data Event : Type 0 where
  -- To whom, the body and the media.
  session_sent : Text → Text → Option Text → Event
  -- To whom, the message, and its new text.
  session_edited : Text → Text → Text → Event
  session_revoked : Text → Text → Event
  posted : Text → Payload → Event
  told_message told_ai_state told_edit told_delete told_status : Text → Event

pub record Store : Type 0 where
  pub conversations : List Conversation
  pub messages : List Message
  pub address_of : Text → Option Text
  -- `tenant user`
  pub is_member : Text → Text → Bool
  pub draws : ℕ → Text
  pub drawn : ℕ
  pub faults : List Bool
  pub now : ℕ
  -- The last one first.
  pub events : List Event

abbrev pub M : Type 0 → Type 0
M A = Action Store Error A

unfoldable pub query : M (Unit {0})
query s = elim s.faults [
  | [] ↦ (ok tt, s)
  | fails ∷ rest ↦ (if fails then err database else ok tt, record s { faults = rest })
]

-- A change of the state.
abbrev pub modify : (Store → Store) → M (Unit {0})
modify f s = (ok tt, f s)

abbrev pub or_raise : {A : Type 0} → Option A → Error → M A
or_raise none e = raise e
or_raise (some a) e = pure a

abbrev pub emit : Event → M (Unit {0})
emit e s = (ok tt, record s { events = e ∷ s.events })

abbrev pub first {ℓ} : {A : Type ℓ} → (A → Bool) → List A → Option A
first p [] = none
first p (x ∷ xs) = if p x then some x else first p xs

-- The rows for which a test holds, changed.
abbrev pub update {ℓ} : {A : Type ℓ} → (A → Bool) → (A → A) → List A → List A
update p f [] = []
update p f (x ∷ xs) = (if p x then f x else x) ∷ update p f xs

-- `WHERE id = $1 AND tenant_id = $2`
abbrev pub is_conversation : Text → Text → Conversation → Bool
is_conversation tenant id c = text_eq c.id id && text_eq c.tenant_id tenant

-- An UPDATE of conversations: how many rows it changed.
unfoldable pub update_conversations : (Conversation → Bool) → (Conversation → Conversation) → M ℕ
unfolding query
update_conversations p f = do
  query
  s ← get
  modify (λ s. record s { conversations = update p f s.conversations })
  pure (tally p s.conversations)

-- The conversation and the address of its contact, whose row it is joined with.
unfoldable pub get_conversation : Text → Text → M (Conversation × Text)
unfolding query
get_conversation tenant id = do
  query
  s ← get
  c ← or_raise (first (is_conversation tenant id) s.conversations) conversation_not_found
  address ← or_raise (s.address_of c.contact_id) conversation_not_found
  pure (c, address)

abbrev is_between : Text → Text → Text → Conversation → Bool
is_between tenant contact channel c =
    text_eq c.tenant_id tenant && (text_eq c.contact_id contact && text_eq c.channel channel)

-- A row with the defaults of its columns.
abbrev pub fresh_conversation : Text → Text → Text → Text → ℕ → Conversation
fresh_conversation id tenant contact channel now = record {
  id = id;
  tenant_id = tenant;
  contact_id = contact;
  channel = channel;
  status = opened;
  assigned_to = none;
  last_message_text = none;
  last_message_at = now;
  unread_count = 0;
  ai_state = active;
  ai_paused_until = none;
  needs_human = false;
}

-- `CHECK (channel IN …)`
abbrev pub is_channel : Text → Bool
is_channel channel =
    text_mem channel (bytes "whatsapp" ∷ bytes "telegram" ∷ bytes "instagram" ∷ bytes "x" ∷ [])

-- A new row wants a channel that is known and a contact that there is.
abbrev pub or_create : Option Conversation → Bool → Conversation → M Conversation
or_create (some c) allowed fresh = pure c
or_create none allowed fresh = do
  raise_if (not allowed) database
  modify (λ s. record s { conversations = s.conversations ++ fresh ∷ []; drawn = suc s.drawn })
  pure fresh

-- `INSERT … ON CONFLICT (tenant_id, contact_id, channel) DO UPDATE`
unfoldable pub get_or_create_conversation : Text → Text → Text → M Conversation
unfolding query
get_or_create_conversation tenant contact channel = do
  query
  s ← get
  or_create (first (is_between tenant contact channel) s.conversations)
      (is_channel channel && is_some (s.address_of contact))
      (fresh_conversation (s.draws s.drawn) tenant contact channel s.now)

unfoldable pub update_conversation_status : Text → Text → ConversationStatus → M (Unit {0})
unfolding update_conversations
update_conversation_status tenant id status = do
  rows ← update_conversations (is_conversation tenant id) (λ c. record c { status = status })
  raise_if (rows == 0) conversation_not_found

abbrev is_assignable : Store → Text → Option Text → Bool
is_assignable s tenant none = true
is_assignable s tenant (some user) = s.is_member tenant user

unfoldable pub assign_conversation : Text → Text → Option Text → M (Unit {0})
unfolding update_conversations
assign_conversation tenant id user = do
  s ← get
  rows ←
      update_conversations (λ c. is_conversation tenant id c && is_assignable s tenant user)
        (λ c. record c { assigned_to = user })
  raise_if (rows == 0) not_assignable

unfoldable pub bulk_assign_conversations : Text → List Text → Option Text → M (Unit {0})
unfolding update_conversations
bulk_assign_conversations tenant ids user = do
  raise_if (is_empty ids) none_asked_for
  s ← get
  rows ←
      update_conversations
        (λ c. text_eq c.tenant_id tenant && (text_mem c.id ids && is_assignable s tenant user))
        (λ c. record c { assigned_to = user })
  raise_if (not (rows == length ids)) some_not_assigned

unfoldable pub mark_conversation_as_read : Text → Text → M (Unit {0})
unfolding update_conversations
mark_conversation_as_read tenant id = do
  rows ← update_conversations (is_conversation tenant id) (λ c. record c { unread_count = 0 })
  pure tt

unfoldable pub set_conversation_ai_state : Text → Text → AiState → Option ℕ → Bool → M (Unit {0})
unfolding update_conversations
set_conversation_ai_state tenant id state until needs = do
  rows ←
      update_conversations (is_conversation tenant id)
        (λ c. record c { ai_state = state; ai_paused_until = until; needs_human = needs })
  pure tt
