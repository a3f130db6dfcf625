-- ===== src/Inbox/Machine.antt =====
-- The statements and use cases that open, change and fill conversations, as commands, and what runs
-- of them keep. Not among them is the deletion of a contact for good (HardDelete of
-- repository/postgres_contact.go, resolveAndMigrateLID of service/whatsapp_manager.go), which takes
-- the contact's conversations and messages away, nor that of a workspace.
use omnipulse_backend.Base.{ℕ, Text, Bool, Option, List, [], ◌∷◌}
use omnipulse_backend.Inbox.Types.{ConversationStatus, AiState, Message, MessageStatus}
use omnipulse_backend.Inbox.Store.{
  Store, get_or_create_conversation, update_conversation_status, assign_conversation,
  bulk_assign_conversations, mark_conversation_as_read, set_conversation_ai_state,
}
use omnipulse_backend.Inbox.Messages.{create_message}
use omnipulse_backend.Inbox.Platforms.{Platforms}
use omnipulse_backend.Inbox.Replies.{send_reply, edit_message, delete_message, take_receipt}
use omnipulse_backend.Inbox.Kept.{Grown, Bounded}
use omnipulse_backend.Base.Frames.{at}
use omnipulse_backend.Inbox.Frames.{Step, Step-refl, Step-trans}
use omnipulse_backend.Inbox.Arrivals.{create_message-Step}
use omnipulse_backend.Inbox.Statements.{
  get_or_create_conversation-Step, update_conversation_status-Step, assign_conversation-Step,
  bulk_assign_conversations-Step, mark_conversation_as_read-Step, set_conversation_ai_state-Step,
}
use omnipulse_backend.Inbox.Handlers.{
  send_reply-Step, edit_message-Step, delete_message-Step, take_receipt-Step,
}

pub data Command : Type 0 where
  opens : Text → Text → Text → Command
  sets_status : Text → Text → ConversationStatus → Command
  assigns : Text → Text → Option Text → Command
  bulk_assigns : Text → List Text → Option Text → Command
  marks_as_read : Text → Text → Command
  sets_ai_state : Text → Text → AiState → Option ℕ → Bool → Command
  creates : Message → Command
  replies : Platforms → Text → Text → Text → Text → Option Text → Command
  edits : Platforms → Text → Text → Text → Command
  deletes : Platforms → Text → Text → Command
  receipts : Bool → Text → MessageStatus → List Text → Command
  -- Time passes, and other statements are going to fail.
  later : ℕ → List Bool → Command

unfoldable pub execute : Command → Store → Store
unfolding get_or_create_conversation update_conversation_status assign_conversation
    bulk_assign_conversations mark_conversation_as_read set_conversation_ai_state create_message
    send_reply edit_message delete_message take_receipt
execute (opens tenant contact channel) s = (get_or_create_conversation tenant contact channel s).1
execute (sets_status tenant id status) s = (update_conversation_status tenant id status s).1
execute (assigns tenant id user) s = (assign_conversation tenant id user s).1
execute (bulk_assigns tenant ids user) s = (bulk_assign_conversations tenant ids user s).1
execute (marks_as_read tenant id) s = (mark_conversation_as_read tenant id s).1
execute (sets_ai_state tenant id state until needs) s =
    (set_conversation_ai_state tenant id state until needs s).1
execute (creates m) s = (create_message m s).1
execute (replies w tenant user id body media) s = (send_reply w tenant user id body media s).1
execute (edits w tenant id body) s = (edit_message w tenant id body s).1
execute (deletes w tenant id) s = (delete_message w tenant id s).1
execute (receipts has_hub tenant status ids) s = (take_receipt has_hub tenant status ids s).1
execute (later now faults) s = record s { now = now; faults = faults }

unfoldable pub run : List Command → Store → Store
unfolding execute
run [] s = s
run (k ∷ ks) s = run ks (execute k s)

execute-Step : (k : Command) (s : Store) → Step s (execute k s)
unfolding execute
execute-Step (opens tenant contact channel) s =
    at Step _ (get_or_create_conversation-Step tenant contact channel) s
execute-Step (sets_status tenant id status) s =
    at Step _ (update_conversation_status-Step tenant id status) s
execute-Step (assigns tenant id user) s = at Step _ (assign_conversation-Step tenant id user) s
execute-Step (bulk_assigns tenant ids user) s =
    at Step _ (bulk_assign_conversations-Step tenant ids user) s
execute-Step (marks_as_read tenant id) s = at Step _ (mark_conversation_as_read-Step tenant id) s
execute-Step (sets_ai_state tenant id state until needs) s =
    at Step _ (set_conversation_ai_state-Step tenant id state until needs) s
execute-Step (creates m) s = at Step _ (create_message-Step m) s
execute-Step (replies w tenant user id body media) s =
    at Step _ (send_reply-Step w tenant user id body media) s
execute-Step (edits w tenant id body) s = at Step _ (edit_message-Step w tenant id body) s
execute-Step (deletes w tenant id) s = at Step _ (delete_message-Step w tenant id) s
execute-Step (receipts has_hub tenant status ids) s =
    at Step _ (take_receipt-Step has_hub tenant status ids) s
execute-Step (later now faults) s = Step-refl s

run-Step : (ks : List Command) (s : Store) → Step s (run ks s)
unfolding run
run-Step [] s = Step-refl s
run-Step (k ∷ ks) s =
    Step-trans s (execute k s) (run ks (execute k s)) (execute-Step k s) (run-Step ks (execute k s))

-- Whatever commands change the inbox (no contact or workspace is deleted for good), and whatever
-- statements fail, each message keeps its place, its workspace, conversation, direction and
-- platform id; one that came in keeps its text and is not deleted; one that is deleted stays so,
-- with its text; and one that is read stays read.
pub run-Grown : (ks : List Command) (s : Store) → Grown s.messages (run ks s).messages
run-Grown ks s = (run-Step ks s).0

-- Whatever commands change the inbox (no contact or workspace is deleted for good), and whatever
-- statements fail, no conversation comes to have more unread messages than have come in.
pub run-Bounded : (ks : List Command) (s : Store) → Bounded s → Bounded (run ks s)
run-Bounded ks s = (run-Step ks s).1
