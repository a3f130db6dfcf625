-- ===== src/Examples/Inbox.antt =====
-- The theorems on the inbox, applied to one conversation.
use omnipulse_backend.Base.{
  ◌+◌, Text, text_eq, bytes, true, false, Bool, none, some, List, [], ◌∷◌, ◌≡◌, refl, arith, tally,
}
use omnipulse_backend.Inbox.Types.{Conversation, Message, inbound, contact, sent, delivered, read}
use omnipulse_backend.Inbox.Store.{Store, ok, fresh_conversation}
use omnipulse_backend.Inbox.Messages.{create_message}
use omnipulse_backend.Inbox.Platforms.{Platforms, answered}
use omnipulse_backend.Inbox.Replies.{reply_message, send_reply}
use omnipulse_backend.Inbox.Kept.{Grown, Bounded}
use omnipulse_backend.Inbox.Machine.{
  Command, creates, replies, edits, deletes, marks_as_read, receipts, later, run, run-Grown,
  run-Bounded,
}
use omnipulse_backend.Inbox.Once.{Refused, create_message-once}
use omnipulse_backend.Inbox.Unsent.{is_call, send_reply-unsent}

abbrev shop : Text
shop = bytes "shop"

abbrev chat : Conversation
chat = fresh_conversation (bytes "c1") shop (bytes "ann") (bytes "telegram") 100

abbrev hello : Message
hello = record (reply_message shop [] (bytes "c1") (bytes "hello") none (some (bytes "77")) 0) {
  direction = inbound;
  sender_type = contact;
}

abbrev inbox : Store
inbox = record {
  conversations = chat ∷ [];
  messages = [];
  address_of = λ id. some (bytes "4711");
  is_member = λ tenant user. true;
  draws = λ n. (b'm' + n) ∷ [];
  drawn = 0;
  faults = [];
  now = 200;
  events = [];
}

-- Telegram answers, where a request can be made; whether it can is an argument.
abbrev platforms : Text → Bool → Platforms
platforms token builds = record {
  session = none;
  cloud = λ tenant. none;
  bot = λ tenant. some (some token);
  builds = λ url. builds;
  graph_call = λ url payload. answered 200 none;
  bot_call = λ url payload. answered 200 (some 78);
  has_ai = true;
  has_hub = true;
}

abbrev day : List Command
day =
    creates hello
    ∷ replies (platforms (bytes "key") true) shop (bytes "bob") (bytes "c1") (bytes "hi") none
    ∷ creates hello
    ∷ edits (platforms (bytes "key") true) shop (bytes "n") (bytes "hi!")
    ∷ receipts true shop read (bytes "78" ∷ [])
    ∷ receipts true shop delivered (bytes "78" ∷ [])
    ∷ later 300 (true ∷ [])
    ∷ marks_as_read shop (bytes "c1")
    ∷ deletes (platforms (bytes "key") true) shop (bytes "n")
    ∷ []

run-Grown_example : Grown (hello ∷ []) (run day (record inbox { messages = hello ∷ [] })).messages
run-Grown_example = run-Grown day (record inbox { messages = hello ∷ [] })

run-Bounded_example : Bounded (run day inbox)
run-Bounded_example = run-Bounded day inbox (omega arith, tt)

create_message-once_example :
    let t = run day (create_message hello inbox).1 in Refused t (create_message hello t)
unfolding create_message text_eq
create_message-once_example =
    create_message-once hello hello (record hello { id = bytes "m"; created_at = 200 }) b'7'
      (bytes "7") inbox day refl refl refl refl

-- A URL that holds a control character makes no request.
abbrev torn_token : Text
torn_token = 10 ∷ bytes "key"

send_reply-unsent_example :
    let w = platforms torn_token false in
    let end = send_reply w shop (bytes "bob") (bytes "c1") (bytes "hi") none inbox in
    ((row : Message) × (end.0 ≡ ok row)
      × (row.status ≡ sent)
      × (row.body ≡ bytes "hi")
      × (end.1.messages ≡ row ∷ []))
    × (tally is_call end.1.events ≡ 0)
unfolding text_eq
send_reply-unsent_example =
    send_reply-unsent (platforms torn_token false) shop (bytes "bob") (bytes "c1") (bytes "hi")
      (bytes "4711") none inbox chat 10 (bytes "key") refl refl refl refl refl refl
