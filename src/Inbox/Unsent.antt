-- ===== src/Inbox/Unsent.antt =====
-- A reply that is not sent, and recorded as sent.
use omnipulse_backend.Base.{
  ℕ, suc, any, tally, Text, bytes, text_eq, Bool, true, false, Option, none, some, List, [], ◌∷◌,
  ◌++◌, ◌≡◌, refl, ap, arith,
}
use omnipulse_backend.Inbox.Types.{Conversation, Message, sent}
use omnipulse_backend.Inbox.Store.{
  Store, Event, told_message, told_ai_state, told_edit, told_delete, told_status, ok,
  is_conversation, first, update_conversations, query, get_conversation, set_conversation_ai_state,
}
use omnipulse_backend.Inbox.Messages.{
  dated, check_duplicate, insert_message, insert_row, create_message, refers_to, has_platform_id,
}
use omnipulse_backend.Inbox.Platforms.{
  Platforms, bot_url, send_method, post_bot, by_telegram, dispatch_reply,
}
use omnipulse_backend.Inbox.Replies.{record_reply, hand_off, send_reply, reply_message}

-- What is asked of a platform.
abbrev pub is_call : Event → Bool
is_call (told_message id) = false
is_call (told_ai_state id) = false
is_call (told_edit id) = false
is_call (told_delete id) = false
is_call (told_status id) = false
is_call _ = true

first-refers :
    (tenant id : Text) (m : Message) (c : Conversation) (cs : List Conversation)
    → m.conversation_id ≡ id
    → first (is_conversation tenant id) cs ≡ some c
    → any (refers_to m) cs ≡ true
first-refers tenant id m c [] e h = cc
first-refers tenant id m c (d ∷ ds) e h = ground (arith, e, first-refers tenant id m c ds)

no_id : (tenant : Text) (ms : List Message) → any (has_platform_id tenant none) ms ≡ false
no_id tenant [] = refl
no_id tenant (m ∷ ms) = no_id tenant ms

-- Where no request can be made of the URL for a bot's token, a reply on Telegram in a conversation
-- with an address is answered with a new message in status `sent`, which is stored after the
-- others, while nothing is sent to the platform (no statement fails).
pub send_reply-unsent :
    (w : Platforms) (tenant user id body to : Text) (media : Option Text) (s : Store)
    (c : Conversation) (b : ℕ) (token : Text)
    → s.faults ≡ []
    → first (is_conversation tenant id) s.conversations ≡ some c
    → s.address_of c.contact_id ≡ some to
    → c.channel ≡ bytes "telegram"
    → w.bot tenant ≡ some (some (b ∷ token))
    → w.builds (bot_url (b ∷ token) (send_method media)) ≡ false
    → let end = send_reply w tenant user id body media s in
      ((row : Message) × (end.0 ≡ ok row)
        × (row.status ≡ sent)
        × (row.body ≡ body)
        × (end.1.messages ≡ s.messages ++ row ∷ []))
      × (tally is_call end.1.events ≡ tally is_call s.events)
unfolding send_reply get_conversation dispatch_reply by_telegram post_bot record_reply
    create_message check_duplicate insert_message insert_row update_conversations hand_off
    set_conversation_ai_state query text_eq
send_reply-unsent w tenant user id body to media s c b token quiet found address on has bad =
    let known =
      first-refers tenant id (reply_message tenant user id body media none s.now) c s.conversations
        refl found in
    let row : Message = record (dated s.now (reply_message tenant user id body media none s.now)) {
      id = s.draws s.drawn;
      is_deleted = false;
      edited_at = none;
    } in
    let no_whatsapp : text_eq c.channel (bytes "whatsapp") ≡ false =
      ap (λ (x : Text). text_eq x (bytes "whatsapp")) on in
    let is_telegram : text_eq c.channel (bytes "telegram") ≡ true =
      ap (λ (x : Text). text_eq x (bytes "telegram")) on in
    let opened : get_conversation tenant id s ≡ (ok (c, to), s) =
      ground (arith, quiet, found, address) in
    let dropped : dispatch_reply w tenant c to body media s ≡ (ok none, s) =
      ground (arith, no_whatsapp, is_telegram, has, bad) in
    let m = reply_message tenant user id body media none s.now in
    let made : insert_row (dated s.now m) s
        ≡ (ok row, record s { messages = s.messages ++ row ∷ []; drawn = suc s.drawn }) =
      ground (arith, known, no_id tenant s.messages) in
    (
      (
        row,
        ground (arith, quiet, opened, dropped, made),
        refl,
        refl,
        ground (arith, quiet, opened, dropped, made),
      ),
      ground (arith, quiet, opened, dropped, made),
    )
