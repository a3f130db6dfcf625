-- ===== src/Inbox/Arrivals.antt =====
-- A message that is created, counted as unread where it has come in.
use omnipulse_backend.Base.{
  ℕ, suc, ◌+◌, ◌≤◌, Text, text_eq_comm, Bool, true, false, Option, none, some, List, [], ◌∷◌, ◌++◌,
  ◌&&◌, Bool-cases, any, ◌≡◌, ◌⊎◌, refl, ap, sym, subst, ◌∙◌, inl, inr, arith, if◌then◌else◌,
}
use omnipulse_backend.Base.State.{Outcome}
use omnipulse_backend.Inbox.Types.{Conversation, Message, is_inbound}
use omnipulse_backend.Inbox.Store.{
  Store, Error, database, message_exists, M, ok, err, update, query, is_conversation,
  update_conversations, attempt, pure, ◌>>=◌,
}
use omnipulse_backend.Inbox.Messages.{
  belongs_to, bump, unread_increment, check_duplicate, insert_row, insert_message, create_message,
  refers_to, has_platform_id,
}
use omnipulse_backend.Inbox.Kept.{Grown, Grown-append, incoming, Bounded, Bounds, Bounds-Grown}
use omnipulse_backend.Base.Frames.{Keeps, keeps, at}
use omnipulse_backend.Inbox.Frames.{Step, frames}

abbrev arrived : Conversation → Message → ℕ
arrived c m = if belongs_to c m && is_inbound m then 1 else 0

incoming-append :
    (c : Conversation) (ms : List Message) (row : Message)
    → incoming c (ms ++ row ∷ []) ≡ incoming c ms + arrived c row
incoming-append c [] row = ground arith
incoming-append c (m ∷ ms) row = ground (arith, incoming-append c ms row)

-- What the stored row has in common with the message.
abbrev pub Same : Message → Message → Type 0
Same row m =
    (row.tenant_id ≡ m.tenant_id)
    × (row.conversation_id ≡ m.conversation_id)
    × (row.direction ≡ m.direction)
    × (row.platform_message_id ≡ m.platform_message_id)

bump-arrived :
    (c : Conversation) (m row : Message)
    → Same row m
    → is_conversation m.tenant_id m.conversation_id c ≡ true
    → unread_increment m ≤ arrived c row
bump-arrived c m row same here =
    let to_id = text_eq_comm m.conversation_id c.id in
    let to_tenant = text_eq_comm m.tenant_id c.tenant_id in
    ground (arith, same.0, same.1, same.2, to_id, to_tenant)

Bound-bump :
    (c : Conversation) (ms : List Message) (m row : Message) (b : Bool)
    → Same row m
    → is_conversation m.tenant_id m.conversation_id c ≡ b
    → c.unread_count ≤ incoming c ms
    → (if b then bump m c else c).unread_count
      ≤ incoming (if b then bump m c else c) (ms ++ row ∷ [])
Bound-bump c ms m row true same here h =
    omega (arith, h, incoming-append c ms row, bump-arrived c m row same here)
Bound-bump c ms m row false same here h = omega (arith, h, incoming-append c ms row)

Bounds-bump :
    (ms : List Message) (m row : Message) (cs : List Conversation)
    → Same row m
    → Bounds ms cs
    → Bounds (ms ++ row ∷ []) (update (is_conversation m.tenant_id m.conversation_id) (bump m) cs)
Bounds-bump ms m row [] same h = tt
Bounds-bump ms m row (c ∷ cs) same h =
    (Bound-bump c ms m row _ same refl h.0, Bounds-bump ms m row cs same h.1)

insert_message-Step : (m : Message) → Keeps Step (insert_message m)
unfolding insert_message insert_row
insert_message-Step m =
    let h : (row : Message) (s : Store)
        → Step s (record s { messages = s.messages ++ row ∷ []; drawn = suc s.drawn }) =
      λ row s.
        (let grown = Grown-append s.messages (row ∷ []) in
          (grown, Bounds-Grown s.messages (s.messages ++ row ∷ []) s.conversations grown)) in
    search (frames, h) depth 12

-- The message is stored, and nothing else of the two tables changed.
abbrev pub Stored : Message → Store → Outcome Error Message × Store → Type 0
Stored m s end =
    (row : Message) × (end.0 ≡ ok row)
    × Same row m
    × (end.1.messages ≡ s.messages ++ row ∷ [])
    × (end.1.conversations ≡ s.conversations)

insert_row-cases :
    (m : Message) (s : Store)
    → ((x : Error) × ((insert_row m s).0 ≡ err x)) ⊎ Stored m s (insert_row m s)
unfolding insert_row
insert_row-cases m s =
    elim (Bool-cases (any (has_platform_id m.tenant_id m.platform_message_id) s.messages)) [
      | inl known ↦ inl (message_exists, ground (arith, known))
      | inr new ↦ elim (Bool-cases (any (refers_to m) s.conversations)) [
        | inr lost ↦ inl (database, ground (arith, new, lost))
        | inl there ↦ inr (
          record m { id = s.draws s.drawn; is_deleted = false; edited_at = none },
          ground (arith, new, there),
          (refl, refl, refl, refl),
          ground (arith, new, there),
          ground (arith, new, there),
        )
      ]
    ]

pub insert-from :
    (m : Message) (s : Store) (faults : List Bool)
    → let end = insert_message m (record s { faults = faults }) in
      ((x : Error) × (end.0 ≡ err x)) ⊎ Stored m s end
unfolding insert_message query
insert-from m s [] = insert_row-cases m (record s { faults = [] })
insert-from m s (true ∷ rest) = inl (database, refl)
insert-from m s (false ∷ rest) = insert_row-cases m (record s { faults = rest })

abbrev pub Updated : (Conversation → Bool) → (Conversation → Conversation) → Store → Store → Type 0
Updated p f t end =
    (end.messages ≡ t.messages)
    × ((end.conversations ≡ t.conversations) ⊎ (end.conversations ≡ update p f t.conversations))

pub update-from :
    (p : Conversation → Bool) (f : Conversation → Conversation) (t : Store) (faults : List Bool)
    → Updated p f t (update_conversations p f (record t { faults = faults })).1
unfolding update_conversations query
update-from p f t [] = (refl, inr refl)
update-from p f t (true ∷ rest) = (refl, inl refl)
update-from p f t (false ∷ rest) = (refl, inr refl)

pub check_duplicate-Step :
    (tenant : Text) (id : Option Text) → Keeps Step (check_duplicate tenant id)
unfolding check_duplicate
check_duplicate-Step tenant none = search frames depth 20
check_duplicate-Step tenant (some []) = search frames depth 20
check_duplicate-Step tenant (some (b ∷ p)) = search frames depth 20

-- What follows the lookup.
abbrev pub record_message : Message → M Message
record_message m = do
  row ← insert_message m
  updated ← attempt (update_conversations (is_conversation m.tenant_id m.conversation_id) (bump m))
  pure row

Bounded-by :
    (u : Store) (ms : List Message) (cs : List Conversation)
    → u.messages ≡ ms
    → u.conversations ≡ cs
    → Bounds ms cs
    → Bounded u
Bounded-by u ms cs e f b =
    subst (λ (x : List Message). Bounds x u.conversations) (sym e)
      (subst (λ (x : List Conversation). Bounds ms x) (sym f) b)

counted :
    (m row : Message) (s t u : Store)
    → Same row m
    → t.messages ≡ s.messages ++ row ∷ []
    → t.conversations ≡ s.conversations
    → Updated (is_conversation m.tenant_id m.conversation_id) (bump m) t u
    → Step s u
counted m row s t u same stored left (kept, how) =
    let p = is_conversation m.tenant_id m.conversation_id in
    let longer = s.messages ++ row ∷ [] in
    let grown = Grown-append s.messages (row ∷ []) in
    (
      subst (λ (ms : List Message). Grown s.messages ms) (sym (kept ∙ stored)) grown,
      λ b. elim how [
        | inl same_rows ↦
            Bounded-by u longer s.conversations (kept ∙ stored) (same_rows ∙ left)
              (Bounds-Grown s.messages longer s.conversations grown b)
        | inr bumped ↦
            Bounded-by u longer (update p (bump m) s.conversations) (kept ∙ stored)
              (bumped ∙ ap (λ (cs : List Conversation). update p (bump m) cs) left)
              (Bounds-bump s.messages m row s.conversations same b)
      ],
    )

record_message-Step : (m : Message) → Keeps Step (record_message m)
record_message-Step m = keeps λ s.
    let end = (record_message m s).1 in
    let t = (insert_message m s).1 in
    let p = is_conversation m.tenant_id m.conversation_id in
    let u = (update_conversations p (bump m) t).1 in
    elim (insert-from m s s.faults) [
      | inl (x, e) ↦
          let same : end ≡ t = ground (arith, e) in
          subst (λ (z : Store). Step s z) (sym same)
            (at Step (insert_message m) (insert_message-Step m) s)
      | inr (row, e, same, stored, left) ↦
          let last : end ≡ u = ground (arith, e) in
          let made : Step s u =
            counted m row s t u same stored left (update-from p (bump m) t t.faults) in
          subst (λ (z : Store). Step s z) (sym last) made
    ]

pub create_message-Step : (m : Message) → Keeps Step (create_message m)
unfolding create_message
create_message-Step m = search (frames, check_duplicate-Step, record_message-Step) depth 12
