-- ===== src/Inbox/Kept.antt =====
-- What the statements of the inbox may do to a message, and how many messages have come in.
use omnipulse_backend.Base.{
  ℕ, ◌≤◌, Bool, true, false, List, [], ◌∷◌, ◌++◌, ◌&&◌, All, tally, ◌≡◌, refl, ap, ◌∙◌, arith,
  if◌then◌else◌,
}
use omnipulse_backend.Inbox.Types.{Conversation, Message, is_inbound, is_read}
use omnipulse_backend.Inbox.Store.{Store, update}
use omnipulse_backend.Inbox.Messages.{belongs_to}

-- What may become of a message.
pub record Kept (m n : Message) : Type 0 where
  pub same_id : n.id ≡ m.id
  pub same_tenant : n.tenant_id ≡ m.tenant_id
  pub same_conversation : n.conversation_id ≡ m.conversation_id
  pub same_direction : n.direction ≡ m.direction
  pub same_platform_id : n.platform_message_id ≡ m.platform_message_id
  pub inbound_kept : is_inbound m ≡ true → (n.body ≡ m.body) × (n.is_deleted ≡ m.is_deleted)
  pub deleted_kept : m.is_deleted ≡ true → (n.body ≡ m.body) × (n.is_deleted ≡ true)
  pub read_kept : is_read m.status ≡ true → n.status ≡ m.status

pub Kept-refl : (m : Message) → Kept m m
Kept-refl m = record {
  same_id = refl;
  same_tenant = refl;
  same_conversation = refl;
  same_direction = refl;
  same_platform_id = refl;
  inbound_kept = λ h. (refl, refl);
  deleted_kept = λ h. (refl, h);
  read_kept = λ h. refl;
}

pub Kept-trans : (l m n : Message) → Kept l m → Kept m n → Kept l n
Kept-trans l m n h k = record {
  same_id = k.same_id ∙ h.same_id;
  same_tenant = k.same_tenant ∙ h.same_tenant;
  same_conversation = k.same_conversation ∙ h.same_conversation;
  same_direction = k.same_direction ∙ h.same_direction;
  same_platform_id = k.same_platform_id ∙ h.same_platform_id;
  inbound_kept = λ i.
      (let (b, d) = h.inbound_kept i in
        let (b', d') = k.inbound_kept (ground (arith, h.same_direction)) in (b' ∙ b, d' ∙ d));
  deleted_kept =
      λ i. (let (b, d) = h.deleted_kept i in let (b', d') = k.deleted_kept d in (b' ∙ b, d'));
  read_kept = λ i. (let e = h.read_kept i in k.read_kept (ap is_read e ∙ i) ∙ e);
}

-- Each message is kept, in its place, and others may follow.
abbrev pub Grown : List Message → List Message → Type 0
Grown [] ns = Unit
Grown (m ∷ ms) [] = true ≡ false
Grown (m ∷ ms) (n ∷ ns) = Kept m n × Grown ms ns

pub Grown-refl : (ms : List Message) → Grown ms ms
Grown-refl [] = tt
Grown-refl (m ∷ ms) = (Kept-refl m, Grown-refl ms)

pub Grown-trans : (ls ms ns : List Message) → Grown ls ms → Grown ms ns → Grown ls ns
Grown-trans [] ms ns h k = tt
Grown-trans (l ∷ ls) [] ns h k = cc
Grown-trans (l ∷ ls) (m ∷ ms) [] h k = k
Grown-trans (l ∷ ls) (m ∷ ms) (n ∷ ns) h k =
    (Kept-trans l m n h.0 k.0, Grown-trans ls ms ns h.1 k.1)

pub Grown-append : (ms ns : List Message) → Grown ms (ms ++ ns)
Grown-append [] ns = tt
Grown-append (m ∷ ms) ns = (Kept-refl m, Grown-append ms ns)

Kept-if : (b : Bool) (m n : Message) → (b ≡ true → Kept m n) → Kept m (if b then n else m)
Kept-if true m n h = h refl
Kept-if false m n h = Kept-refl m

pub Grown-update :
    (p : Message → Bool) (f : Message → Message) (ms : List Message)
    → ((m : Message) → p m ≡ true → Kept m (f m))
    → Grown ms (update p f ms)
Grown-update p f [] h = tt
Grown-update p f (m ∷ ms) h = (Kept-if (p m) m (f m) (h m), Grown-update p f ms h)

-- The messages that have come in for a conversation.
abbrev pub incoming : Conversation → List Message → ℕ
incoming c ms = tally (λ m. belongs_to c m && is_inbound m) ms

pub Grown-incoming :
    (c : Conversation) (ms ns : List Message) → Grown ms ns → incoming c ms ≤ incoming c ns
Grown-incoming c [] ns h = omega arith
Grown-incoming c (m ∷ ms) [] h = cc
Grown-incoming c (m ∷ ms) (n ∷ ns) h =
    ground (
      arith,
      Grown-incoming c ms ns h.1,
      h.0.same_tenant,
      h.0.same_conversation,
      h.0.same_direction,
    )

-- No conversation has more unread messages than have come in.
abbrev pub Bounds : List Message → List Conversation → Type 0
Bounds ms cs = All (λ (c : Conversation). c.unread_count ≤ incoming c ms) cs

abbrev pub Bounded : Store → Type 0
Bounded s = Bounds s.messages s.conversations

pub Bounds-Grown :
    (ms ns : List Message) (cs : List Conversation) → Grown ms ns → Bounds ms cs → Bounds ns cs
Bounds-Grown ms ns [] h b = tt
Bounds-Grown ms ns (c ∷ cs) h b =
    (omega (arith, b.0, Grown-incoming c ms ns h), Bounds-Grown ms ns cs h b.1)
