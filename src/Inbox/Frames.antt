-- ===== src/Inbox/Frames.antt =====
-- What an action on the inbox may do, and the rules for the actions that the code is composed of.
use omnipulse_backend.Base.{
  ◌≤◌, Text, Bool, true, false, Option, none, some, List, [], ◌∷◌, ◌≡◌, refl, arith, if◌then◌else◌,
}
use omnipulse_backend.Base.Frames.{Keeps, keeps, at, seq, try, choose, still, fails, guard, read}
use omnipulse_backend.Inbox.Types.{Conversation, Message}
use omnipulse_backend.Inbox.Store.{
  Store, Error, or_raise, modify, update, query, emit, Event, update_conversations,
  get_conversation,
}
use omnipulse_backend.Inbox.Kept.{Grown, Grown-refl, Grown-trans, incoming, Bounded, Bounds}

abbrev pub Step : Store → Store → Type 0
Step s t = Grown s.messages t.messages × (Bounded s → Bounded t)

pub Step-refl : (s : Store) → Step s s
Step-refl s = (Grown-refl s.messages, λ h. h)

pub Step-trans : (r s t : Store) → Step r s → Step s t → Step r t
Step-trans r s t h k = (Grown-trans r.messages s.messages t.messages h.0 k.0, λ b. k.1 (h.1 b))

pub query-Step : Keeps Step query
unfolding query
query-Step = keeps λ s. elim s.faults as (λ x. Step s (query (record s { faults = x })).1) [
  | [] ↦ Step-refl s
  | fails ∷ rest ↦ Step-refl s
]

-- A change of conversations that counts no message as unread.
abbrev pub Calm : (Conversation → Conversation) → Type 0
Calm f =
    (c : Conversation)
    → ((f c).id ≡ c.id) × ((f c).tenant_id ≡ c.tenant_id) × ((f c).unread_count ≤ c.unread_count)

incoming-same :
    (c d : Conversation) (ms : List Message)
    → d.id ≡ c.id
    → d.tenant_id ≡ c.tenant_id
    → incoming d ms ≡ incoming c ms
incoming-same c d [] h k = refl
incoming-same c d (m ∷ ms) h k = ground (arith, incoming-same c d ms h k, h, k)

Bound-if :
    (ms : List Message) (f : Conversation → Conversation) (c : Conversation) (b : Bool)
    → Calm f
    → c.unread_count ≤ incoming c ms
    → (if b then f c else c).unread_count ≤ incoming (if b then f c else c) ms
Bound-if ms f c true calm h =
    let (i, t, n) = calm c in omega (arith, h, n, incoming-same c (f c) ms i t)
Bound-if ms f c false calm h = h

Bounds-update :
    (ms : List Message) (p : Conversation → Bool) (f : Conversation → Conversation)
    (cs : List Conversation)
    → Calm f
    → Bounds ms cs
    → Bounds ms (update p f cs)
Bounds-update ms p f [] calm h = tt
Bounds-update ms p f (c ∷ cs) calm h =
    (Bound-if ms f c (p c) calm h.0, Bounds-update ms p f cs calm h.1)

pub found-Step : {A : Type 0} (o : Option A) (e : Error) → Keeps Step (or_raise o e)
found-Step none e = keeps Step-refl
found-Step (some a) e = keeps Step-refl

pub tell : (e : Event) → Keeps Step (emit e)
tell e = keeps Step-refl

pub modifies : (f : Store → Store) → ((s : Store) → Step s (f s)) → Keeps Step (modify f)
modifies f h = keeps h

pub ruleset frames = (
  seq, try, choose, still, fails, guard, read, found-Step, tell, query-Step, modifies, Step-refl,
  Step-trans,
)

pub update_conversations-Step :
    (p : Conversation → Bool) (f : Conversation → Conversation)
    → Calm f
    → Keeps Step (update_conversations p f)
unfolding update_conversations
update_conversations-Step p f calm =
    let h : (s : Store) → Step s (record s { conversations = update p f s.conversations }) =
      λ s. (Grown-refl s.messages, λ b. Bounds-update s.messages p f s.conversations calm b) in
    search (frames, h) depth 20

pub get_conversation-Step : (tenant id : Text) → Keeps Step (get_conversation tenant id)
unfolding get_conversation
get_conversation-Step tenant id = search frames depth 12
