-- ===== src/Inbox/Once.antt =====
-- A message that the platform delivers again.
use omnipulse_backend.Base.{
  ℕ, Text, text_eq_refl, Bool, true, false, some, List, [], ◌∷◌, ◌++◌, any, ◌≡◌, ◌⊎◌, ap, sym,
  subst, ◌∙◌, inl, inr, arith,
}
use omnipulse_backend.Base.State.{Outcome, Outcome-cases}
use omnipulse_backend.Inbox.Types.{Message}
use omnipulse_backend.Inbox.Store.{
  Store, Error, database, message_exists, ok, err, is_conversation, update_conversations, query,
}
use omnipulse_backend.Inbox.Messages.{
  bump, dated, is_platform, check_duplicate, insert_message, create_message,
}
use omnipulse_backend.Inbox.Kept.{Grown}
use omnipulse_backend.Inbox.Arrivals.{record_message, insert-from, update-from}
use omnipulse_backend.Inbox.Machine.{Command, run, run-Grown}

-- A message of the platform is known.
abbrev Known : Text → Text → List Message → Type 0
Known tenant id ms = any (is_platform tenant id) ms ≡ true

any-Grown :
    (tenant id : Text) (ms ns : List Message)
    → Grown ms ns
    → Known tenant id ms
    → Known tenant id ns
any-Grown tenant id [] ns h k = cc
any-Grown tenant id (m ∷ ms) [] h k = cc
any-Grown tenant id (m ∷ ms) (n ∷ ns) h k =
    ground (arith, any-Grown tenant id ms ns h.1, h.0.same_tenant, h.0.same_platform_id)

Known-append :
    (tenant id : Text) (ms : List Message) (row : Message)
    → row.tenant_id ≡ tenant
    → row.platform_message_id ≡ some id
    → Known tenant id (ms ++ row ∷ [])
Known-append tenant id [] row e f = ground (arith, text_eq_refl tenant, text_eq_refl id)
Known-append tenant id (m ∷ ms) row e f = ground (arith, Known-append tenant id ms row e f)

record_message-Known :
    (m row : Message) (id : Text) (s : Store)
    → m.platform_message_id ≡ some id
    → (record_message m s).0 ≡ ok row
    → Known m.tenant_id id (record_message m s).1.messages
record_message-Known m row id s named done =
    let t = (insert_message m s).1 in
    let p = is_conversation m.tenant_id m.conversation_id in
    let u = (update_conversations p (bump m) t).1 in
    let end = (record_message m s).1 in
    elim (insert-from m s s.faults) [
      | inl (x, e) ↦ ground (arith, e, done)
      | inr (kept, e, same, stored, left) ↦
          let last : end ≡ u = ground (arith, e) in
          let (all_kept, how) = update-from p (bump m) t t.faults in
          let now : end.messages ≡ s.messages ++ kept ∷ [] =
            ap (λ (z : Store). z.messages) last ∙ (all_kept ∙ stored) in
          subst (λ (ms : List Message). Known m.tenant_id id ms) (sym now)
            (Known-append m.tenant_id id s.messages kept same.0 (same.3 ∙ named))
    ]

create_message-Known :
    (m row : Message) (b : ℕ) (id : Text) (s : Store)
    → m.platform_message_id ≡ some (b ∷ id)
    → (create_message m s).0 ≡ ok row
    → Known m.tenant_id (b ∷ id) (create_message m s).1.messages
unfolding create_message
create_message-Known m row b id s named done =
    let n = dated s.now m in
    let check = check_duplicate m.tenant_id m.platform_message_id s in
    let end = create_message m s in
    elim (Outcome-cases check.0) [
      | inr (x, e) ↦ ground (arith, e, done)
      | inl (tt, e) ↦
          let same : end ≡ record_message n check.1 = ground (arith, e) in
          subst (λ (z : Outcome Error Message × Store). Known m.tenant_id (b ∷ id) z.1.messages)
            (sym same)
            (record_message-Known n row (b ∷ id) check.1 named
              (ap (λ (z : Outcome Error Message × Store). z.0) (sym same) ∙ done))
    ]

-- A message that is refused as known, or for a fault of the database.
abbrev pub Refused : Store → Outcome Error Message × Store → Type 0
Refused s end =
    ((end.0 ≡ err message_exists) ⊎ (end.0 ≡ err database))
    × (end.1.messages ≡ s.messages)
    × (end.1.conversations ≡ s.conversations)

create_message-Refused :
    (n : Message) (b : ℕ) (id : Text) (s : Store) (faults : List Bool)
    → n.platform_message_id ≡ some (b ∷ id)
    → Known n.tenant_id (b ∷ id) s.messages
    → Refused s (create_message n (record s { faults = faults }))
unfolding create_message check_duplicate query
create_message-Refused n b id s [] named known =
    (inl (ground (arith, named, known)), ground (arith, named, known), ground (arith, named, known))
create_message-Refused n b id s (true ∷ rest) named known =
    (inr (ground (arith, named, known)), ground (arith, named, known), ground (arith, named, known))
create_message-Refused n b id s (false ∷ rest) named known =
    (inl (ground (arith, named, known)), ground (arith, named, known), ground (arith, named, known))

-- Once a message with an id of its platform is stored, a message of the same workspace with that
-- id, created at any later time, whatever commands changed the inbox in between (no contact or
-- workspace was deleted for good), is refused, and changes no message and no conversation: no
-- webhook that is sent again counts as unread twice.
pub create_message-once :
    (m n row : Message) (b : ℕ) (id : Text) (s : Store) (ks : List Command)
    → m.platform_message_id ≡ some (b ∷ id)
    → n.platform_message_id ≡ some (b ∷ id)
    → n.tenant_id ≡ m.tenant_id
    → (create_message m s).0 ≡ ok row
    → let t = run ks (create_message m s).1 in Refused t (create_message n t)
create_message-once m n row b id s ks named again own done =
    let stored = (create_message m s).1 in
    let t = run ks stored in
    let known =
      any-Grown m.tenant_id (b ∷ id) stored.messages t.messages (run-Grown ks stored)
        (create_message-Known m row b id s named done) in
    create_message-Refused n b id t t.faults again
      (subst (λ (tenant : Text). Known tenant (b ∷ id) t.messages) (sym own) known)
