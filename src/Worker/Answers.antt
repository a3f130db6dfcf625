-- ===== src/Worker/Answers.antt =====
-- How a run of the gateway's worker ends.
use omnipulse_backend.Base.{
  bytes, Unicode, Bool, true, false, Option, none, some, List, [], ◌∷◌, ◌≡◌, ◌*◌, inl, inr, arith,
  tally, tally-append, Option-cases,
}
use omnipulse_backend.Base.State.{Outcome-cases}
use omnipulse_backend.Campaign.Task.{Task, delivered}
use omnipulse_backend.Worker.Wire.{
  Message, Effect, send, ack, nak, term, nak_after, dead_letter, crash, Reply, malformed,
  unreachable, answered, World, Verdict, sent_by, refused, crashed,
}
use omnipulse_backend.Worker.Adapters.{
  telegram_reply, telegram, cloud_reply, cloud, whatsapp, transmit, opened, message_of,
}
use omnipulse_backend.Worker.Broadcast.{
  conclude, deliver_in_time, deliver_running, deliver_admitted, execute_delivery, settle, receipt,
  failure, delivery_attempts,
}
use omnipulse_backend.Worker.Failures.{classify_delivery_error}

-- The stream is told what becomes of the task, or the process dies.
abbrev pub is_answer : Effect → Bool
is_answer ack = true
is_answer nak = true
is_answer term = true
is_answer (nak_after n) = true
is_answer crash = true
is_answer _ = false

abbrev pub is_ack : Effect → Bool
is_ack ack = true
is_ack _ = false

abbrev pub tries : Verdict → List Effect
tries (sent_by tried) = tried
tries (refused tried reason transient http) = tried
tries (crashed tried) = tried

-- No answer is given while a provider is asked.
abbrev Unanswered : Verdict → Type 0
Unanswered v = tally is_answer (tries v) ≡ 0

abbrev pub is_alive : Verdict → Bool
is_alive (crashed tried) = false
is_alive _ = true

telegram_reply-Unanswered : (m : Message) (r : Reply) → Unanswered (telegram_reply m r)
unfolding telegram_reply
telegram_reply-Unanswered m (malformed e) = ground arith
telegram_reply-Unanswered m (unreachable e) = ground arith
telegram_reply-Unanswered m (answered code) = ground arith

cloud_reply-Unanswered :
    (m : Message) (tried : List Effect) (r : Reply)
    → tally is_answer tried ≡ 0
    → Unanswered (cloud_reply m tried r)
unfolding cloud_reply
cloud_reply-Unanswered m tried (malformed e) h = h
cloud_reply-Unanswered m tried (unreachable e) h =
    ground (arith, tally-append is_answer tried (send m ∷ []))
cloud_reply-Unanswered m tried (answered code) h =
    ground (arith, tally-append is_answer tried (send m ∷ []))

cloud-Unanswered :
    (w : World) (m : Message) (tried : List Effect)
    → tally is_answer tried ≡ 0
    → Unanswered (cloud w m tried)
unfolding cloud
cloud-Unanswered w m tried h = elim (Outcome-cases (w.credentials (bytes "whatsapp"))) [
  | inr (e, gone) ↦ ground (arith, gone)
  | inl (raw, found) ↦
      let (phone, token) = w.cloud_keys (opened w raw) in
      ground (arith, found, cloud_reply-Unanswered m tried (w.post_cloud phone token m) h)
]

whatsapp-Unanswered : (w : World) (m : Message) → Unanswered (whatsapp w m)
unfolding whatsapp
whatsapp-Unanswered w m =
    let a : Unanswered (cloud w m []) = cloud-Unanswered w m [] (ground arith) in
    let b : Unanswered (cloud w m (send m ∷ [])) =
      cloud-Unanswered w m (send m ∷ []) (ground arith) in
    ground (arith, a, b)

telegram-Unanswered : (w : World) (t : Task) (m : Message) → Unanswered (telegram w t m)
unfolding telegram
telegram-Unanswered w t m = elim (Outcome-cases (w.credentials (bytes "telegram"))) [
  | inr (e, gone) ↦ ground (arith, gone)
  | inl (raw, found) ↦ elim (Option-cases (w.bot_token (opened w raw))) [
    | inl bad ↦ ground (arith, found, bad)
    | inr (token, good) ↦
        ground (arith, found, good, telegram_reply-Unanswered m (w.post_telegram token m))
  ]
]

module _ ⦃uni : Unicode⦄ where
  transmit-Unanswered : (w : World) (t : Task) → Unanswered (transmit w t)
  unfolding transmit
  transmit-Unanswered w t =
      ground (arith, telegram-Unanswered w t (message_of t), whatsapp-Unanswered w (message_of t))

  conclude-once :
      (w : World) (t : Task) (v : Verdict) → Unanswered v → tally is_answer (conclude w t v) ≡ 1
  unfolding conclude
  conclude-once w t (sent_by tried) h =
      ground (arith, tally-append is_answer tried (settle w (receipt t delivered none none false)))
  conclude-once w t (crashed tried) h = ground (arith, tally-append is_answer tried (crash ∷ []))
  conclude-once w t (refused tried reason transient http) h =
      let n = delivery_attempts w in
      let (code, retryable) = classify_delivery_error reason http transient in
      let dead = dead_letter t reason n transient ∷ settle w (failure t reason code retryable) in
      ground (
        arith,
        tally-append is_answer tried (nak_after (n * 3) ∷ []),
        tally-append is_answer tried dead,
      )

  -- Whatever the database, the stream and the providers do, a task is answered for exactly once:
  -- acknowledged, put off, or given up; or the process dies with it.
  pub execute_delivery-once :
      (w : World) (d : Option Task) → tally is_answer (execute_delivery w d) ≡ 1
  unfolding execute_delivery deliver_admitted deliver_running deliver_in_time
  execute_delivery-once w none = ground arith
  execute_delivery-once w (some t) =
      let over = conclude-once w t (transmit w t) (transmit-Unanswered w t) in
      elim (Option-cases w.campaign) [
        | inl gone ↦ ground (arith, gone, over)
        | inr ((status, created), found) ↦ ground (arith, found, over)
      ]
