-- ===== src/Worker/Rivals.antt =====
-- The gateway's worker and the worker of its own stand on one queue, and do not obey the same
-- orders.
use omnipulse_backend.Base.{
  ℕ, Text, bytes, text_eq, Unicode, Bool, true, false, not, is_empty, Option, none, some, List, [],
  ◌∷◌, ◌++◌, ◌*◌, ◌≡◌, ◌⊎◌, inl, inr, arith, any, sym, ap, ◌∙◌, Option-cases,
}
use omnipulse_backend.Base.State.{ok}
use omnipulse_backend.Campaign.Types.{Status, paused, cancelled}
use omnipulse_backend.Campaign.Task.{Task, delivered}
use omnipulse_backend.Worker.Wire.{
  Effect, World, answered, Verdict, sent_by, refused, crashed, dead_letter, nak_after, crash,
}
use omnipulse_backend.Worker.Broadcast.{
  is_over, is_expired, conclude, deliver_admitted, execute_delivery, settle, receipt, failure,
  delivery_attempts,
}
use omnipulse_backend.Worker.Failures.{classify_delivery_error}
use omnipulse_backend.Worker.Answers.{tries}
use omnipulse_backend.Worker.Standalone.{
  plain_message, plain_telegram_reply, plain_telegram, transmit_plain, process_in_time,
  process_running, process_task,
}
use omnipulse_backend.Worker.Guards.{is_send, sends}

any-append_left :
    (p : Effect → Bool) (es fs : List Effect) → any p es ≡ true → any p (es ++ fs) ≡ true
any-append_left p [] fs h = cc
any-append_left p (e ∷ es) fs h = ground (arith, any-append_left p es fs)

-- What was tried stays on record.
conclude-sends :
    ⦃uni : Unicode⦄ (w : World) (t : Task) (v : Verdict)
    → sends (tries v) ≡ true
    → sends (conclude w t v) ≡ true
unfolding conclude
conclude-sends w t (sent_by tried) h =
    any-append_left is_send tried (settle w (receipt t delivered none none false)) h
conclude-sends w t (crashed tried) h = any-append_left is_send tried (crash ∷ []) h
conclude-sends w t (refused tried reason transient http) h =
    let n = delivery_attempts w in
    let (code, retryable) = classify_delivery_error reason http transient in
    let dead = dead_letter t reason n transient ∷ settle w (failure t reason code retryable) in
    ground (
      arith,
      any-append_left is_send tried (nak_after (n * 3) ∷ []),
      any-append_left is_send tried dead,
    )

-- Whether credentials, as they are stored, give a bot's token.
abbrev pub gives_token : Option Text → Bool
gives_token none = false
gives_token (some token) = not (is_empty token)

module _ ⦃uni : Unicode⦄ where
  unread-sends :
      (w : World) (t : Task)
      → transmit_plain w t ≡ refused [] (bytes "failed to parse telegram token credentials") false 0
      → sends (conclude w t (transmit_plain w t)) ≡ false
  unfolding conclude
  unread-sends w t e = ground (arith, e)

  process_plain-sends :
      (w : World) (t : Task) (raw : Text) (code : ℕ)
      → text_eq t.target_platform (bytes "telegram") ≡ true
      → w.credentials (bytes "telegram") ≡ ok raw
      → ((token : Text) → w.post_telegram token (plain_message t) ≡ answered code)
      → sends (conclude w t (transmit_plain w t)) ≡ gives_token (w.bot_token raw)
  unfolding transmit_plain plain_telegram plain_telegram_reply
  process_plain-sends w t raw code tg found posted = elim (Option-cases (w.bot_token raw)) [
    | inl bad ↦ unread-sends w t (ground (arith, tg, found, bad)) ∙ sym (ap gives_token bad)
    | inr ([], blank) ↦
        unread-sends w t (ground (arith, tg, found, blank)) ∙ sym (ap gives_token blank)
    | inr (b ∷ token, has) ↦
        let tried : sends (tries (transmit_plain w t)) ≡ true =
          ground (arith, tg, found, has, posted (b ∷ token)) in
        conclude-sends w t (transmit_plain w t) tried ∙ sym (ground (arith, has))
  ]

  -- The same task in the same world: where consent cannot be looked up, or the campaign is paused
  -- or cancelled, the gateway's worker sends nothing. The other worker, unless a guard that both
  -- share stops it, sends to a Telegram recipient of a workspace whose bot's API answers exactly if
  -- the credentials give a token as they are stored: it does not decrypt them, so this is so for
  -- credentials that were stored unencrypted.
  pub process_task-unguarded :
      (w : World) (t : Task) (raw : Text) (code created : ℕ) (status : Status)
      → (w.opted_out ≡ none)
        ⊎ ((w.opted_out ≡ some false)
            × ((w.status_first ≡ some paused) ⊎ (w.status_first ≡ some cancelled)))
      → w.campaign ≡ some (status, created)
      → is_over status ≡ false
      → w.delivered_before ≡ some false
      → is_expired w t created ≡ false
      → text_eq t.target_platform (bytes "telegram") ≡ true
      → w.credentials (bytes "telegram") ≡ ok raw
      → ((token : Text) → w.post_telegram token (plain_message t) ≡ answered code)
      → (sends (execute_delivery w (some t)) ≡ false)
        × (sends (process_task w (some t)) ≡ gives_token (w.bot_token raw))
  unfolding execute_delivery deliver_admitted process_task process_running process_in_time
  process_task-unguarded w t raw code created status order found live fresh timely tg creds posted =
      let went = process_plain-sends w t raw code tg creds posted in
      elim order [
        | inl unknown ↦
            (ground (arith, unknown), ground (arith, unknown, found, live, fresh, timely, went))
        | inr (heard, stopped) ↦ (
          ground (arith, heard, stopped),
          ground (arith, heard, found, live, fresh, timely, went),
        )
      ]
