-- ===== src/Worker/Wire.antt =====
-- What a delivery worker reads and does: worker/broadcast_sub.go of apps/api-gateway/internal and
-- of apps/broadcast-worker/internal. A worker takes one task off the subject `campaign.dispatched`;
-- what it does to the outside is a list of effects, in order. `World` holds what the database, the
-- clock, the stream and the providers answer during one run; two reads of a campaign may differ.
use omnipulse_backend.Base.{
  ℕ, Text, bytes, Bool, Option, none, some, List, [], ◌∷◌, is_empty, if◌then◌else◌,
}
use omnipulse_backend.Base.State.{Outcome}
use omnipulse_backend.Campaign.Types.{Status}
use omnipulse_backend.Campaign.Task.{Task, TargetType, to_contact, to_destination, DeliveryResult}

-- One message for a provider. The text is the caption where there is an image.
pub record Message : Type 0 where
  pub platform : Text
  pub to : Text
  pub text : Text
  pub image : Option Text

pub data Effect : Type 0 where
  -- A provider is asked to send.
  send : Message → Effect
  -- A receipt goes to `dispatch.result`.
  report : DeliveryResult → Effect
  -- A task goes to `campaign.dlq`, with its error, the attempts, and whether it may pass.
  dead_letter : Task → Text → ℕ → Bool → Effect
  -- What the stream is told of the task, with a delay in seconds.
  ack nak term : Effect
  nak_after : ℕ → Effect
  -- A nil request is used, and the process dies with the task unanswered.
  crash : Effect

-- What comes of an HTTP request: it cannot be built, gets no answer, or gets a status code.
pub data Reply : Type 0 where
  malformed unreachable : Text → Reply
  answered : ℕ → Reply

pub record World : Type 0 where
  pub now : ℕ
  -- The consent query, and those of the campaign and of an earlier delivery; `none` is an error.
  pub opted_out : Option Bool
  pub status_first : Option Status
  pub campaign : Option (Status × ℕ)
  pub delivered_before : Option Bool
  -- `NumDelivered` of the message, and whether a receipt can be published.
  pub attempts : Option ℕ
  pub publishes : Bool
  -- The credentials of the active channel of a platform, or the text of an error.
  pub credentials : Text → Outcome Text Text
  pub decrypt : Text → Option Text
  -- What the decoding of JSON finds in credentials; `none` is an error, and empty is missing.
  pub bot_token : Text → Option Text
  pub cloud_keys : Text → Text × Text
  pub device_id : Text → Text
  -- The WhatsApp devices: that of the gateway, and those of the worker, to be reached by their id.
  pub device : Option (Message → Outcome Text Text)
  pub reach_device : Option (Text → Outcome Text (Message → Outcome Text Text))
  -- The Telegram API by token, and the WhatsApp Cloud API by phone id and token.
  pub post_telegram : Text → Message → Reply
  pub post_cloud : Text → Text → Message → Reply
  -- How a date and a duration are printed.
  pub late_text : ℕ → ℕ → Text
  pub age_text : ℕ → ℕ → Text

-- What the sending came to, with the requests made on the way.
pub data Verdict : Type 0 where
  sent_by : List Effect → Verdict
  refused : List Effect → Text → Bool → ℕ → Verdict
  crashed : List Effect → Verdict

-- `deliveryNormalizedTargetType`
abbrev pub delivery_normalized_target_type : TargetType → Text
delivery_normalized_target_type to_destination = bytes "telegram_destination"
delivery_normalized_target_type to_contact = bytes "contact"

-- `*task.MediaURL`, where it is not empty.
abbrev pub image_of : Option Text → Option Text
image_of none = none
image_of (some url) = if is_empty url then none else some url

-- The three bytes of a dash, in texts that are not ASCII.
abbrev pub em_dash : Text
em_dash = 226 ∷ 128 ∷ 148 ∷ []
