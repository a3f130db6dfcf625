-- ===== src/Campaign/Preflight.antt =====
-- `Preflight` of apps/api-gateway/internal/usecase/campaign.usecase.go and the answer it gives,
-- apps/api-gateway/internal/domain/preflight.go. A reason's message, which is made from its code
-- and count, is left out.
use omnipulse_backend.Base.{
  ℕ, ◌+◌, ◌-◌, Text, Bool, true, false, List, [], ◌∷◌, ◌++◌, ◌||◌, not, ltb, ◌==◌, is_empty, length,
  if◌then◌else◌,
}
use omnipulse_backend.Campaign.Types.{Status, Campaign}
use omnipulse_backend.Campaign.Store.{M, pure, ◌>>=◌}
use omnipulse_backend.Campaign.Repo.{get_by_id}
use omnipulse_backend.Campaign.Audience.{
  Workspace, ConsentCounts, Reachability, count_audience_consent, count_audience_reachability,
  list_by_ids,
}
use omnipulse_backend.Campaign.Dispatch.{Json, parse_string_list, whatsapp_ready}

pub data ReasonCode : Type 0 where
  opted_out no_consent telegram_not_started whatsapp_down no_sendable_targets : ReasonCode

-- `PreflightReason`
pub record Reason : Type 0 where
  pub code : ReasonCode
  pub count : ℕ

-- `CampaignPreflight`
pub record Report : Type 0 where
  pub campaign_id : Text
  pub status : Status
  pub total_targets : ℕ
  pub sendable : ℕ
  pub opted_out_count : ℕ
  pub no_consent_count : ℕ
  pub quiet_hours : ℕ
  pub blocked : ℕ
  pub unreachable : ℕ
  pub whatsapp_connected : Bool
  pub reasons : List Reason

abbrev reason_if : Bool → ReasonCode → ℕ → List Reason
reason_if false code n = []
reason_if true code n = record { code = code; count = n } ∷ []

abbrev pub blank : Campaign → Report
blank c = record {
  campaign_id = c.id;
  status = c.status;
  total_targets = 0;
  sendable = 0;
  opted_out_count = 0;
  no_consent_count = 0;
  quiet_hours = 0;
  blocked = 0;
  unreachable = 0;
  whatsapp_connected = true;
  reasons = [];
}

-- What the two counts add to the report. An `int` that would fall below 0 is set to 0.
abbrev pub audience_report : Report → ConsentCounts → Reachability → Bool → Report
audience_report p counts reach connected = record p {
  total_targets = p.total_targets + counts.total;
  sendable = (p.sendable + counts.active_count) - reach.telegram_unstarted;
  opted_out_count = p.opted_out_count + counts.opted_out_count;
  no_consent_count = p.no_consent_count + counts.no_consent;
  unreachable = reach.telegram_unstarted;
  whatsapp_connected = connected;
  reasons =
      reason_if (ltb 0 counts.opted_out_count) opted_out counts.opted_out_count
      ++ (reason_if (ltb 0 counts.no_consent) no_consent counts.no_consent
          ++ (reason_if (ltb 0 reach.telegram_unstarted) telegram_not_started
                reach.telegram_unstarted
              ++ reason_if (not connected) whatsapp_down reach.whatsapp_active));
}

-- The block for contacts and channels.
unfoldable pub preflight_audience : Workspace → List Text → List Text → Report → M Report
preflight_audience w ids channels p = do
  counts ← count_audience_consent w ids channels
  reach ← count_audience_reachability w ids channels
  pure (audience_report p counts reach (not (ltb 0 reach.whatsapp_active) || whatsapp_ready w))

abbrev pub destinations_report : Report → ℕ → Report
destinations_report p n = record p {
  total_targets = p.total_targets + n;
  sendable = p.sendable + n;
}

unfoldable pub preflight_destinations : Workspace → List Text → Report → M Report
preflight_destinations w ids p = do
  found ← list_by_ids w ids
  pure (destinations_report p (length found))

abbrev pub conclude : Report → Report
conclude p = record p { reasons = p.reasons ++ reason_if (p.sendable == 0) no_sendable_targets 0 }

-- From the campaign that was read on.
unfoldable pub preflight_of : ⦃json : Json⦄ → Workspace → Campaign → M Report
preflight_of w c = do
  let channels = parse_string_list c.selected_channels
  let ids = parse_string_list c.selected_contact_ids
  let destinations = parse_string_list c.selected_telegram_destination_ids
  let start = blank c
  p ←
      if not (is_empty ids) || not (is_empty channels)
      then preflight_audience w ids channels start
      else pure start
  q ← if is_empty destinations then pure p else preflight_destinations w destinations p
  pure (conclude q)

unfoldable pub preflight : ⦃json : Json⦄ → Workspace → Text → Text → M Report
preflight w tenant id = do c ← get_by_id tenant id; preflight_of w c
