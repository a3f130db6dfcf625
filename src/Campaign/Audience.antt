-- ===== src/Campaign/Audience.antt =====
-- The other tables and services that a dispatch reads, and the queries on them:
-- apps/api-gateway/internal/repository/postgres_campaign.go (CountAudienceConsent,
-- CountAudienceReachability, ListUnstartedTelegramContactIDs) and postgres_contact.go
-- (ListByTenant without a channel filter).
use omnipulse_backend.Base.{
  ℕ, Text, bytes, text_eq, text_mem, Bool, Option, List, map, ◌&&◌, ◌||◌, not, is_empty, tally,
  select, take, drop,
}
use omnipulse_backend.Contact.Types.{Contact, is_active, is_opted_out}
use omnipulse_backend.Billing.Types.{Subscription}
use omnipulse_backend.Campaign.Store.{M, pure, ◌>>◌, query}

-- `TelegramDestination`
pub record Destination : Type 0 where
  pub id : Text
  pub title : Text
  pub telegram_chat_id : Text

-- `contacts` are the tenant's rows of the table `contacts` in the order of ListByTenant;
-- `has_inbound` says that the table `messages` holds a Telegram message from the contact,
-- `has_events` that `consent_events` holds an event for it. `destinations_by_ids` is ListByIDs;
-- `subscription` is `none` where the use case has no repository, or the row is missing or not
-- readable. `channel_status` is `none` without a reader, and its inner `none` is an error.
pub record Workspace : Type 0 where
  pub contacts : List Contact
  pub has_inbound : Text → Bool
  pub has_events : Text → Bool
  pub destinations_by_ids : List Text → List Destination
  pub subscription : Option Subscription
  pub deliveries_since : ℕ → Option ℕ
  pub month_start : ℕ
  pub channel_status : Option (Option Text)

-- `AudienceConsentCounts`
pub record ConsentCounts : Type 0 where
  pub total : ℕ
  pub active_count : ℕ
  pub opted_out_count : ℕ
  pub no_consent : ℕ

-- `AudienceReachability`
pub record Reachability : Type 0 where
  pub whatsapp_active : ℕ
  pub telegram_active : ℕ
  pub telegram_unstarted : ℕ

-- An empty list of ids or channels is passed as NULL, which filters nothing.
abbrev pub passes : List Text → Text → Bool
passes filter t = is_empty filter || text_mem t filter

abbrev pub is_telegram : Contact → Bool
is_telegram c = text_eq c.channel (bytes "telegram")

abbrev pub is_whatsapp : Contact → Bool
is_whatsapp c = text_eq c.channel (bytes "whatsapp")

-- `telegramStartedPredicate`
abbrev pub has_started : Workspace → Contact → Bool
has_started w c = text_eq c.source (bytes "inbound_webhook") || w.has_inbound c.id

-- The WHERE clause that the audience queries share.
abbrev pub in_audience : List Text → List Text → Contact → Bool
in_audience ids channels c = passes ids c.id && passes channels c.channel

abbrev pub is_unstarted : Workspace → Contact → Bool
is_unstarted w c = is_active c.status && (is_telegram c && not (has_started w c))

unfoldable pub count_audience_consent : Workspace → List Text → List Text → M ConsentCounts
unfolding query
count_audience_consent w ids channels = do
  query
  pure (record {
    total = tally (λ c. in_audience ids channels c) w.contacts;
    active_count = tally (λ c. is_active c.status && in_audience ids channels c) w.contacts;
    opted_out_count = tally (λ c. is_opted_out c.status && in_audience ids channels c) w.contacts;
    no_consent = tally (λ c. not (w.has_events c.id) && in_audience ids channels c) w.contacts;
  })

unfoldable pub count_audience_reachability : Workspace → List Text → List Text → M Reachability
unfolding query
count_audience_reachability w ids channels = do
  query
  pure (record {
    whatsapp_active =
        tally (λ c. is_active c.status && (is_whatsapp c && in_audience ids channels c)) w.contacts;
    telegram_active =
        tally (λ c. is_active c.status && (is_telegram c && in_audience ids channels c)) w.contacts;
    telegram_unstarted = tally (λ c. is_unstarted w c && in_audience ids channels c) w.contacts;
  })

unfoldable pub list_unstarted_telegram_contact_ids : Workspace → List Text → M (List Text)
unfolding query
list_unstarted_telegram_contact_ids w ids = do
  query
  pure (map (λ (c : Contact). c.id) (select (λ c. is_unstarted w c && passes ids c.id) w.contacts))

-- `ListByTenant(ctx, tenantID, "", limit, offset)`
unfoldable pub list_by_tenant : Workspace → ℕ → ℕ → M (List Contact)
unfolding query
list_by_tenant w limit offset = do query; pure (take limit (drop offset w.contacts))

unfoldable pub list_by_ids : Workspace → List Text → M (List Destination)
unfolding query
list_by_ids w ids = do query; pure (w.destinations_by_ids ids)
