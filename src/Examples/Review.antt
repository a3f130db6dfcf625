-- ===== src/Examples/Review.antt =====
-- The theorems on the answers of brands, applied.
use omnipulse_backend.Base.{
  Text, bytes, text_eq, is_ascii, ascii_trim, trim_space, some, none, [], ◌≡◌, ◌≢◌, ◌⊎◌, ◌∷◌, true,
  false, refl, inl, arith, if◌then◌else◌,
}
use omnipulse_backend.Campaign.Types.{Campaign, pending_approval, brand_approved, changes_requested}
use omnipulse_backend.Campaign.Store.{Store, ok, query, find}
use omnipulse_backend.Campaign.Lifecycle.{approve, schedule_campaign}
use omnipulse_backend.Campaign.Dispatch.{trigger_dispatch}
use omnipulse_backend.Review.Portal.{Token, Tokens, resolve_token, answer, answer_event}
use omnipulse_backend.Review.Answers.{answer-objects}
use omnipulse_backend.Examples.World.{plain_unicode, sample_json, shop, sale, holding}
use omnipulse_backend.Examples.Campaigns.{acme, the_sale, owner, approved_row, approved_sale}
use omnipulse_backend.Review.Order.{answer-recorded}

abbrev link : Token
link = record {
  id = bytes "l1";
  tenant_id = acme;
  campaign_id = the_sale;
  label = bytes "Brand";
  expires_at = 900;
  revoked_at = none;
}

abbrev links : Tokens
links raw = if text_eq raw (bytes "secret") then some link else none

resolves : (resolve_token links (bytes "secret ") approved_sale).0 ≡ ok link
unfolding text_eq resolve_token query trim_space is_ascii ascii_trim
resolves = refl

abbrev waiting_row : Campaign
waiting_row = sale pending_approval (bytes "[telegram]") (bytes "[]")

abbrev waiting_sale : Store
waiting_sale = holding waiting_row [] []

abbrev objection : Text
objection = bytes "the price is wrong"

answer-objects_example :
    let u = (answer link changes_requested objection [] approved_sale).1 in
    ((approve owner acme the_sale owner u).0 ≢ ok tt)
    × ((schedule_campaign owner acme the_sale 500 u).0 ≢ ok tt)
    × ((trigger_dispatch shop owner acme the_sale u).0 ≢ ok tt)
unfolding text_eq find
answer-objects_example =
    answer-objects link objection [] approved_sale approved_row shop owner owner 500 refl
      (omega arith, tt) (inl refl) refl refl

-- The second statement, the one that records, fails.
abbrev failing_sale : Store
failing_sale = record waiting_sale { faults = false ∷ true ∷ [] }

answer-recorded_example :
    let u = (answer link brand_approved [] [] failing_sale).1 in
    (u.rows ≡ failing_sale.rows)
    ⊎ (u.events
        ≡ record (answer_event link brand_approved [] []) { created_at = failing_sale.now }
          ∷ failing_sale.events)
answer-recorded_example = answer-recorded link brand_approved [] [] failing_sale
