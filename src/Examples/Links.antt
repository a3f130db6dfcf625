-- ===== src/Examples/Links.antt =====
-- The theorems on review links, applied to one campaign, with texts for their own hashes.
use omnipulse_backend.Base.{
  ℕ, ◌+◌, ◌≤◌, ◌<◌, pos, Text, bytes, text_eq, trim_space, is_ascii, ascii_trim, true, none, some,
  List, [], ◌∷◌, ◌≡◌, ◌≢◌, refl, arith,
}
use omnipulse_backend.Base.State.{ok}
use omnipulse_backend.Campaign.Types.{Campaign}
use omnipulse_backend.Campaign.Store.{Store}
use omnipulse_backend.Review.Portal.{Token, resolve_token}
use omnipulse_backend.Review.LinkStore.{Desk, ask, revoke_token, tokens_of, create_token, add_token}
use omnipulse_backend.Review.Links.{
  ReviewLink, ttl_max, mint_link, create_link, generate_review_token,
}
use omnipulse_backend.Review.LinkRuns.{Command, makes, notifies, revokes, later, run}
use omnipulse_backend.Review.Lasting.{Resolves, create_link-Resolves, revoke_token-final}
use omnipulse_backend.Examples.World.{plain_unicode, holding}
use omnipulse_backend.Examples.Campaigns.{acme, the_sale, approved_row}

abbrev own_hash : Text → Text
own_hash t = t

abbrev desk : Desk
desk = record {
  links = [];
  ids = λ n. (b'i' + n) ∷ [];
  drawn = 0;
  randoms = λ n. some ((b'r' + n) ∷ []);
  rolled = 0;
  mails = [];
  faults = [];
  now = 100;
}

abbrev brand_link : ReviewLink
brand_link = record { raw = bytes "r"; label = bytes "Brand"; expires_at = 259200000000100 }

abbrev made_link : Token
made_link = record {
  id = bytes "i";
  tenant_id = acme;
  campaign_id = the_sale;
  label = bytes "Brand";
  expires_at = 259200000000100;
  revoked_at = none;
}

abbrev later_links : List Command
later_links =
    makes (some approved_row) (bytes "Boss") (bytes "ann") (pos 9)
    ∷ later 900 (true ∷ [])
    ∷ notifies true approved_row (bytes "ann")
    ∷ revokes acme the_sale (bytes "j")
    ∷ []

abbrev shop_at : ℕ → Store
shop_at now = record (holding approved_row [] []) { now = now; faults = [] }

create_link-Resolves_example :
    let end = create_link own_hash (some approved_row) (bytes "Brand") (bytes "ann") (pos 3) desk in
    ((c : Campaign) × (some approved_row ≡ some c)
      × Resolves own_hash c brand_link (run own_hash later_links end.1) (shop_at 5000))
    × ((100 < 259200000000100) × (259200000000100 ≤ 100 + ttl_max))
unfolding create_link mint_link generate_review_token create_token add_token ask text_eq trim_space
    is_ascii ascii_trim
create_link-Resolves_example =
    create_link-Resolves own_hash (some approved_row) (bytes "Brand") (bytes "ann") (pos 3) desk
      brand_link later_links (shop_at 5000) refl (refl, refl) refl (omega arith)

abbrev held_desk : Desk
held_desk = record desk {
  links =
      record { token = made_link; hash = bytes "r"; recipient_email = []; created_by = bytes "ann" }
      ∷ [];
}

revoke_token-final_example :
    let end = (revoke_token acme the_sale (bytes "i") held_desk).1 in
    let links = (run own_hash later_links end).links in
    (resolve_token (tokens_of own_hash links) (bytes "r") (shop_at 5000)).0 ≢ ok made_link
unfolding revoke_token ask text_eq trim_space is_ascii ascii_trim
revoke_token-final_example =
    revoke_token-final own_hash made_link (bytes "r") held_desk later_links (shop_at 5000) made_link
      refl refl
