-- ===== src/RateLimit/Rules.antt =====
-- The classes of traffic that are limited, and which rule a request falls under:
-- apps/api-gateway/internal/handler/ratelimit.go. Times are nanoseconds.
use omnipulse_backend.Base.{
  ℕ, Text, bytes, text_eq, has_prefix, Bool, Option, none, some, List, [], ◌∷◌, reverse, ◌&&◌, ◌||◌,
  if◌then◌else◌, true, false,
}

pub data Method : Type 0 where
  get post put patch delete : Method

abbrev is_get : Method → Bool
is_get get = true
is_get _ = false

abbrev is_post : Method → Bool
is_post post = true
is_post _ = false

abbrev is_delete : Method → Bool
is_delete delete = true
is_delete _ = false

-- `rateLimitRule`
pub record Rule : Type 0 where
  pub class : Text
  pub matches : Method → Text → Bool
  pub limit : ℕ
  pub window : ℕ

-- `strings.HasSuffix`
abbrev has_suffix : Text → Text → Bool
has_suffix t s = has_prefix (reverse t) (reverse s)

abbrev minute : ℕ
minute = 60000000000

abbrev reviews : Text
reviews = bytes "/api/v1/public/reviews/"

abbrev per_minute : Text → ℕ → (Method → Text → Bool) → Rule
per_minute class limit matches = record {
  class = class;
  matches = matches;
  limit = limit;
  window = minute;
}

-- `defaultRateLimitRules`
unfoldable pub default_rules : List Rule
unfolding text_eq
default_rules =
    per_minute (bytes "review-decision") 10
      (λ m p. is_post m && (has_prefix p reviews && has_suffix p (bytes "/decision")))
    ∷ per_minute (bytes "review-outcome-csv") 10
        (λ m p. is_get m && (has_prefix p reviews && has_suffix p (bytes "/outcome.csv")))
    ∷ per_minute (bytes "review-read") 60 (λ m p. is_get m && has_prefix p reviews)
    ∷ per_minute (bytes "invitation-accept") 10
        (λ m p. is_post m && text_eq p (bytes "/api/v1/invitations/accept"))
    ∷ per_minute (bytes "invitation-preview") 30
        (λ m p. is_get m && has_prefix p (bytes "/api/v1/invitations/preview"))
    ∷ per_minute (bytes "auth-sync") 60 (λ m p. is_post m && text_eq p (bytes "/api/v1/auth/sync"))
    ∷ per_minute (bytes "contact-import") 10
        (λ m p. is_post m && text_eq p (bytes "/api/v1/contacts/import"))
    ∷ per_minute (bytes "contact-mutation") 30
        (λ m p. is_delete m && has_prefix p (bytes "/api/v1/contacts/"))
    ∷ per_minute (bytes "export") 10 (λ m p.
      is_get m && (has_suffix p (bytes "/export") || has_suffix p (bytes "/consent-export")))
    ∷ []

-- `ruleFor`
unfoldable pub rule_for : List Rule → Method → Text → Option Rule
rule_for [] m p = none
rule_for (r ∷ rs) m p = if r.matches m p then some r else rule_for rs m p
