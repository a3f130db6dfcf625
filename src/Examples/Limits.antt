-- ===== src/Examples/Limits.antt =====
-- The theorems on the rate limiter, applied.
use omnipulse_backend.Base.{
  ℕ, ◌+◌, ◌-◌, ◌≤◌, ◌*◌, Text, bytes, text_eq, true, some, [], ◌∷◌, ◌++◌, length, ◌≡◌, refl, ◌⊎◌,
  inr, arith,
}
use omnipulse_backend.RateLimit.Rules.{Rule, post, default_rules, rule_for}
use omnipulse_backend.RateLimit.Limiter.{
  Bucket, Limiter, lookup, expired, too_many, allow, middleware, sweep,
}
use omnipulse_backend.RateLimit.Window.{Call, granted_to, granted_to-exact, allow-bounded}
use omnipulse_backend.RateLimit.Retry.{middleware-refused}

abbrev import_rule : Rule
import_rule = record {
  class = bytes "contact-import";
  matches = λ m p. true;
  limit = 10;
  window = 60000000000;
}

abbrev key : Text
key = bytes "contact-import|10.0.0.1"

-- Nine of ten are used.
abbrev nearly : Bucket
nearly = record { count = 9; reset_at = 60000000000 }

abbrev limiter : Limiter
limiter = record { buckets = (key, nearly) ∷ []; last_sweep = 0; max_keys = 20000 }

abbrev call : ℕ → Call
call at = record { key = key; rule = import_rule; at = at }

granted_to-exact_example :
    (granted_to key (call 5 ∷ call 6 ∷ []) limiter ≤ 10 - 9)
    × ((granted_to key (call 5 ∷ call 6 ∷ []) limiter ≡ 2)
        ⊎ (granted_to key (call 5 ∷ call 6 ∷ []) limiter ≡ 1))
unfolding text_eq
granted_to-exact_example =
    granted_to-exact key 10 (call 5 ∷ call 6 ∷ []) limiter nearly refl
      (omega arith, inr refl, (omega arith, inr refl, tt))

allow-bounded_example :
    (length (allow key import_rule 5 limiter).1.buckets
      ≤ (allow key import_rule 5 limiter).1.max_keys)
    × ((allow key import_rule 5 limiter).1.max_keys ≡ 20000)
allow-bounded_example = allow-bounded key import_rule 5 limiter (omega arith)

abbrev spent : Limiter
spent = record limiter { buckets = (key, record { count = 10; reset_at = 60000000000 }) ∷ [] }

abbrev path : Text
path = bytes "/api/v1/contacts/import"

turned_away :
    (middleware default_rules post path (bytes "10.0.0.1") 500000000 spent).0 ≡ too_many 60
unfolding text_eq middleware default_rules rule_for allow sweep
turned_away = refl

middleware-refused_example :
    (rule : Rule) × (b : Bucket) × (rule_for default_rules post path ≡ some rule)
    × (lookup
          (rule.class ++ (bytes "|" ++ bytes "10.0.0.1"))
          (middleware default_rules post path (bytes "10.0.0.1") 500000000 spent).1.buckets
        ≡ some b)
    × (rule.limit ≤ b.count)
    × (expired (500000000 + 60 * 1000000000) b ≡ true)
    × (1 ≤ 60)
middleware-refused_example =
    middleware-refused default_rules post path (bytes "10.0.0.1") 500000000 60 spent turned_away
