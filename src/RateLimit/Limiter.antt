-- ===== src/RateLimit/Limiter.antt =====
-- The fixed-window limiter of apps/api-gateway/internal/handler/ratelimit.go: its map of buckets is
-- a list of pairs, and its mutex makes each call one step.
use omnipulse_backend.Base.{
  ℕ, suc, ◌+◌, ◌-◌, ◌/◌, Text, bytes, text_eq, Bool, Option, none, some, List, [], ◌∷◌, ◌++◌, ltb,
  leb, length, if◌then◌else◌,
}
use omnipulse_backend.RateLimit.Rules.{Method, Rule, rule_for}

-- `rateLimitBucket`
pub record Bucket : Type 0 where
  pub count : ℕ
  pub reset_at : ℕ

-- `IPRateLimiter`
pub record Limiter : Type 0 where
  pub buckets : List (Text × Bucket)
  pub last_sweep : ℕ
  pub max_keys : ℕ

abbrev pub lookup : Text → List (Text × Bucket) → Option Bucket
lookup key [] = none
lookup key ((k, b) ∷ rest) = if text_eq k key then some b else lookup key rest

-- The bucket of a key that is in the map.
abbrev pub replace : Text → Bucket → List (Text × Bucket) → List (Text × Bucket)
replace key b [] = []
replace key b ((k, c) ∷ rest) = if text_eq k key then (k, b) ∷ rest else (k, c) ∷ replace key b rest

-- `!now.Before(bucket.resetAt)`
abbrev pub expired : ℕ → Bucket → Bool
expired now b = leb b.reset_at now

abbrev pub live : ℕ → List (Text × Bucket) → List (Text × Bucket)
live now [] = []
live now ((k, b) ∷ rest) = if expired now b then live now rest else (k, b) ∷ live now rest

-- `sweepLocked`
unfoldable pub sweep : ℕ → ℕ → Limiter → Limiter
sweep now window l =
    if ltb (now - l.last_sweep) window
    then l
    else record l { buckets = live now l.buckets; last_sweep = now }

-- The answer: whether to let the request pass, and else how long to wait.
pub data Verdict : Type 0 where
  allowed : Verdict
  refused : ℕ → Verdict

abbrev pub fresh_bucket : ℕ → Rule → Bucket
fresh_bucket now rule = record { count = 0; reset_at = now + rule.window }

-- `bucket.count >= rule.limit`, and the count of one request more.
abbrev pub spend : ℕ → Rule → Bucket → Verdict × Bucket
spend now rule b =
    if leb rule.limit b.count
    then (refused (b.reset_at - now), b)
    else (allowed, record b { count = suc b.count })

-- A bucket whose window has ended starts a new one.
abbrev pub renewed : ℕ → Rule → Bucket → Bucket
renewed now rule b = if expired now b then fresh_bucket now rule else b

-- The part of `allow` after the sweep.
abbrev pub serve : Text → Rule → ℕ → Limiter → Verdict × Limiter
serve key rule now l = elim (lookup key l.buckets) [
  | some b ↦
      let (v, c) = spend now rule (renewed now rule b) in
      (v, record l { buckets = replace key c l.buckets })
  | none ↦
      let (v, c) = spend now rule (fresh_bucket now rule) in
      if leb l.max_keys (length l.buckets)
      then (allowed, l)
      else (v, record l { buckets = (key, c) ∷ l.buckets })
]

unfoldable pub allow : Text → Rule → ℕ → Limiter → Verdict × Limiter
unfolding sweep
allow key rule now l = serve key rule now (sweep now rule.window l)

-- What the client gets: the next handler's answer, or status 429 with `Retry-After` in seconds.
pub data Reply : Type 0 where
  passed_on : Reply
  too_many : ℕ → Reply

-- `math.Ceil` of the seconds, and at least 1.
abbrev pub retry_seconds : ℕ → ℕ
retry_seconds wait =
    let seconds = (wait + 999999999) / 1000000000 in if ltb seconds 1 then 1 else seconds

abbrev pub reply_of : Verdict → Reply
reply_of allowed = passed_on
reply_of (refused wait) = too_many (retry_seconds wait)

-- `Middleware`, for a request from an address at a time.
unfoldable pub middleware : List Rule → Method → Text → Text → ℕ → Limiter → Reply × Limiter
middleware rules method path ip now l = elim (rule_for rules method path) [
  | none ↦ (passed_on, l)
  | some rule ↦ let (v, m) = allow (rule.class ++ (bytes "|" ++ ip)) rule now l in (reply_of v, m)
]
