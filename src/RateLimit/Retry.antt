-- ===== src/RateLimit/Retry.antt =====
-- What a client that is refused may rely on.
use omnipulse_backend.Base.{
  ℕ, ◌+◌, ◌*◌, ◌≤◌, Text, bytes, text_eq_refl, true, some, Option-cases, List, ◌++◌, ◌≡◌, refl, ◌⊎◌,
  inl, inr, arith,
}
use omnipulse_backend.RateLimit.Rules.{Method, Rule, rule_for}
use omnipulse_backend.RateLimit.Limiter.{
  Bucket, Limiter, lookup, expired, sweep, Verdict, allowed, refused, serve, allow, retry_seconds,
  too_many, middleware, renewed, fresh_bucket,
}
use omnipulse_backend.RateLimit.Window.{lookup-replace}

Verdict-cases : (v : Verdict) → (v ≡ allowed) ⊎ ((wait : ℕ) × (v ≡ refused wait))
Verdict-cases allowed = inl refl
Verdict-cases (refused wait) = inr (wait, refl)

-- The client waits long enough, and at least a second.
retry_seconds-enough :
    (wait : ℕ) → (wait ≤ retry_seconds wait * 1000000000) × (1 ≤ retry_seconds wait)
retry_seconds-enough wait = ground arith

-- Why a request is refused: its key has a bucket that is spent, and that ends after the wait.
serve-refused :
    (key : Text) (rule : Rule) (now wait : ℕ) (l : Limiter)
    → (serve key rule now l).0 ≡ refused wait
    → (b : Bucket) × (lookup key (serve key rule now l).1.buckets ≡ some b)
      × (rule.limit ≤ b.count)
      × (b.reset_at ≤ now + wait)
serve-refused key rule now wait l h = elim (Option-cases (lookup key l.buckets)) [
  | inl absent ↦ (
    fresh_bucket now rule,
    ground (arith, absent, h, text_eq_refl key),
    ground (arith, absent, h),
    ground (arith, absent, h),
  )
  | inr (b, found) ↦ (
    renewed now rule b,
    ground (arith, found, h, lookup-replace key b (renewed now rule b) l.buckets found),
    ground (arith, found, h),
    ground (arith, found, h),
  )
]

-- A request that is answered with status 429 falls under a rule whose limit its address has used
-- up, and the seconds of `Retry-After`, at least one, take it past the end of that window.
pub middleware-refused :
    (rules : List Rule) (method : Method) (path ip : Text) (now seconds : ℕ) (l : Limiter)
    → (middleware rules method path ip now l).0 ≡ too_many seconds
    → (rule : Rule) × (b : Bucket) × (rule_for rules method path ≡ some rule)
      × (lookup (rule.class ++ (bytes "|" ++ ip)) (middleware rules method path ip now l).1.buckets
          ≡ some b)
      × (rule.limit ≤ b.count)
      × (expired (now + seconds * 1000000000) b ≡ true)
      × (1 ≤ seconds)
unfolding middleware allow
middleware-refused rules method path ip now seconds l h =
    elim (Option-cases (rule_for rules method path)) [
      | inl free ↦ ground (arith, h, free)
      | inr (rule, e) ↦
          let key = rule.class ++ (bytes "|" ++ ip) in
          let m = sweep now rule.window l in
          elim (Verdict-cases (serve key rule now m).0) [
            | inl passed ↦ ground (arith, h, e, passed)
            | inr (wait, f) ↦
                let (b, found, spent, ends) = serve-refused key rule now wait m f in
                let told : seconds ≡ retry_seconds wait = ground (arith, h, e, f) in
                (
                  rule,
                  b,
                  e,
                  ground (arith, e, found),
                  spent,
                  ground (arith, ends, told, retry_seconds-enough wait),
                  ground (arith, told, retry_seconds-enough wait),
                )
          ]
    ]
