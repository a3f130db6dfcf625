-- ===== src/RateLimit/Window.antt =====
-- What the limiter guarantees, in any order of requests from any addresses.
use omnipulse_backend.Base.{
  ℕ, suc, ◌+◌, ◌-◌, ◌≤◌, ◌<◌, Text, text_eq, text_eq_iff, true, false, some, Option-cases,
  Bool-cases, List, [], ◌∷◌, leb, length, ◌≡◌, refl, sym, subst, ◌∙◌, ◌⊎◌, inl, inr, arith,
  if◌then◌else◌,
}
use omnipulse_backend.RateLimit.Rules.{Rule}
use omnipulse_backend.RateLimit.Limiter.{
  Bucket, Limiter, lookup, replace, expired, live, sweep, Verdict, allowed, refused, serve, allow,
  spend, renewed,
}

live-length : (now : ℕ) (bs : List (Text × Bucket)) → length (live now bs) ≤ length bs
live-length now [] = omega arith
live-length now ((k, b) ∷ rest) = ground (arith, live-length now rest)

replace-length :
    (key : Text) (b : Bucket) (bs : List (Text × Bucket)) → length (replace key b bs) ≡ length bs
replace-length key b [] = refl
replace-length key b ((k, c) ∷ rest) = ground (arith, replace-length key b rest)

lookup-live :
    (key : Text) (now : ℕ) (b : Bucket) (bs : List (Text × Bucket))
    → lookup key bs ≡ some b
    → expired now b ≡ false
    → lookup key (live now bs) ≡ some b
lookup-live key now b [] h k = ground arith
lookup-live key now b ((j, c) ∷ rest) h k = ground (arith, lookup-live key now b rest)

pub lookup-replace :
    (key : Text) (b c : Bucket) (bs : List (Text × Bucket))
    → lookup key bs ≡ some b
    → lookup key (replace key c bs) ≡ some c
lookup-replace key b c [] h = ground arith
lookup-replace key b c ((j, d) ∷ rest) h = ground (arith, lookup-replace key b c rest)

lookup-other :
    (key other : Text) (c : Bucket) (bs : List (Text × Bucket))
    → text_eq other key ≡ false
    → lookup key (replace other c bs) ≡ lookup key bs
lookup-other key other c [] h = refl
lookup-other key other c ((j, d) ∷ rest) h = ground (
  arith,
  lookup-other key other c rest h,
  text_eq_iff j key,
  text_eq_iff j other,
  text_eq_iff other key,
)

sweep-keeps :
    (key : Text) (now window : ℕ) (l : Limiter) (b : Bucket)
    → lookup key l.buckets ≡ some b
    → expired now b ≡ false
    → lookup key (sweep now window l).buckets ≡ some b
unfolding sweep
sweep-keeps key now window l b h k = ground (arith, lookup-live key now b l.buckets h k)

sweep-bounded :
    (now window : ℕ) (l : Limiter)
    → length l.buckets ≤ l.max_keys
    → (length (sweep now window l).buckets ≤ l.max_keys)
      × ((sweep now window l).max_keys ≡ l.max_keys)
unfolding sweep
sweep-bounded now window l h = ground (arith, live-length now l.buckets, h)

serve-bounded :
    (key : Text) (rule : Rule) (now : ℕ) (l : Limiter)
    → length l.buckets ≤ l.max_keys
    → (length (serve key rule now l).1.buckets ≤ l.max_keys)
      × ((serve key rule now l).1.max_keys ≡ l.max_keys)
serve-bounded key rule now l h = elim (Option-cases (lookup key l.buckets)) [
  | inl absent ↦ ground (arith, h)
  | inr (b, found) ↦
      ground (arith, h, replace-length key (spend now rule (renewed now rule b)).1 l.buckets)
]

-- The map of buckets never outgrows its limit.
pub allow-bounded :
    (key : Text) (rule : Rule) (now : ℕ) (l : Limiter)
    → length l.buckets ≤ l.max_keys
    → (length (allow key rule now l).1.buckets ≤ (allow key rule now l).1.max_keys)
      × ((allow key rule now l).1.max_keys ≡ l.max_keys)
unfolding allow
allow-bounded key rule now l h =
    let (a, b) = sweep-bounded now rule.window l h in
    let (c, d) = serve-bounded key rule now (sweep now rule.window l) (omega (arith, a, b)) in
    (omega (arith, c, d), d ∙ b)

-- A request, by its key, its rule and its time.
pub record Call : Type 0 where
  pub key : Text
  pub rule : Rule
  pub at : ℕ

abbrev counts : Verdict → ℕ
counts allowed = 1
counts (refused wait) = 0

-- How many requests with a key are let pass, and how many there are.
abbrev pub granted_to : Text → List Call → Limiter → ℕ
granted_to key [] l = 0
granted_to key (c ∷ cs) l =
    let (v, m) = allow c.key c.rule c.at l in
    (if text_eq c.key key then counts v else 0) + granted_to key cs m

abbrev pub asked_by : Text → List Call → ℕ
asked_by key [] = 0
asked_by key (c ∷ cs) = (if text_eq c.key key then 1 else 0) + asked_by key cs

-- A request with another key leaves a bucket whose window lasts.
serve-other :
    (key : Text) (c : Call) (l : Limiter) (b : Bucket)
    → lookup key l.buckets ≡ some b
    → text_eq c.key key ≡ false
    → lookup key (serve c.key c.rule c.at l).1.buckets ≡ some b
serve-other key c l b h other = elim (Option-cases (lookup c.key l.buckets)) [
  | inl absent ↦ ground (arith, h, other)
  | inr (d, found) ↦ ground (
    arith,
    h,
    other,
    lookup-other key c.key (spend c.at c.rule (renewed c.at c.rule d)).1 l.buckets other,
  )
]

-- A request with the bucket's key, in its window.
serve-own :
    (c : Call) (l : Limiter) (b : Bucket)
    → lookup c.key l.buckets ≡ some b
    → expired c.at b ≡ false
    → ((c.rule.limit ≤ b.count)
        × ((serve c.key c.rule c.at l).0 ≡ refused (b.reset_at - c.at))
        × (lookup c.key (serve c.key c.rule c.at l).1.buckets ≡ some b))
      ⊎ ((b.count < c.rule.limit)
          × ((serve c.key c.rule c.at l).0 ≡ allowed)
          × (lookup c.key (serve c.key c.rule c.at l).1.buckets
              ≡ some (record b { count = suc b.count })))
serve-own c l b h lasts = elim (Bool-cases (leb c.rule.limit b.count)) [
  | inl spent ↦
      inl (ground arith, ground arith, ground (arith, lookup-replace c.key b b l.buckets h))
  | inr left ↦ inr (
    ground arith,
    ground arith,
    ground (arith, lookup-replace c.key b (record b { count = suc b.count }) l.buckets h),
  )
]

abbrev Served : Text → Call → Limiter → Bucket → Type 0
Served key c l b =
    ((c.rule.limit ≤ b.count)
      × ((serve c.key c.rule c.at l).0 ≡ refused (b.reset_at - c.at))
      × (lookup key (serve c.key c.rule c.at l).1.buckets ≡ some b))
    ⊎ ((b.count < c.rule.limit)
        × ((serve c.key c.rule c.at l).0 ≡ allowed)
        × (lookup key (serve c.key c.rule c.at l).1.buckets
            ≡ some (record b { count = suc b.count })))

serve-key :
    (key : Text) (c : Call) (l : Limiter) (b : Bucket)
    → lookup key l.buckets ≡ some b
    → expired c.at b ≡ false
    → text_eq c.key key ≡ true
    → Served key c l b
serve-key key c l b h lasts same =
    let e : c.key ≡ key = (text_eq_iff c.key key).0 same in
    subst (λ (k : Text). Served k c l b) e
      (serve-own c l b (subst (λ (k : Text). lookup k l.buckets ≡ some b) (sym e) h) lasts)

-- The requests of a window of one key, all by rules of one limit.
abbrev pub InWindow : Text → ℕ → ℕ → List Call → Type 0
InWindow key limit reset_at [] = Unit
InWindow key limit reset_at (c ∷ cs) =
    (c.at < reset_at)
    × ((text_eq c.key key ≡ false) ⊎ (c.rule.limit ≡ limit))
    × InWindow key limit reset_at cs

not_expired : (now : ℕ) (b : Bucket) → now < b.reset_at → expired now b ≡ false
not_expired now b h = ground arith

-- As long as the window of a key's bucket lasts, whatever other requests come in between: the key's
-- requests are let pass one by one until the limit is reached, and never above it. So either all of
-- them were let pass, or exactly as many as the limit had left.
pub granted_to-exact :
    (key : Text) (limit : ℕ) (calls : List Call) (l : Limiter) (b : Bucket)
    → lookup key l.buckets ≡ some b
    → InWindow key limit b.reset_at calls
    → (granted_to key calls l ≤ limit - b.count)
      × ((granted_to key calls l ≡ asked_by key calls) ⊎ (granted_to key calls l ≡ limit - b.count))
unfolding allow
granted_to-exact key limit [] l b h w = (omega arith, inl refl)
granted_to-exact key limit (c ∷ cs) l b h (soon, same, w) =
    let m = sweep c.at c.rule.window l in
    let kept : lookup key m.buckets ≡ some b =
      sweep-keeps key c.at c.rule.window l b h (not_expired c.at b soon) in
    let n = (serve c.key c.rule c.at m).1 in
    elim (Bool-cases (text_eq c.key key)) [
      | inr other ↦
          let ih = granted_to-exact key limit cs n b (serve-other key c m b kept other) w in
          ground (arith, other, ih)
      | inl own ↦ elim (serve-key key c m b kept (not_expired c.at b soon) own) [
        | inl (spent, v, next) ↦
            let ih = granted_to-exact key limit cs n b next w in
            ground (arith, own, ih, same, spent, v)
        | inr (left, v, next) ↦
            let ih = granted_to-exact key limit cs n (record b { count = suc b.count }) next w in
            ground (arith, own, ih, same, left, v)
      ]
    ]
