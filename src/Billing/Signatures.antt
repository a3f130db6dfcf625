-- ===== src/Billing/Signatures.antt =====
-- VerifyWebhookSignature of apps/api-gateway/internal/service/stripe_service.go and of
-- paystack_service.go. What crypto/hmac computes, as the hexadecimal text that a signature is
-- compared with, is an argument. Times are seconds.
use omnipulse_backend.Base.{
  parse_digits, ℕ, ◌+◌, Text, bytes, text_eq, text_mem, Unicode, trim_space, Bool, false, Option,
  none, some, List, [], ◌∷◌, ◌++◌, ◌&&◌, ◌||◌, not, is_empty, ltb, leb, ◌==◌, reverse,
  if◌then◌else◌,
}

-- `strings.Split` by one byte.
unfoldable pub split_on : ℕ → Text → List Text
split_on sep [] = [] ∷ []
split_on sep (b ∷ t) = elim (split_on sep t) [
  | [] ↦ []
  | first ∷ rest ↦ if b == sep then [] ∷ first ∷ rest else (b ∷ first) ∷ rest
]

-- `strings.SplitN` by one byte into two parts: `none` where there is one part.
unfoldable pub cut_at : ℕ → Text → Option (Text × Text)
cut_at sep [] = none
cut_at sep (b ∷ t) =
    if b == sep
    then some ([], t)
    else elim (cut_at sep t) [ none ↦ none | some (left, right) ↦ some (b ∷ left, right) ]

-- `strconv.ParseInt` in base 10 and 64 bits, of a moment that a clock can have shown: those before
-- the epoch are as far off as no moment at all.
unfoldable pub parse_moment : Text → Option ℕ
unfolding parse_digits
parse_moment [] = none
parse_moment (b ∷ t) =
    let digits = if b == b'+' then t else b ∷ t in
    if is_empty digits then none else elim (parse_digits 0 digits) [
      | none ↦ none
      | some n ↦ if ltb n 9223372036854775808 then some n else none
    ]

-- What the header holds so far: the time, and the signatures, the last one first.
abbrev pub Signed : Type 0
Signed = Text × List Text

module _ ⦃uni : Unicode⦄ where
  unfoldable pub read_pair : Signed → Text → Signed
  unfolding trim_space cut_at text_eq
  read_pair (at, signatures) pair = elim (cut_at b'=' (trim_space pair)) [
    | none ↦ (at, signatures)
    | some (key, value) ↦
        if text_eq key (bytes "t")
        then (value, signatures)
        else if text_eq key (bytes "v1")
        then (at, value ∷ signatures)
        else (at, signatures)
  ]

  unfoldable pub read_pairs : Signed → List Text → Signed
  unfolding read_pair
  read_pairs signed [] = signed
  read_pairs signed (pair ∷ pairs) = read_pairs (read_pair signed pair) pairs

  -- Five minutes either way.
  abbrev pub is_near : ℕ → ℕ → Bool
  is_near now at = leb now (at + 300) && leb at (now + 300)

  -- `hmac secret payload`
  unfoldable pub verify_stripe_signature : (Text → Text → Text) → Text → ℕ → Text → Text → Bool
  unfolding read_pairs split_on parse_moment text_eq
  verify_stripe_signature hmac secret now body header =
      let (at, signatures) = read_pairs ([], []) (split_on b',' header) in
      if is_empty secret || (is_empty at || is_empty signatures)
      then false
      else elim (parse_moment at) [
        | none ↦ false
        | some moment ↦
            is_near now moment
            && text_mem (hmac secret (at ++ (bytes "." ++ body))) (reverse signatures)
      ]

unfoldable pub verify_paystack_signature : (Text → Text → Text) → Text → Text → Text → Bool
unfolding text_eq
verify_paystack_signature hmac secret body header =
    not (is_empty secret) && (not (is_empty header) && text_eq header (hmac secret body))
