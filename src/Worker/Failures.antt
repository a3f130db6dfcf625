-- ===== src/Worker/Failures.antt =====
-- classifyDeliveryError of worker/broadcast_sub.go, which both workers have: the code of a failure,
-- and whether it is worth another try.
use omnipulse_backend.Base.{
  ℕ, Text, bytes, Unicode, to_lower, contains, Bool, true, false, ◌&&◌, ◌||◌, leb, ◌==◌,
  if◌then◌else◌,
}

module _ ⦃uni : Unicode⦄ where
  -- `invalidNumber`, on a text in small letters.
  unfoldable pub invalid_number : Text → Bool
  unfolding contains
  invalid_number lower =
      (contains lower (bytes "invalid")
        && (contains lower (bytes "number")
            || (contains lower (bytes "phone") || contains lower (bytes "recipient"))))
      || contains lower (bytes "not a valid whatsapp")

  unfoldable pub classify_delivery_error : Text → ℕ → Bool → Text × Bool
  unfolding contains to_lower invalid_number
  classify_delivery_error message http_status transient =
      let lower = to_lower message in
      if contains lower (bytes "opted out")
        || (contains lower (bytes "suppressed") || contains lower (bytes "compliance"))
      then (bytes "blocked", false)
      else if contains lower (bytes "unsupported platform")
          || contains lower (bytes "no delivery adapter")
      then (bytes "unsupported", false)
      else if contains lower (bytes "expired") || contains lower (bytes "window closed")
      then (bytes "window_expired", false)
      else if invalid_number lower
      then (bytes "invalid_number", false)
      else if (http_status == 429)
          || (contains lower (bytes "rate limit") || contains lower (bytes "too many"))
      then (bytes "rate_limited", true)
      else if leb 500 http_status || (transient || contains lower (bytes "network error"))
      then (bytes "provider_error", true)
      else (bytes "provider_error", false)
