-- ===== src/Vault.antt =====
-- apps/api-gateway/internal/utils/crypto.go: the credentials of channels, encrypted in the database.
-- SHA-256, AES-GCM and base64 are the record `Cipher`; a random nonce is an argument, `none`
-- where the source of random bytes fails.
use omnipulse_backend.Base.{
  ℕ, Text, bytes, Unicode, trim_space, trim_prefix, has_prefix, Bool, true, false, Option, none,
  some, List, [], ◌∷◌, ◌++◌, reverse, length, take, drop, ltb, ◌==◌, is_empty, if◌then◌else◌,
}
pub mod Roundtrip

pub record Cipher : Type 0 where
  pub sha256 : Text → Text
  pub nonce_size : ℕ
  -- With a key and a nonce.
  pub seal : Text → Text → Text → Text
  pub unseal : Text → Text → Text → Option Text
  pub encode : Text → Text
  pub decode : Text → Option Text

-- `EncryptionPrefix`
abbrev pub encryption_prefix : Text
encryption_prefix = bytes "enc:v1:"

-- `defaultFallback`
abbrev pub default_fallback : Text
default_fallback = bytes "messagerail-default-aes256-internal-secret-key-2026"

abbrev pub quote : ℕ
quote = 34

abbrev pub drop_quotes : Text → Text
drop_quotes [] = []
drop_quotes (b ∷ t) = if b == quote then drop_quotes t else b ∷ t

-- `strings.Trim(s, "\"")`
unfoldable pub trim_quotes : Text → Text
trim_quotes t = reverse (drop_quotes (reverse (drop_quotes t)))

module _ ⦃uni : Unicode⦄ (c : Cipher) where
  unfoldable pub derive_key : Text → Text
  derive_key key = c.sha256 (if is_empty (trim_space key) then default_fallback else key)

  -- `none` is an error.
  unfoldable pub encrypt_bytes : Option Text → Text → Text → Option Text
  encrypt_bytes random [] secret = some []
  encrypt_bytes none (b ∷ plain) secret = none
  encrypt_bytes (some random) (b ∷ plain) secret =
      let sealed = random ++ c.seal (derive_key secret) random (b ∷ plain) in
      some (quote ∷ (encryption_prefix ++ c.encode sealed) ++ quote ∷ [])

  unfoldable pub open_sealed : Text → Text → Option Text
  open_sealed secret raw =
      if ltb (length raw) c.nonce_size
      then none
      else c.unseal (derive_key secret) (take c.nonce_size raw) (drop c.nonce_size raw)

  unfoldable pub decrypt_bytes : Text → Text → Option Text
  unfolding open_sealed
  decrypt_bytes [] secret = some []
  decrypt_bytes (b ∷ text) secret =
      let data_text = trim_quotes (trim_space (b ∷ text)) in
      if has_prefix data_text encryption_prefix
      then elim (c.decode (trim_prefix data_text encryption_prefix)) [
        | none ↦ none
        | some raw ↦ open_sealed secret raw
      ]
      else some (b ∷ text)
