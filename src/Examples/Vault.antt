-- ===== src/Examples/Vault.antt =====
-- Credentials under a small cipher: bytes in unary for base64, and the key before the text.
use omnipulse_backend.Base.{
  ℕ, zero, suc, Text, bytes, has_prefix, Option, none, some, [], ◌∷◌, ◌++◌, true, ◌==◌, ◌≡◌, refl,
  ◌+◌, all, take, drop, length, if◌then◌else◌, arith,
}
use omnipulse_backend.Vault.{Cipher, encrypt_bytes, decrypt_bytes}
use omnipulse_backend.Vault.Roundtrip.{
  IsCipher, is_base64, decrypt_bytes-encrypt_bytes, drop-append,
}
use omnipulse_backend.Examples.World.{plain_unicode}

abbrev unary : ℕ → Text → Text
unary zero t = b'/' ∷ t
unary (suc n) t = b'A' ∷ unary n t

abbrev unary_bytes : Text → Text
unary_bytes [] = []
unary_bytes (b ∷ t) = unary b (unary_bytes t)

abbrev prepend : ℕ → Option Text → Option Text
prepend n none = none
prepend n (some t) = some (n ∷ t)

abbrev read_unary : ℕ → Text → Option Text
read_unary zero [] = some []
read_unary (suc n) [] = none
read_unary n (b ∷ t) =
    let next = read_unary (suc n) t in
    let rest = read_unary 0 t in
    if b == b'A' then next else if b == b'/' then prepend n rest else none

read_unary-unary :
    (k n : ℕ) (t : Text) → read_unary n (unary k t) ≡ prepend (k + n) (read_unary 0 t)
read_unary-unary zero n t = ground arith
read_unary-unary (suc k) n t = ground (arith, read_unary-unary k (suc n) t)

read_unary-bytes : (t : Text) → read_unary 0 (unary_bytes t) ≡ some t
read_unary-bytes [] = refl
read_unary-bytes (b ∷ t) = ground (arith, read_unary-unary b 0 (unary_bytes t), read_unary-bytes t)

unary-alphabet : (n : ℕ) (t : Text) → all is_base64 t ≡ true → all is_base64 (unary n t) ≡ true
unary-alphabet zero t h = h
unary-alphabet (suc n) t h = unary-alphabet n t h

unary_bytes-alphabet : (t : Text) → all is_base64 (unary_bytes t) ≡ true
unary_bytes-alphabet [] = refl
unary_bytes-alphabet (b ∷ t) = unary-alphabet b (unary_bytes t) (unary_bytes-alphabet t)

has_prefix-append : (s t : Text) → has_prefix (s ++ t) s ≡ true
has_prefix-append [] t = refl
has_prefix-append (b ∷ s) t = ground (arith, has_prefix-append s t)

abbrev keyed : Cipher
keyed = record {
  sha256 = take 4;
  nonce_size = 2;
  seal = λ key random plain. key ++ plain;
  unseal = λ key random t. (if has_prefix t key then some (drop (length key) t) else none);
  encode = unary_bytes;
  decode = read_unary 0;
}

keyed-IsCipher : IsCipher keyed
keyed-IsCipher = record {
  unseal-seal =
      λ key random plain. (ground (arith, has_prefix-append key plain, drop-append key plain));
  decode-encode = read_unary-bytes;
  encode_alphabet = unary_bytes-alphabet;
}

decrypt_bytes-encrypt_bytes_example :
    (text : Text) × (encrypt_bytes keyed (some (bytes "xy")) (bytes "token") (bytes "master")
      ≡ some text)
    × (decrypt_bytes keyed text (bytes "master") ≡ some (bytes "token"))
decrypt_bytes-encrypt_bytes_example =
    decrypt_bytes-encrypt_bytes keyed keyed-IsCipher (bytes "xy") (bytes "token") (bytes "master")
      refl
