-- ===== src/Vault/Roundtrip.antt =====
-- What was encrypted is decrypted.
use mathlib.Core.List.{reverse-append, reverse-reverse, reverse-cons}
use omnipulse_backend.Base.{
  ℕ, Text, bytes, Unicode, trim_space, ascii_trim, is_ascii, trim_prefix, Bool, true, some, [], ◌∷◌,
  ◌++◌, ◌&&◌, ◌||◌, not, reverse, drop_space, length, length-append, take, drop, all, ltb, leb,
  ◌==◌, ◌≡◌, refl, ap, sym, ◌∙◌, arith,
}
use omnipulse_backend.Vault.{
  Cipher, encryption_prefix, quote, drop_quotes, trim_quotes, derive_key, encrypt_bytes,
  open_sealed, decrypt_bytes,
}

-- The alphabet of base64.
abbrev pub is_base64 : ℕ → Bool
is_base64 b =
    (leb b'A' b && leb b b'Z')
    || ((leb b'a' b && leb b b'z')
        || ((leb b'0' b && leb b b'9') || ((b == b'+') || ((b == b'/') || (b == b'=')))))

-- What the libraries promise: a nonce has its size, what was sealed is opened with the same key and
-- nonce, and base64 can be read back and has an alphabet.
pub record IsCipher (c : Cipher) : Type 0 where
  pub unseal-seal :
      (key random plain : Text) → c.unseal key random (c.seal key random plain) ≡ some plain
  pub decode-encode : (t : Text) → c.decode (c.encode t) ≡ some t
  pub encode_alphabet : (t : Text) → all is_base64 (c.encode t) ≡ true

abbrev is_clean : ℕ → Bool
is_clean b = ltb b 128 && not (b == quote)

all-append : (p : ℕ → Bool) (s t : Text) → all p (s ++ t) ≡ (all p s && all p t)
all-append p [] t = refl
all-append p (b ∷ s) t = ground (arith, all-append p s t)

all-reverse : (p : ℕ → Bool) (t : Text) → all p (reverse t) ≡ all p t
all-reverse p [] = refl
all-reverse p (b ∷ t) =
    ap (λ (x : Text). all p x) (reverse-cons b t)
    ∙ (all-append p (reverse t) (b ∷ []) ∙ ground (arith, all-reverse p t))

base64-clean : (t : Text) → all is_base64 t ≡ true → all is_clean t ≡ true
base64-clean [] h = refl
base64-clean (b ∷ t) h = ground (arith, base64-clean t)

clean-ascii : (t : Text) → all is_clean t ≡ true → all (λ b. ltb b 128) t ≡ true
clean-ascii [] h = refl
clean-ascii (b ∷ t) h = ground (arith, clean-ascii t)

drop_quotes-clean : (t : Text) → all is_clean t ≡ true → drop_quotes t ≡ t
drop_quotes-clean [] h = refl
drop_quotes-clean (b ∷ t) h = ground arith

take-append : (s t : Text) → take (length s) (s ++ t) ≡ s
take-append [] t = refl
take-append (b ∷ s) t = ap (λ (x : Text). b ∷ x) (take-append s t)

pub drop-append : (s t : Text) → drop (length s) (s ++ t) ≡ t
drop-append [] t = refl
drop-append (b ∷ s) t = drop-append s t

-- A text in quotes.
abbrev quoted : Text → Text
quoted body = quote ∷ body ++ quote ∷ []

reverse-quoted : (body : Text) → reverse (quoted body) ≡ quote ∷ reverse (quote ∷ body)
reverse-quoted body = reverse-append (quote ∷ body) (quote ∷ [])

ascii_trim-quoted : (body : Text) → ascii_trim (quoted body) ≡ quoted body
unfolding ascii_trim
ascii_trim-quoted body =
    let e = reverse-quoted body in
    ap (λ (x : Text). reverse (drop_space x)) e
    ∙ (ap (λ (x : Text). reverse x) (sym e) ∙ reverse-reverse (quoted body))

-- The first byte is no quote, so that only one is stripped on each side.
trim_quotes-quoted :
    (b : ℕ) (body : Text)
    → all is_clean (b ∷ body) ≡ true
    → trim_quotes (quoted (b ∷ body)) ≡ b ∷ body
unfolding trim_quotes
trim_quotes-quoted b body h =
    let opened : drop_quotes (quoted (b ∷ body)) ≡ (b ∷ body) ++ quote ∷ [] = ground arith in
    let back = reverse-append (b ∷ body) (quote ∷ []) in
    let kept = drop_quotes-clean (reverse (b ∷ body)) (all-reverse is_clean (b ∷ body) ∙ h) in
    ap (λ (x : Text). reverse (drop_quotes (reverse x))) opened
    ∙ (ap (λ (x : Text). reverse (drop_quotes x)) back
        ∙ (ap (λ (x : Text). reverse x) kept ∙ reverse-reverse (b ∷ body)))

module _ ⦃uni : Unicode⦄ (c : Cipher) (laws : IsCipher c) where
  -- The prefixed text, with its quotes trimmed.
  data_text-eq :
      (t : Text)
      → trim_quotes (trim_space (quoted (encryption_prefix ++ c.encode t)))
        ≡ encryption_prefix ++ c.encode t
  unfolding trim_space is_ascii
  data_text-eq t =
      let body = encryption_prefix ++ c.encode t in
      let clean : all is_clean body ≡ true = base64-clean (c.encode t) (laws.encode_alphabet t) in
      let ascii : all (λ b. ltb b 128) (quoted body) ≡ true =
        all-append (λ b. ltb b 128) body (quote ∷ []) ∙ ground (arith, clean-ascii body clean) in
      let trimmed : trim_space (quoted body) ≡ quoted body =
        ground (arith, ascii, ascii_trim-quoted body) in
      ap (λ (x : Text). trim_quotes x) trimmed
      ∙ trim_quotes-quoted b'e' (bytes "nc:v1:" ++ c.encode t) clean

  open_sealed-seal :
      (secret random plain : Text)
      → length random ≡ c.nonce_size
      → open_sealed c secret (random ++ c.seal (derive_key c secret) random plain) ≡ some plain
  unfolding open_sealed
  open_sealed-seal secret random plain size =
      let cipher = c.seal (derive_key c secret) random plain in
      ground (
        arith,
        length-append random cipher,
        ap (λ (n : ℕ). take n (random ++ cipher)) (sym size) ∙ take-append random cipher,
        ap (λ (n : ℕ). drop n (random ++ cipher)) (sym size) ∙ drop-append random cipher,
        laws.unseal-seal (derive_key c secret) random plain,
      )

  -- Encryption succeeds, and decrypting its text with the same secret gives back what was
  -- encrypted, empty texts and an empty secret included. (The random nonce has the size that the
  -- cipher asks for.)
  pub decrypt_bytes-encrypt_bytes :
      (random plain secret : Text)
      → length random ≡ c.nonce_size
      → (text : Text) × (encrypt_bytes c (some random) plain secret ≡ some text)
        × (decrypt_bytes c text secret ≡ some plain)
  unfolding encrypt_bytes decrypt_bytes trim_prefix
  decrypt_bytes-encrypt_bytes random [] secret size = ([], refl, refl)
  decrypt_bytes-encrypt_bytes random (b ∷ plain) secret size =
      let sealed = random ++ c.seal (derive_key c secret) random (b ∷ plain) in
      (
        quoted (encryption_prefix ++ c.encode sealed),
        refl,
        ground (
          arith,
          data_text-eq sealed,
          laws.decode-encode sealed,
          open_sealed-seal secret random (b ∷ plain) size,
        ),
      )
