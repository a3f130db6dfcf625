-- ===== src/Base/GoText.antt =====
-- Go strings as lists of bytes, with the functions of the packages strings and unicode that the
-- code calls. As in Go, these have a fast path for ASCII, which is written out here, and another
-- for texts with a byte of 128 or more, which rests on the Unicode tables: `Unicode` holds it.
use Prim.Native.Nat.{ℕ, ◌+◌, ◌-◌}
use Prim.Native.Char.{code}
use Prim.Native.String.{String}
use mathlib.Core.Path.{◌≡◌, refl}
use mathlib.Core.Logic.{◌↔◌}
use mathlib.Core.Bool.{Bool, true, false, ◌&&◌, ◌||◌}
use mathlib.Core.List.{List, [], ◌∷◌, map, reverse}
use native.Mathlib.Omega.{arith}
use omnipulse_backend.Base.Tests.{ltb, leb, ◌==◌, if◌then◌else◌}
use omnipulse_backend.Base.Lists.{all}

abbrev pub Text : Type 0
Text = List ℕ

-- The bytes of an ASCII literal.
abbrev pub bytes : String → Text
bytes String.[] = []
bytes (String.◌∷◌ c s) = code c ∷ bytes s

unfoldable pub text_eq : Text → Text → Bool
text_eq [] [] = true
text_eq [] (b ∷ t) = false
text_eq (a ∷ s) [] = false
text_eq (a ∷ s) (b ∷ t) = (a == b) && text_eq s t

text_eq→eq : (s t : Text) → text_eq s t ≡ true → s ≡ t
unfolding text_eq
text_eq→eq [] [] h = refl
text_eq→eq [] (b ∷ t) h = cc
text_eq→eq (a ∷ s) [] h = cc
text_eq→eq (a ∷ s) (b ∷ t) h = ground (arith, text_eq→eq s t)

pub text_eq_refl : (s : Text) → text_eq s s ≡ true
unfolding text_eq
text_eq_refl [] = refl
text_eq_refl (a ∷ s) = ground (arith, text_eq_refl s)

-- The test decides equality of texts.
pub text_eq_iff : (s t : Text) → (text_eq s t ≡ true) ↔ (s ≡ t)
text_eq_iff s t = (text_eq→eq s t, λ e. rw e (text_eq_refl t))

pub text_eq_comm : (a b : Text) → text_eq a b ≡ text_eq b a
text_eq_comm a b = ground (arith, text_eq_iff a b, text_eq_iff b a)

abbrev pub text_mem : Text → List Text → Bool
text_mem t [] = false
text_mem t (u ∷ us) = text_eq u t || text_mem t us

-- The slow paths of the package strings, and the tables of the package unicode.
pub record Unicode : Type 0 where
  pub trim_wide : Text → Text
  pub lower_wide : Text → Text
  pub upper_wide : Text → Text
  pub fold_wide : Text → Text → Bool
  pub keyword_wide : Text → Text

unfoldable pub is_ascii : Text → Bool
is_ascii t = all (λ b. ltb b 128) t

abbrev pub is_space : ℕ → Bool
is_space b = (leb 9 b && leb b 13) || b == 32

abbrev pub lower_byte : ℕ → ℕ
lower_byte b = if leb b'A' b && leb b b'Z' then b + 32 else b

abbrev pub upper_byte : ℕ → ℕ
upper_byte b = if leb b'a' b && leb b b'z' then b - 32 else b

abbrev pub drop_space : Text → Text
drop_space [] = []
drop_space (b ∷ t) = if is_space b then drop_space t else b ∷ t

unfoldable pub ascii_trim : Text → Text
ascii_trim t = reverse (drop_space (reverse (drop_space t)))

abbrev pub ascii_lower : Text → Text
ascii_lower = map lower_byte

module _ ⦃uni : Unicode⦄ where
  -- `strings.TrimSpace`
  unfoldable pub trim_space : Text → Text
  unfolding is_ascii ascii_trim
  trim_space t = if is_ascii t then ascii_trim t else uni.trim_wide t

  -- `strings.ToLower`
  unfoldable pub to_lower : Text → Text
  unfolding is_ascii
  to_lower t = if is_ascii t then ascii_lower t else uni.lower_wide t

  -- `strings.ToUpper`
  unfoldable pub to_upper : Text → Text
  unfolding is_ascii
  to_upper t = if is_ascii t then map upper_byte t else uni.upper_wide t

  -- `strings.EqualFold`
  unfoldable pub equal_fold : Text → Text → Bool
  unfolding is_ascii text_eq
  equal_fold s t =
      if is_ascii s && is_ascii t
      then text_eq (ascii_lower s) (ascii_lower t)
      else uni.fold_wide s t

-- `strings.HasPrefix`
abbrev pub has_prefix : Text → Text → Bool
has_prefix t [] = true
has_prefix [] (p ∷ ps) = false
has_prefix (b ∷ t) (p ∷ ps) = (b == p) && has_prefix t ps

abbrev strip : Text → Text → Text
strip t [] = t
strip [] (p ∷ ps) = []
strip (b ∷ t) (p ∷ ps) = strip t ps

-- `strings.TrimPrefix`
unfoldable pub trim_prefix : Text → Text → Text
trim_prefix t p = if has_prefix t p then strip t p else t
