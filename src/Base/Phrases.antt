-- ===== src/Base/Phrases.antt =====
-- What the code does with pieces of a text: `strings.Contains`, `strings.ReplaceAll`, and the
-- decimal digits that the package fmt prints.
use Prim.Native.Nat.{ℕ, zero, suc, ◌+◌, ◌-◌, ◌*◌, ◌/◌, ◌%◌}
use mathlib.Core.Bool.{Bool, true, false, ◌||◌, ◌&&◌}
use mathlib.Core.Option.{Option, none, some}
use mathlib.Core.List.{[], ◌∷◌, ◌++◌}
use omnipulse_backend.Base.Tests.{ltb, leb, ◌==◌, if◌then◌else◌}
use omnipulse_backend.Base.Lists.{length, is_empty}
use omnipulse_backend.Base.Int.{ℤ, pos, negative}
use omnipulse_backend.Base.GoText.{Text, has_prefix}

unfoldable pub contains : Text → Text → Bool
contains [] part = has_prefix [] part
contains (b ∷ t) part = has_prefix (b ∷ t) part || contains t part

-- `skip` bytes belong to an occurrence that was replaced.
replace_from : Text → Text → ℕ → Text → Text
replace_from old new skip [] = []
replace_from old new (suc skip) (b ∷ t) = replace_from old new skip t
replace_from old new zero (b ∷ t) = elim (has_prefix (b ∷ t) old) [
  | true ↦ new ++ replace_from old new (length old - 1) t
  | false ↦ b ∷ replace_from old new 0 t
]

-- `strings.ReplaceAll` for an `old` that is not empty.
unfoldable pub replace_all : Text → Text → Text → Text
unfolding replace_from
replace_all t old new = replace_from old new 0 t

digits : ℕ → ℕ → Text → Text
digits zero n later = later
digits (suc fuel) n later = elim (ltb n 10) [
  | true ↦ (b'0' + n) ∷ later
  | false ↦ digits fuel (n / 10) ((b'0' + n % 10) ∷ later)
]

-- `%d`. A number has no more digits than its successor.
unfoldable pub decimal : ℕ → Text
unfolding digits
decimal n = digits (suc n) n []

-- Decimal digits, all of the text: `none` where one is none of them.
unfoldable pub parse_digits : ℕ → Text → Option ℕ
parse_digits n [] = some n
parse_digits n (b ∷ t) =
    let rest = parse_digits (n * 10 + (b - b'0')) t in
    if leb b'0' b && leb b b'9' then rest else none

-- `strconv.Atoi` in 64 bits.
unfoldable pub atoi : Text → Option ℤ
unfolding parse_digits
atoi [] = none
atoi (b ∷ t) =
    let is_signed = b == b'-' || b == b'+' in
    let digits = if is_signed then t else b ∷ t in
    if is_empty digits then none else elim (parse_digits 0 digits) [
      | none ↦ none
      | some n ↦
          if b == b'-'
          then if leb n 9223372036854775808 then some (negative n) else none
          else if ltb n 9223372036854775808
          then some (pos n)
          else none
    ]
