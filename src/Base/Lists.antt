-- ===== src/Base/Lists.antt =====
-- Lists measured and cut by native numbers, and the list tests that the code's loops make.
use Prim.Native.Nat.{ℕ, zero, suc, ◌+◌, ◌≤◌, ◌<◌}
use mathlib.Core.Path.{◌≡◌, refl, sym, ap, ◌∙◌}
use mathlib.Core.Bool.{Bool, true, false, ◌||◌, ◌&&◌}
use mathlib.Core.List.{List, [], ◌∷◌, ◌++◌, map, reverse, reverse-cons}
use native.Mathlib.Omega.{arith}
use omnipulse_backend.Base.Tests.{if◌then◌else◌}

module _ {ℓ} {A : Type ℓ} where
  abbrev pub length : List A → ℕ
  length [] = 0
  length (x ∷ xs) = suc (length xs)

  abbrev pub take : ℕ → List A → List A
  take zero xs = []
  take (suc n) [] = []
  take (suc n) (x ∷ xs) = x ∷ take n xs

  abbrev pub drop : ℕ → List A → List A
  drop zero xs = xs
  drop (suc n) [] = []
  drop (suc n) (x ∷ xs) = drop n xs

  abbrev pub any : (A → Bool) → List A → Bool
  any p [] = false
  any p (x ∷ xs) = p x || any p xs

  abbrev pub all : (A → Bool) → List A → Bool
  all p [] = true
  all p (x ∷ xs) = p x && all p xs

  abbrev pub is_empty : List A → Bool
  is_empty [] = true
  is_empty (x ∷ xs) = false

  -- The elements that a Boolean test keeps, in order.
  abbrev pub select : (A → Bool) → List A → List A
  select p [] = []
  select p (x ∷ xs) = if p x then x ∷ select p xs else select p xs

  -- How many elements pass a Boolean test.
  abbrev pub tally : (A → Bool) → List A → ℕ
  tally p [] = 0
  tally p (x ∷ xs) = if p x then suc (tally p xs) else tally p xs

  pub length-append : (xs ys : List A) → length (xs ++ ys) ≡ length xs + length ys
  length-append [] ys = omega arith
  length-append (x ∷ xs) ys = omega (arith, length-append xs ys)

  pub select-append :
      (p : A → Bool) (xs ys : List A) → select p (xs ++ ys) ≡ select p xs ++ select p ys
  select-append p [] ys = refl
  select-append p (x ∷ xs) ys = ground (arith, select-append p xs ys)

  pub length-select : (p : A → Bool) (xs : List A) → length (select p xs) ≡ tally p xs
  length-select p [] = refl
  length-select p (x ∷ xs) = ground (arith, length-select p xs)

  pub take-drop : (n : ℕ) (xs : List A) → take n xs ++ drop n xs ≡ xs
  take-drop zero xs = refl
  take-drop (suc n) [] = refl
  take-drop (suc n) (x ∷ xs) = ground (arith, take-drop n xs)

  pub length-take-le : (n : ℕ) (xs : List A) → length (take n xs) ≤ n
  length-take-le zero xs = omega arith
  length-take-le (suc n) [] = omega arith
  length-take-le (suc n) (x ∷ xs) = omega (arith, length-take-le n xs)

module _ {ℓ κ} {A : Type ℓ} (P : A → Type κ) where
  abbrev pub All : List A → Type κ
  All [] = Unit
  All (x ∷ xs) = P x × All xs

  pub All-append : (xs ys : List A) → All xs → All ys → All (xs ++ ys)
  All-append [] ys h k = k
  All-append (x ∷ xs) ys h k = (h.0, All-append xs ys h.1 k)

pub append_assoc {ℓ} : {A : Type ℓ} (xs ys zs : List A) → (xs ++ ys) ++ zs ≡ xs ++ (ys ++ zs)
append_assoc [] ys zs = refl
append_assoc (x ∷ xs) ys zs = ap (λ r. x ∷ r) (append_assoc xs ys zs)

pub append_nil {ℓ} : {A : Type ℓ} (xs : List A) → xs ++ [] ≡ xs
append_nil [] = refl
append_nil (x ∷ xs) = ap (λ r. x ∷ r) (append_nil xs)

pub drop_nil {ℓ} : {A : Type ℓ} (m : ℕ) → [] ≡ drop {A = A} m []
drop_nil zero = refl
drop_nil (suc m) = refl

pub length-drop-le {ℓ} : {A : Type ℓ} (n : ℕ) (xs : List A) → length (drop n xs) ≤ length xs
length-drop-le zero xs = omega arith
length-drop-le (suc n) [] = omega arith
length-drop-le (suc n) (x ∷ xs) = omega (arith, length-drop-le n xs)

pub drop-drop {ℓ} : {A : Type ℓ} → (n m : ℕ) (xs : List A) → drop (n + m) xs ≡ drop m (drop n xs)
drop-drop zero m xs = let e : 0 + m ≡ m = omega arith in ap (λ (k : ℕ). drop k xs) e
drop-drop {A = A} (suc n) m [] =
    let e : suc n + m ≡ suc (n + m) = omega arith in
    let k : [] ≡ drop {A = A} m [] = drop_nil m in ap (λ (k : ℕ). drop {A = A} k []) e ∙ k
drop-drop (suc n) m (x ∷ xs) =
    let e : suc n + m ≡ suc (n + m) = omega arith in
    ap (λ (k : ℕ). drop k (x ∷ xs)) e ∙ drop-drop n m xs

pub short_page {ℓ} : {A : Type ℓ} (n : ℕ) (xs : List A) → length (take n xs) < n → take n xs ≡ xs
short_page zero xs h = ground arith
short_page (suc n) [] h = refl
short_page (suc n) (x ∷ xs) h = ap (λ r. x ∷ r) (short_page n xs (omega (arith, h)))

pub length-drop_lt {ℓ} :
    {A : Type ℓ} (n : ℕ) (xs : List A) (fuel : ℕ)
    → is_empty (take n xs) ≡ false
    → length xs ≤ fuel
    → length (drop n xs) < fuel
length-drop_lt zero xs fuel h k = ground arith
length-drop_lt (suc n) [] fuel h k = ground arith
length-drop_lt (suc n) (x ∷ xs) fuel h k = omega (arith, length-drop-le n xs)

pub no_page {ℓ} : {A : Type ℓ} (n : ℕ) (xs : List A) → is_empty (take (suc n) xs) ≡ true → xs ≡ []
no_page n [] h = refl
no_page n (x ∷ xs) h = ground arith

module _ {ℓ} {A : Type ℓ} (p : A → Bool) where
  pub tally-append : (xs ys : List A) → tally p (xs ++ ys) ≡ tally p xs + tally p ys
  tally-append [] ys = omega arith
  tally-append (x ∷ xs) ys = ground (arith, tally-append xs ys)

  pub tally-cut : (n : ℕ) (xs : List A) → tally p xs ≡ tally p (take n xs) + tally p (drop n xs)
  tally-cut n xs = ap (λ r. tally p r) (sym (take-drop n xs)) ∙ tally-append (take n xs) (drop n xs)

pub length-map {ℓ κ} :
    {A : Type ℓ} {B : Type κ} (f : A → B) (xs : List A) → length (map f xs) ≡ length xs
length-map f [] = refl
length-map f (x ∷ xs) = omega (arith, length-map f xs)

pub length-reverse {ℓ} : {A : Type ℓ} (xs : List A) → length (reverse xs) ≡ length xs
length-reverse [] = refl
length-reverse (x ∷ xs) =
    ap (λ ys. length ys) (reverse-cons x xs)
    ∙ (length-append (reverse xs) (x ∷ []) ∙ omega (arith, length-reverse xs))
