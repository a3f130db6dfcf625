-- ===== src/Base/State.antt =====
-- Actions on a state that return a value or an error, as the code's methods on a repository do.
use mathlib.Core.Path.{◌≡◌, refl}
use mathlib.Core.Logic.{◌⊎◌, inl, inr}
use mathlib.Core.Bool.{Bool}
use mathlib.Core.Option.{Option, none, some}
use omnipulse_backend.Base.Tests.{if◌then◌else◌}

-- `(value, err)`
pub data Outcome (E A : Type 0) : Type 0 where
  ok : A → Outcome E A
  err : E → Outcome E A

abbrev pub Action : Type 0 → Type 0 → Type 0 → Type 0
Action S E A = S → Outcome E A × S

module _ {S E : Type 0} where
  abbrev pub pure : {A : Type 0} → A → Action S E A
  pure a s = (ok a, s)

  abbrev pub raise : {A : Type 0} → E → Action S E A
  raise e s = (err e, s)

  infixl 5 ◌>>=◌ ◌>>◌
  abbrev pub ◌>>=◌ : {A B : Type 0} → Action S E A → (A → Action S E B) → Action S E B
  ◌>>=◌ m f s = let (r, s') = m s in elim r [ ok a ↦ f a s' | err e ↦ (err e, s') ]

  abbrev pub ◌>>◌ : {B : Type 0} → Action S E (Unit {0}) → Action S E B → Action S E B
  m >> k = m >>= λ _. k

  abbrev pub raise_if : Bool → E → Action S E (Unit {0})
  raise_if b e s = (if b then err e else ok tt, s)

  abbrev pub get : Action S E S
  get s = (ok s, s)

  abbrev pub put : S → Action S E (Unit {0})
  put s' s = (ok tt, s')

  -- `value, _ := m`: an error is dropped, and the zero value taken.
  abbrev pub or_zero : {A : Type 0} → A → Action S E A → Action S E A
  or_zero z m s = let (r, s') = m s in elim r [ ok a ↦ (ok a, s') | err e ↦ (ok z, s') ]

  -- `if err := m; err != nil { … }` where the code goes on: what came of `m`, `none` for an error.
  abbrev pub attempt : {A : Type 0} → Action S E A → Action S E (Option A)
  attempt m s = let (r, s') = m s in elim r [ ok a ↦ (ok (some a), s') | err e ↦ (ok none, s') ]

-- `value, err := m`, where the code looks into the error itself.
abbrev pub outcome_of : {S E A : Type 0} → Action S E A → Action S E (Outcome E A)
outcome_of m s = let (r, s') = m s in (ok r, s')

pub Outcome-cases :
    {E A : Type 0} (r : Outcome E A) → ((a : A) × (r ≡ ok a)) ⊎ ((x : E) × (r ≡ err x))
Outcome-cases (ok a) = inl (a, refl)
Outcome-cases (err x) = inr (x, refl)
