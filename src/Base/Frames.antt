-- ===== src/Base/Frames.antt =====
-- What holds between the state before an action and the state after it, for the actions that the
-- code is composed of.
use mathlib.Core.Bool.{Bool, true, false}
use omnipulse_backend.Base.Tests.{if◌then◌else◌}
use omnipulse_backend.Base.State.{
  Outcome, ok, err, Action, pure, raise, ◌>>=◌, raise_if, get, attempt,
}

-- An action relates every state to the one that it leaves.
pub data Keeps {S E A : Type 0} (R : S → S → Type 0) (m : Action S E A) : Type 0 where
  keeps : ((s : S) → R s (m s).1) → Keeps R m

module _ {S E : Type 0} (R : S → S → Type 0) where
  pub at : {A : Type 0} (m : Action S E A) → Keeps R m → (s : S) → R s (m s).1
  at m (keeps h) = h

  bind-end :
      {A B : Type 0} (f : A → Action S E B) (s t : S) (r : Outcome E A)
      → ((r s t : S) → R r s → R s t → R r t)
      → R s t
      → ((a : A) → Keeps R (f a))
      → R s (((λ (u : S). (r, u)) >>= f) t).1
  bind-end f s t (ok a) trans h k = trans s t (f a t).1 h (at (f a) (k a) t)
  bind-end f s t (err e) trans h k = h

  attempt-end :
      {A : Type 0} (s t : S) (r : Outcome E A) → R s t → R s (attempt (λ (u : S). (r, u)) t).1
  attempt-end s t (ok a) h = h
  attempt-end s t (err e) h = h

  pub seq :
      ((r s t : S) → R r s → R s t → R r t)
      → {A B : Type 0} {m : Action S E A} {f : A → Action S E B} → Keeps R m
      → ((a : A) → Keeps R (f a))
      → Keeps R (m >>= f)
  seq trans {m = m} {f = f} (keeps h) k = keeps λ s. bind-end f s (m s).1 (m s).0 trans (h s) k

  pub try : {A : Type 0} {m : Action S E A} → Keeps R m → Keeps R (attempt m)
  try {m = m} (keeps h) = keeps λ s. attempt-end s (m s).1 (m s).0 (h s)

  pub choose :
      {A : Type 0} (b : Bool) {m n : Action S E A}
      → Keeps R m
      → Keeps R n
      → Keeps R (if b then m else n)
  choose true h k = h
  choose false h k = k

  pub still : ((s : S) → R s s) → {A : Type 0} (a : A) → Keeps {E = E} R (pure a)
  still same a = keeps same

  pub fails : ((s : S) → R s s) → {A : Type 0} (e : E) → Keeps {A = A} R (raise e)
  fails same e = keeps same

  pub guard : ((s : S) → R s s) → (b : Bool) (e : E) → Keeps R (raise_if b e)
  guard same b e = keeps same

  pub read : ((s : S) → R s s) → Keeps {E = E} R get
  read same = keeps same
