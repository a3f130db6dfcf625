-- ===== src/Base.antt =====
-- The names that the other modules share: library names, Boolean tests, lists measured by the
-- native numbers, signed integers, and the Go strings that the code handles.
mod Tests
mod Lists
mod Int
mod GoText
mod Phrases
pub mod State
pub mod Frames
pub use Tests.*
pub use Lists.*
pub use Int.*
unfoldable pub use GoText.*
unfoldable pub use Phrases.*
pub use Prim.Native.Nat.{ℕ, zero, suc, ◌+◌, ◌-◌, ◌*◌, ◌/◌, ◌%◌, ◌≤◌, ◌<◌}
pub use mathlib.Core.Path.{◌≡◌, refl, sym, ap, subst, ◌∙◌}
pub use mathlib.Core.Logic.{◌≢◌, ◌↔◌, ◌⊎◌, inl, inr}
pub use mathlib.Core.Bool.{Bool, true, false, not, ◌&&◌, ◌||◌}
pub use mathlib.Core.Option.{Option, none, some}
pub use mathlib.Core.List.{List, [], ◌∷◌, ◌++◌, map, reverse}
pub use native.Mathlib.Omega.{arith}
