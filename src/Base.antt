-- ===== src/Base.antt =====
-- What all parts share: the libraries' names, passed on, and the helpers of the modules below.
-- The code under internal/ is Go; `int` is a 64-bit signed integer (Base.Int), a map with string
-- keys is a dictionary (Base.Dict), `error` is an `Option` or a result type of the part at hand.
mod Tests
mod Lists
pub mod Int
pub mod Dict
pub mod Keyed
pub mod Result
pub mod Sort
pub mod Descending
pub mod Text
unfoldable pub use Tests.*
unfoldable pub use Lists.*
pub use Prim.Native.Nat.{ℕ, zero, suc, ◌+◌, ◌-◌, ◌*◌, ◌/◌, ◌%◌, ◌^◌, ◌≤◌, ◌<◌}
pub use Prim.Native.String.{String}
pub use mathlib.Core.Path.{◌≡◌, refl, sym, ap, subst, ◌∙◌}
pub use mathlib.Core.Logic.{◌≢◌, ◌↔◌, ◌⊎◌, inl, inr}
pub use mathlib.Core.Bool.{Bool, true, false, not, ◌&&◌, ◌||◌}
pub use mathlib.Core.Option.{Option, none, some}
pub use mathlib.Core.List.{List, [], ◌∷◌, ◌++◌, map}
pub use native.Mathlib.Omega.{arith}
pub use text.Mathlib.TextEquality.{eq_iff}
pub use text.Mathlib.TextPositions.{eq_refl}
