-- ===== src/Base.antt =====
-- The names that the other modules share: the libraries' names, passed on, and those of the children.
mod Tests
mod Lists
mod Recent
mod Strings
mod Int
mod Maps
mod Words
mod Decimal
mod Held
pub use Tests.*
pub use Lists.*
unfoldable pub use Recent.*
unfoldable pub use Strings.*
pub use Int.*
unfoldable pub use Words.*
unfoldable pub use Decimal.*
unfoldable pub use Maps.*
pub use Held.*
pub use Prim.Native.Nat.{ℕ, zero, suc, ◌+◌, ◌-◌, ◌*◌, ◌/◌, ◌%◌, ◌^◌, ◌≤◌, ◌<◌, min}
pub use mathlib.Core.Path.{◌≡◌, refl, sym, ap, ◌∙◌, subst}
pub use mathlib.Core.Logic.{◌≢◌, ◌↔◌, ◌⊎◌, inl, inr}
pub use mathlib.Core.Bool.{Bool, true, false, not, ◌&&◌, ◌||◌}
pub use mathlib.Core.Option.{Option, none, some}
pub use mathlib.Core.List.{
  List, [], ◌∷◌, ◌++◌, map, reverse, append_assoc, append-nil, reverse-reverse, reverse-append,
}
pub use native.Mathlib.Omega.{arith}
