-- ===== src/Base.antt =====
-- The names that the other modules share: the libraries', passed on, and those of the children.
mod Tests
mod Lists
mod Outcomes
mod Bytes
mod Int
mod Decimal
mod Sort
pub use Tests.*
pub use Lists.*
pub use Outcomes.*
unfoldable pub use Bytes.*
unfoldable pub use Int.*
unfoldable pub use Decimal.*
unfoldable pub use Sort.*
pub use Prim.Native.Nat.{ℕ, zero, suc, ◌+◌, ◌-◌, ◌*◌, ◌/◌, ◌%◌, ◌^◌, ◌≤◌, ◌<◌, min, max}
pub use mathlib.Core.Path.{◌≡◌, refl, sym, ap, subst, ◌∙◌}
pub use mathlib.Core.Logic.{◌≢◌, ◌↔◌, ◌⊎◌, inl, inr}
pub use mathlib.Core.Bool.{Bool, true, false, not, ◌&&◌, ◌||◌}
pub use mathlib.Core.Option.{Option, none, some}
pub use mathlib.Core.List.{
  List, [], ◌∷◌, ◌++◌, map, append_assoc, append-nil, append_cancel_left, tail,
}
pub use native.Mathlib.Omega.{arith}
