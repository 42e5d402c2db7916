-- ===== src/Base.antt =====
-- Names that the modules share: the libraries', passed on, and those of the children, which model
-- what the program uses of the C++ standard library.
mod Tests
mod Lists
mod Text
mod Maps
mod Outcome
mod Int
mod Returned
mod Paths
pub use Tests.*
pub use Lists.*
unfoldable pub use Maps.*
pub use Outcome.*
unfoldable pub use Returned.*
unfoldable pub use Int.*
unfoldable pub use Paths.*
unfoldable pub use Text.*
pub use Prim.Native.Nat.{ℕ, zero, suc, ◌+◌, ◌-◌, ◌*◌, ◌/◌, ◌%◌, ◌^◌, ◌≤◌, ◌<◌}
pub use mathlib.Core.Path.{◌≡◌, refl, sym, ap, ◌∙◌}
pub use mathlib.Core.Logic.{◌≢◌, ◌↔◌, ◌⊎◌, inl, inr}
pub use mathlib.Core.Bool.{Bool, true, false, not, ◌&&◌, ◌||◌}
pub use mathlib.Core.Option.{Option, none, some}
pub use mathlib.Core.List.{List, [], ◌∷◌, ◌++◌, map, append-nil, append_assoc}
pub use native.Mathlib.Omega.{arith}
