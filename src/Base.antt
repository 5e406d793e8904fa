-- ===== src/Base.antt =====
-- What the other modules share: the libraries' names passed on, and those of the children.
mod Tests
mod Lists
mod Int
mod Dict
mod Double
pub use Tests.*
pub use Lists.*
pub use Int.*
pub use Dict.*
pub use Double.*
unfoldable pub use Dict.{find, put, insert, erase, erase_found}
pub use Prim.Native.Nat.{ℕ, zero, suc, ◌+◌, ◌-◌, ◌*◌, ◌/◌, ◌%◌, ◌^◌, ◌≤◌, ◌<◌}
pub use mathlib.Core.Path.{◌≡◌, refl, sym, ap, ◌∙◌}
pub use mathlib.Core.Logic.{◌≢◌, ◌↔◌, ◌⊎◌, inl, inr}
pub use mathlib.Core.Bool.{Bool, true, false, not, ◌&&◌, ◌||◌}
pub use mathlib.Core.Option.{Option, none, some}
pub use mathlib.Core.List.{List, [], ◌∷◌, ◌++◌, map}
pub use native.Mathlib.Omega.{arith}
