-- ===== src/Prelude.antt =====
-- The names that the modules of the development share: the libraries' names, and those of three
-- children (tests on numbers, lists under native indices, byte strings).
mod Tests
mod Lists
mod Text
pub mod Int
pub mod Io
pub mod I64
pub mod Dict
pub mod Result
pub mod Decimal
pub mod Parse
pub mod Replace
pub mod Words
pub use Tests.*
pub use Lists.*
unfoldable pub use Text.*
pub use Prim.Native.Nat.{ℕ, zero, suc, ◌+◌, ◌-◌, ◌*◌, ◌/◌, ◌%◌, ◌^◌, ◌≤◌, ◌<◌}
pub use Prim.Native.String.{String}
pub use mathlib.Core.Path.{◌≡◌, refl, sym, ap, ◌∙◌}
pub use mathlib.Core.Logic.{◌≢◌, ◌↔◌, ◌⊎◌, inl, inr}
pub use mathlib.Core.Bool.{Bool, true, false, not, ◌&&◌, ◌||◌}
pub use mathlib.Core.Option.{Option, none, some}
pub use mathlib.Core.List.{List, [], ◌∷◌, ◌++◌, map, append-nil, append_assoc}
pub use native.Mathlib.Omega.{arith}
