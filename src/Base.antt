-- ===== src/Base.antt =====
-- The names that every part shares: the libraries', passed on, and those of the children. `Tests`
-- has the C comparisons as Booleans, `Lists` has arrays and lists under native indices, `Word` has
-- the unsigned machine integers, and `Exec` says how a call ends.
mod Tests
mod Lists
pub mod Word
pub mod Exec
pub mod Int
pub mod Slots
pub use Tests.*
pub use Lists.*
pub use Prim.Native.Nat.{ℕ, zero, suc, ◌+◌, ◌-◌, ◌*◌, ◌/◌, ◌%◌, ◌^◌, ◌≤◌, ◌<◌}
pub use mathlib.Core.Path.{◌≡◌, refl, sym, ap, ◌∙◌}
pub use mathlib.Core.Logic.{◌≢◌, ◌↔◌, ◌⊎◌, inl, inr}
pub use mathlib.Core.Bool.{Bool, true, false, not, ◌&&◌, ◌||◌}
pub use mathlib.Core.Option.{Option, none, some}
pub use mathlib.Core.List.{List, [], ◌∷◌, ◌++◌, Perm}
pub use native.Mathlib.Omega.{arith}
