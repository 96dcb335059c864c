-- ===== src/Prelude.antt =====
-- The names that every module of the library shares: the libraries' own, passed on, and the
-- helpers of the children below.
mod Tests
mod Lists
mod Sums
mod Options
mod Arrays
pub use Tests.*
pub use Lists.*
pub use Sums.*
pub use Options.*
unfoldable pub use Arrays.{update}
pub use Arrays.{update_self, update_ne}
pub use Prim.Native.Nat.{ℕ, zero, suc, ◌+◌, ◌-◌, ◌*◌, ◌/◌, ◌%◌, ◌^◌, ◌≤◌, ◌<◌, min, max}
pub use mathlib.Core.Path.{◌≡◌, refl, subst, sym, ap, ◌∙◌, fun_ext}
pub use mathlib.Core.Logic.{◌≢◌, ◌↔◌, ◌⊎◌, inl, inr}
pub use mathlib.Core.Bool.{Bool, true, false, ◌&&◌, ◌||◌, not}
pub use mathlib.Core.Option.{Option, none, some}
pub use mathlib.Core.List.{List, [], ◌∷◌, ◌++◌, map, append-nil, append_assoc}
pub use native.Mathlib.Omega.{arith}
