-- ===== src/Base.antt =====
-- Shared names: the libraries' names passed on, the Boolean tests, lists over the native numbers,
-- signed integers and C strings.
mod Tests
mod Lists
mod Trozos
mod Hallar
pub mod Int
pub mod Texto
pub use Tests.*
pub use Lists.*
pub use Trozos.*
pub use Hallar.*
pub use Prim.Native.Nat.{ℕ, zero, suc, ◌+◌, ◌-◌, ◌*◌, ◌/◌, ◌%◌, ◌^◌, ◌≤◌, ◌<◌, min}
pub use mathlib.Core.Path.{◌≡◌, refl, sym, ap, subst, ◌∙◌}
pub use mathlib.Core.Logic.{◌≢◌, ◌↔◌, ◌⊎◌, inl, inr}
pub use mathlib.Core.Bool.{Bool, true, false, not, ◌&&◌, ◌||◌}
pub use mathlib.Core.Option.{Option, none, some}
pub use mathlib.Core.List.{List, [], ◌∷◌, ◌++◌, map, append_assoc, append-nil}
pub use native.Mathlib.Omega.{arith}
unfoldable pub use Lists.{find_index}
unfoldable pub use native.Mathlib.Decide.{dec_lt, ℕ_discrete}
