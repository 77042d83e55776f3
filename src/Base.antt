-- ===== src/Base.antt =====
-- The names that the models share: the libraries', passed on, and those of the children.
mod Tests
mod Lists
mod Memory
mod Int
mod Bytes
pub use Tests.*
pub use Lists.*
unfoldable pub use Memory.{overwrite}
pub use Memory.*
unfoldable pub use Int.{◌+ℤ◌}
pub use Int.*
unfoldable pub use native.Mathlib.Decide.{ℕ_discrete, dec_le, dec_lt}
unfoldable pub use Bytes.{le_encode, le_decode}
pub use Bytes.*
pub use Prim.Native.Nat.{ℕ, zero, suc, ◌+◌, ◌-◌, ◌*◌, ◌/◌, ◌%◌, ◌^◌, ◌≤◌, ◌<◌, min}
pub use mathlib.Core.Path.{◌≡◌, refl, sym, ap, ap₂, subst, ◌∙◌}
pub use mathlib.Core.Logic.{◌≢◌, ◌↔◌, ◌⊎◌, inl, inr}
pub use mathlib.Core.Bool.{Bool, true, false, not, ◌&&◌, ◌||◌}
pub use mathlib.Core.Option.{Option, none, some}
pub use mathlib.Core.List.{List, [], ◌∷◌, ◌++◌, map, append_assoc, append-nil}
pub use native.Mathlib.Omega.{arith}
