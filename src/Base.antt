-- ===== src/Base.antt =====
-- The names that the other modules share: the library's, passed on, and those of the children.
mod Tests
mod Lists
mod Text
mod Descriptors
mod CString
pub mod Int
pub mod Sys
pub mod Semaphore
pub mod Channel
pub use Tests.*
pub use Lists.*
pub use Text.*
pub use Descriptors.*
pub use CString.*
pub use Int.{
  ℤ, pos, negsuc, minus_one, is_neg, is_pos, ◌+ℤ◌, +ℤ_pos, pred_ℤ, eq_ℤ, pos_part, neg_part, ltb_ℤ,
  Arg, int, str, pair,
}
pub use Prim.Native.Nat.{ℕ, zero, suc, ◌+◌, ◌-◌, ◌*◌, ◌/◌, ◌%◌, ◌^◌, ◌≤◌, ◌<◌, min}
pub use Prim.Native.String.{String}
pub use mathlib.Core.Path.{◌≡◌, refl, sym, ap, ◌∙◌, subst}
pub use mathlib.Core.Logic.{◌≢◌, ◌↔◌, ◌⊎◌, inl, inr}
pub use mathlib.Core.Bool.{Bool, true, false, not, ◌&&◌, ◌||◌}
pub use mathlib.Core.Option.{Option, none, some}
pub use mathlib.Core.List.{List, [], ◌∷◌, ◌++◌, map, append-nil, append_assoc}
pub use native.Mathlib.Omega.{arith}
