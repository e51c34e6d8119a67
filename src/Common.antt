-- ===== src/Common.antt =====
-- The names that the components share: those of the libraries, passed on, and those of the children.
pub mod Tests
pub mod Lists
pub mod Result
pub mod Words
pub use Tests.*
pub use Lists.*
pub use Result.{
  ok, err, ◌>>=◌, ◌>>◌, guard, or_err, for_each, for_each_sound, for_each_complete, fold_result,
  >>=_inv, ok_injective, if_inv, fold_keeps, >>_sound, >>_complete, guard_sound, or_err_sound,
  or_err-some,
}
pub use Words.*
pub use Prim.Native.Nat.{ℕ, zero, suc, ◌+◌, ◌-◌, ◌*◌, ◌/◌, ◌%◌, ◌^◌, ◌≤◌, ◌<◌}
pub use mathlib.Core.Path.{◌≡◌, refl, sym, ap, ◌∙◌, subst, fun_ext}
pub use mathlib.Core.Logic.{◌≢◌, ◌↔◌, ◌⊎◌, inl, inr}
pub use mathlib.Core.Bool.{Bool, true, false, ◌&&◌, ◌||◌, not}
pub use mathlib.Core.Option.{Option, none, some}
pub use mathlib.Core.List.{List, [], ◌∷◌, ◌++◌, map}
pub use native.Mathlib.Omega.{arith}
