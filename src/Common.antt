-- ===== src/Common.antt =====
-- The names that every component shares: the libraries', passed on, the C tests and conditional,
-- byte lists, and arithmetic modulo 2^32 for `unsigned`.
mod Tests
mod Lists
mod Text
pub mod Words
pub mod Programs
pub use Tests.*
pub use Lists.*
unfoldable pub use Text.{codes, same_text, has_prefix}
pub use Text.{same_text_iff}
pub use Prim.Native.Nat.{
  ℕ, zero, suc, ◌+◌, ◌-◌, ◌*◌, ◌/◌, ◌%◌, ◌^◌, ◌≤◌, ◌<◌, min, bit_and, bit_or, bit_xor,
}
pub use mathlib.Core.Path.{◌≡◌, refl, sym, ap, ap₂, subst, ◌∙◌, fun_ext, ◌≡⟨◌⟩◌, ◌∎}
pub use mathlib.Core.Logic.{◌≢◌, ◌↔◌, ◌⊎◌, inl, inr}
pub use mathlib.Core.Bool.{Bool, true, false, not, ◌&&◌, ◌||◌}
pub use mathlib.Core.Option.{Option, none, some}
pub use mathlib.Core.List.{List, [], ◌∷◌, ◌++◌, map, append-nil, append_assoc}
pub use native.Mathlib.Omega.{arith}
