-- ===== src/Base.antt =====
-- The names that the other modules share: the library's, passed on, tests on the native numbers,
-- arrays as lists, and the well-foundedness of `<`.
mod Tests
mod Lists
mod Cases
pub mod Order
pub mod Run
pub mod Count
pub use Tests.*
unfoldable pub use Lists.{replicate}
pub use Lists.*
unfoldable pub use Cases.{passes}
pub use Cases.*
pub use Prim.Native.Nat.{ℕ, zero, suc, ◌+◌, ◌-◌, ◌*◌, ◌/◌, ◌%◌, ◌^◌, ◌≤◌, ◌<◌}
pub use Prim.Native.Nat.{bit_and, bit_or, bit_xor, min, max}
pub use mathlib.Core.Path.{◌≡◌, refl, sym, ap, ap₂, ◌∙◌, ◌≡⟨◌⟩◌, ◌∎}
pub use mathlib.Core.Logic.{◌≢◌, ◌↔◌, ◌⊎◌, inl, inr}
pub use mathlib.Core.Bool.{Bool, true, false, ◌&&◌, ◌||◌}
unfoldable pub use mathlib.Core.Bool.{xor, beq, not}
pub use mathlib.Core.Option.{Option, none, some}
pub use mathlib.Core.List.{List, [], ◌∷◌, ◌++◌, map, append-nil, append_assoc, map-append}
pub use native.Mathlib.Omega.{arith}
unfoldable pub use native.Mathlib.Decide.{dec_lt, ℕ_discrete}
