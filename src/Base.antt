-- ===== src/Base.antt =====
-- The names that the modules of this library share: library names passed on, Boolean tests and
-- lists over the native numbers (Base/Bools, Base/Lists), the result of code that may throw
-- (Base/Results), such a result with the calls on the way (Base/Traces) and signed big numbers
-- (Base/Int).
pub mod Bools
pub mod Lists
pub mod Results
pub mod Traces
pub mod Int
pub mod Dict
pub use Bools.*
pub use Lists.*
pub use Results.*
pub use Traces.*
pub use Prim.Native.Nat.{ℕ, zero, suc, ◌+◌, ◌-◌, ◌*◌, ◌/◌, ◌%◌, ◌^◌, ◌≤◌, ◌<◌}
pub use Prim.Native.String.{String}
pub use mathlib.Core.Path.{◌≡◌, refl, sym, ap, ◌∙◌}
pub use mathlib.Core.Logic.{◌≢◌, ◌↔◌, ◌⊎◌, inl, inr}
pub use mathlib.Core.Bool.{Bool, true, false, not, ◌&&◌, ◌||◌}
pub use mathlib.Core.Option.{Option, none, some}
pub use mathlib.Core.List.{List, [], ◌∷◌, ◌++◌, map, append-nil, append_assoc}
pub use native.Mathlib.Omega.{arith}
pub use text.Mathlib.Text.{◌==◌ as str_eq}
pub use text.Mathlib.TextEquality.{eq_iff as str_eq_iff}
pub use text.Mathlib.TextPositions.{eq_refl as str_eq_refl}
