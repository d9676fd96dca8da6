-- ===== src/Base.antt =====
-- The names that the modules of this library share: those of the libraries, passed on, and
-- those of the children, on Boolean tests, lists, bytes and integers.
pub mod Tests
pub mod Lists
pub mod Bytes
pub mod Int
pub mod Identity
pub mod Dict
pub mod Results
pub use Tests.*
pub use Lists.*
pub use Identity.*
pub use Results.*
pub use Prim.Native.Nat.{ℕ, zero, suc, ◌+◌, ◌-◌, ◌*◌, ◌/◌, ◌%◌, ◌^◌, ◌≤◌, ◌<◌, min, max}
pub use mathlib.Core.Path.{◌≡◌, refl, sym, ap, ◌∙◌}
pub use mathlib.Core.Logic.{◌≢◌, ◌↔◌, ◌⊎◌, inl, inr}
pub use mathlib.Core.Bool.{Bool, true, false, not, ◌&&◌, ◌||◌}
pub use mathlib.Core.Option.{Option, none, some}
pub use mathlib.Core.List.{List, [], ◌∷◌, ◌++◌, map, append_assoc, append-nil}
pub use native.Mathlib.Omega.{arith}
