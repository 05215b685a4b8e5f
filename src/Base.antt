-- ===== src/Base.antt =====
-- The names that every module shares: those of the libraries, passed on, the tests on numbers,
-- lists over the native numbers, signed C integers, counters, and the trace of the system calls of
-- a program.
mod Tests
mod Lists
mod Int
mod Effects
mod Counters
pub use Tests.*
pub use Lists.*
pub use Int.*
pub use Effects.*
pub use Counters.*
pub use Prim.Native.Nat.{ℕ, zero, suc, ◌+◌, ◌-◌, ◌*◌, ◌/◌, ◌%◌, ◌^◌, ◌≤◌, ◌<◌}
pub use mathlib.Core.Path.{◌≡◌, refl, sym, ap, subst, ◌∙◌}
pub use mathlib.Core.Logic.{◌≢◌, ◌↔◌, ◌⊎◌, inl, inr}
pub use mathlib.Core.Bool.{Bool, true, false, not, ◌&&◌, ◌||◌}
pub use mathlib.Core.Option.{Option, none, some}
pub use mathlib.Core.List.{List, [], ◌∷◌, ◌++◌, map}
pub use native.Mathlib.Omega.{arith}
