-- ===== src/Base.antt =====
-- Shared names: the libraries', passed on, and the Boolean tests, byte texts, lists, maps and
-- outcomes that every component uses.
pub mod Tests
pub mod Lists
pub mod Keys
pub mod Maps
pub mod Outcomes
pub mod Io
pub use Tests.*
pub use Lists.*
unfoldable pub use Keys.{text_same}
pub use Keys.{Key, Text, codes, ◌==◌, ==_refl, nat_key, text_key, same-eq}
pub use Outcomes.*
pub use Prim.Native.Nat.{ℕ, zero, suc, ◌+◌, ◌-◌, ◌*◌, ◌/◌, ◌%◌, ◌^◌, ◌≤◌, ◌<◌}
pub use mathlib.Core.Path.{◌≡◌, refl, sym, ap, ◌∙◌, subst}
pub use mathlib.Core.Logic.{◌≢◌, ◌↔◌, ◌⊎◌, inl, inr}
pub use mathlib.Core.Bool.{Bool, true, false, not, ◌&&◌, ◌||◌}
pub use mathlib.Core.Option.{Option, none, some}
pub use mathlib.Core.List.{List, [], ◌∷◌, ◌++◌, map}
pub use native.Mathlib.Omega.{arith}
