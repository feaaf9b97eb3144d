-- ===== src/Common.antt =====
-- The names that the other modules share: the libraries', passed on, and those of the children.
mod Tests
mod Lists
mod Texts
mod Maps
mod Sorting
mod Missing
mod Numbers
mod Results
mod Sums
unfoldable pub use Tests.*
unfoldable pub use Lists.*
pub use Texts.{Text, push, is_empty}
unfoldable pub use Texts.{txt, same, includes}
pub use Texts.{includes_iff, same_iff, same_refl, same_trans}
unfoldable pub use Maps.*
unfoldable pub use Sorting.*
unfoldable pub use Missing.*
unfoldable pub use Numbers.*
unfoldable pub use Results.*
unfoldable pub use Sums.*
pub use Prim.Native.Nat.{ℕ, zero, suc, ◌+◌, ◌-◌, ◌*◌, ◌/◌, ◌%◌, ◌^◌, ◌≤◌, ◌<◌, min, max}
pub use Prim.Native.String.{String}
pub use mathlib.Core.Path.{◌≡◌, refl, sym, ap, ◌∙◌}
pub use mathlib.Core.Logic.{◌≢◌, ◌↔◌, ◌⊎◌, inl, inr}
pub use mathlib.Core.Bool.{Bool, true, false, not, ◌&&◌, ◌||◌}
pub use mathlib.Core.Option.{Option, none, some}
pub use mathlib.Core.List.{List, [], ◌∷◌, ◌++◌, map}
pub use native.Mathlib.Omega.{arith}
