-- ===== src/Base.antt =====
-- Names that the whole development shares: the libraries', and those of the children.
mod Tests
mod Lists
mod Text
mod Int
mod Errors
mod Path
mod Decimal
mod Sorting
pub use Tests.*
pub use Lists.*
unfoldable pub use Text.*
pub use Int.*
pub use Errors.*
pub use Path.Clean.{
  is_plain, IsPlain, BelowRoot, clean-BelowRoot, join-BelowRoot, join_not_empty, clean_not_empty,
}
unfoldable pub use Path.{clean, join, dir, is_rooted, base, ext, stem, strip_prefix, lies_in}
pub use Path.{lies_in_itself}
unfoldable pub use Decimal.*
unfoldable pub use Sorting.*
pub use Prim.Native.Nat.{ℕ, zero, suc, ◌+◌, ◌-◌, ◌*◌, ◌/◌, ◌%◌, ◌^◌, ◌≤◌, ◌<◌}
pub use Prim.Native.String.{String}
pub use mathlib.Core.Path.{◌≡◌, refl, sym, ap, ◌∙◌, subst}
pub use mathlib.Core.Logic.{◌≢◌, ◌↔◌, ◌⊎◌, inl, inr}
pub use mathlib.Core.Bool.{Bool, true, false, not, ◌&&◌, ◌||◌}
pub use mathlib.Core.Option.{Option, none, some}
pub use mathlib.Core.List.{List, [], ◌∷◌, ◌++◌, map}
pub use native.Mathlib.Omega.{arith}
