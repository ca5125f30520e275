-- ===== src/Base.antt =====
-- The names that the other modules share: the libraries', passed on, and those of the children.
mod Tests
mod Lists
mod Slices
mod Bytes
pub mod Codec
pub mod Result
pub use Tests.*
pub use Lists.{length, set, get_or, All, length-append, length-take, length-drop, length-replicate}
pub use Lists.{take-append-drop, take_all, drop_all, take-zero, drop-zero, take-append, drop-append}
pub use Lists.{drop-drop, drop-take, take-take, take-append_left, drop-append_left}
pub use Lists.{replicate-append, drop-replicate, take-replicate}
unfoldable pub use Lists.{take, drop, replicate}
pub use Slices.{
  slice_lem, splice_lem, length-slice, length-splice, slice-splice_below, slice-splice_above,
  slice-splice_self,
}
unfoldable pub use Slices.{slice, splice}
unfoldable pub use Bytes.{rstrip, same_bytes}
pub use Prim.Native.Nat.{ℕ, zero, suc, ◌+◌, ◌-◌, ◌*◌, ◌/◌, ◌%◌, ◌^◌, ◌≤◌, ◌<◌, min, max}
pub use mathlib.Core.Path.{◌≡◌, refl, sym, ap, ap₂, ◌∙◌}
pub use mathlib.Core.Logic.{◌≢◌, ◌↔◌, ◌⊎◌, inl, inr}
pub use mathlib.Core.Bool.{Bool, true, false, ◌&&◌, ◌||◌, not}
pub use mathlib.Core.Option.{Option, none, some}
pub use mathlib.Core.List.{List, [], ◌∷◌, ◌++◌, map, append-nil, append_assoc}
pub use native.Mathlib.Omega.{arith}
