-- ===== src/Comun.antt =====
-- Names that the other modules share: the libraries', passed on, and those of the children.
mod Pruebas
mod Listas
mod Bytes
pub use Pruebas.*
pub use Listas.*
pub use Bytes.{IsByte, codes, c_string}
unfoldable pub use Bytes.{eq_bytes}
pub use Bytes.{eq_bytes_refl, eq_bytes_sound}
pub use Prim.Native.Nat.{ℕ, zero, suc, ◌+◌, ◌-◌, ◌*◌, ◌/◌, ◌%◌, ◌^◌, ◌≤◌, ◌<◌}
pub use mathlib.Core.Path.{◌≡◌, refl, sym, ap, ◌∙◌, subst}
pub use mathlib.Core.Logic.{◌≢◌, ◌↔◌, ◌⊎◌, inl, inr}
pub use mathlib.Core.Bool.{Bool, true, false, not, ◌&&◌, ◌||◌}
pub use mathlib.Core.Option.{Option, none, some}
pub use mathlib.Core.List.{List, [], ◌∷◌, ◌++◌, map, append-nil, append_assoc}
pub use native.Mathlib.Omega.{arith}
