-- ===== src/Base.antt =====
-- Shared names: the libraries' passed on, tests on native numbers, lists with native indices,
-- 32-bit and 64-bit arithmetic, and the status codes that the C functions return.
mod Tests
mod Lists
pub mod Word
pub use Tests.*
unfoldable pub use Lists.*
pub use Prim.Native.Nat.{ℕ, zero, suc, ◌+◌, ◌-◌, ◌*◌, ◌/◌, ◌%◌, ◌^◌, ◌≤◌, ◌<◌, min}
pub use mathlib.Core.Path.{◌≡◌, refl, sym, ap, ap₂, ◌∙◌, subst, subst₂}
pub use mathlib.Core.Logic.{◌≢◌, ◌↔◌, ◌⊎◌, inl, inr}
pub use mathlib.Core.Bool.{Bool, true, false, not, ◌&&◌, ◌||◌}
pub use mathlib.Core.Option.{Option, none, some}
pub use mathlib.Core.List.{List, [], ◌∷◌, ◌++◌, map, append-nil, append_assoc}
pub use native.Mathlib.Omega.{arith}

-- The `errno` values that the modelled functions return; `errno n` is any other code, such as
-- one handed on from pthread.
pub data Status : Type 0 where
  eok efault epipe edom enomem eio enosys eagain ebadf enotsup : Status
  errno : ℕ → Status
