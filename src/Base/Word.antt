-- ===== src/Base/Word.antt =====
-- Unsigned machine arithmetic: 32-bit words, and single bits of a word.
use Prim.Native.Nat.{ℕ, ◌+◌, ◌-◌, ◌/◌, ◌%◌, ◌^◌}
use mathlib.Core.Bool.{Bool}
use dev_can_linux.Base.Tests.{◌==◌, if◌then◌else◌}

abbrev pub u32 : ℕ → ℕ
u32 n = n % 2 ^ 32

abbrev pub sub32 : ℕ → ℕ → ℕ
sub32 a b = (a + 2 ^ 32 - b) % 2 ^ 32

-- `x & (1 << k)` as a test, `x & ((1 << k) - 1)`, `x | (1 << k)` and `x & ~(1 << k)`, in a form
-- that arithmetic reads.
abbrev pub bit_at : ℕ → ℕ → Bool
bit_at x k = x / 2 ^ k % 2 == 1

abbrev pub low_bits : ℕ → ℕ → ℕ
low_bits x k = x % 2 ^ k

abbrev pub with_bit : ℕ → ℕ → ℕ
with_bit x k = if bit_at x k then x else x + 2 ^ k

abbrev pub without_bit : ℕ → ℕ → ℕ
without_bit x k = if bit_at x k then x - 2 ^ k else x
