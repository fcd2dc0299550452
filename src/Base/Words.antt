-- ===== src/Base/Words.antt =====
-- Machine integers: the bounds and the saturating operations of the source's `u64`, `u32`, `u16`.
use Prim.Native.Nat.{ℕ, ◌+◌, ◌≤◌, min}
use native.Mathlib.Omega.{arith}

abbrev pub u64_max : ℕ
u64_max = 18446744073709551615

abbrev pub u32_max : ℕ
u32_max = 4294967295

abbrev pub u16_max : ℕ
u16_max = 65535

abbrev pub saturating_add : ℕ → ℕ → ℕ → ℕ
saturating_add top a b = min (a + b) top

pub saturating_add-le : (top a b : ℕ) → saturating_add top a b ≤ top
saturating_add-le top a b = omega arith
