-- ===== src/Base/Words.antt =====
-- The fixed widths of the source: u32 and u64, with usize as on a 64-bit target.
use Prim.Native.Nat.{ℕ, ◌+◌, ◌≤◌, min}
use native.Mathlib.Omega.{arith}

-- u32::MAX
abbrev pub u32_max : ℕ
u32_max = 4294967295

-- u64::MAX
abbrev pub u64_max : ℕ
u64_max = 18446744073709551615

-- usize::MAX
abbrev pub usize_max : ℕ
usize_max = 18446744073709551615

-- u64::saturating_add and usize::saturating_add
abbrev pub saturating_add : ℕ → ℕ → ℕ
saturating_add a b = min (a + b) u64_max

pub saturating_add-le : (a b : ℕ) → saturating_add a b ≤ u64_max
saturating_add-le a b = omega arith
