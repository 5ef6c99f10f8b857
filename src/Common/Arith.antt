-- ===== src/Common/Arith.antt =====
-- Machine words as native numbers, and the facts about remainders that rings and strides rest on.
use Prim.Native.Nat.{ℕ, ◌+◌, ◌-◌, ◌%◌, ◌^◌, ◌≤◌, ◌<◌}
use mathlib.Core.Path.{◌≡◌}
use mathlib.Core.Bool.{Bool}
use native.Mathlib.Omega.{arith}
use native.Mathlib.Nat.{div-add-mod}
use shmipc_cpp.Common.Tests.{leb}

-- `a + b`, `a - b` on std::uint32_t.
abbrev pub add_u32 : ℕ → ℕ → ℕ
add_u32 a b = (a + b) % 2 ^ 32

abbrev pub sub_u32 : ℕ → ℕ → ℕ
sub_u32 a b = (a % 2 ^ 32 + 2 ^ 32 - b % 2 ^ 32) % 2 ^ 32

-- An std::int64_t is its bit pattern below 2 ^ 64. `a - b` on the patterns:
abbrev pub sub_i64 : ℕ → ℕ → ℕ
sub_i64 a b = (a + 2 ^ 64 - b) % 2 ^ 64

abbrev pub add_i64 : ℕ → ℕ → ℕ
add_i64 a b = (a + b) % 2 ^ 64

-- The signed order of two patterns.
abbrev pub le_i64 : ℕ → ℕ → Bool
le_i64 a b = leb ((a + 2 ^ 63) % 2 ^ 64) ((b + 2 ^ 63) % 2 ^ 64)

-- The same for std::int32_t, below 2 ^ 32.
abbrev pub le_i32 : ℕ → ℕ → Bool
le_i32 a b = leb ((a + 2 ^ 31) % 2 ^ 32) ((b + 2 ^ 31) % 2 ^ 32)

-- Two positions less than `c` apart are one if they agree mod `c`.
pub mod-injective : (h t c : ℕ) → h ≤ t → t < h + c → h % c ≡ t % c → h ≡ t
mod-injective h t c p q e = grind (arith, div-add-mod h c, div-add-mod t c)

-- std::size_t, and the 64-bit sums and differences of lengths.
abbrev pub add_u64 : ℕ → ℕ → ℕ
add_u64 a b = (a + b) % 2 ^ 64

abbrev pub sub_u64 : ℕ → ℕ → ℕ
sub_u64 a b = (a + 2 ^ 64 - b) % 2 ^ 64
