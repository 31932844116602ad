-- ===== src/Prelude/Word.antt =====
-- 32-bit and 64-bit unsigned words as native numbers: every operation wraps as C's does.
use open_gpu.Prelude.{ℕ, ◌+◌, ◌-◌, ◌*◌, ◌%◌, ◌^◌, ◌≤◌, ◌<◌, arith}

abbrev pub u32_mod : ℕ
u32_mod = 2 ^ 32

abbrev pub u64_mod : ℕ
u64_mod = 2 ^ 64

-- `UINT32_MAX`
abbrev pub u32_max : ℕ
u32_max = 2 ^ 32 - 1

abbrev pub IsU32 : ℕ → Type 0
IsU32 n = n < u32_mod

abbrev pub IsU64 : ℕ → Type 0
IsU64 n = n < u64_mod

abbrev pub add32 : ℕ → ℕ → ℕ
add32 a b = (a + b) % u32_mod

abbrev pub sub32 : ℕ → ℕ → ℕ
sub32 a b = (a + u32_mod - b) % u32_mod

-- `~x`
abbrev pub not32 : ℕ → ℕ
not32 x = u32_max - x

abbrev pub mul64 : ℕ → ℕ → ℕ
mul64 a b = (a * b) % u64_mod

-- A factor of a product that is not zero is at most the product.
pub le_mul_pos : (a b : ℕ) → 0 < b → a ≤ a * b
le_mul_pos a b h = grind arith
