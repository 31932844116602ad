-- ===== src/Runtime/Range.antt =====
-- The word arithmetic of sw/runtime/gpu/gpu.c: alignment, ranges and checked products.
use Prim.Native.Nat.{bit_and}
use open_gpu.Prelude.{
  ℕ, ◌+◌, ◌-◌, ◌*◌, ◌/◌, ◌%◌, ◌^◌, ◌≤◌, ◌<◌, ◌≡◌, ◌↔◌, Bool, true, not, ◌&&◌, Option, none, some,
  ltb, leb, ◌==◌, if◌then◌else◌, arith,
}
use open_gpu.Prelude.Word.{u32_mod, u32_max, add32, sub32, not32, mul64, IsU32, IsU64}
use open_gpu.Prelude.Bits.{bit_and-mask}

-- `GPU_ALIGN`
abbrev pub gpu_align : ℕ
gpu_align = 64

unfoldable pub align_up : ℕ → ℕ
align_up value = bit_and (sub32 (add32 value gpu_align) 1) (not32 (gpu_align - 1))

unfoldable pub range_inside : ℕ → ℕ → ℕ → ℕ → Bool
range_inside address size begin end =
    not (size == 0)
    && leb begin address
    && ltb address end
    && leb size u32_max
    && leb (size % u32_mod) (sub32 end address)

-- `none` is the result `false`; the value is what goes through `out`.
unfoldable pub mul_u32 : ℕ → ℕ → Option ℕ
mul_u32 a b =
    let product = mul64 a b in if ltb u32_max product then none else some (product % u32_mod)

-- The mask clears the six low bits.
bit_and-align_mask : (x : ℕ) → IsU32 x → bit_and x 0xffffffc0 ≡ x / 64 * 64
bit_and-align_mask x h = omega (arith, bit_and-mask 6 26 x (omega arith))

-- What the alignment gives for every word, the wrap at the end of the address space included.
pub align_up_lem : (v : ℕ) → align_up v ≡ (v + 63) % u32_mod / 64 * 64
unfolding align_up
align_up_lem v = omega (arith, bit_and-align_mask (sub32 (add32 v 64) 1) (omega arith))

-- The test is exact: the range lies between its ends, with nothing wrapped.
pub range_inside_iff :
    (address size begin end : ℕ)
    → IsU32 address
    → IsU64 size
    → IsU32 end
    → (range_inside address size begin end ≡ true)
      ↔ ((0 < size) × (begin ≤ address) × (address + size ≤ end))
unfolding range_inside
range_inside_iff address size begin end ha hs he = ground arith

u32_product : (a b : ℕ) → IsU32 a → IsU32 b → a * b < 2 ^ 64
u32_product a b ha hb = grind arith

-- The checked product fails exactly when the true product needs more than 32 bits.
pub mul_u32_lem :
    (a b : ℕ)
    → IsU32 a
    → IsU32 b
    → mul_u32 a b ≡ (if ltb (a * b) u32_mod then some (a * b) else none)
unfolding mul_u32
mul_u32_lem a b ha hb = ground (arith, u32_product a b ha hb)
