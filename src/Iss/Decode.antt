-- ===== src/Iss/Decode.antt =====
-- The fields of an instruction word and the word arithmetic, as sw/sim/sm/iss.cpp writes them.
use Prim.Native.Nat.{bit_and, bit_or}
use open_gpu.Prelude.{ℕ, ◌-◌, ◌*◌, ◌/◌, ◌%◌, ◌^◌, Bool, ◌||◌, ltb, ◌==◌, if◌then◌else◌}
use open_gpu.Prelude.Word.{u32_mod, u32_max, add32}

-- `x >> k` and `x << k` on `uint32_t`.
abbrev pub shr : ℕ → ℕ → ℕ
shr x k = x / 2 ^ k

abbrev pub shl : ℕ → ℕ → ℕ
shl x k = x * 2 ^ k % u32_mod

-- `x >> k` on the signed reading of the word: copies of the sign come in from the left.
unfoldable pub sar : ℕ → ℕ → ℕ
sar x k = if ltb x (2 ^ 31) then x / 2 ^ k else u32_max - (u32_max - x) / 2 ^ k

-- `sext(value, bits)`, as the bit pattern of its `int32_t`.
unfoldable pub sext : ℕ → ℕ → ℕ
unfolding sar
sext value bits = sar (shl value (32 - bits)) (32 - bits)

-- `(int32_t)a < (int32_t)b`: with the sign bit turned over the order is that of the words.
unfoldable pub slt : ℕ → ℕ → Bool
slt a b = ltb (add32 a (2 ^ 31)) (add32 b (2 ^ 31))

unfoldable pub opcode : ℕ → ℕ
opcode inst = bit_and inst 0x7f

unfoldable pub rd_of : ℕ → ℕ
rd_of inst = bit_and (shr inst 7) 0x1f

unfoldable pub funct3 : ℕ → ℕ
funct3 inst = bit_and (shr inst 12) 7

unfoldable pub rs1_of : ℕ → ℕ
rs1_of inst = bit_and (shr inst 15) 0x1f

unfoldable pub rs2_of : ℕ → ℕ
rs2_of inst = bit_and (shr inst 20) 0x1f

unfoldable pub funct7 : ℕ → ℕ
funct7 inst = shr inst 25

-- The immediates, as words.
unfoldable pub imm_i : ℕ → ℕ
unfolding sext
imm_i inst = sext (shr inst 20) 12

unfoldable pub imm_u : ℕ → ℕ
imm_u inst = bit_and inst 0xfffff000

unfoldable pub imm_s : ℕ → ℕ
unfolding sext
imm_s inst = sext (bit_or (bit_and (shr inst 7) 0x1f) (shl (shr inst 25) 5)) 12

unfoldable pub imm_b : ℕ → ℕ
unfolding sext
imm_b inst =
    sext
      (bit_or
        (bit_or (bit_or (bit_and (shr inst 7) 0x1e) (bit_and (shr inst 20) 0x7e0))
          (bit_and (shl inst 4) 0x800))
        (bit_and (shr inst 19) 0x1000))
      13

unfoldable pub imm_j : ℕ → ℕ
unfolding sext
imm_j inst =
    sext
      (bit_or
        (bit_or (bit_or (bit_and (shr inst 20) 0x7fe) (bit_and (shr inst 9) 0x800))
          (bit_and inst 0xff000))
        (bit_and (shr inst 11) 0x100000))
      21

-- Which register fields an opcode uses.
unfoldable pub uses_rd : ℕ → Bool
uses_rd op =
    op == 0x37
    || op == 0x17
    || op == 0x13
    || op == 0x33
    || op == 0x03
    || op == 0x6f
    || op == 0x67
    || op == 0x73

unfoldable pub uses_rs1 : ℕ → Bool
uses_rs1 op = op == 0x13 || op == 0x33 || op == 0x03 || op == 0x23 || op == 0x63 || op == 0x67

unfoldable pub uses_rs2 : ℕ → Bool
uses_rs2 op = op == 0x33 || op == 0x23 || op == 0x63
