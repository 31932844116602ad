-- ===== src/Iss/Alu.antt =====
-- The switches of `step_core` (sw/sim/sm/iss.cpp) that compute a value from operands: the
-- arithmetic, the conditions of branches, the target of a jump and the registers read by CSRRS.
use Prim.Native.Nat.{bit_and, bit_or, bit_xor}
use open_gpu.Prelude.{ℕ, Bool, not, Option, none, some, ltb, ◌==◌, if◌then◌else◌}
use open_gpu.Prelude.Word.{add32, sub32, not32}
use open_gpu.Iss.State.{Lane}
use open_gpu.Iss.Decode.{shr, shl, sar, slt, funct3, funct7, imm_i}

abbrev pub flag : Bool → ℕ
flag b = if b then 1 else 0

-- OP-IMM; `none` is the `default` of the switch.
unfoldable pub alu_imm : ℕ → ℕ → Option ℕ
alu_imm inst a =
    let f3 = funct3 inst in
    let imm = imm_i inst in
    let shamt = bit_and (shr inst 20) 31 in
    if f3 == 0
    then some (add32 a imm)
    else if f3 == 2
    then some (flag (slt a imm))
    else if f3 == 3
    then some (flag (ltb a imm))
    else if f3 == 4
    then some (bit_xor a imm)
    else if f3 == 6
    then some (bit_or a imm)
    else if f3 == 7
    then some (bit_and a imm)
    else if f3 == 1
    then some (shl a shamt)
    else if f3 == 5
    then some (if funct7 inst == 0x20 then sar a shamt else shr a shamt)
    else none

-- OP
unfoldable pub alu_reg : ℕ → ℕ → ℕ → Option ℕ
alu_reg inst a b =
    let f3 = funct3 inst in
    let shamt = bit_and b 31 in
    if f3 == 0
    then some (if funct7 inst == 0x20 then sub32 a b else add32 a b)
    else if f3 == 1
    then some (shl a shamt)
    else if f3 == 2
    then some (flag (slt a b))
    else if f3 == 3
    then some (flag (ltb a b))
    else if f3 == 4
    then some (bit_xor a b)
    else if f3 == 5
    then some (if funct7 inst == 0x20 then sar a shamt else shr a shamt)
    else if f3 == 6
    then some (bit_or a b)
    else if f3 == 7
    then some (bit_and a b)
    else none

-- BRANCH: whether it is taken.
unfoldable pub branch_taken : ℕ → ℕ → ℕ → Option Bool
branch_taken f3 a b =
    if f3 == 0
    then some (a == b)
    else if f3 == 1
    then some (not (a == b))
    else if f3 == 4
    then some (slt a b)
    else if f3 == 5
    then some (not (slt a b))
    else if f3 == 6
    then some (ltb a b)
    else if f3 == 7
    then some (not (ltb a b))
    else none

-- `(base + offset) & ~1u`
unfoldable pub jump_target : ℕ → ℕ → ℕ
jump_target base offset = bit_and (add32 base offset) (not32 1)

-- The control and status registers that a kernel can read.
unfoldable pub csr_value : Lane → ℕ → Option ℕ
csr_value l n =
    if n == 0xf14
    then some l.hartid
    else if n == 0xcc0
    then some l.thread_idx.x
    else if n == 0xcc1
    then some l.thread_idx.y
    else if n == 0xcc2
    then some l.thread_idx.z
    else if n == 0xcc3
    then some l.block_idx.x
    else if n == 0xcc4
    then some l.block_idx.y
    else if n == 0xcc5
    then some l.block_idx.z
    else if n == 0xcc6
    then some l.block_dim.x
    else if n == 0xcc7
    then some l.block_dim.y
    else if n == 0xcc8
    then some l.block_dim.z
    else if n == 0xcc9
    then some l.grid_dim.x
    else if n == 0xcca
    then some l.grid_dim.y
    else if n == 0xccb
    then some l.grid_dim.z
    else if n == 0xccc
    then some l.args_addr
    else if n == 0xccd
    then some l.physical_id
    else if n == 0xcce
    then some l.warp_id
    else if n == 0xccf
    then some l.lane_id
    else none
