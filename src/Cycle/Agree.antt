-- ===== src/Cycle/Agree.antt =====
-- The cycle model beside the simulator of sw/sim/sm/iss.cpp: what it means that a lane of a core
-- stands for a lane of the simulator, and that the two compute the same values.
pub mod Registers
pub mod Value
pub mod Jump
pub mod Step
pub mod Branch
pub mod Load
pub mod Start
use Prim.Native.Nat.{bit_and}
use open_gpu.Prelude.{
  ℕ, ◌+◌, ◌*◌, ◌<◌, ◌≡◌, ◌⊎◌, refl, sym, inl, inr, ap, ◌∙◌, Bool, not, Bool-cases, Option, none,
  some, ltb, length, arith, ◌==◌, if◌then◌else◌,
}
use open_gpu.Prelude.Word.{u32_mod}
use open_gpu.Prelude.Bits.{bit_and-mask}
use open_gpu.Config.{Config}
use open_gpu.Iss.State.{Lane, reg}
use open_gpu.Iss.Decode.{shr, funct3, funct7}
use open_gpu.Iss.Alu.{alu_imm, alu_reg, branch_taken, csr_value}
use open_gpu.Cycle.State.{CycleCore, contexts}
use open_gpu.Cycle.Lane.{takes, is_branch, model_imm, model_reg, model_csr}

-- Lane `l` of the simulator has the coordinates and the registers that lane `t` of the warp in work
-- has in core `cid`, and is at the pc of the warp.
pub record Mirrors (c : Config) (cid t : ℕ) (core : CycleCore) (l : Lane) : Type 0 where
  pub pc : l.pc ≡ core.ip
  pub size : length l.gpr ≡ 16
  pub file : (i : ℕ) → i < 16 → reg l i ≡ core.gpr (core.iw * c.num_threads + t) i
  pub hart : l.hartid ≡ core.gid (core.iw * c.num_threads + t)
  pub thread_x : l.thread_idx.x ≡ core.tx (core.iw * c.num_threads + t)
  pub thread_y : l.thread_idx.y ≡ core.ty (core.iw * c.num_threads + t)
  pub thread_z : l.thread_idx.z ≡ core.tz (core.iw * c.num_threads + t)
  pub block : l.block_idx ≡ core.block
  pub block_size : l.block_dim ≡ core.dim
  pub grid_size : l.grid_dim ≡ core.grid
  pub args : l.args_addr ≡ core.args
  pub physical : l.physical_id ≡ cid * contexts c + core.iw * c.num_threads + t
  pub warp : l.warp_id ≡ core.iw
  pub lane : l.lane_id ≡ t

-- An arithmetic or logical shift by an immediate, as the instruction set defines them.
abbrev pub IsShift : ℕ → Type 0
IsShift inst = (funct7 inst ≡ 0) ⊎ (funct7 inst ≡ 0x20)

pub model_csr-csr_value :
    (c : Config) (cid t n : ℕ) (core : CycleCore) (l : Lane)
    → Mirrors c cid t core l
    → csr_value l n ≡ model_csr c core cid t n
unfolding csr_value model_csr
model_csr-csr_value c cid t n core l h =
    rw
      (
        h.hart, h.thread_x, h.thread_y, h.thread_z, h.block, h.block_size, h.grid_size, h.args,
        h.physical, h.warp, h.lane,
      )
      refl

pub model_reg-alu_reg : (inst a b : ℕ) → alu_reg inst a b ≡ model_reg inst a b
unfolding alu_reg model_reg
model_reg-alu_reg inst a b = refl

-- Bit 30 tells the two shifts apart.
shift_bit : (inst : ℕ) → IsShift inst → (funct7 inst == 0x20) ≡ not (bit_and (shr inst 30) 1 == 0)
unfolding funct7
shift_bit inst (inl e) = let zero_bit : shr inst 30 ≡ 0 = omega arith in rw (e, zero_bit) refl
shift_bit inst (inr e) = let one_bit : shr inst 30 ≡ 1 = omega arith in rw (e, one_bit) refl

pub model_imm-alu_imm :
    (inst a : ℕ) → (funct3 inst ≡ 5 → IsShift inst) → alu_imm inst a ≡ model_imm inst a
unfolding alu_imm model_imm
model_imm-alu_imm inst a h = elim (Bool-cases (funct3 inst == 5)) [
  | inl shift ↦ rw (shift_bit inst (h (ground (arith, shift)))) refl
  | inr other ↦ rw other refl
]

-- The conditions of the two switches are the same, and so are the cases that they leave out.
pub takes-branch_taken :
    (f3 a b : ℕ) → branch_taken f3 a b ≡ (if is_branch f3 then some (takes f3 a b) else none)
unfolding branch_taken is_branch takes
takes-branch_taken f3 a b = ground arith
