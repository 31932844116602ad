-- ===== src/Cycle/Agree/Value.antt =====
-- The operands and the result of an instruction that is no jump: `lane_value` beside `execute`, the
-- switch of the simulator.
use Prim.Native.Nat.{bit_and}
use open_gpu.Prelude.{
  ℕ, ◌+◌, ◌*◌, ◌<◌, ◌≡◌, refl, sym, ap, ◌∙◌, inl, inr, Bool, true, false, not, ◌&&◌, ◌||◌, Option,
  none, some, List, leb, arith, ◌==◌, Bool-cases, if◌then◌else◌,
}
use open_gpu.Prelude.Word.{u32_mod, add32}
use open_gpu.Prelude.Bits.{bit_and-mask}
use open_gpu.Config.{Config}
use open_gpu.Backend.{World}
use open_gpu.Iss.State.{Lane, reg}
use open_gpu.Iss.Decode.{shr, opcode, rd_of, funct3, rs1_of, rs2_of, uses_rd, uses_rs1, uses_rs2}
use open_gpu.Iss.Step.{Outcome, trap, execute, bad_registers, retire_or_trap}
use open_gpu.Cycle.State.{CycleCore}
use open_gpu.Cycle.Transfer.{lane_register}
use open_gpu.Cycle.Lane.{model_csr, lane_value}
use open_gpu.Cycle.Agree.{
  Mirrors, IsShift, model_csr-csr_value, model_reg-alu_reg, model_imm-alu_imm,
}
use open_gpu.Cycle.Agree.Registers.{low_register}

-- The operands that `step_core` hands to `execute`.
abbrev pub operand_1 : ℕ → Lane → ℕ
operand_1 inst l = if uses_rs1 (opcode inst) then reg l (rs1_of inst) else 0

abbrev pub operand_2 : ℕ → Lane → ℕ
operand_2 inst l = if uses_rs2 (opcode inst) then reg l (rs2_of inst) else 0

-- An instruction word whose register fields are good, and whose shift is one of the instruction
-- set if it is a shift by an immediate.
pub record IsWord (inst : ℕ) : Type 0 where
  pub word : inst < u32_mod
  pub fields : bad_registers inst ≡ false
  pub shift : opcode inst ≡ 0x13 → funct3 inst ≡ 5 → IsShift inst

-- Not a load, a store, a branch or EBREAK.
pub record IsLaneOp (inst : ℕ) : Type 0 where
  pub not_load : (opcode inst == 3) ≡ false
  pub not_store : (opcode inst == 0x23) ≡ false
  pub not_branch : (opcode inst == 0x63) ≡ false
  pub not_break : (inst == 0x00100073) ≡ false

pub rd_good :
    (inst : ℕ) → bad_registers inst ≡ false → (uses_rd (opcode inst) && leb 16 (rd_of inst)) ≡ false
unfolding bad_registers
rd_good inst h = ground (arith, h)

pub operand_1-lane_register :
    (c : Config) (cid t inst : ℕ) (core : CycleCore) (l : Lane)
    → Mirrors c cid t core l
    → bad_registers inst ≡ false
    → uses_rs1 (opcode inst) ≡ true
    → operand_1 inst l ≡ lane_register c core t (rs1_of inst)
unfolding bad_registers lane_register
operand_1-lane_register c cid t inst core l h good uses =
    let low : rs1_of inst < 16 = ground (arith, good, uses) in
    rw uses (
      h.file (rs1_of inst) low
      ∙ ap (core.gpr (core.iw * c.num_threads + t)) (sym (low_register (rs1_of inst) low)))

pub operand_2-lane_register :
    (c : Config) (cid t inst : ℕ) (core : CycleCore) (l : Lane)
    → Mirrors c cid t core l
    → bad_registers inst ≡ false
    → uses_rs2 (opcode inst) ≡ true
    → operand_2 inst l ≡ lane_register c core t (rs2_of inst)
unfolding bad_registers lane_register
operand_2-lane_register c cid t inst core l h good uses =
    let low : rs2_of inst < 16 = ground (arith, good, uses) in
    rw uses (
      h.file (rs2_of inst) low
      ∙ ap (core.gpr (core.iw * c.num_threads + t)) (sym (low_register (rs2_of inst) low)))

imm_uses : (inst : ℕ) → opcode inst ≡ 0x13 → uses_rs1 (opcode inst) ≡ true
unfolding uses_rs1
imm_uses inst is = rw is refl

reg_uses :
    (inst : ℕ)
    → opcode inst ≡ 0x33
    → (uses_rs1 (opcode inst) ≡ true) × (uses_rs2 (opcode inst) ≡ true)
unfolding uses_rs1 uses_rs2
reg_uses inst is = rw is (refl, refl)

low_csr : (inst : ℕ) → inst < u32_mod → bit_and (shr inst 20) 0xfff ≡ shr inst 20
low_csr inst h = bit_and-mask 0 12 (shr inst 20) (omega arith)

read_execute :
    (f r : Bool) (next : ℕ) (value : Option ℕ) (w : World)
    → Path
        (Option (Outcome × World))
        (some (if f && r then retire_or_trap next value else trap, w))
        (some (retire_or_trap next (if not f || not r then none else value), w))
read_execute true true next value w = refl
read_execute true false next value w = refl
read_execute false true next value w = refl
read_execute false false next value w = refl

-- An instruction that is no jump goes on to the next word, and has the same value on both sides,
-- from the operands `a` and `b` of the simulator.
pub value-execute :
    (c : Config) (cid t i a b : ℕ) (core : CycleCore) (cores : List Lane) (l : Lane) (w : World)
    → Mirrors c cid t core l
    → IsWord core.inst
    → IsLaneOp core.inst
    → (opcode core.inst == 0x6f) ≡ false
    → (opcode core.inst == 0x67) ≡ false
    → (uses_rs1 (opcode core.inst) ≡ true → a ≡ lane_register c core t (rs1_of core.inst))
    → (uses_rs2 (opcode core.inst) ≡ true → b ≡ lane_register c core t (rs2_of core.inst))
    → execute c cores i l w core.inst a b
      ≡ some (
        retire_or_trap (add32 l.pc 4) (
            lane_value c core cid t
              (lane_register c core t (rs1_of core.inst))
              (lane_register c core t (rs2_of core.inst))),
        w,
      )
unfolding execute lane_value
value-execute c cid t i a b core cores l w h ok lane jal jalr same_a same_b =
    let inst = core.inst in
    let x = lane_register c core t (rs1_of inst) in
    let y = lane_register c core t (rs2_of inst) in
    rw (lane.not_load, lane.not_store, lane.not_branch, lane.not_break, jal, jalr)
      (elim (Bool-cases (opcode inst == 0x37)) [
        | inl lui ↦ rw lui refl
        | inr no_lui ↦ elim (Bool-cases (opcode inst == 0x17)) [
          | inl auipc ↦ rw (no_lui, auipc, h.pc) refl
          | inr no_auipc ↦ elim (Bool-cases (opcode inst == 0x13)) [
            | inl op_imm ↦
                let is : opcode inst ≡ 0x13 = ground (arith, op_imm) in
                rw
                  (
                    no_lui,
                    no_auipc,
                    op_imm,
                    same_a (imm_uses inst is),
                    model_imm-alu_imm inst x (ok.shift is),
                  )
                  refl
            | inr no_imm ↦ elim (Bool-cases (opcode inst == 0x33)) [
              | inl op_reg ↦
                  let is : opcode inst ≡ 0x33 = ground (arith, op_reg) in
                  let (uses1, uses2) = reg_uses inst is in
                  rw
                    (
                      no_lui,
                      no_auipc,
                      no_imm,
                      op_reg,
                      same_a uses1,
                      same_b uses2,
                      model_reg-alu_reg inst x y,
                    )
                    refl
              | inr no_reg ↦ elim (Bool-cases (opcode inst == 0x73)) [
                | inl system ↦
                    rw
                      (
                        no_lui,
                        no_auipc,
                        no_imm,
                        no_reg,
                        system,
                        low_csr inst ok.word,
                        model_csr-csr_value c cid t (shr inst 20) core l h,
                      )
                      (read_execute (funct3 inst == 2) (rs1_of inst == 0) (add32 l.pc 4)
                        (model_csr c core cid t (shr inst 20)) w)
                | inr other ↦ rw (no_lui, no_auipc, no_imm, no_reg, other) refl
              ]
            ]
          ]
        ]
      ])
