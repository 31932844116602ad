-- ===== src/Cycle/Agree/Step.antt =====
-- One instruction of one lane: the loop body of the cycle model's EXEC state beside `execute`, the
-- switch of the simulator.
use open_gpu.Prelude.{
  ℕ, ◌+◌, ◌*◌, ◌≡◌, ◌⊎◌, refl, sym, ap, ◌∙◌, inl, inr, false, ◌||◌, Option, none, some, List, arith,
  ◌==◌, Bool-cases, Option-cases,
}
use mathlib.Core.Path.{subst}
use open_gpu.Prelude.Word.{add32}
use open_gpu.Config.{Config}
use open_gpu.Backend.{World}
use open_gpu.Iss.State.{Lane}
use open_gpu.Iss.Decode.{opcode, rs1_of, rs2_of, imm_i, imm_j}
use open_gpu.Iss.Alu.{jump_target}
use open_gpu.Iss.Step.{
  Outcome, trap, halt, retire, execute, write_back, bad_registers, retire_or_trap, targets_agree,
}
use open_gpu.Iss.Step.Zero.{write_back_good, length-written_file}
use open_gpu.Cycle.State.{CycleCore}
use open_gpu.Cycle.Transfer.{lane_register}
use open_gpu.Cycle.Lane.{Pass, lane_value, jump, write_lane, lane_step}
use open_gpu.Cycle.Agree.{Mirrors}
use open_gpu.Cycle.Agree.Registers.{same_test, written_file-put_register}
use open_gpu.Cycle.Agree.Value.{
  operand_1, operand_2, IsWord, IsLaneOp, operand_1-lane_register, operand_2-lane_register,
  value-execute,
}
use open_gpu.Cycle.Agree.Jump.{
  jump-other, jump-jal, jump-jalr, link, jal-execute, jalr-execute, jalr_uses,
}

-- A result and a next pc leave the two lanes alike.
write_lane-Mirrors :
    (c : Config) (cid t res next : ℕ) (core : CycleCore) (l : Lane)
    → Mirrors c cid t core l
    → bad_registers core.inst ≡ false
    → Mirrors c cid t
        (record (write_lane c t res core) { ip = next })
        (write_back core.inst res next l)
unfolding write_lane
write_lane-Mirrors c cid t res next core l h good =
    subst (Mirrors c cid t (record (write_lane c t res core) { ip = next }))
      (sym (write_back_good core.inst res next l good))
      (record {
        pc = refl;
        size = length-written_file core.inst res l h.size;
        file = λ i k. rw (same_test (core.iw * c.num_threads + t)) (
            written_file-put_register core.inst res l core.gpr (core.iw * c.num_threads + t) h.size
              h.file good i k);
        hart = h.hart;
        thread_x = h.thread_x;
        thread_y = h.thread_y;
        thread_z = h.thread_z;
        block = h.block;
        block_size = h.block_size;
        grid_size = h.grid_size;
        args = h.args;
        physical = h.physical;
        warp = h.warp;
        lane = h.lane;
      })

-- What the loop body of the cycle model made of the lane, for an outcome of the simulator: it
-- clears `good` where the simulator traps, and otherwise goes to the same pc with the same registers.
-- The trap of JALR, when the lanes of a warp disagree, is not the business of one lane.
abbrev pub Follows : Config → ℕ → ℕ → Lane → Pass → Pass → Outcome → Type 0
Follows c cid t l p p' trap = (opcode p.core.inst ≡ 0x67) ⊎ (p'.good ≡ false)
Follows c cid t l p p' halt = ⊥
Follows c cid t l p p' (retire bad res next) =
    (bad ≡ false)
    × (p'.good ≡ p.good)
    × (p'.next ≡ next)
    × Mirrors c cid t (record p'.core { ip = next }) (write_back p.core.inst res next l)

jump-good : (a : ℕ) (p : Pass) → (jump a p).good ≡ p.good
unfolding jump
jump-good a p = ground arith

-- A lane with a result.
lane_step-some :
    (c : Config) (cid t res next : ℕ) (l : Lane) (p : Pass)
    → Mirrors c cid t p.core l
    → bad_registers p.core.inst ≡ false
    → let a = lane_register c p.core t (rs1_of p.core.inst) in
      let b = lane_register c p.core t (rs2_of p.core.inst) in
      lane_value c p.core cid t a b ≡ some res
      → (jump a p).next ≡ next
      → Follows c cid t l p (lane_step c cid t p) (retire false res next)
unfolding lane_step
lane_step-some c cid t res next l p h good e n =
    rw (lane_step, e) (refl, jump-good _ p, n, write_lane-Mirrors c cid t res next p.core l h good)

lane_step-none :
    (c : Config) (cid t : ℕ) (p : Pass)
    → let a = lane_register c p.core t (rs1_of p.core.inst) in
      let b = lane_register c p.core t (rs2_of p.core.inst) in
      lane_value c p.core cid t a b ≡ none → (lane_step c cid t p).good ≡ false
unfolding lane_step
lane_step-none c cid t p e = rw (lane_step, e) refl

module _ (c : Config) (cid t i : ℕ) (p : Pass) (cores : List Lane) (l : Lane) (w : World)
    (h : Mirrors c cid t p.core l) (ok : IsWord p.core.inst) where
  -- The two sides agree on the instruction at lane `t`.
  abbrev Agree : Type 0
  Agree =
      (o : Outcome) × (execute c cores i l w p.core.inst (operand_1 p.core.inst l)
          (operand_2 p.core.inst l)
        ≡ some (o, w))
      × Follows c cid t l p (lane_step c cid t p) o

  agree_jal : opcode p.core.inst ≡ 0x6f → Agree
  agree_jal is = (
    retire false (add32 l.pc 4) (add32 l.pc (imm_j p.core.inst)),
    jal-execute c i _ _ p.core.inst cores l w is,
    subst
        (λ (q : ℕ).
          Follows c cid t l p (lane_step c cid t p)
            (retire false (add32 q 4) (add32 q (imm_j p.core.inst))))
        (sym h.pc)
        (lane_step-some c cid t (add32 p.core.ip 4) (add32 p.core.ip (imm_j p.core.inst)) l p h
          ok.fields (link c p.core cid t _ _ (inl is)) (jump-jal _ p is)),
  )

  agree_jalr : opcode p.core.inst ≡ 0x67 → Agree
  agree_jalr is =
      let a = operand_1 p.core.inst l in
      let target = jump_target a (imm_i p.core.inst) in
      let same =
        operand_1-lane_register c cid t p.core.inst p.core l h ok.fields
          (jalr_uses p.core.inst is) in
      let step = jalr-execute c i a (operand_2 p.core.inst l) p.core.inst cores l w is in
      elim (Bool-cases
        (targets_agree i l (rs1_of p.core.inst) (imm_i p.core.inst) target 0 cores)) [
          | inl together ↦ (
            retire false (add32 l.pc 4) target,
            step ∙ rw together refl,
            subst
                (λ (q : ℕ).
                  Follows c cid t l p (lane_step c cid t p) (retire false (add32 q 4) target))
                (sym h.pc)
                (lane_step-some c cid t (add32 p.core.ip 4) target l p h ok.fields
                  (link c p.core cid t _ _ (inr is))
                  (jump-jalr _ p is
                    ∙ ap (λ (x : ℕ). jump_target x (imm_i p.core.inst)) (sym same))),
          )
          | inr apart ↦ (trap, step ∙ rw apart refl, inl is)
        ]

  agree_value :
      IsLaneOp p.core.inst
      → (opcode p.core.inst == 0x6f) ≡ false
      → (opcode p.core.inst == 0x67) ≡ false
      → p.next ≡ add32 p.core.ip 4
      → Agree
  agree_value lane jal jalr ready =
      let inst = p.core.inst in
      let x = lane_register c p.core t (rs1_of inst) in
      let y = lane_register c p.core t (rs2_of inst) in
      let next = add32 l.pc 4 in
      let step =
        value-execute c cid t i (operand_1 inst l) (operand_2 inst l) p.core cores l w h ok lane jal
          jalr (operand_1-lane_register c cid t inst p.core l h ok.fields)
          (operand_2-lane_register c cid t inst p.core l h ok.fields) in
      elim (Option-cases (lane_value c p.core cid t x y)) [
        | inl nothing ↦ (
          trap,
          step ∙ ap (λ (v : Option ℕ). some (retire_or_trap next v, w)) nothing,
          inr (lane_step-none c cid t p nothing),
        )
        | inr (res, value) ↦ (
          retire false res next,
          step ∙ ap (λ (v : Option ℕ). some (retire_or_trap next v, w)) value,
          lane_step-some c cid t res next l p h ok.fields value
              (jump-other x p jal jalr ∙ ready ∙ ap (λ (q : ℕ). add32 q 4) (sym h.pc)),
        )
      ]

-- An instruction that is not a load, a store, a branch or EBREAK does the same to a lane of the
-- simulator and to the lane of the cycle model that it stands for, whatever the opcode: it always
-- has an outcome and changes neither memory nor trace, the cycle model clears `good` where the
-- simulator traps, and otherwise the lanes have the same registers after it and go to the same pc.
-- The trap of a JALR whose targets differ in the warp is excepted. The instruction is a word that
-- names the registers x0 to x15 and, if it shifts by an immediate, has 0 or 0x20 for funct7; and
-- before the loop over the lanes has come to a jump, its next pc is that of the next word.
pub lane_step-execute :
    (c : Config) (cid t i : ℕ) (p : Pass) (cores : List Lane) (l : Lane) (w : World)
    → Mirrors c cid t p.core l
    → IsWord p.core.inst
    → IsLaneOp p.core.inst
    → ((opcode p.core.inst == 0x6f || opcode p.core.inst == 0x67) ≡ false
        → p.next ≡ add32 p.core.ip 4)
    → (o : Outcome) × (execute c cores i l w p.core.inst
          (operand_1 p.core.inst l)
          (operand_2 p.core.inst l)
        ≡ some (o, w))
      × Follows c cid t l p (lane_step c cid t p) o
lane_step-execute c cid t i p cores l w h ok lane ready =
    elim (Bool-cases (opcode p.core.inst == 0x6f)) [
      | inl jal ↦ agree_jal c cid t i p cores l w h ok (ground (arith, jal))
      | inr no_jal ↦ elim (Bool-cases (opcode p.core.inst == 0x67)) [
        | inl jalr ↦ agree_jalr c cid t i p cores l w h ok (ground (arith, jalr))
        | inr no_jalr ↦
            agree_value c cid t i p cores l w h ok lane no_jal no_jalr
              (ready (rw (no_jal, no_jalr) refl))
      ]
    ]
