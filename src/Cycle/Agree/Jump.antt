-- ===== src/Cycle/Agree/Jump.antt =====
-- JAL and JALR: where the cycle model and the simulator go.
use open_gpu.Prelude.{
  ℕ, ◌≡◌, ◌⊎◌, refl, inl, inr, true, false, some, List, ◌==◌, Bool-cases, if◌then◌else◌,
}
use open_gpu.Prelude.Word.{add32}
use open_gpu.Config.{Config}
use open_gpu.Backend.{World}
use open_gpu.Iss.State.{Lane}
use open_gpu.Iss.Decode.{opcode, rs1_of, imm_i, imm_j, uses_rs1}
use open_gpu.Iss.Alu.{jump_target}
use open_gpu.Iss.Step.{trap, retire, execute, targets_agree}
use open_gpu.Cycle.State.{CycleCore}
use open_gpu.Cycle.Lane.{Pass, lane_value, jump}

pub jump-other :
    (a : ℕ) (p : Pass)
    → (opcode p.core.inst == 0x6f) ≡ false
    → (opcode p.core.inst == 0x67) ≡ false
    → (jump a p).next ≡ p.next
unfolding jump
jump-other a p jal jalr = rw (jal, jalr) refl

pub jump-jal :
    (a : ℕ) (p : Pass)
    → opcode p.core.inst ≡ 0x6f
    → (jump a p).next ≡ add32 p.core.ip (imm_j p.core.inst)
unfolding jump
jump-jal a p is = rw is refl

pub jump-jalr :
    (a : ℕ) (p : Pass)
    → opcode p.core.inst ≡ 0x67
    → (jump a p).next ≡ jump_target a (imm_i p.core.inst)
unfolding jump jump_target
jump-jalr a p is =
    rw is (elim (Bool-cases p.target_set) [ inl later ↦ rw later refl | inr first ↦ rw first refl ])

pub link :
    (c : Config) (core : CycleCore) (cid t a b : ℕ)
    → (opcode core.inst ≡ 0x6f) ⊎ (opcode core.inst ≡ 0x67)
    → lane_value c core cid t a b ≡ some (add32 core.ip 4)
unfolding lane_value
link c core cid t a b (inl jal) = rw jal refl
link c core cid t a b (inr jalr) = rw jalr refl

pub jal-execute :
    (c : Config) (i a b : ℕ) (inst : ℕ) (cores : List Lane) (l : Lane) (w : World)
    → opcode inst ≡ 0x6f
    → execute c cores i l w inst a b
      ≡ some (retire false (add32 l.pc 4) (add32 l.pc (imm_j inst)), w)
unfolding execute
jal-execute c i a b inst cores l w is = rw is refl

pub jalr-execute :
    (c : Config) (i a b : ℕ) (inst : ℕ) (cores : List Lane) (l : Lane) (w : World)
    → opcode inst ≡ 0x67
    → let target = jump_target a (imm_i inst) in
      execute c cores i l w inst a b
      ≡ some (
        if targets_agree i l (rs1_of inst) (imm_i inst) target 0 cores
            then retire false (add32 l.pc 4) target
            else trap,
        w,
      )
unfolding execute
jalr-execute c i a b inst cores l w is = rw is refl

pub jalr_uses : (inst : ℕ) → opcode inst ≡ 0x67 → uses_rs1 (opcode inst) ≡ true
unfolding uses_rs1
jalr_uses inst is = rw is refl
