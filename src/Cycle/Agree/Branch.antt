-- ===== src/Cycle/Agree/Branch.antt =====
-- A branch of a warp: where the cycle model sends each lane, beside the simulator.
use open_gpu.Prelude.{
  ℕ, ◌+◌, ◌≤◌, ◌<◌, ◌≡◌, ◌⊎◌, refl, sym, ap, ◌∙◌, inl, inr, true, false, some, List, leb, arith,
  ◌==◌, Bool-cases, if◌then◌else◌,
}
use open_gpu.Prelude.Word.{add32}
use open_gpu.Config.{Config}
use open_gpu.Backend.{World}
use open_gpu.Iss.State.{Lane}
use open_gpu.Iss.Decode.{opcode, funct3, rs1_of, rs2_of, imm_b, uses_rs1, uses_rs2}
use open_gpu.Iss.Step.{Outcome, trap, halt, retire, execute, bad_registers}
use open_gpu.Cycle.State.{CycleCore, stack_depth}
use open_gpu.Cycle.Mask.{mask_has}
use open_gpu.Cycle.Mask.Bits.{mask_has_nothing}
use open_gpu.Cycle.Mask.Split.{split_masks-has}
use open_gpu.Cycle.Transfer.{lane_register}
use open_gpu.Cycle.Lane.{takes, is_branch, split_masks}
use open_gpu.Cycle.Core.{branch_to, lane_takes, step_branch, next_warp}
use open_gpu.Cycle.Agree.{Mirrors, takes-branch_taken}
use open_gpu.Cycle.Agree.Registers.{same_test}
use open_gpu.Cycle.Agree.Value.{
  operand_1, operand_2, operand_1-lane_register, operand_2-lane_register,
}

-- The warp runs on at `next` with lane `t`.
pub record RunsAt (t next : ℕ) (core core' : CycleCore) : Type 0 where
  pub pc : core'.pc core.iw ≡ next
  pub active : mask_has (core'.mask core.iw) t ≡ true

-- Lane `t` waits on a new entry of the warp's stack, to go on at `next`.
pub record WaitsAt (t next : ℕ) (core core' : CycleCore) : Type 0 where
  pub depth : core'.sp core.iw ≡ core.sp core.iw + 1
  pub pc : core'.stack_pc core.iw (core.sp core.iw) ≡ next
  pub active : mask_has (core'.stack_mask core.iw (core.sp core.iw)) t ≡ true

-- The core has set its fault, and has given up its block.
pub record HasStopped (core : CycleCore) : Type 0 where
  pub fault : core.fault ≡ true
  pub idle : core.cta_active ≡ false

-- The stack of the warp was full, and the core has stopped.
pub record Overflows (core core' : CycleCore) : Type 0 where
  pub full : stack_depth ≤ core.sp core.iw
  pub stopped : HasStopped core'

abbrev pub Goes : ℕ → ℕ → CycleCore → CycleCore → Type 0
Goes t next core core' = RunsAt t next core core' ⊎ WaitsAt t next core core' ⊎ Overflows core core'

-- What the branch made of lane `t`, for an outcome of the simulator.
abbrev pub Branches : ℕ → CycleCore → CycleCore → Outcome → Type 0
Branches t core core' trap = HasStopped core'
Branches t core core' halt = ⊥
Branches t core core' (retire bad res next) = (bad ≡ false) × Goes t next core core'

-- A mask with a lane is not zero.
occupied : (mask t : ℕ) → t < 32 → mask_has mask t ≡ true → (mask == 0) ≡ false
occupied mask t small h = elim (Bool-cases (mask == 0)) [
  | inr some_lane ↦ some_lane
  | inl empty ↦
      let nothing : mask ≡ 0 = ground (arith, empty) in
      absurd (cc (sym h ∙ ap (λ (m : ℕ). mask_has m t) nothing ∙ mask_has_nothing t small))
]

module _ (core : CycleCore) (tk fl t : ℕ) (small : t < 32)
    (good : is_branch (funct3 core.inst) ≡ true) where
  taken-Goes :
      mask_has tk t ≡ true → Goes t (add32 core.ip (imm_b core.inst)) core (branch_to core tk fl)
  unfolding branch_to
  taken-Goes h = elim (Bool-cases (fl == 0)) [
    | inl alone ↦
        rw (good, occupied tk t small h, alone)
          (inl (record { pc = rw (same_test core.iw) refl; active = rw (same_test core.iw) h }))
    | inr both ↦ elim (Bool-cases (leb stack_depth (core.sp core.iw))) [
      | inl full ↦
          rw (good, occupied tk t small h, both, full)
            (inr (
              inr (record {
                full = ground (arith, full);
                stopped = record { fault = refl; idle = refl };
              })))
      | inr room ↦
          rw (good, occupied tk t small h, both, room)
            (inr (
              inl (record {
                depth = rw (same_test core.iw) refl;
                pc = rw (same_test core.iw, same_test (core.sp core.iw)) refl;
                active = rw (same_test core.iw, same_test (core.sp core.iw)) h;
              })))
    ]
  ]

  untaken-Goes : mask_has fl t ≡ true → Goes t (add32 core.ip 4) core (branch_to core tk fl)
  unfolding branch_to
  untaken-Goes h = elim (Bool-cases (tk == 0)) [
    | inl alone ↦
        rw (good, alone)
          (inl (record { pc = rw (same_test core.iw) refl; active = rw (same_test core.iw) h }))
    | inr both ↦ elim (Bool-cases (leb stack_depth (core.sp core.iw))) [
      | inl full ↦
          rw (good, occupied fl t small h, both, full)
            (inr (
              inr (record {
                full = ground (arith, full);
                stopped = record { fault = refl; idle = refl };
              })))
      | inr room ↦
          rw (good, occupied fl t small h, both, room)
            (inl (record { pc = rw (same_test core.iw) refl; active = rw (same_test core.iw) h }))
    ]
  ]

-- The turn to the next warp changes nothing of this.
next_warp-Goes :
    (c : Config) (t next : ℕ) (core core' : CycleCore)
    → Goes t next core core'
    → Goes t next core (next_warp c core')
unfolding next_warp
next_warp-Goes c t next core core' (inl runs) = inl (record { pc = runs.pc; active = runs.active })
next_warp-Goes c t next core core' (inr (inl waits)) =
    inr (inl (record { depth = waits.depth; pc = waits.pc; active = waits.active }))
next_warp-Goes c t next core core' (inr (inr over)) = inr (
    inr (record {
      full = over.full;
      stopped = record { fault = over.stopped.fault; idle = over.stopped.idle };
    }))

bad_branch :
    (c : Config) (core : CycleCore) (tk fl : ℕ)
    → is_branch (funct3 core.inst) ≡ false
    → HasStopped (next_warp c (branch_to core tk fl))
unfolding branch_to next_warp
bad_branch c core tk fl unknown = rw unknown (record { fault = refl; idle = refl })

-- The switch of the simulator on a branch.
branch-execute :
    (c : Config) (i a b : ℕ) (inst : ℕ) (cores : List Lane) (l : Lane) (w : World)
    → opcode inst ≡ 0x63
    → execute c cores i l w inst a b
      ≡ some (
        if is_branch (funct3 inst)
            then retire false 0
                (if takes (funct3 inst) a b then add32 l.pc (imm_b inst) else add32 l.pc 4)
            else trap,
        w,
      )
unfolding execute
branch-execute c i a b inst cores l w is =
    rw (is, takes-branch_taken (funct3 inst) a b)
      (elim (Bool-cases (is_branch (funct3 inst))) [
        | inl good ↦ rw good refl
        | inr bad ↦ rw bad refl
      ])

branch_uses :
    (inst : ℕ)
    → opcode inst ≡ 0x63
    → (uses_rs1 (opcode inst) ≡ true) × (uses_rs2 (opcode inst) ≡ true)
unfolding uses_rs1 uses_rs2
branch_uses inst is = rw is (refl, refl)

-- A branch of a warp treats each active lane as the simulator treats the lane that it stands for,
-- and the simulator always has an outcome, which changes neither memory nor trace. Where it traps,
-- the core sets its fault and gives up its block. Where it goes on at some pc, so does the warp of the cycle model
-- with this lane in its mask, or the lane waits for that pc in the mask of a new entry of the warp's
-- stack, or the stack was full and the core has done the same. The branch names the registers x0 to x15,
-- and a warp has at most 32 lanes.
pub step_branch-execute :
    (c : Config) (cid t i : ℕ) (core : CycleCore) (cores : List Lane) (l : Lane) (w : World)
    → Mirrors c cid t core l
    → bad_registers core.inst ≡ false
    → opcode core.inst ≡ 0x63
    → c.num_threads ≤ 32
    → t < c.num_threads
    → mask_has core.im t ≡ true
    → (o : Outcome) × (execute c cores i l w core.inst
          (operand_1 core.inst l)
          (operand_2 core.inst l)
        ≡ some (o, w))
      × Branches t core (step_branch c core) o
unfolding step_branch lane_takes
step_branch-execute c cid t i core cores l w h good is few lane active =
    let inst = core.inst in
    let x = lane_register c core t (rs1_of inst) in
    let y = lane_register c core t (rs2_of inst) in
    let (uses1, uses2) = branch_uses inst is in
    let same_x = operand_1-lane_register c cid t inst core l h good uses1 in
    let same_y = operand_2-lane_register c cid t inst core l h good uses2 in
    let small : t < 32 = omega arith in
    let (tk, fl) = split_masks (lane_takes c core) core.im c.num_threads 0 (0, 0) in
    let (has_tk, has_fl) = split_masks-has (lane_takes c core) core.im c.num_threads t few lane in
    let step = branch-execute c i (operand_1 inst l) (operand_2 inst l) inst cores l w is in
    elim (Bool-cases (is_branch (funct3 inst))) [
      | inr unknown ↦ (trap, step ∙ rw unknown refl, bad_branch c core tk fl unknown)
      | inl known ↦ elim (Bool-cases (takes (funct3 inst) x y)) [
        | inl taken ↦ (
          retire false 0 (add32 core.ip (imm_b inst)),
          step ∙ rw (known, same_x, same_y, taken, h.pc) refl,
          (
            refl,
            next_warp-Goes c t _ core (branch_to core tk fl)
                (taken-Goes core tk fl t small known (has_tk ∙ rw (active, taken) refl)),
          ),
        )
        | inr untaken ↦ (
          retire false 0 (add32 core.ip 4),
          step ∙ rw (known, same_x, same_y, untaken, h.pc) refl,
          (
            refl,
            next_warp-Goes c t _ core (branch_to core tk fl)
                (untaken-Goes core tk fl t small known (has_fl ∙ rw (active, untaken) refl)),
          ),
        )
      ]
    ]
