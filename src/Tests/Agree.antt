-- ===== src/Tests/Agree.antt =====
-- The cycle model beside the simulator at concrete inputs: a block of 3 by 2 threads, an
-- addition, and a branch that parts a warp.
use open_gpu.Prelude.{
  ◌==◌, if◌then◌else◌, ℕ, ◌+◌, ◌*◌, ◌≡◌, refl, true, false, some, List, [], ◌∷◌, arith, get_or,
}
use open_gpu.Backend.{World}
use open_gpu.Iss.State.{Triple, Lane, Registers, initial_registers, ones_triple}
use open_gpu.Iss.Decode.{opcode, rd_of, rs1_of, rs2_of, uses_rd, uses_rs1, uses_rs2}
use open_gpu.Iss.Grid.{lane_at, unflatten}
use open_gpu.Iss.Grid.Coordinates.{cells}
use open_gpu.Iss.Step.{Outcome, execute, bad_registers}
use open_gpu.Cycle.State.{CycleCore, CycleModel, new_core, new_model}
use open_gpu.Cycle.Lane.{Pass, lane_step}
use open_gpu.Cycle.Mask.{mask_has}
use open_gpu.Cycle.Core.{step_branch, with_cta, accept_cta}
use open_gpu.Cycle.Agree.{Mirrors}
use open_gpu.Cycle.Agree.Value.{operand_1, operand_2, IsWord, IsLaneOp}
use open_gpu.Cycle.Agree.Step.{Follows, lane_step-execute}
use open_gpu.Cycle.Agree.Branch.{Branches, step_branch-execute}
use open_gpu.Cycle.Agree.Start.{IsBlock, accept_cta-Mirrors}
use open_gpu.Tests.Fixture.{default_config, zeros}
use open_gpu.Trace.{initial_trace}

abbrev block_3_2 : Triple
block_3_2 = record { x = 3; y = 2; z = 1 }

abbrev grid_2 : Triple
grid_2 = record { x = 2; y = 1; z = 1 }

abbrev two_blocks : Registers
two_blocks = record initial_registers {
  launch_grid = grid_2;
  launch_block = block_3_2;
  launch_block_size = 6;
}

-- The second of the blocks is next.
abbrev second_block : CycleModel
second_block = record new_model {
  dim = block_3_2;
  grid = grid_2;
  block_size = 6;
  block = record { x = 1; y = 0; z = 0 };
  running = true;
}

second-IsBlock : IsBlock two_blocks second_block 1
unfolding unflatten
second-IsBlock = record {
  grid_box = omega arith;
  block_box = omega arith;
  start = refl;
  args = refl;
  dim = refl;
  grid = refl;
  block_size = refl;
  threads = omega arith;
  inside = omega arith;
  block = refl;
}

accept_cta-Mirrors_example :
    (accept_cta default_config second_block new_core
      ≡ some (with_cta default_config second_block new_core))
    × Mirrors default_config 1 1
        (record (with_cta default_config second_block new_core) {
          iw = 1;
          ip = (with_cta default_config second_block new_core).pc 1;
        })
        (lane_at default_config two_blocks
          (cells block_3_2)
          2
          (1 * cells block_3_2 + (1 * default_config.num_threads + 1)))
accept_cta-Mirrors_example =
    accept_cta-Mirrors default_config two_blocks second_block new_core 1 1 2 1 1 second-IsBlock
      (omega arith) (omega arith) refl (omega arith)

-- Registers x1 and x2 hold 40 and 2.
abbrev some_registers : List ℕ
some_registers = 0 ∷ 40 ∷ 2 ∷ 0 ∷ 0 ∷ 0 ∷ 0 ∷ 0 ∷ 0 ∷ 0 ∷ 0 ∷ 0 ∷ 0 ∷ 0 ∷ 0 ∷ 0 ∷ []

-- add x3, x1, x2
abbrev adding : CycleCore
adding = record new_core {
  ip = 0x80000000;
  inst = 0x002081b3;
  gpr = λ _ i. get_or some_registers i 0;
}

abbrev adding_pass : Pass
adding_pass = record {
  core = adding;
  good = true;
  diverged = false;
  target_set = false;
  first = 0;
  next = 0x80000004;
}

abbrev adding_lane : Lane
adding_lane = record {
  gpr = some_registers;
  pc = 0x80000000;
  hartid = 0;
  physical_id = 0;
  args_addr = 0;
  thread_idx = record { x = 0; y = 0; z = 0 };
  block_idx = record { x = 0; y = 0; z = 0 };
  block_dim = ones_triple;
  grid_dim = ones_triple;
  warp_id = 0;
  lane_id = 0;
  halted = false;
}

adding-Mirrors : Mirrors default_config 0 0 adding adding_lane
adding-Mirrors = record {
  pc = refl;
  size = refl;
  file = λ i _. refl;
  hart = refl;
  thread_x = refl;
  thread_y = refl;
  thread_z = refl;
  block = refl;
  block_size = refl;
  grid_size = refl;
  args = refl;
  physical = refl;
  warp = refl;
  lane = refl;
}

adding-IsWord : IsWord adding.inst
unfolding bad_registers opcode rd_of rs1_of rs2_of uses_rd uses_rs1 uses_rs2
adding-IsWord = record { word = omega arith; fields = refl; shift = λ e _. absurd (omega arith) }

adding-IsLaneOp : IsLaneOp adding.inst
unfolding opcode
adding-IsLaneOp = record { not_load = refl; not_store = refl; not_branch = refl; not_break = refl }

abbrev adding_world : World
adding_world = record { pmem = some zeros; trace = initial_trace }

lane_step-execute_example :
    (o : Outcome) × (execute default_config
        (adding_lane ∷ [])
        0
        adding_lane
        adding_world
        adding.inst
        (operand_1 adding.inst adding_lane)
        (operand_2 adding.inst adding_lane)
      ≡ some (o, adding_world))
    × Follows default_config 0 0 adding_lane adding_pass
        (lane_step default_config 0 0 adding_pass)
        o
lane_step-execute_example =
    lane_step-execute default_config 0 0 0 adding_pass (adding_lane ∷ []) adding_lane adding_world
      adding-Mirrors adding-IsWord adding-IsLaneOp (λ _. refl)

-- beq x1, x2, 8, which only lane 0 does not take.
abbrev parting : CycleCore
parting = record new_core {
  im = 15;
  ip = 0x80000000;
  inst = 0x00208463;
  gpr = λ x i. if x == 0 then get_or some_registers i 0 else 0;
}

parting-Mirrors : Mirrors default_config 0 0 parting adding_lane
parting-Mirrors = record {
  pc = refl;
  size = refl;
  file = λ i _. refl;
  hart = refl;
  thread_x = refl;
  thread_y = refl;
  thread_z = refl;
  block = refl;
  block_size = refl;
  grid_size = refl;
  args = refl;
  physical = refl;
  warp = refl;
  lane = refl;
}

parting_fields : bad_registers parting.inst ≡ false
unfolding bad_registers opcode rd_of rs1_of rs2_of uses_rd uses_rs1 uses_rs2
parting_fields = refl

parting_opcode : opcode parting.inst ≡ 0x63
unfolding opcode
parting_opcode = refl

parting_active : mask_has parting.im 0 ≡ true
unfolding mask_has
parting_active = refl

step_branch-execute_example :
    (o : Outcome) × (execute default_config
        (adding_lane ∷ [])
        0
        adding_lane
        adding_world
        parting.inst
        (operand_1 parting.inst adding_lane)
        (operand_2 parting.inst adding_lane)
      ≡ some (o, adding_world))
    × Branches 0 parting (step_branch default_config parting) o
step_branch-execute_example =
    step_branch-execute default_config 0 0 0 parting (adding_lane ∷ []) adding_lane adding_world
      parting-Mirrors parting_fields parting_opcode (omega arith) (omega arith) parting_active
