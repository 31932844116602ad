-- ===== src/Tests/Simulator.antt =====
-- The simulator at concrete inputs: a small grid, and a kernel of two instructions.
use open_gpu.Prelude.{
  ℕ, ◌+◌, ◌*◌, ◌<◌, ◌≡◌, ◌>>=◌, refl, true, false, some, [], ◌∷◌, get_elem?, replicate, arith,
}
use open_gpu.Prelude.Word.{IsU32}
use open_gpu.Config.{kernel_base, heap_base}
use open_gpu.Memory.{Bytes, store_le, load_le, paddr_read}
use open_gpu.Trace.{initial_trace, trace_commit}
use open_gpu.Backend.{World, model_launch}
use open_gpu.Runtime.Launch.{configure_model, geometry, has_zero, volume}
use open_gpu.Runtime.Range.{mul_u32}
use open_gpu.Runtime.Alloc.{heap_end, search_from, search_fuel}
use open_gpu.Runtime.Alloc.Search.{Found, search_from-Found}
use open_gpu.Iss.State.{Triple, Lane, Iss, ncores, initial_registers}
use open_gpu.Iss.Decode.{
  opcode, rd_of, funct3, rs1_of, rs2_of, funct7, imm_i, uses_rd, uses_rs1, uses_rs2,
}
use open_gpu.Iss.Alu.{alu_imm}
use open_gpu.Iss.Step.{
  execute, write_back, finish, bad_registers, step_core, step_found, scan, iss_done, iss_step,
  iss_run,
}
use open_gpu.Iss.Step.Run.{Keeps, iss_run-Keeps}
use open_gpu.Iss.Grid.{unflatten}
use open_gpu.Iss.Grid.Coordinates.{cells, IsThread, unflatten-linear}
use open_gpu.Iss.Driver.{SmState, initial_iss, sm_model}
use open_gpu.Iss.Driver.Accepts.{triple, configured, ready_iss, geometry-launches}
use open_gpu.Tests.Fixture.{default_config, default-IsSupported, zeros, busy_core, busy-IsReady}
use open_gpu.Tests.Launch.{info}

abbrev fresh_sm : SmState
fresh_sm = record { num_harts = 32; iss = initial_iss }

abbrev idle_world : World
idle_world = record { pmem = some zeros; trace = initial_trace }

accepted : geometry default_config info ≡ some 16
unfolding geometry has_zero volume mul_u32
accepted = refl

geometry-launches_example :
    (x' : SmState) × ((configure_model
          (sm_model default_config initial_iss true)
          (some fresh_sm)
          idle_world
          kernel_base
          0
          0
          info.grid_dim
          info.block_dim
          16
        >>= λ (m, w). model_launch (sm_model default_config initial_iss true) m w)
      ≡ some (some x', idle_world, true))
    × (ncores x'.iss ≡ cells (triple info.grid_dim) * cells (triple info.block_dim))
    × ((i : ℕ)
        → i < ncores x'.iss
        → (l : Lane) × (get_elem? x'.iss.cores i ≡ some l)
          × IsThread default_config
              (ready_iss fresh_sm (configured kernel_base 0 0 info.grid_dim info.block_dim 16))
              (cells (triple info.block_dim))
              i
              l)
geometry-launches_example =
    geometry-launches default_config initial_iss fresh_sm idle_world info kernel_base 0 0 16
      default-IsSupported (omega arith) (omega arith) refl accepted

abbrev box : Triple
box = record { x = 4; y = 2; z = 2 }

abbrev corner : Triple
corner = record { x = 3; y = 0; z = 1 }

unflatten-linear_example : unflatten box (3 + 4 * (0 + 2 * 1)) ≡ corner
unflatten-linear_example =
    unflatten-linear box corner (omega arith) (omega arith) (omega arith) (omega arith)

-- `addi x0, x0, 5` and `ebreak`: the first must not change x0.
abbrev program : Bytes
program = store_le (store_le zeros 0x1000000 4 0x00500013) 0x1000004 4 0x00100073

abbrev lane : Lane
lane = record {
  gpr = replicate 16 0;
  pc = kernel_base;
  hartid = 0;
  physical_id = 0;
  args_addr = 0;
  thread_idx = record { x = 0; y = 0; z = 0 };
  block_idx = record { x = 0; y = 0; z = 0 };
  block_dim = record { x = 1; y = 1; z = 1 };
  grid_dim = record { x = 1; y = 1; z = 1 };
  warp_id = 0;
  lane_id = 0;
  halted = false;
}

abbrev one_lane : Iss
one_lane = record {
  cores = lane ∷ [];
  physical_count = 32;
  rr = 0;
  registers = initial_registers;
  faulted = false;
}

abbrev ended : Iss
ended = record one_lane { cores = record lane { pc = kernel_base + 4; halted = true } ∷ [] }

abbrev program_world : World
program_world = record { pmem = some program; trace = initial_trace }

runs : iss_run 10 default_config one_lane program_world ≡ some (ended, program_world)
unfolding iss_run iss_step iss_done scan step_found step_core bad_registers execute alu_imm finish
    write_back paddr_read load_le store_le opcode rd_of funct3 rs1_of rs2_of funct7 imm_i uses_rd
    uses_rs1 uses_rs2 trace_commit
runs = refl

iss_run-Keeps_example : Keeps one_lane ended
iss_run-Keeps_example =
    iss_run-Keeps 10 default_config one_lane ended program_world program_world
      (record { size = refl; x0 = refl }, tt) runs

heap_end-IsU32 : IsU32 (heap_end default_config)
heap_end-IsU32 = omega arith

search_from-Found_example :
    (y : ℕ) × (search_from search_fuel
        (heap_end default_config)
        64
        busy_core.device.allocations
        heap_base
      ≡ some y)
    × Found (heap_end default_config) heap_end-IsU32 heap_base 64 busy_core.device.allocations y
search_from-Found_example =
    search_from-Found (heap_end default_config) heap_end-IsU32 search_fuel heap_base 64
      busy_core.device.allocations (omega arith) (omega arith) refl busy-IsReady.table.placed
