-- ===== src/Iss/State.antt =====
-- The state of sw/sim/sm/iss.cpp: a lane (`gpu_iss_core_t` of sw/sim/sm/backend.h), the globals of
-- the simulator, and the device registers.
use open_gpu.Prelude.{ℕ, ◌-◌, Bool, false, List, [], length, get_or, set, ltb, ◌==◌, if◌then◌else◌}
use open_gpu.Config.{
  kernel_base, dcr_startup_pc, dcr_args_addr, dcr_args_size, dcr_block_dim_x, dcr_block_dim_y,
  dcr_block_dim_z, dcr_grid_dim_x, dcr_grid_dim_y, dcr_grid_dim_z, dcr_block_size,
}

-- A `uint32_t[3]`.
pub record Triple : Type 0 where
  pub x : ℕ
  pub y : ℕ
  pub z : ℕ

pub record Lane : Type 0 where
  pub gpr : List ℕ
  pub pc : ℕ
  pub hartid : ℕ
  pub physical_id : ℕ
  pub args_addr : ℕ
  pub thread_idx : Triple
  pub block_idx : Triple
  pub block_dim : Triple
  pub grid_dim : Triple
  pub warp_id : ℕ
  pub lane_id : ℕ
  pub halted : Bool

-- The registers that a launch reads.
pub record Registers : Type 0 where
  pub startup_pc : ℕ
  pub launch_args_addr : ℕ
  pub launch_args_size : ℕ
  pub launch_grid : Triple
  pub launch_block : Triple
  pub launch_block_size : ℕ

-- The other globals; `ncores` is the length of `cores`.
pub record Iss : Type 0 where
  pub cores : List Lane
  pub physical_count : ℕ
  pub rr : ℕ
  pub registers : Registers
  pub faulted : Bool

abbrev pub ncores : Iss → ℕ
ncores s = length s.cores

abbrev pub ones_triple : Triple
ones_triple = record { x = 1; y = 1; z = 1 }

-- The initial values of the registers.
abbrev pub initial_registers : Registers
initial_registers = record {
  startup_pc = kernel_base;
  launch_args_addr = 0;
  launch_args_size = 0;
  launch_grid = ones_triple;
  launch_block = ones_triple;
  launch_block_size = 1;
}

-- `gpu_iss_init`; the `Assert` that the count is not zero is the caller's (`gpu_model_init`).
unfoldable pub iss_init : ℕ → Iss → Iss
iss_init num_cores s = record s { cores = []; physical_count = num_cores; rr = 0; faulted = false }

-- `gpu_iss_dcr_write`. An address that names no register is ignored.
unfoldable pub iss_dcr_write : ℕ → ℕ → Registers → Registers
iss_dcr_write addr word r =
    if addr == dcr_startup_pc
    then record r { startup_pc = word }
    else if addr == dcr_args_addr
    then record r { launch_args_addr = word }
    else if addr == dcr_args_size
    then record r { launch_args_size = word }
    else if addr == dcr_block_dim_x
    then record r { launch_block = record r.launch_block { x = word } }
    else if addr == dcr_block_dim_y
    then record r { launch_block = record r.launch_block { y = word } }
    else if addr == dcr_block_dim_z
    then record r { launch_block = record r.launch_block { z = word } }
    else if addr == dcr_grid_dim_x
    then record r { launch_grid = record r.launch_grid { x = word } }
    else if addr == dcr_grid_dim_y
    then record r { launch_grid = record r.launch_grid { y = word } }
    else if addr == dcr_grid_dim_z
    then record r { launch_grid = record r.launch_grid { z = word } }
    else if addr == dcr_block_size
    then record r { launch_block_size = word }
    else r

-- `core->gpr[i]`, for an index below 16.
abbrev pub reg : Lane → ℕ → ℕ
reg l i = get_or l.gpr i 0

-- `a[i] = v` of a `uint32_t[3]`, for an index below 3.
unfoldable pub set_part : Triple → ℕ → ℕ → Triple
set_part a i v =
    if i == 0 then record a { x = v } else if i == 1 then record a { y = v } else record a { z = v }

-- `core->gpr[i] = v` for the index of a register field, which is below 32: the words after `gpr[15]`
-- are the fields that follow `gpr` in the struct, up to `grid_dim[2]`, which is word 31.
unfoldable pub set_reg : Lane → ℕ → ℕ → Lane
unfolding set_part
set_reg l i v =
    if ltb i 16
    then record l { gpr = set l.gpr i v }
    else if i == 16
    then record l { pc = v }
    else if i == 17
    then record l { hartid = v }
    else if i == 18
    then record l { physical_id = v }
    else if i == 19
    then record l { args_addr = v }
    else if ltb i 23
    then record l { thread_idx = set_part l.thread_idx (i - 20) v }
    else if ltb i 26
    then record l { block_idx = set_part l.block_idx (i - 23) v }
    else if ltb i 29
    then record l { block_dim = set_part l.block_dim (i - 26) v }
    else record l { grid_dim = set_part l.grid_dim (i - 29) v }
