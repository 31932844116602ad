-- ===== src/Config.antt =====
-- The build's configuration (Kconfig at the repository's root), which the generated header
-- generated/autoconf.h hands to the C code as CONFIG_ macros, and the memory map of
-- sw/runtime/gpu/gpu.h.
use open_gpu.Prelude.{ℕ, ◌+◌, ◌≤◌, ◌<◌, Bool}
use open_gpu.Prelude.Word.{u32_mod}

pub record Config : Type 0 where
  pub mbase : ℕ
  pub msize : ℕ
  pub num_cores : ℕ
  pub num_warps : ℕ
  pub num_threads : ℕ
  -- CONFIG_HM and CONFIG_DIFFTEST
  pub hm : Bool
  pub difftest : Bool

abbrev pub kernel_base : ℕ
kernel_base = 0x81000000

abbrev pub kernel_end : ℕ
kernel_end = 0x81010000

abbrev pub heap_base : ℕ
heap_base = 0x82000000

abbrev pub max_allocs : ℕ
max_allocs = 64

-- The device control registers, `GPU_DCR_...`.
abbrev pub dcr_startup_pc : ℕ
dcr_startup_pc = 0x010

abbrev pub dcr_args_addr : ℕ
dcr_args_addr = 0x011

abbrev pub dcr_args_size : ℕ
dcr_args_size = 0x012

abbrev pub dcr_block_dim_x : ℕ
dcr_block_dim_x = 0x013

abbrev pub dcr_block_dim_y : ℕ
dcr_block_dim_y = 0x014

abbrev pub dcr_block_dim_z : ℕ
dcr_block_dim_z = 0x015

abbrev pub dcr_grid_dim_x : ℕ
dcr_grid_dim_x = 0x016

abbrev pub dcr_grid_dim_y : ℕ
dcr_grid_dim_y = 0x017

abbrev pub dcr_grid_dim_z : ℕ
dcr_grid_dim_z = 0x018

abbrev pub dcr_block_size : ℕ
dcr_block_size = 0x019

-- The ranges that Kconfig states, and a memory that holds the kernel area and reaches the heap,
-- whose end is a 32-bit address, and which does not start in the first word.
pub record IsSupported (c : Config) : Type 0 where
  pub cores_pos : 1 ≤ c.num_cores
  pub cores_max : c.num_cores ≤ 64
  pub warps_pos : 1 ≤ c.num_warps
  pub warps_max : c.num_warps ≤ 64
  pub threads_pos : 1 ≤ c.num_threads
  pub threads_max : c.num_threads ≤ 64
  pub base_pos : 4 ≤ c.mbase
  pub kernel_in : c.mbase ≤ kernel_base
  pub heap_in : heap_base < c.mbase + c.msize
  pub end_in : c.mbase + c.msize < u32_mod
