-- ===== src/Runtime/Launch.antt =====
-- `gpu_launch` and `gpu_wait` of sw/runtime/gpu/gpu.c, over an execution model `E` and a reference
-- model `R`. A build with CONFIG_HM and CONFIG_DIFFTEST runs the reference model first.
pub mod Geometry
use open_gpu.Prelude.{
  suc, ◌≡◌, refl, ℕ, zero, suc, ◌+◌, ◌-◌, ◌*◌, ◌%◌, Bool, true, false, not, ◌&&◌, ◌||◌, Option,
  none, some, ltb, leb, ◌==◌, if◌then◌else◌, ◌>>=◌,
}
use open_gpu.Prelude.Word.{u32_mod, u32_max}
use open_gpu.Config.{
  Config, dcr_startup_pc, dcr_args_addr, dcr_args_size, dcr_block_dim_x, dcr_block_dim_y,
  dcr_block_dim_z, dcr_grid_dim_x, dcr_grid_dim_y, dcr_grid_dim_z, dcr_block_size,
}
use open_gpu.Memory.{Bytes, Pmem, guest_to_host, put_bytes, get_bytes}
use open_gpu.Trace.{Trace, trace_suppress}
use open_gpu.Backend.{World, Model, model_dcr_write, model_launch, model_wait, model_fault}
use open_gpu.Runtime.Types.{
  Result, success, invalid_argument, out_of_memory, io, bad_state, timeout, backend, Handle, null,
  singleton, other, Kernel, Device, Core, valid_device,
}
use open_gpu.Runtime.Range.{mul_u32}
use open_gpu.Runtime.Alloc.{mem_alloc, mem_free}
use open_gpu.Runtime.Transfer.{raw_write}

-- A `uint32_t[3]` of dimensions.
pub record Dims : Type 0 where
  pub x : ℕ
  pub y : ℕ
  pub z : ℕ

-- `gpu_launch_info_t`
pub record LaunchInfo : Type 0 where
  pub grid_dim : Dims
  pub block_dim : Dims
  pub args_host : Option Bytes
  pub args_size : ℕ

-- `GPU_WAIT_LIMIT`
pub wait_limit : ℕ
wait_limit = 100000000

-- The limit lets a wait begin.
pub wait_limit_pos : (n : ℕ) × (wait_limit ≡ suc n)
unfolding wait_limit
wait_limit_pos = (99999999, refl)

unfoldable pub same_handle : Handle → Handle → Bool
same_handle null null = true
same_handle singleton singleton = true
same_handle (other i) (other j) = i == j
same_handle _ _ = false

unfoldable pub has_zero : Dims → Bool
has_zero d = d.x == 0 || d.y == 0 || d.z == 0

-- The product of three dimensions, checked at each step.
unfoldable pub volume : Dims → Option ℕ
volume d = do xy ← mul_u32 d.x d.y; mul_u32 xy d.z

-- The size of a block, if the checks of the dimensions pass.
unfoldable pub geometry : Config → LaunchInfo → Option ℕ
geometry c info = if has_zero info.grid_dim || has_zero info.block_dim then none else (do
  block_size ← volume info.block_dim
  if ltb (c.num_warps * c.num_threads) block_size then none else (do
    grid_size ← volume info.grid_dim
    total ← mul_u32 grid_size block_size
    some block_size))

-- The first guard of `gpu_launch`, on the pointers given.
unfoldable pub launch_allowed : Core → Handle → Kernel → LaunchInfo → Bool
unfolding same_handle
launch_allowed s h k info =
    valid_device s h
    && same_handle k.device h
    && k.generation == s.device.kernel_generation
    && not s.device.running
    && (info.args_size == 0 || elim info.args_host [ none ↦ false | some _ ↦ true ])
    && leb info.args_size u32_max

unfoldable pub release_launch_args : Core → Handle → Core
release_launch_args s h =
    if s.device.launch_args_used
    then (let s' = (mem_free s h s.device.launch_args).0 in
        record s' { device = record s'.device { launch_args = 0; launch_args_used = false } })
    else s

-- What the staging of the arguments returns: the globals, and an error or `none` to go on.
abbrev pub StageReply : Type 0
StageReply = Core × Option Result

unfoldable pub staged : Config → Core → LaunchInfo → Result → Option ℕ → Option StageReply
staged c s info success (some address) = elim info.args_host [
  | none ↦ none
  | some source ↦ (do
    p ← raw_write c s.pmem address source info.args_size
    let device = record s.device { launch_args = address; launch_args_used = true }
    some (record s { device = device; pmem = p }, none))
]
staged c s info success none = none
staged c s info e address = some (s, some e)

unfoldable pub stage_args : Config → Core → Handle → LaunchInfo → Option StageReply
unfolding staged
stage_args c s h info =
    let fresh = record s {
      device = record s.device { launch_args = 0; launch_args_used = false };
    } in
    if info.args_size == 0 then some (fresh, none) else (do
      (s', result, address) ← mem_alloc c fresh h info.args_size true
      staged c s' info result address)

-- All globals of gpu.c: `execution_model` and `reference_model` are `none` for NULL.
pub record Runtime (E R : Model) : Type 0 where
  pub core : Core
  pub trace : Trace
  pub execution : Option E.State
  pub reference_model : Option R.State

module _ (M : Model) where
  open M use {State}

  -- `configure_model`: the ten device registers, in the order of the writes.
  unfoldable pub configure_model :
      Option State → World → ℕ → ℕ → ℕ → Dims → Dims → ℕ → Option (Option State × World)
  configure_model m w entry args_addr args_size grid block block_size = do
    (m, w) ← model_dcr_write M m w dcr_startup_pc entry
    (m, w) ← model_dcr_write M m w dcr_args_addr args_addr
    (m, w) ← model_dcr_write M m w dcr_args_size args_size
    (m, w) ← model_dcr_write M m w dcr_block_dim_x block.x
    (m, w) ← model_dcr_write M m w dcr_block_dim_y block.y
    (m, w) ← model_dcr_write M m w dcr_block_dim_z block.z
    (m, w) ← model_dcr_write M m w dcr_grid_dim_x grid.x
    (m, w) ← model_dcr_write M m w dcr_grid_dim_y grid.y
    (m, w) ← model_dcr_write M m w dcr_grid_dim_z grid.z
    model_dcr_write M m w dcr_block_size block_size
