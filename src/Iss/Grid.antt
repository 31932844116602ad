-- ===== src/Iss/Grid.antt =====
-- The launch of a grid on the simulator (`gpu_iss_launch` of sw/sim/sm/iss.cpp).
pub mod Coordinates
use open_gpu.Prelude.{
  ℕ, zero, suc, ◌+◌, ◌*◌, ◌/◌, ◌%◌, ◌^◌, Bool, true, false, not, ◌||◌, Option, none, some, List, [],
  ◌∷◌, ltb, ◌==◌, if◌then◌else◌, replicate,
}
use open_gpu.Prelude.Word.{u32_mod, u32_max, add32, mul64}
use open_gpu.Config.{Config}
use open_gpu.Iss.State.{Triple, Lane, Registers, Iss}

-- `uint32_t` product.
abbrev pub mul32 : ℕ → ℕ → ℕ
mul32 a b = (a * b) % u32_mod

-- `(uint64_t)d[0] * d[1] * d[2]`
abbrev pub volume64 : Triple → ℕ
volume64 d = mul64 (mul64 d.x d.y) d.z

-- The position of a linear index in a box.
unfoldable pub unflatten : Triple → ℕ → Triple
unflatten d i = record { x = i % d.x; y = i / d.x % d.y; z = i / mul32 d.x d.y }

-- `CONFIG_GPU_NUM_WARPS * CONFIG_GPU_NUM_THREADS`
abbrev pub lanes_per_core : Config → ℕ
lanes_per_core c = c.num_warps * c.num_threads

-- Lane `i`: `block_size` is the product as a `uint32_t`, `hardware_cores` as the code computes it.
unfoldable pub lane_at : Config → Registers → ℕ → ℕ → ℕ → Lane
unfolding unflatten
lane_at c r block_size hardware_cores i =
    let local = i % block_size in
    let block = i / block_size in
    record {
      gpr = replicate 16 0;
      pc = r.startup_pc;
      hartid = i;
      physical_id = add32 (mul32 (block % hardware_cores) (lanes_per_core c)) local;
      args_addr = r.launch_args_addr;
      thread_idx = unflatten r.launch_block local;
      block_idx = unflatten r.launch_grid block;
      block_dim = r.launch_block;
      grid_dim = r.launch_grid;
      warp_id = local / c.num_threads;
      lane_id = local % c.num_threads;
      halted = false;
    }

-- Lanes `i`, `i + 1`, ..., `n` of them.
unfoldable pub lanes_from : (ℕ → Lane) → ℕ → ℕ → List Lane
lanes_from lane i zero = []
lanes_from lane i (suc n) = lane i ∷ lanes_from lane (i + 1) n

-- The launch once the two products are computed: the total of threads and the size of a block.
-- Without memory for the lanes there are none, as `gpu_iss_init` has left them.
unfoldable pub launch_with : Config → Iss → ℕ → ℕ → Bool → Option (Iss × Bool)
launch_with c s total block_size allocated =
    let r = s.registers in
    let hardware_cores = s.physical_count / lanes_per_core c in
    let lanes = lanes_from (lane_at c r (block_size % u32_mod) hardware_cores) 0 total in
    if total == 0 || ltb u32_max total || not (block_size == r.launch_block_size)
    then some (s, false)
    else if not allocated
    then some (record s { cores = [] }, false)
    else if hardware_cores == 0
    then none
    else some (record s { cores = lanes; rr = 0 }, true)

-- `allocated` is the outcome of `calloc`; the flag is what the function returns, and `none` a
-- division by zero, for a simulator of less than one core.
unfoldable pub iss_launch : Config → Iss → Bool → Option (Iss × Bool)
iss_launch c s allocated =
    let block_size = volume64 s.registers.launch_block in
    launch_with c s (mul64 (volume64 s.registers.launch_grid) block_size) block_size allocated
