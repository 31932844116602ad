-- ===== src/Iss/Driver/Accepts.antt =====
-- The runtime and the software model agree on what can be launched.
use open_gpu.Prelude.{
  ℕ, ◌*◌, ◌/◌, ◌≤◌, ◌<◌, ◌≡◌, refl, ap, ◌∙◌, true, some, ◌>>=◌, get_elem?, arith,
}
use native.Mathlib.Nat.{mul-div_cancel, mul_assoc}
use open_gpu.Prelude.Word.{u32_mod, le_mul_pos}
use open_gpu.Config.{Config, IsSupported}
use open_gpu.Backend.{World, model_dcr_write, model_launch}
use open_gpu.Runtime.Device.{num_harts}
use open_gpu.Runtime.Launch.{Dims, LaunchInfo, geometry, configure_model}
use open_gpu.Runtime.Launch.Geometry.{IsDims, IsGeometry, geometry_iff, cells_pos as dims_pos}
use open_gpu.Iss.State.{Triple, Lane, Registers, Iss, ncores, iss_init, iss_dcr_write}
use open_gpu.Iss.Grid.{lanes_per_core}
use open_gpu.Iss.Grid.Coordinates.{cells, IsBox, IsLaunchable, IsThread, iss_launch_lem}
use open_gpu.Iss.Driver.{SmState, sm_dcr_write, sm_launch, sm_model}

abbrev pub triple : Dims → Triple
triple d = record { x = d.x; y = d.y; z = d.z }

-- The registers after the ten writes of `configure_model`.
abbrev pub configured : ℕ → ℕ → ℕ → Dims → Dims → ℕ → Registers
configured entry args size grid block n = record {
  startup_pc = entry;
  launch_args_addr = args;
  launch_args_size = size;
  launch_grid = triple grid;
  launch_block = triple block;
  launch_block_size = n;
}

-- The simulator after those writes and the `gpu_iss_init` of the launch.
abbrev pub ready_iss : SmState → Registers → Iss
ready_iss x r = iss_init x.num_harts (record x.iss { registers = r })

-- The ten writes of `configure_model` set every register of the simulator, and nothing else of it:
-- whatever the registers held before is gone.
pub configure_model_sm :
    (c : Config) (before : Iss) (x : SmState) (w : World) (entry args size n : ℕ)
    (grid block : Dims)
    → configure_model (sm_model c before true) (some x) w entry args size grid block n
      ≡ some (
        some (record x {
          iss = record x.iss { registers = configured entry args size grid block n };
        }),
        w,
      )
unfolding configure_model model_dcr_write sm_dcr_write iss_dcr_write
configure_model_sm c before x w entry args size n grid block = refl

core_pos : (a b : ℕ) → 1 ≤ a → 1 ≤ b → 0 < a * b
core_pos a b h k = grind arith

-- The count of harts that the runtime gives makes up the configured cores.
hardware_cores : (c : Config) → IsSupported c → num_harts c / lanes_per_core c ≡ c.num_cores
hardware_cores c sup =
    ap (λ (t : ℕ). t / lanes_per_core c) (mul_assoc c.num_cores c.num_warps c.num_threads)
    ∙ mul-div_cancel c.num_cores (core_pos c.num_warps c.num_threads sup.warps_pos sup.threads_pos)

geometry-IsLaunchable :
    (c : Config) (x : SmState) (info : LaunchInfo) (entry args size n : ℕ)
    → IsSupported c
    → x.num_harts ≡ num_harts c
    → IsGeometry c info n
    → IsLaunchable c (ready_iss x (configured entry args size info.grid_dim info.block_dim n))
unfolding iss_init
geometry-IsLaunchable c x info entry args size n sup harts g =
    let b = cells (triple info.block_dim) in
    let block_small : n < u32_mod = omega (arith, g.threads, n_le) in
    let block : IsBox (triple info.block_dim) = record {
      x_pos = g.block_pos.x_pos;
      y_pos = g.block_pos.y_pos;
      z_pos = g.block_pos.z_pos;
      small = omega (arith, g.block, block_small);
    } in
    record {
      grid = record {
        x_pos = g.grid_pos.x_pos;
        y_pos = g.grid_pos.y_pos;
        z_pos = g.grid_pos.z_pos;
        small = omega (arith, g.threads, le_mul_pos (cells (triple info.grid_dim)) n n_pos);
      };
      block = block;
      block_size = g.block;
      threads = rw (← g.block) g.threads;
      hardware = rw (harts, hardware_cores c sup) sup.cores_pos;
    }
  where
    n_pos : 0 < n
    n_pos = rw g.block (dims_pos info.block_dim g.block_pos)

    n_le : n ≤ cells (triple info.grid_dim) * n
    n_le =
        omega
          (arith, le_mul_pos n (cells (triple info.grid_dim)) (dims_pos info.grid_dim g.grid_pos))

-- The software model launches whatever `gpu_launch` lets through. For dimensions that its checks
-- accept with block size `n`, once the registers are configured as `gpu_launch` does it, the launch
-- succeeds, if memory for the lanes is given; the simulator then has one lane for each thread of
-- the grid, and lane `i` is thread `i % n` of block `i / n` at its coordinates.
pub geometry-launches :
    (c : Config) (before : Iss) (x : SmState) (w : World) (info : LaunchInfo)
    (entry args size n : ℕ)
    → IsSupported c
    → IsDims info.grid_dim
    → IsDims info.block_dim
    → x.num_harts ≡ num_harts c
    → geometry c info ≡ some n
    → let r = configured entry args size info.grid_dim info.block_dim n in
      (x' : SmState) × ((configure_model
            (sm_model c before true)
            (some x)
            w
            entry
            args
            size
            info.grid_dim
            info.block_dim
            n
          >>= λ (m, w'). model_launch (sm_model c before true) m w')
        ≡ some (some x', w, true))
      × (ncores x'.iss ≡ cells (triple info.grid_dim) * cells (triple info.block_dim))
      × ((i : ℕ)
          → i < ncores x'.iss
          → (l : Lane) × (get_elem? x'.iss.cores i ≡ some l)
            × IsThread c (ready_iss x r) (cells (triple info.block_dim)) i l)
unfolding model_launch sm_launch iss_init
geometry-launches c before x w info entry args size n sup wg wb harts accepted =
    let r = configured entry args size info.grid_dim info.block_dim n in
    let g = (geometry_iff c info n wg wb).0 accepted in
    let ok = geometry-IsLaunchable c x info entry args size n sup harts g in
    let (s', launched, count, lanes) = iss_launch_lem c (ready_iss x r) ok in
    (
      record x { iss = s' },
      rw (configure_model_sm c before x w entry args size n info.grid_dim info.block_dim, launched)
          refl,
      count,
      lanes,
    )
