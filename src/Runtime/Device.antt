-- ===== src/Runtime/Device.antt =====
-- Opening and closing the device, and its configuration, of sw/runtime/gpu/gpu.c.
pub mod Lifecycle
use open_gpu.Prelude.{
  ℕ, ◌*◌, Bool, true, false, not, ◌||◌, Option, none, some, List, [], ◌==◌, if◌then◌else◌,
  replicate,
}
use open_gpu.Config.{Config, max_allocs}
use open_gpu.Runtime.Types.{
  Result, success, invalid_argument, bad_state, Handle, singleton, Device, Core, no_allocation,
  valid_device,
}

-- `GPU_NUM_HARTS`
abbrev pub num_harts : Config → ℕ
num_harts c = c.num_cores * c.num_warps * c.num_threads

-- `gpu_device_config_t`
pub record DeviceConfig : Type 0 where
  pub physical_cores : ℕ
  pub warps_per_core : ℕ
  pub threads_per_warp : ℕ
  pub total_harts : ℕ

-- `given` says that the out pointer is not NULL; the last part is what is written through it.
unfoldable pub device_open : Core → ℕ → Bool → Core × Result × Option Handle
device_open s index given =
    if not s.initialized || not given || not (index == 0)
    then (s, invalid_argument, none)
    else if s.device.opened
    then (s, bad_state, none)
    else (
      record s {
        device = record s.device {
          opened = true;
          running = false;
          kernel_generation = 0;
          allocations = replicate max_allocs no_allocation;
          kernels = [];
          launch_args = 0;
          launch_args_used = false;
        };
      },
      success,
      some singleton,
    )

unfoldable pub device_close : Core → Handle → Core × Result
device_close s h =
    if not (valid_device s h)
    then (s, invalid_argument)
    else if s.device.running
    then (s, bad_state)
    else (
      record s {
        device = record s.device {
          opened = false;
          allocations = replicate max_allocs no_allocation;
          kernels = [];
          reference = none;
        };
      },
      success,
    )

unfoldable pub device_get_config : Config → Core → Handle → Bool → Result × Option DeviceConfig
device_get_config c s h given =
    if not (valid_device s h) || not given then (invalid_argument, none) else (
      success,
      some (record {
        physical_cores = c.num_cores;
        warps_per_core = c.num_warps;
        threads_per_warp = c.num_threads;
        total_harts = num_harts c;
      }),
    )
