-- ===== src/Runtime/Types.antt =====
-- The types of sw/include/runtime.h, and the structures of sw/runtime/gpu/gpu.c.
use Prim.Native.String.{String}
use open_gpu.Prelude.{ℕ, Bool, true, false, ◌&&◌, Option, List, ◌==◌, if◌then◌else◌}
use open_gpu.Memory.{Bytes, Pmem}

-- `gpu_result_t`
pub data Result : Type 0 where
  success invalid_argument out_of_memory io bad_state timeout backend : Result

-- The value that C gives each enumerator.
unfoldable pub code : Result → ℕ
code success = 0
code invalid_argument = 1
code out_of_memory = 2
code io = 3
code bad_state = 4
code timeout = 5
code backend = 6

-- `gpu_result_string`, over any `int` that a caller may pass.
unfoldable pub result_string : ℕ → String
result_string r =
    if r == 0
    then "success"
    else if r == 1
    then "invalid argument"
    else if r == 2
    then "out of memory"
    else if r == 3
    then "I/O error"
    else if r == 4
    then "bad state"
    else if r == 5
    then "timeout"
    else if r == 6
    then "backend error"
    else "unknown error"

-- A `gpu_device_h`: NULL, `&singleton`, or some other pointer.
pub data Handle : Type 0 where
  null singleton : Handle
  other : ℕ → Handle

unfoldable pub is_singleton : Handle → Bool
is_singleton null = false
is_singleton singleton = true
is_singleton (other _) = false

-- `allocation_t`
pub record Allocation : Type 0 where
  pub address : ℕ
  pub size : ℕ
  pub used : Bool

abbrev pub no_allocation : Allocation
no_allocation = record { address = 0; size = 0; used = false }

-- `struct gpu_kernel`, whose `next` is the tail of the device's list.
pub record Kernel : Type 0 where
  pub device : Handle
  pub entry : ℕ
  pub generation : ℕ

-- `struct gpu_device`; `reference` is the host buffer of a DiffTest build, `none` for NULL.
pub record Device : Type 0 where
  pub opened : Bool
  pub running : Bool
  pub kernel_generation : ℕ
  pub allocations : List Allocation
  pub kernels : List Kernel
  pub launch_args : ℕ
  pub launch_args_used : Bool
  pub reference : Option Bytes
  pub reference_fault : Bool

-- The globals that the memory and kernel calls touch: `runtime_initialized`, `singleton`, `pmem`.
pub record Core : Type 0 where
  pub initialized : Bool
  pub device : Device
  pub pmem : Pmem

unfoldable pub valid_device : Core → Handle → Bool
unfolding is_singleton
valid_device s h = s.initialized && is_singleton h && s.device.opened
