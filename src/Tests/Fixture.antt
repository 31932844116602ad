-- ===== src/Tests/Fixture.antt =====
-- The configuration, the globals and the buffers that the tests share.
use open_gpu.Prelude.{ℕ, ◌≡◌, refl, true, some, replicate, set, All-replicate, arith}
use open_gpu.Config.{Config, IsSupported, heap_base, max_allocs}
use open_gpu.Memory.{Bytes}
use open_gpu.Runtime.Types.{singleton, Allocation, Core, no_allocation, valid_device}
use open_gpu.Runtime.Alloc.{heap_end}
use open_gpu.Runtime.Alloc.Blocks.{IsFree, Misses}
use open_gpu.Runtime.Alloc.Slots.{IsTable-set}
use open_gpu.Runtime.Alloc.Correct.{IsReady}
use open_gpu.Runtime.Device.Lifecycle.{empty-IsTable}
use open_gpu.Runtime.Init.{zero_device}

-- configs/gpu_hw_verilog_defconfig
abbrev pub default_config : Config
default_config = record {
  mbase = 0x80000000;
  msize = 0x8000000;
  num_cores = 2;
  num_warps = 4;
  num_threads = 4;
  hm = true;
  difftest = true;
}

pub default-IsSupported : IsSupported default_config
default-IsSupported = omega arith

abbrev pub zeros : Bytes
zeros _ = 0

-- A device just opened.
abbrev pub opened_core : Core
opened_core = record {
  initialized = true;
  device = record zero_device { opened = true };
  pmem = some zeros;
}

pub opened-IsReady : IsReady default_config opened_core
opened-IsReady = record { mapped = (zeros, refl); table = empty-IsTable (heap_end default_config) }

pub opened-valid : valid_device opened_core singleton ≡ true
unfolding valid_device
opened-valid = refl

-- A block of 128 bytes at the start of the heap.
abbrev pub first_block : Allocation
first_block = record { address = heap_base; size = 128; used = true }

pub empty-IsFree : (z n : ℕ) → IsFree (replicate max_allocs no_allocation) z n
empty-IsFree z n = All-replicate (Misses z n) max_allocs no_allocation (λ e. cc)

-- The device with that block in slot 0.
abbrev pub busy_core : Core
busy_core = record opened_core {
  device = record opened_core.device {
    allocations = set (replicate max_allocs no_allocation) 0 first_block;
  };
}

pub busy-IsReady : IsReady default_config busy_core
busy-IsReady = record {
  mapped = (zeros, refl);
  table =
      IsTable-set (heap_end default_config) (replicate max_allocs no_allocation) 0 first_block
        (empty-IsTable (heap_end default_config)) (λ _. omega arith) (empty-IsFree heap_base 128);
}

pub busy-valid : valid_device busy_core singleton ≡ true
unfolding valid_device
busy-valid = refl
