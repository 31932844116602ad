-- ===== src/Tests/Heap.antt =====
-- Allocation, release and transfers on the fixture's devices.
use open_gpu.Prelude.{ℕ, ◌+◌, ◌-◌, ◌<◌, ◌≡◌, ◌↔◌, ◌⊎◌, refl, inl, inr, true, some, none, set, arith}
use open_gpu.Config.{heap_base}
use open_gpu.Memory.{Bytes, copy_into}
use open_gpu.Runtime.Types.{
  success, invalid_argument, singleton, Allocation, Core, no_allocation, valid_device,
}
use open_gpu.Runtime.Range.{align_up}
use open_gpu.Runtime.Alloc.{
  heap_end, first_overlap, mem_alloc, mem_free, search_from, search_fuel, allocation_contains,
}
use open_gpu.Runtime.Alloc.Blocks.{IsFree}
use open_gpu.Runtime.Alloc.Slots.{IsTable-set}
use open_gpu.Runtime.Alloc.Correct.{
  IsReady, Allocated, Settled, rounded, mem_alloc_cases, mem_alloc_invalid,
}
use open_gpu.Runtime.Alloc.Release.{StartsAt, NoneAt, retired, mem_free_cases, mem_free-mem_alloc}
use open_gpu.Runtime.Alloc.Contains.{HeldBy, allocation_contains_iff}
use open_gpu.Runtime.Transfer.{mem_write, mem_read}
use open_gpu.Runtime.Transfer.Isolation.{mem_read-mem_write, mem_write_isolated}
use open_gpu.Tests.Fixture.{
  default_config, default-IsSupported, zeros, opened_core, opened-IsReady, opened-valid,
  first_block, empty-IsFree, busy_core, busy-IsReady, busy-valid,
}

-- The block goes behind the one that is there.
second_goes_behind :
    search_from search_fuel (heap_end default_config) 64 busy_core.device.allocations heap_base
    ≡ some (heap_base + 128)
unfolding search_from first_overlap align_up
second_goes_behind = refl

mem_alloc_cases_example :
    Settled default_config busy_core
      (rounded 100)
      (mem_alloc default_config busy_core singleton 100 true)
mem_alloc_cases_example =
    mem_alloc_cases default_config default-IsSupported busy_core singleton 100 busy-IsReady
      busy-valid (omega arith) (omega arith)

mem_alloc_invalid_example :
    mem_alloc default_config busy_core singleton 0 true ≡ some (busy_core, invalid_argument, none)
mem_alloc_invalid_example =
    mem_alloc_invalid default_config busy_core singleton 0 true (inr (inr (inl refl)))

heap_base-starts : StartsAt busy_core.device.allocations heap_base 0 first_block
heap_base-starts = (refl, refl, refl)

mem_free_cases_example :
    ((s' : Core) × (i : ℕ) × (a : Allocation) × (mem_free busy_core singleton heap_base
        ≡ (s', success))
      × StartsAt busy_core.device.allocations heap_base i a
      × (s' ≡ record busy_core {
        device = record busy_core.device {
          allocations = set busy_core.device.allocations i (retired a);
        };
      })
      × IsReady default_config s'
      × (mem_free s' singleton heap_base ≡ (s', invalid_argument)))
    ⊎ ((mem_free busy_core singleton heap_base ≡ (busy_core, invalid_argument))
        × NoneAt busy_core.device.allocations heap_base)
mem_free_cases_example =
    mem_free_cases default_config busy_core singleton heap_base busy-IsReady busy-valid

abbrev busy_cleared : Core
busy_cleared = record busy_core {
  pmem = some (copy_into zeros (heap_base - default_config.mbase) 128 (λ _. 0));
}

-- The fixture's busy device is the opened one after an allocation of 128 bytes.
busy-Allocated : Allocated default_config opened_core busy_cleared 128 heap_base
busy-Allocated = record {
  low = omega arith;
  high = omega arith;
  unit = refl;
  free = empty-IsFree heap_base 128;
  lowest = λ z h _. h;
  slot = 0;
  unused = (no_allocation, refl, refl);
  bytes = zeros;
  before = refl;
  after = refl;
  ready = record { mapped = (_, refl); table = busy-IsReady.table };
}

mem_free-mem_alloc_example :
    (s'' : Core) × (mem_free busy_cleared singleton heap_base ≡ (s'', success))
    × ((z k : ℕ) → IsFree s''.device.allocations z k ↔ IsFree opened_core.device.allocations z k)
mem_free-mem_alloc_example =
    mem_free-mem_alloc default_config opened_core busy_cleared singleton 128 heap_base
      opened-IsReady opened-valid (omega arith) busy-Allocated

held : HeldBy busy_core.device.allocations (heap_base + 8) 16 0 first_block
held = (refl, refl, omega arith, omega arith)

allocation_contains_iff_example :
    (allocation_contains default_config busy_core.device.allocations (heap_base + 8) 16 ≡ true) ↔ (
      (0 < 16)
      × (i : ℕ) × (a : Allocation) × HeldBy busy_core.device.allocations (heap_base + 8) 16 i a)
allocation_contains_iff_example =
    allocation_contains_iff default_config busy_core.device.allocations (heap_base + 8) 16
      default-IsSupported busy-IsReady.table (omega arith) (omega arith)

abbrev pattern_bytes : Bytes
pattern_bytes i = i + 1

mem_read-mem_write_example :
    (s' : Core) × (got : Bytes) × (mem_write default_config busy_core singleton
        (heap_base + 8)
        (some pattern_bytes)
        16
      ≡ some (s', success))
    × (mem_read default_config s' singleton true (heap_base + 8) 16 ≡ some (success, some got))
    × ((i : ℕ) → i < 16 → got i ≡ pattern_bytes i)
mem_read-mem_write_example =
    mem_read-mem_write default_config default-IsSupported busy_core singleton busy-IsReady
      (heap_base + 8) 16 pattern_bytes busy-valid (omega arith) (omega arith)
      (omega arith, 0, first_block, held)

-- A second block, behind the first.
abbrev second_block : Allocation
second_block = record { address = heap_base + 128; size = 64; used = true }

abbrev crowded_core : Core
crowded_core = record busy_core {
  device = record busy_core.device {
    allocations = set busy_core.device.allocations 1 second_block;
  };
}

crowded-IsReady : IsReady default_config crowded_core
crowded-IsReady = record {
  mapped = (zeros, refl);
  table =
      IsTable-set (heap_end default_config) busy_core.device.allocations 1 second_block
        busy-IsReady.table (λ _. omega arith)
        (λ _. inr (omega arith), (empty-IsFree (heap_base + 128) 64).1);
}

mem_write_isolated_example :
    (s' : Core) × (m' : Bytes) × (mem_write default_config crowded_core singleton
        (heap_base + 8)
        (some pattern_bytes)
        16
      ≡ some (s', success))
    × (s'.pmem ≡ some m')
    × ((k : ℕ)
        → k < 64
        → m' (heap_base + 128 - default_config.mbase + k)
          ≡ crowded-IsReady.mapped.0 (heap_base + 128 - default_config.mbase + k))
unfolding valid_device
mem_write_isolated_example =
    mem_write_isolated default_config default-IsSupported crowded_core singleton crowded-IsReady 0 1
      first_block second_block (heap_base + 8) 16 (heap_base + 128) 64 pattern_bytes busy-valid
      (omega arith) (omega arith) (omega arith) (omega arith) (refl, refl, omega arith, omega arith)
      (refl, refl, omega arith, omega arith)
