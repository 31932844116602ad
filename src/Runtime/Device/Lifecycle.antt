-- ===== src/Runtime/Device/Lifecycle.antt =====
-- The life of the device: what an open gives, and which calls a close ends.
use open_gpu.Prelude.{
  ℕ, zero, suc, ◌≡◌, refl, Bool, true, false, Option, none, some, [], replicate, length-replicate,
  All-replicate, arith,
}
use open_gpu.Config.{Config, max_allocs}
use open_gpu.Memory.{Bytes}
use open_gpu.Runtime.Types.{
  success, invalid_argument, bad_state, Handle, singleton, Kernel, Core, no_allocation,
  valid_device,
}
use open_gpu.Runtime.Alloc.{heap_end, mem_alloc, mem_free}
use open_gpu.Runtime.Alloc.Blocks.{IsTable, WellPlaced, Apart, Disjoint}
use open_gpu.Runtime.Alloc.Correct.{IsReady}
use open_gpu.Backend.{Model}
use open_gpu.Runtime.Launch.{LaunchInfo, Runtime, launch_allowed}
use open_gpu.Runtime.Execute.{gpu_launch, gpu_wait}
use open_gpu.Runtime.Transfer.{mem_write, mem_read, kernel_load_memory, File, kernel_load_file}
use open_gpu.Runtime.Device.{device_open, device_close}

Disjoint-replicate : (n : ℕ) → Disjoint (replicate n no_allocation)
Disjoint-replicate zero = tt
Disjoint-replicate (suc n) =
    (All-replicate (Apart no_allocation) n no_allocation (λ e. cc), Disjoint-replicate n)

-- A table of unused slots is in order.
pub empty-IsTable : (end : ℕ) → IsTable end (replicate max_allocs no_allocation)
empty-IsTable end = record {
  slots = length-replicate max_allocs no_allocation;
  placed = All-replicate (WellPlaced end) max_allocs no_allocation (λ e. cc);
  disjoint = Disjoint-replicate max_allocs;
}

-- The globals after an open: no block in use, no kernel and no arguments.
abbrev pub reopened : Core → Core
reopened s = record s {
  device = record s.device {
    opened = true;
    running = false;
    kernel_generation = 0;
    allocations = replicate max_allocs no_allocation;
    kernels = [];
    launch_args = 0;
    launch_args_used = false;
  };
}

-- The first open of device 0 of an initialised runtime succeeds: the handle is valid, the device is
-- not running, the table is in order with every slot unused, no kernel is loaded and no argument
-- buffer is held. A second open is refused as a bad state and changes nothing.
pub device_open_lem :
    (c : Config) (s : Core) (m : Bytes)
    → s.initialized ≡ true
    → s.device.opened ≡ false
    → s.pmem ≡ some m
    → (s' : Core) × (device_open s 0 true ≡ (s', success, some singleton))
      × (valid_device s' singleton ≡ true)
      × (s'.device.running ≡ false)
      × IsReady c s'
      × (s'.device.allocations ≡ replicate max_allocs no_allocation)
      × (s'.device.kernels ≡ [])
      × (s'.device.launch_args_used ≡ false)
      × (device_open s' 0 true ≡ (s', bad_state, none))
unfolding device_open valid_device
device_open_lem c s m init closed mapped = (
  reopened s,
  rw (init, closed) refl,
  rw init refl,
  refl,
  record { mapped = (m, mapped); table = empty-IsTable (heap_end c) },
  refl,
  refl,
  refl,
  rw init refl,
)

closed-invalid : (s : Core) (g : Handle) → s.device.opened ≡ false → valid_device s g ≡ false
unfolding valid_device
closed-invalid s g shut = ground arith

mem_write-closed :
    (c : Config) (s : Core) (g : Handle) (address size : ℕ) (source : Option Bytes)
    → valid_device s g ≡ false
    → mem_write c s g address source size ≡ some (s, invalid_argument)
unfolding mem_write
mem_write-closed c s g address size none shut = refl
mem_write-closed c s g address size (some source) shut = rw shut

kernel_load_memory-closed :
    (c : Config) (s : Core) (g : Handle) (image : Option Bytes) (size : ℕ) (given allocated : Bool)
    → valid_device s g ≡ false
    → kernel_load_memory c s g image size given allocated ≡ some (s, invalid_argument, none)
unfolding kernel_load_memory
kernel_load_memory-closed c s g none size given allocated shut = refl
kernel_load_memory-closed c s g (some image) size given allocated shut = rw shut

kernel_load_file-closed :
    (c : Config) (s : Core) (g : Handle) (named : Bool) (file : File) (given allocated : Bool)
    → valid_device s g ≡ false
    → kernel_load_file c s g named file given allocated ≡ some (s, invalid_argument, none)
unfolding kernel_load_file
kernel_load_file-closed c s g named file given allocated shut = rw shut refl

gpu_launch-closed :
    (E R : Model) (c : Config) (rt : Runtime E R) (g : Handle) (k : Option Kernel)
    (info : Option LaunchInfo) (allocated : Bool)
    → valid_device rt.core g ≡ false
    → gpu_launch E R c rt g k info allocated ≡ some (rt, invalid_argument)
unfolding gpu_launch launch_allowed
gpu_launch-closed E R c rt g none info allocated shut = refl
gpu_launch-closed E R c rt g (some k) none allocated shut = refl
gpu_launch-closed E R c rt g (some k) (some info) allocated shut = rw shut refl

gpu_wait-closed :
    (E R : Model) (c : Config) (rt : Runtime E R) (g : Handle)
    → valid_device rt.core g ≡ false
    → gpu_wait E R c rt g ≡ some (rt, bad_state)
unfolding gpu_wait
gpu_wait-closed E R c rt g shut = rw shut refl

-- The runtime is initialised and the device is not opened; on any handle an allocation, a release,
-- a write, a read, a load of a kernel from memory or from a file, and a launch, on any models, are
-- refused as invalid, and a wait as a bad state, and none of them changes anything; and an open of
-- device 0 succeeds with the valid handle.
pub record IsSealed (c : Config) (s : Core) : Type 1 where
  pub initialized : s.initialized ≡ true
  pub not_opened : s.device.opened ≡ false
  pub alloc :
      (g : Handle) (size : ℕ) (given : Bool)
      → mem_alloc c s g size given ≡ some (s, invalid_argument, none)
  pub free : (g : Handle) (address : ℕ) → mem_free s g address ≡ (s, invalid_argument)
  pub write :
      (g : Handle) (address size : ℕ) (source : Option Bytes)
      → mem_write c s g address source size ≡ some (s, invalid_argument)
  pub read :
      (g : Handle) (address size : ℕ) (given : Bool)
      → mem_read c s g given address size ≡ some (invalid_argument, none)
  pub load :
      (g : Handle) (image : Option Bytes) (size : ℕ) (given allocated : Bool)
      → kernel_load_memory c s g image size given allocated ≡ some (s, invalid_argument, none)
  pub load_file :
      (g : Handle) (named : Bool) (file : File) (given allocated : Bool)
      → kernel_load_file c s g named file given allocated ≡ some (s, invalid_argument, none)
  pub launch :
      (E R : Model) (rt : Runtime E R) (g : Handle) (k : Option Kernel) (info : Option LaunchInfo)
      (allocated : Bool)
      → let sealed : Runtime E R = record rt { core = s } in
        gpu_launch E R c sealed g k info allocated ≡ some (sealed, invalid_argument)
  pub wait :
      (E R : Model) (rt : Runtime E R) (g : Handle)
      → let sealed : Runtime E R = record rt { core = s } in
        gpu_wait E R c sealed g ≡ some (sealed, bad_state)
  pub open_again :
      (device_open s 0 true ≡ (reopened s, success, some singleton))
      × (valid_device (reopened s) singleton ≡ true)

-- After a close that succeeds the runtime is initialised and the device is not opened. On any handle
-- an allocation, a release, a write, a read, a load of a kernel from memory or from a file, and a
-- launch are refused as invalid, and a wait as a bad state, and none of them changes anything. The
-- device can be opened again.
pub device_close_seals :
    (c : Config) (s s' : Core) (h : Handle) → device_close s h ≡ (s', success) → IsSealed c s'
unfolding device_close device_open mem_alloc mem_free mem_read valid_device
device_close_seals c s s' h closed =
    let init : s'.initialized ≡ true = ground (arith, closed) in
    let shut : s'.device.opened ≡ false = ground (arith, closed) in
    let refused = λ (g : Handle). closed-invalid s' g shut in
    record {
      initialized = init;
      not_opened = shut;
      alloc = λ g size given. rw (refused g) refl;
      free = λ g address. rw (refused g) refl;
      write = λ g address size source. mem_write-closed c s' g address size source (refused g);
      read = λ g address size given. rw (refused g) refl;
      load = λ g image size given allocated.
          kernel_load_memory-closed c s' g image size given allocated (refused g);
      load_file = λ g named file given allocated.
          kernel_load_file-closed c s' g named file given allocated (refused g);
      launch = λ E R rt g k info allocated.
          gpu_launch-closed E R c (record rt { core = s' }) g k info allocated (refused g);
      wait = λ E R rt g. gpu_wait-closed E R c (record rt { core = s' }) g (refused g);
      open_again = (rw (init, shut) refl, rw init refl);
    }
