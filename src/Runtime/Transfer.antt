-- ===== src/Runtime/Transfer.antt =====
-- The transfers between host and device memory, and the loading of kernels, of
-- sw/runtime/gpu/gpu.c. A host buffer is a function from its offset, and `none` a NULL pointer.
pub mod Isolation
pub mod Loading
use open_gpu.Prelude.{
  ℕ, ◌+◌, ◌-◌, ◌%◌, Bool, true, false, not, ◌&&◌, ◌||◌, Option, none, some, List, [], ◌∷◌, ltb, leb,
  ◌==◌, if◌then◌else◌, ◌>>=◌,
}
use open_gpu.Prelude.Word.{u32_mod, sub32, add32}
use open_gpu.Config.{Config, kernel_base, kernel_end}
use open_gpu.Memory.{Bytes, Pmem, guest_to_host, put_bytes, get_bytes}
use open_gpu.Runtime.Types.{
  Result, success, invalid_argument, out_of_memory, io, Handle, Kernel, Device, Core, valid_device,
}
use open_gpu.Runtime.Alloc.{allocation_contains}

unfoldable pub raw_write : Config → Pmem → ℕ → Bytes → ℕ → Option Pmem
raw_write c p address source size = do off ← guest_to_host c address; put_bytes c p off size source

unfoldable pub mem_write : Config → Core → Handle → ℕ → Option Bytes → ℕ → Option (Core × Result)
mem_write c s h address none size = some (s, invalid_argument)
mem_write c s h address (some source) size =
    if not (valid_device s h) || not (allocation_contains c s.device.allocations address size)
    then some (s, invalid_argument)
    else (do p ← raw_write c s.pmem address source size; some (record s { pmem = p }, success))

-- The value is what the destination receives; `given` says that it is not NULL.
unfoldable pub mem_read : Config → Core → Handle → Bool → ℕ → ℕ → Option (Result × Option Bytes)
mem_read c s h given address size =
    if not (valid_device s h)
      || not given
      || not (allocation_contains c s.device.allocations address size)
    then some (invalid_argument, none)
    else (do
      off ← guest_to_host c address
      got ← get_bytes c s.pmem off size
      some (success, some got))

-- What a load returns: the new globals, its result, and the handle written to `*kernel`.
abbrev pub LoadReply : Type 0
LoadReply = Core × Result × Option Kernel

-- The part of `gpu_kernel_load_memory` that follows its guards.
unfoldable pub install : Config → Core → Handle → Bytes → ℕ → Option LoadReply
install c s h image size = do
  off ← guest_to_host c kernel_base
  cleared ← put_bytes c s.pmem off (sub32 kernel_end kernel_base) (λ _. 0)
  filled ← raw_write c cleared kernel_base image size
  let generation = add32 s.device.kernel_generation 1
  let loaded : Kernel = record { device = h; entry = kernel_base; generation = generation }
  let device = record s.device {
    kernel_generation = generation;
    kernels = loaded ∷ s.device.kernels;
  }
  some (record s { device = device; pmem = filled }, success, some loaded)

-- `given` says that `kernel` is not NULL, `allocated` that `calloc` succeeds.
unfoldable pub kernel_load_memory :
    Config → Core → Handle → Option Bytes → ℕ → Bool → Bool → Option LoadReply
kernel_load_memory c s h none size given allocated = some (s, invalid_argument, none)
kernel_load_memory c s h (some image) size given allocated =
    if not (valid_device s h) || not given || size == 0 || ltb (sub32 kernel_end kernel_base) size
    then some (s, invalid_argument, none)
    else if not allocated
    then some (s, out_of_memory, none)
    else install c s h image size

-- What the C library says of the file at a path: the outcome of each call of
-- `gpu_kernel_load_file`, in order. `length` is what `ftell` returns, `none` below zero.
pub record File : Type 0 where
  pub opens : Bool
  pub seeks_end : Bool
  pub length : Option ℕ
  pub seeks_start : Bool
  pub allocates : Bool
  pub reads : Bool
  pub content : Bytes

-- From the second `fseek` on, with a length that is positive.
unfoldable pub load_content : Config → Core → Handle → File → ℕ → Bool → Bool → Option LoadReply
load_content c s h file n given allocated =
    if n == 0 || not file.seeks_start
    then some (s, io, none)
    else if not file.allocates
    then some (s, out_of_memory, none)
    else if not file.reads
    then some (s, io, none)
    else kernel_load_memory c s h (some file.content) n given allocated

unfoldable pub load_length :
    Config → Core → Handle → File → Option ℕ → Bool → Bool → Option LoadReply
unfolding load_content
load_length c s h file none given allocated = some (s, io, none)
load_length c s h file (some n) given allocated = load_content c s h file n given allocated

-- `named` says that `path` is not NULL.
unfoldable pub kernel_load_file :
    Config → Core → Handle → Bool → File → Bool → Bool → Option LoadReply
unfolding load_length
kernel_load_file c s h named file given allocated =
    if not (valid_device s h) || not named || not given
    then some (s, invalid_argument, none)
    else if not file.opens || not file.seeks_end
    then some (s, io, none)
    else load_length c s h file file.length given allocated
