-- ===== src/Runtime/Execute/Stale.antt =====
-- Kernels of an earlier load: `gpu_launch` compares the generation in a kernel with the device's.
use open_gpu.Prelude.{
  ℕ, suc, ◌+◌, ◌%◌, ◌<◌, ◌≡◌, refl, ◌∙◌, Bool, true, false, not, Option, none, some, arith,
  Bool-cases, ◌==◌, ltb, ◌||◌, inl, inr,
}
use open_gpu.Prelude.Chain.{After, After-bind, After-some}
use open_gpu.Prelude.Word.{u32_mod, IsU32, add32, sub32}
use open_gpu.Config.{Config, kernel_base, kernel_end}
use open_gpu.Memory.{Bytes, guest_to_host, put_bytes}
use open_gpu.Backend.{Model}
use open_gpu.Runtime.Types.{Result, success, invalid_argument, Handle, Kernel, Core, valid_device}
use open_gpu.Runtime.Alloc.{allocation_contains}
use open_gpu.Runtime.Transfer.{LoadReply, install, raw_write, kernel_load_memory, mem_write}
use open_gpu.Runtime.Launch.{LaunchInfo, Runtime, launch_allowed}
use open_gpu.Runtime.Execute.{gpu_launch}

-- Calls on the device: `n` loads that succeed, and any number of writes.
pub data Loads (c : Config) (s : Core) : ℕ → Core → Type 0 where
  start : Loads c s 0 s
  load :
      {n : ℕ} {t u : Core} (h : Handle) (image : Bytes) (size : ℕ) (k : Kernel)
      → Loads c s n t
      → kernel_load_memory c t h (some image) size true true ≡ some (u, success, some k)
      → Loads c s (suc n) u
  write :
      {n : ℕ} {t u : Core} (h : Handle) (source : Option Bytes) (address size : ℕ) (e : Result)
      → Loads c s n t
      → mem_write c t h address source size ≡ some (u, e)
      → Loads c s n u

-- A load that succeeds moves the generation on by one.
abbrev Moved : Core → LoadReply → Type 0
Moved s (s', e, k) = e ≡ success → s'.device.kernel_generation ≡ add32 s.device.kernel_generation 1

kernel_load_memory-Moved :
    (c : Config) (s : Core) (h : Handle) (image : Bytes) (size : ℕ)
    → After (Moved s) (kernel_load_memory c s h (some image) size true true)
unfolding kernel_load_memory install
kernel_load_memory-Moved c s h image size =
    elim (Bool-cases (
      not (valid_device s h) || not true || size == 0 || ltb (sub32 kernel_end kernel_base) size)) [
        | inl refused ↦ rw refused (λ e. cc)
        | inr fine ↦ rw fine (
            After-bind (Moved s) (guest_to_host c kernel_base) _ λ off e.
              After-bind (Moved s) (put_bytes c s.pmem off _ _) _ λ cleared e'.
                After-bind (Moved s) (raw_write c cleared kernel_base image size) _
                  λ filled e'' e3. refl)
      ]

mem_write-generation :
    (c : Config) (s : Core) (h : Handle) (source : Option Bytes) (address size : ℕ)
    → After
        (λ (x : Core × Result). x.0.device.kernel_generation ≡ s.device.kernel_generation)
        (mem_write c s h address source size)
unfolding mem_write
mem_write-generation c s h none address size = refl
mem_write-generation c s h (some source) address size =
    elim (Bool-cases
      (not (valid_device s h) || not (allocation_contains c s.device.allocations address size))) [
        | inl refused ↦ rw refused refl
        | inr held ↦ rw held (
            After-bind
              (λ (x : Core × Result). x.0.device.kernel_generation ≡ s.device.kernel_generation)
              (raw_write c s.pmem address source size) _ λ p e. refl)
      ]

-- The generation counts the loads, with C's wrap.
Loads-generation :
    (c : Config) (s : Core) {n : ℕ} {t : Core}
    → IsU32 s.device.kernel_generation
    → Loads c s n t
    → t.device.kernel_generation ≡ (s.device.kernel_generation + n) % u32_mod
Loads-generation c s small start = omega arith
Loads-generation c s small (load {n} {t} {u} h image size k before e) =
    let moved =
      After-some (Moved t) (kernel_load_memory c t h (some image) size true true)
        (u, success, some k) (kernel_load_memory-Moved c t h image size) e refl in
    omega (arith, moved, Loads-generation c s small before)
Loads-generation c s small (write {n} {t} {u} h source address size e before eq) =
    let kept =
      After-some (λ (x : Core × Result). x.0.device.kernel_generation ≡ t.device.kernel_generation)
        (mem_write c t h address source size) (u, e)
        (mem_write-generation c t h source address size) eq in
    kept ∙ Loads-generation c s small before

-- After 1 to 2^32 - 1 further loads that succeed, and any number of writes between them, a kernel
-- of the generation before them is refused by `gpu_launch` as invalid, on any handle and with any
-- launch information, and nothing changes.
pub gpu_launch-Loads :
    (E R : Model) (c : Config) (rt : Runtime E R) (s : Core) (n : ℕ) (h : Handle) (k : Kernel)
    (info : Option LaunchInfo) (allocated : Bool)
    → IsU32 s.device.kernel_generation
    → k.generation ≡ s.device.kernel_generation
    → Loads c s n rt.core
    → 0 < n
    → n < u32_mod
    → gpu_launch E R c rt h (some k) info allocated ≡ some (rt, invalid_argument)
unfolding gpu_launch launch_allowed
gpu_launch-Loads E R c rt s n h k none allocated small old loads pos few = refl
gpu_launch-Loads E R c rt s n h k (some info) allocated small old loads pos few =
    let now = Loads-generation c s small loads in
    let stale : (k.generation == rt.core.device.kernel_generation) ≡ false =
      ground (arith, now, old, small, pos, few) in
    let refused : launch_allowed rt.core h k info ≡ false = ground (arith, stale) in rw refused refl
