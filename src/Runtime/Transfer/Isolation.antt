-- ===== src/Runtime/Transfer/Isolation.antt =====
-- Transfers between host and device memory: when they are accepted, that a read finds what a write
-- has put, and that a write to one block leaves every other block alone.
use open_gpu.Prelude.{
  ℕ, ◌+◌, ◌-◌, ◌≤◌, ◌<◌, ◌≡◌, ◌≢◌, refl, ap, ◌⊎◌, inl, inr, true, none, some, All-get_elem?, arith,
  Bool-cases,
}
use open_gpu.Prelude.Word.{IsU32, IsU64}
use open_gpu.Config.{Config, IsSupported, heap_base}
use open_gpu.Memory.{Bytes, copy_into, get_bytes}
use open_gpu.Runtime.Types.{success, invalid_argument, Handle, Allocation, Core, valid_device}
use open_gpu.Runtime.Alloc.{heap_end, allocation_contains}
use open_gpu.Runtime.Alloc.Blocks.{WellPlaced}
use open_gpu.Runtime.Alloc.Correct.{IsReady, heap_end_lem, put_bytes_heap}
use open_gpu.Runtime.Alloc.Contains.{HeldBy, allocation_contains_iff, Disjoint-HeldBy}
use open_gpu.Runtime.Transfer.{raw_write, mem_write, mem_read}

-- Some block in use has all bytes of the range, which is not empty.
abbrev pub IsHeld : Core → ℕ → ℕ → Type 0
IsHeld s address size =
    (0 < size) × (i : ℕ) × (a : Allocation) × HeldBy s.device.allocations address size i a

-- The globals after `size` bytes at the address are overwritten.
abbrev pub overwrite : Config → Core → Bytes → ℕ → ℕ → Bytes → Core
overwrite c s m address size source = record s {
  pmem = some (copy_into m (address - c.mbase) size source);
}

module _ (c : Config) (sup : IsSupported c) (s : Core) (h : Handle) (r : IsReady c s) where
  -- A range that a block holds lies in the heap.
  held_in_heap :
      (address size : ℕ)
      → IsHeld s address size
      → (heap_base ≤ address) × (address + size ≤ heap_end c)
  held_in_heap address size (pos, i, a, held) =
      let inside =
        All-get_elem? (WellPlaced (heap_end c)) s.device.allocations i r.table.placed held.0
          held.1 in
      (omega (arith, inside, held.2), omega (arith, inside, held.3))

  -- `gpu_mem_write` from a host buffer on a valid handle succeeds exactly for a range that one block
  -- in use holds; then the bytes of the range become those of the buffer and nothing else changes.
  -- Otherwise it is refused as invalid and nothing changes.
  pub mem_write_cases :
      (address size : ℕ) (source : Bytes)
      → valid_device s h ≡ true
      → IsU32 address
      → IsU64 size
      → (IsHeld s address size
          × (mem_write c s h address (some source) size
              ≡ some (overwrite c s r.mapped.0 address size source, success)))
        ⊎ ((IsHeld s address size → ⊥)
            × (mem_write c s h address (some source) size ≡ some (s, invalid_argument)))
  unfolding mem_write raw_write
  mem_write_cases address size source valid ha hs =
      let iff = allocation_contains_iff c s.device.allocations address size sup r.table ha hs in
      elim (Bool-cases (allocation_contains c s.device.allocations address size)) [
        | inl passes ↦
            let held = iff.0 passes in
            let (low, high) = held_in_heap address size held in
            let (there, put) =
              put_bytes_heap c sup r.mapped.0 source address size low held.0 high in
            inl (held, rw (valid, passes, there, r.mapped.1, put) refl)
        | inr fails ↦ inr ((λ held. cc (iff.1 held)), rw (valid, fails) refl)
      ]

  -- `gpu_mem_read` to a host buffer on a valid handle succeeds exactly for a range that one block
  -- in use holds, and then delivers the bytes of the range.
  pub mem_read_cases :
      (address size : ℕ)
      → valid_device s h ≡ true
      → IsU32 address
      → IsU64 size
      → (IsHeld s address size
          × (mem_read c s h true address size
              ≡ some (success, some (λ i. r.mapped.0 (address - c.mbase + i)))))
        ⊎ ((IsHeld s address size → ⊥)
            × (mem_read c s h true address size ≡ some (invalid_argument, none)))
  unfolding mem_read get_bytes
  mem_read_cases address size valid ha hs =
      let iff = allocation_contains_iff c s.device.allocations address size sup r.table ha hs in
      elim (Bool-cases (allocation_contains c s.device.allocations address size)) [
        | inl passes ↦
            let held = iff.0 passes in
            let (low, high) = held_in_heap address size held in
            let (there, _) =
              put_bytes_heap c sup r.mapped.0 (λ _. 0) address size low held.0 high in
            let fits : address - c.mbase + size ≤ c.msize =
              omega (arith, high, heap_end_lem c sup, sup, low) in
            inl (held, ground (arith, valid, passes, there, r.mapped.1, fits))
        | inr fails ↦ inr ((λ held. cc (iff.1 held)), ground (arith, valid, fails))
      ]

  overwrite-IsReady :
      (m source : Bytes) (address size : ℕ) → IsReady c (overwrite c s m address size source)
  overwrite-IsReady m source address size = record { mapped = (_, refl); table = r.table }

  -- The bytes just written are found where they were put.
  copied : (m source : Bytes) (off n i : ℕ) → i < n → copy_into m off n source (off + i) ≡ source i
  copied m source off n i h =
      let back : off + i - off ≡ i = omega arith in ground (arith, ap source back)

  -- `gpu_mem_read` of a range that `gpu_mem_write` has just accepted delivers the bytes written.
  pub mem_read-mem_write :
      (address size : ℕ) (source : Bytes)
      → valid_device s h ≡ true
      → IsU32 address
      → IsU64 size
      → IsHeld s address size
      → (s' : Core) × (got : Bytes) × (mem_write c s h address (some source) size
          ≡ some (s', success))
        × (mem_read c s' h true address size ≡ some (success, some got))
        × ((i : ℕ) → i < size → got i ≡ source i)
  unfolding mem_read get_bytes valid_device
  mem_read-mem_write address size source valid ha hs held =
      let s' = overwrite c s r.mapped.0 address size source in
      let iff = allocation_contains_iff c s.device.allocations address size sup r.table ha hs in
      let (low, high) = held_in_heap address size held in
      let (there, _) = put_bytes_heap c sup r.mapped.0 source address size low held.0 high in
      let fits : address - c.mbase + size ≤ c.msize =
        omega (arith, high, heap_end_lem c sup, sup, low) in
      let written : mem_write c s h address (some source) size ≡ some (s', success) =
        elim (mem_write_cases address size source valid ha hs) [
          | inl (_, e) ↦ e
          | inr (missing, _) ↦ absurd (missing held)
        ] in
      (
        s',
        (λ i. copy_into r.mapped.0 (address - c.mbase) size source (address - c.mbase + i)),
        written,
        ground (arith, valid, iff.1 held, there, fits),
        λ i hi. copied r.mapped.0 source (address - c.mbase) size i hi,
      )

  -- A write that one block in use holds changes no byte of a block in use in another slot: a read of
  -- any range of that block is answered after the write as before it.
  pub mem_write_isolated :
      (i j : ℕ) (a b : Allocation) (address size address' size' : ℕ) (source : Bytes)
      → valid_device s h ≡ true
      → IsU32 address
      → IsU64 size
      → i ≢ j
      → 0 < size
      → HeldBy s.device.allocations address size i a
      → HeldBy s.device.allocations address' size' j b
      → (s' : Core) × (m' : Bytes) × (mem_write c s h address (some source) size
          ≡ some (s', success))
        × (s'.pmem ≡ some m')
        × ((k : ℕ) → k < size' → m' (address' - c.mbase + k) ≡ r.mapped.0 (address' - c.mbase + k))
  mem_write_isolated i j a b address size address' size' source valid ha hs ne pos held held' =
      let s' = overwrite c s r.mapped.0 address size source in
      let apart =
        Disjoint-HeldBy s.device.allocations i j a b r.table.disjoint ne held.0 held'.0 held.1
          held'.1 in
      let inside =
        All-get_elem? (WellPlaced (heap_end c)) s.device.allocations i r.table.placed held.0
          held.1 in
      let inside' =
        All-get_elem? (WellPlaced (heap_end c)) s.device.allocations j r.table.placed held'.0
          held'.1 in
      let written : mem_write c s h address (some source) size ≡ some (s', success) =
        elim (mem_write_cases address size source valid ha hs) [
          | inl (_, e) ↦ e
          | inr (missing, _) ↦ absurd (missing (pos, i, a, held))
        ] in
      (
        s',
        _,
        written,
        refl,
        λ k hk. ground (arith, apart, inside, inside', held.2, held.3, held'.2, held'.3, sup),
      )
