-- ===== src/Runtime/Alloc.antt =====
-- The device heap of sw/runtime/gpu/gpu.c: first-fit allocation out of 64 slots, and release.
pub mod Blocks
pub mod Search
pub mod Slots
pub mod Correct
pub mod Release
pub mod Contains
use open_gpu.Prelude.{
  ℕ, zero, suc, ◌+◌, ◌-◌, ◌%◌, Bool, true, false, not, ◌&&◌, ◌||◌, Option, none, some, List, [],
  ◌∷◌, ltb, leb, ◌==◌, if◌then◌else◌, ◌>>=◌, set,
}
use open_gpu.Prelude.Word.{u32_mod, u32_max, u64_mod, add32, sub32}
use open_gpu.Config.{Config, heap_base, max_allocs}
use open_gpu.Memory.{guest_to_host, put_bytes}
use open_gpu.Runtime.Range.{align_up, range_inside}
use open_gpu.Runtime.Types.{
  Result, success, invalid_argument, out_of_memory, Handle, Allocation, Core, valid_device,
}

-- `CONFIG_MBASE + CONFIG_MSIZE`
abbrev pub heap_end : Config → ℕ
heap_end c = add32 c.mbase c.msize

-- The loop that looks for an unused slot; `none` is `slot == GPU_MAX_ALLOCS`.
unfoldable pub find_free : List Allocation → ℕ → Option ℕ
find_free [] i = none
find_free (a ∷ bs) i = if a.used then find_free bs (i + 1) else some i

-- The test of the inner loop: the range from the candidate on meets a block in use.
unfoldable pub overlaps : ℕ → ℕ → Allocation → Bool
overlaps candidate size a =
    a.used && ltb candidate (add32 a.address a.size) && ltb a.address (add32 candidate size)

-- One round of the inner loop: where the candidate moves to, or `none` if it stays (`!moved`).
unfoldable pub first_overlap : ℕ → ℕ → List Allocation → Option ℕ
unfolding overlaps
first_overlap candidate size [] = none
first_overlap candidate size (a ∷ bs) =
    if overlaps candidate size a
    then some (align_up (add32 a.address a.size))
    else first_overlap candidate size bs

-- The outer loop on fuel; `none` is fuel run out.
unfoldable pub search_from : ℕ → ℕ → ℕ → List Allocation → ℕ → Option ℕ
search_from zero end size bs candidate = none
search_from (suc fuel) end size bs candidate = elim (ltb candidate end) [
  | false ↦ some candidate
  | true ↦ elim (first_overlap candidate size bs) [
    | none ↦ some candidate
    | some moved ↦ search_from fuel end size bs moved
  ]
]

-- One round for each slot, and one to see that nothing moves.
abbrev pub search_fuel : ℕ
search_fuel = max_allocs + 1

-- What a call returns: the new globals, its result, and what it wrote through the out pointer.
abbrev pub AllocReply : Type 0
AllocReply = Core × Result × Option ℕ

-- The allocation proper, once a slot and an address are chosen.
unfoldable pub commit : Config → Core → ℕ → ℕ → ℕ → Option AllocReply
commit c s size slot candidate = do
  off ← guest_to_host c candidate
  cleared ← put_bytes c s.pmem off size (λ _. 0)
  let block : Allocation = record { address = candidate; size = size; used = true }
  let device = record s.device { allocations = set s.device.allocations slot block }
  some (record s { device = device; pmem = cleared }, success, some candidate)

-- The search for an address, and the last check against the end of the heap.
unfoldable pub place : Config → Core → ℕ → ℕ → Option AllocReply
place c s size slot = do
  candidate ← search_from search_fuel (heap_end c) size s.device.allocations heap_base
  if leb (heap_end c) candidate || ltb (sub32 (heap_end c) candidate) size
      then some (s, out_of_memory, none)
      else commit c s size slot candidate

unfoldable pub place_in : Config → Core → ℕ → Option ℕ → Option AllocReply
place_in c s size none = some (s, out_of_memory, none)
place_in c s size (some slot) = place c s size slot

-- `gpu_mem_alloc(device, size, address)`; `given` says that `address` is not NULL.
unfoldable pub mem_alloc : Config → Core → Handle → ℕ → Bool → Option AllocReply
mem_alloc c s h size given =
    if not (valid_device s h) || not given || size == 0 || ltb u32_max size
    then some (s, invalid_argument, none)
    else let aligned = align_up (size % u32_mod) in
      if ltb aligned size
      then some (s, out_of_memory, none)
      else place_in c s aligned (find_free s.device.allocations 0)

-- The loop of `gpu_mem_free`: the slots with the first block in use at the address released.
unfoldable pub release : ℕ → List Allocation → Option (List Allocation)
release address [] = none
release address (a ∷ bs) =
    if a.used && a.address == address
    then some (record a { used = false } ∷ bs)
    else (do rest ← release address bs; some (a ∷ rest))

unfoldable pub released : Core → Option (List Allocation) → Core × Result
released s none = (s, invalid_argument)
released s (some bs) = (record s { device = record s.device { allocations = bs } }, success)

unfoldable pub mem_free : Core → Handle → ℕ → Core × Result
mem_free s h address =
    if not (valid_device s h)
    then (s, invalid_argument)
    else released s (release address s.device.allocations)

-- The test of the loop in `allocation_contains`, whose last subtraction is of a `size_t`.
unfoldable pub holds_range : ℕ → ℕ → Allocation → Bool
holds_range address size a =
    a.used
    && leb a.address address
    && leb size a.size
    && leb (sub32 address a.address) ((a.size + u64_mod - size) % u64_mod)

unfoldable pub any_holds : ℕ → ℕ → List Allocation → Bool
any_holds address size [] = false
any_holds address size (a ∷ bs) = holds_range address size a || any_holds address size bs

unfoldable pub allocation_contains : Config → List Allocation → ℕ → ℕ → Bool
allocation_contains c bs address size =
    range_inside address size heap_base (heap_end c) && any_holds address size bs
