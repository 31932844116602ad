-- ===== src/Runtime/Alloc/Correct.antt =====
-- `gpu_mem_alloc`: what it returns, where the block stands, and when it fails.
use open_gpu.Prelude.{
  ℕ, ◌+◌, ◌-◌, ◌*◌, ◌/◌, ◌%◌, ◌^◌, ◌≤◌, ◌<◌, ◌≡◌, refl, ◌⊎◌, inl, inr, Bool, true, false, Option,
  none, some, List, set, arith, Option-cases, Bool-cases, ltb, ltb→lt, ltb→le,
}
use open_gpu.Prelude.Word.{u32_mod, u32_max, IsU32}
use open_gpu.Config.{Config, IsSupported, heap_base}
use open_gpu.Memory.{Bytes, copy_into, guest_to_host, put_bytes}
use open_gpu.Runtime.Types.{
  success, invalid_argument, out_of_memory, Handle, Allocation, Core, valid_device,
}
use open_gpu.Runtime.Range.{align_up, align_up_lem}
use open_gpu.Runtime.Alloc.{
  AllocReply, heap_end, find_free, search_fuel, commit, place, place_in, mem_alloc,
}
use open_gpu.Runtime.Alloc.Blocks.{IsFree, IsTable, above-le}
use open_gpu.Runtime.Alloc.Search.{Found, search_from-Found}
use open_gpu.Runtime.Alloc.Slots.{AllUsed, IsUnused, find_free-none, find_free-some, IsTable-set}

-- The size in whole 64-byte units, with nothing wrapped.
abbrev pub rounded : ℕ → ℕ
rounded size = (size + 63) / 64 * 64

-- The globals between calls: the memory is there, and the table is in order.
pub record IsReady (c : Config) (s : Core) : Type 0 where
  pub mapped : (m : Bytes) × (s.pmem ≡ some m)
  pub table : IsTable (heap_end c) s.device.allocations

-- No range of `n` bytes in the heap misses all blocks in use.
abbrev pub IsFull : Config → List Allocation → ℕ → Type 0
IsFull c bs n = (z : ℕ) → heap_base ≤ z → z + n ≤ heap_end c → IsFree bs z n → ⊥

-- What a successful allocation of `n` bytes, a whole number of units, does.
pub record Allocated (c : Config) (s s' : Core) (n address : ℕ) : Type 0 where
  pub low : heap_base ≤ address
  pub high : address + n ≤ heap_end c
  pub unit : address % 64 ≡ 0
  pub free : IsFree s.device.allocations address n
  pub lowest : (z : ℕ) → heap_base ≤ z → IsFree s.device.allocations z n → address ≤ z
  pub slot : ℕ
  pub unused : IsUnused s.device.allocations slot
  pub bytes : Bytes
  pub before : s.pmem ≡ some bytes
  pub after : s' ≡ record s {
    device = record s.device {
      allocations =
          set s.device.allocations slot (record { address = address; size = n; used = true });
    };
    pmem = some (copy_into bytes (address - c.mbase) n (λ _. 0));
  }
  pub ready : IsReady c s'

-- What is known of a reply to an allocation of `n` bytes, a whole number of units.
abbrev pub Settled : Config → Core → ℕ → Option AllocReply → Type 0
Settled c s n reply =
    ((s' : Core) × (a : ℕ) × (reply ≡ some (s', success, some a)) × Allocated c s s' n a)
    ⊎ ((reply ≡ some (s, out_of_memory, none))
        × (AllUsed s.device.allocations ⊎ IsFull c s.device.allocations n))

module _ (c : Config) (sup : IsSupported c) where
  -- The end of the heap does not wrap.
  pub heap_end_lem : heap_end c ≡ c.mbase + c.msize
  heap_end_lem = omega (arith, sup)

  -- A range of the heap can be cleared.
  pub put_bytes_heap :
      (m src : Bytes) (a n : ℕ)
      → heap_base ≤ a
      → 0 < n
      → a + n ≤ heap_end c
      → (guest_to_host c a ≡ some (a - c.mbase))
        × (put_bytes c (some m) (a - c.mbase) n src ≡ some (some (copy_into m (a - c.mbase) n src)))
  unfolding guest_to_host put_bytes
  put_bytes_heap m src a n low pos high = ground (arith, sup, heap_end_lem)

  heap_end-IsU32 : IsU32 (heap_end c)
  heap_end-IsU32 = omega (arith, sup)

  commit-Allocated :
      (s : Core) (n slot a : ℕ)
      → IsReady c s
      → 0 < n
      → n % 64 ≡ 0
      → a + n ≤ heap_end c
      → IsUnused s.device.allocations slot
      → Found (heap_end c) heap_end-IsU32 heap_base n s.device.allocations a
      → (s' : Core) × (commit c s n slot a ≡ some (s', success, some a)) × Allocated c s s' n a
  unfolding commit
  commit-Allocated s n slot a r pos units high unused f =
      let (m, mapped) = r.mapped in
      let (there, cleared) = put_bytes_heap m (λ _. 0) a n f.higher pos high in
      let free = f.free (omega arith) (omega (arith, sup, heap_end_lem)) in
      let block : Allocation = record { address = a; size = n; used = true } in
      let s' : Core = record s {
        device = record s.device { allocations = set s.device.allocations slot block };
        pmem = some (copy_into m (a - c.mbase) n (λ _. 0));
      } in
      (
        s',
        rw (there, mapped) (rw cleared),
        record {
          low = f.higher;
          high = high;
          unit = f.unit;
          free = free;
          lowest = f.lowest;
          slot = slot;
          unused = unused;
          bytes = m;
          before = mapped;
          after = refl;
          ready = record {
            mapped = (_, refl);
            table =
                IsTable-set (heap_end c) s.device.allocations slot block r.table
                  (λ _. record {
                    low = f.higher;
                    size_pos = pos;
                    address_unit = f.unit;
                    size_unit = units;
                    high = high;
                  })
                  free;
          };
        },
      )

  place-Settled :
      (s : Core) (n slot : ℕ)
      → IsReady c s
      → 0 < n
      → n % 64 ≡ 0
      → IsUnused s.device.allocations slot
      → Settled c s n (place c s n slot)
  unfolding place
  place-Settled s n slot r pos units unused =
      let bs : List Allocation = s.device.allocations in
      let (a, found, f) =
        search_from-Found (heap_end c) heap_end-IsU32 search_fuel heap_base n bs
          (omega (arith, above-le bs heap_base, r.table.slots)) (omega arith) (omega arith)
          r.table.placed in
      elim (Bool-cases (ltb (heap_end c) (a + n))) [
        | inl over ↦ inr (
          ground (arith, found, f.word, heap_end-IsU32, over),
          inr λ z low fits free. omega (arith, f.lowest z low free, ltb→lt _ _ over),
        )
        | inr fits ↦
            let high : a + n ≤ heap_end c = ltb→le _ _ fits in
            let (s', e, done) = commit-Allocated s n slot a r pos units high unused f in
            inl (s', a, ground (arith, found, e, high, pos, heap_end-IsU32), done)
      ]

  place_in-Settled :
      (s : Core) (n : ℕ)
      → IsReady c s
      → 0 < n
      → n % 64 ≡ 0
      → Settled c s n (place_in c s n (find_free s.device.allocations 0))
  unfolding place_in
  place_in-Settled s n r pos units = elim (Option-cases (find_free s.device.allocations 0)) [
    | inl full ↦ rw full (inr (refl, inl (find_free-none s.device.allocations 0 full)))
    | inr (slot, e) ↦
        let (j, at, _, unused) = find_free-some s.device.allocations 0 slot e in
        let same : j ≡ slot = omega arith in
        rw e (place-Settled s n slot r pos units (rw same at unused))
  ]

  align_up_small : (size : ℕ) → size < 2 ^ 32 - 63 → align_up (size % u32_mod) ≡ rounded size
  align_up_small size h = omega (arith, align_up_lem (size % u32_mod))

  align_up_large :
      (size : ℕ) → 2 ^ 32 - 63 ≤ size → size < 2 ^ 32 → align_up (size % u32_mod) < size
  align_up_large size low high = omega (arith, align_up_lem (size % u32_mod))

  -- `gpu_mem_alloc` on a valid handle, a size from 1 to `UINT32_MAX` and an out pointer returns, and
  -- does one of two things. Either it succeeds: the block is the lowest 64-byte aligned range of
  -- the size rounded up to 64 that lies in the heap and misses every block in use, a slot that was
  -- not in use records it, its bytes are cleared and no other byte changes, and the table is again
  -- in order. Or it returns `GPU_ERROR_OUT_OF_MEMORY`, changes nothing, and either every slot is in
  -- use or no range of that size in the heap is free.
  pub mem_alloc_cases :
      (s : Core) (h : Handle) (size : ℕ)
      → IsReady c s
      → valid_device s h ≡ true
      → 0 < size
      → size ≤ u32_max
      → Settled c s (rounded size) (mem_alloc c s h size true)
  unfolding mem_alloc
  mem_alloc_cases s h size r valid pos max = elim (Bool-cases (ltb size (2 ^ 32 - 63))) [
    | inl small ↦
        let aligned = align_up_small size (ltb→lt _ _ small) in
        let e : mem_alloc c s h size true
            ≡ place_in c s (rounded size) (find_free s.device.allocations 0) =
          ground (arith, aligned, valid, pos, max) in
        rw e (place_in-Settled s (rounded size) r (omega arith) (omega arith))
    | inr large ↦
        let wraps = align_up_large size (ltb→le _ _ large) (omega arith) in
        inr (
          ground (arith, wraps, valid, pos, max),
          inr λ z low fits _. omega (arith, ltb→le _ _ large, heap_end-IsU32),
        )
  ]

-- Every other call of `gpu_mem_alloc` is refused as invalid and changes nothing.
pub mem_alloc_invalid :
    (c : Config) (s : Core) (h : Handle) (size : ℕ) (given : Bool)
    → (valid_device s h ≡ false) ⊎ (given ≡ false) ⊎ (size ≡ 0) ⊎ (u32_max < size)
    → mem_alloc c s h size given ≡ some (s, invalid_argument, none)
unfolding mem_alloc
mem_alloc_invalid c s h size given bad = ground arith
