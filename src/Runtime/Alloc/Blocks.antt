-- ===== src/Runtime/Alloc/Blocks.antt =====
-- What it is for the blocks of the allocation table of sw/runtime/gpu/gpu.c to be well placed.
use open_gpu.Prelude.{
  ℕ, ◌+◌, ◌%◌, ◌≤◌, ◌<◌, ◌≡◌, ◌⊎◌, true, ◌&&◌, List, [], ◌∷◌, length, All, if◌then◌else◌, ltb,
  arith,
}
use open_gpu.Config.{heap_base}
use open_gpu.Runtime.Types.{Allocation}

-- A block in use lies in the heap, below `end`, and is a whole number of 64-byte units.
pub record Inside (end : ℕ) (a : Allocation) : Type 0 where
  pub low : heap_base ≤ a.address
  pub size_pos : 0 < a.size
  pub address_unit : a.address % 64 ≡ 0
  pub size_unit : a.size % 64 ≡ 0
  pub high : a.address + a.size ≤ end

abbrev pub WellPlaced : ℕ → Allocation → Type 0
WellPlaced end a = a.used ≡ true → Inside end a

-- The range `x .. x + n` misses the block, if that is in use.
abbrev pub Misses : ℕ → ℕ → Allocation → Type 0
Misses x n a = a.used ≡ true → (x + n ≤ a.address) ⊎ (a.address + a.size ≤ x)

-- The range misses every block in use.
abbrev pub IsFree : List Allocation → ℕ → ℕ → Type 0
IsFree bs x n = All (Misses x n) bs

-- Two blocks, if both are in use, have no byte in common.
abbrev pub Apart : Allocation → Allocation → Type 0
Apart a b = b.used ≡ true → Misses b.address b.size a

-- No two blocks in use have a byte in common.
abbrev pub Disjoint : List Allocation → Type 0
Disjoint [] = Unit
Disjoint (a ∷ bs) = All (Apart a) bs × Disjoint bs

-- The invariant of the table.
pub record IsTable (end : ℕ) (bs : List Allocation) : Type 0 where
  pub slots : length bs ≡ 64
  pub placed : All (WellPlaced end) bs
  pub disjoint : Disjoint bs

-- How many blocks in use end above the address: the measure of the search.
abbrev pub above : List Allocation → ℕ → ℕ
above [] x = 0
above (a ∷ bs) x = (if a.used && ltb x (a.address + a.size) then 1 else 0) + above bs x

pub above-le : (bs : List Allocation) (x : ℕ) → above bs x ≤ length bs
above-le [] x = omega arith
above-le (a ∷ bs) x = ground (arith, above-le bs x)

pub above_mono : (bs : List Allocation) (x y : ℕ) → x ≤ y → above bs y ≤ above bs x
above_mono [] x y h = omega arith
above_mono (a ∷ bs) x y h = ground (arith, above_mono bs x y)
