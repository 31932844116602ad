-- ===== src/Runtime/Alloc/Slots.antt =====
-- The slots of the allocation table: the search for an unused one, and a block put into it.
use open_gpu.Prelude.{
  ℕ, zero, suc, ◌+◌, ◌<◌, ◌≡◌, refl, inl, inr, true, false, none, some, List, [], ◌∷◌, length,
  get_elem?, set, length-set, All, All-set, All-map, arith, Bool-cases,
}
use open_gpu.Runtime.Types.{Allocation}
use open_gpu.Runtime.Alloc.{find_free}
use open_gpu.Runtime.Alloc.Blocks.{WellPlaced, Misses, IsFree, Apart, Disjoint, IsTable}

-- Every slot is in use.
abbrev pub AllUsed : List Allocation → Type 0
AllUsed bs = All (λ a. a.used ≡ true) bs

-- The slot `i` is in the table and not in use.
abbrev pub IsUnused : List Allocation → ℕ → Type 0
IsUnused bs i = (a : Allocation) × (get_elem? bs i ≡ some a) × (a.used ≡ false)

pub find_free-none : (bs : List Allocation) (i : ℕ) → find_free bs i ≡ none → AllUsed bs
unfolding find_free
find_free-none [] i e = tt
find_free-none (a ∷ bs) i e = ground (arith, find_free-none bs (i + 1))

pub find_free-some :
    (bs : List Allocation) (i k : ℕ)
    → find_free bs i ≡ some k
    → (j : ℕ) × (k ≡ i + j) × (j < length bs) × IsUnused bs j
unfolding find_free
find_free-some [] i k e = cc
find_free-some (a ∷ bs) i k e = elim (Bool-cases a.used) [
  | inl used ↦
      let (j, at, low, unused) = find_free-some bs (i + 1) k (ground (arith, used)) in
      (suc j, omega arith, omega arith, unused)
  | inr unused ↦ (0, ground (arith, unused), omega arith, (a, refl, unused))
]

-- A block that misses all others leaves them disjoint.
pub Disjoint-set :
    (bs : List Allocation) (i : ℕ) (v : Allocation)
    → Disjoint bs
    → IsFree bs v.address v.size
    → Disjoint (set bs i v)
Disjoint-set [] i v d free = tt
Disjoint-set (a ∷ bs) zero v d free = (
  All-map (Misses v.address v.size) (Apart v) (λ b misses. λ hb hv. ground (arith, misses hb)) bs
      free.1,
  d.1,
)
Disjoint-set (a ∷ bs) (suc i) v d free =
    (All-set (Apart a) bs i v d.0 (λ _. free.0), Disjoint-set bs i v d.1 free.1)

pub IsTable-set :
    (end : ℕ) (bs : List Allocation) (i : ℕ) (v : Allocation)
    → IsTable end bs
    → WellPlaced end v
    → IsFree bs v.address v.size
    → IsTable end (set bs i v)
IsTable-set end bs i v t placed free = record {
  slots = omega (arith, length-set bs i v, t.slots);
  placed = All-set (WellPlaced end) bs i v t.placed placed;
  disjoint = Disjoint-set bs i v t.disjoint free;
}
