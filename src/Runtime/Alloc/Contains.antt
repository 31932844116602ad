-- ===== src/Runtime/Alloc/Contains.antt =====
-- `allocation_contains`: the guard of the transfers between host and device memory.
use open_gpu.Prelude.{
  ℕ, zero, suc, ◌+◌, ◌≤◌, ◌<◌, ◌≡◌, ◌≢◌, ◌↔◌, refl, ap, ◌⊎◌, inl, inr, true, some, List, [], ◌∷◌,
  get_elem?, All, All-get_elem?, arith, Bool-cases, ◌&&◌,
}
use open_gpu.Prelude.Word.{IsU32, IsU64}
use open_gpu.Config.{Config, IsSupported, heap_base}
use open_gpu.Runtime.Types.{Allocation}
use open_gpu.Runtime.Range.{range_inside, range_inside_iff}
use open_gpu.Runtime.Alloc.{heap_end, holds_range, any_holds, allocation_contains}
use open_gpu.Runtime.Alloc.Blocks.{WellPlaced, Apart, Disjoint, IsTable}

-- The block in slot `i` is in use and has all bytes of the range.
abbrev pub HeldBy : List Allocation → ℕ → ℕ → ℕ → Allocation → Type 0
HeldBy bs address size i a =
    (get_elem? bs i ≡ some a)
    × (a.used ≡ true)
    × (a.address ≤ address)
    × (address + size ≤ a.address + a.size)

holds_range_iff :
    (end address size : ℕ) (a : Allocation)
    → IsU32 end
    → IsU32 address
    → IsU64 size
    → WellPlaced end a
    → (holds_range address size a ≡ true)
      ↔ ((a.used ≡ true) × (a.address ≤ address) × (address + size ≤ a.address + a.size))
unfolding holds_range
holds_range_iff end address size a he ha hs placed = ground (arith, placed)

any_holds-HeldBy :
    (end address size : ℕ) (bs : List Allocation)
    → IsU32 end
    → IsU32 address
    → IsU64 size
    → All (WellPlaced end) bs
    → any_holds address size bs ≡ true
    → (i : ℕ) × (a : Allocation) × HeldBy bs address size i a
unfolding any_holds
any_holds-HeldBy end address size [] he ha hs placed e = cc
any_holds-HeldBy end address size (a ∷ bs) he ha hs placed e =
    elim (Bool-cases (holds_range address size a)) [
      | inl here ↦
          let (used, low, high) = (holds_range_iff end address size a he ha hs placed.0).0 here in
          (0, a, (refl, used, low, high))
      | inr past ↦
          let (i, b, held) =
            any_holds-HeldBy end address size bs he ha hs placed.1 (ground (arith, past)) in
          (suc i, b, held)
    ]

HeldBy-any_holds :
    (end address size : ℕ) (bs : List Allocation) (i : ℕ) (a : Allocation)
    → IsU32 end
    → IsU32 address
    → IsU64 size
    → All (WellPlaced end) bs
    → HeldBy bs address size i a
    → any_holds address size bs ≡ true
unfolding any_holds
HeldBy-any_holds end address size [] i a he ha hs placed held = cc
HeldBy-any_holds end address size (b ∷ bs) zero a he ha hs placed held =
    let same : b ≡ a = cc in
    let here : holds_range address size b ≡ true = rw same (
      (holds_range_iff end address size a he ha hs (rw same at placed.0)).1
        (held.1, held.2, held.3)) in
    rw here refl
HeldBy-any_holds end address size (b ∷ bs) (suc i) a he ha hs placed held =
    ground (arith, HeldBy-any_holds end address size bs i a he ha hs placed.1 held)

-- Blocks in use in two slots of a disjoint table have no byte in common.
pub Disjoint-HeldBy :
    (bs : List Allocation) (i j : ℕ) (a b : Allocation)
    → Disjoint bs
    → i ≢ j
    → get_elem? bs i ≡ some a
    → get_elem? bs j ≡ some b
    → a.used ≡ true
    → b.used ≡ true
    → (a.address + a.size ≤ b.address) ⊎ (b.address + b.size ≤ a.address)
Disjoint-HeldBy [] i j a b d ne ea eb ua ub = cc
Disjoint-HeldBy (x ∷ bs) zero zero a b d ne ea eb ua ub = absurd (ne refl)
Disjoint-HeldBy (x ∷ bs) zero (suc j) a b d ne ea eb ua ub =
    let same : x ≡ a = cc in
    let apart : Apart a b = rw same at (All-get_elem? (Apart x) bs j d.0 eb) in
    ground (arith, apart ub ua)
Disjoint-HeldBy (x ∷ bs) (suc i) zero a b d ne ea eb ua ub =
    let same : x ≡ b = cc in
    let apart : Apart b a = rw same at (All-get_elem? (Apart x) bs i d.0 ea) in
    ground (arith, apart ua ub)
Disjoint-HeldBy (x ∷ bs) (suc i) (suc j) a b d ne ea eb ua ub =
    Disjoint-HeldBy bs i j a b d.1 (λ e. ne (ap suc e)) ea eb ua ub

-- The guard passes exactly for a range of at least one byte that lies in one block in use.
pub allocation_contains_iff :
    (c : Config) (bs : List Allocation) (address size : ℕ)
    → IsSupported c
    → IsTable (heap_end c) bs
    → IsU32 address
    → IsU64 size
    → (allocation_contains c bs address size ≡ true)
      ↔ ((0 < size) × (i : ℕ) × (a : Allocation) × HeldBy bs address size i a)
unfolding allocation_contains
allocation_contains_iff c bs address size sup t ha hs = (forth, back)
  where
    he : IsU32 (heap_end c)
    he = omega (arith, sup)

    forth :
        range_inside address size heap_base (heap_end c) && any_holds address size bs ≡ true
        → (0 < size) × (i : ℕ) × (a : Allocation) × HeldBy bs address size i a
    forth e =
        let inside : range_inside address size heap_base (heap_end c) ≡ true = ground arith in
        let (i, a, held) =
          any_holds-HeldBy (heap_end c) address size bs he ha hs t.placed (ground arith) in
        (((range_inside_iff address size heap_base (heap_end c) ha hs he).0 inside).0, i, a, held)

    back :
        (0 < size) × (i : ℕ) × (a : Allocation) × HeldBy bs address size i a
        → range_inside address size heap_base (heap_end c) && any_holds address size bs ≡ true
    back (pos, i, a, held) =
        let placed = All-get_elem? (WellPlaced (heap_end c)) bs i t.placed held.0 held.1 in
        let inside =
          (range_inside_iff address size heap_base (heap_end c) ha hs he).1
            (pos, omega (arith, placed, held.2), omega (arith, placed, held.3)) in
        let holds = HeldBy-any_holds (heap_end c) address size bs i a he ha hs t.placed held in
        rw inside holds
