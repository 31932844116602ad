-- ===== src/Runtime/Alloc/Search.antt =====
-- The search of `gpu_mem_alloc` for an address: it ends, it finds a free range, and it finds the
-- lowest one.
use open_gpu.Prelude.{
  ℕ, zero, suc, ◌+◌, ◌%◌, ◌≤◌, ◌<◌, ◌≡◌, inl, inr, true, none, some, List, [], ◌∷◌, All, arith,
  Option-cases, Bool-cases, ltb, ltb→le,
}
use open_gpu.Prelude.Word.{add32, IsU32}
use open_gpu.Runtime.Types.{Allocation}
use open_gpu.Runtime.Range.{align_up, align_up_lem}
use open_gpu.Runtime.Alloc.{overlaps, first_overlap, search_from}
use open_gpu.Runtime.Alloc.Blocks.{Inside, WellPlaced, IsFree, above, above_mono}

module _ (end : ℕ) (end_in : IsU32 end) where
  -- A block ends at a unit, so the alignment of its end changes nothing.
  align_up-end :
      (a : Allocation) → Inside end a → align_up (add32 a.address a.size) ≡ a.address + a.size
  align_up-end a h = omega (arith, align_up_lem (add32 a.address a.size))

  -- With no overlap found the range is free, if its end is a 32-bit address.
  first_overlap-none :
      (x n : ℕ) (bs : List Allocation)
      → IsU32 (x + n)
      → All (WellPlaced end) bs
      → first_overlap x n bs ≡ none
      → IsFree bs x n
  unfolding first_overlap
  first_overlap-none x n [] hx placed e = tt
  first_overlap-none x n (a ∷ bs) hx placed e =
      ground (arith, placed.0, first_overlap-none x n bs hx placed.1)

  -- What a move of the candidate gives.
  pub record Moved (x n : ℕ) (bs : List Allocation) (y : ℕ) : Type 0 where
    pub higher : x < y
    pub within : y ≤ end
    pub unit : y % 64 ≡ 0
    pub fewer : above bs y < above bs x
    pub skips : (z : ℕ) → x ≤ z → IsFree bs z n → y ≤ z

  -- The block that is met moves the candidate to its end.
  overlap_end :
      (x n : ℕ) (a : Allocation)
      → overlaps x n a ≡ true
      → WellPlaced end a
      → (a.used ≡ true) × Inside end a × (x < a.address + a.size) × (a.address < x + n)
  unfolding overlaps
  overlap_end x n a hit placed = ground (arith, placed)

  hit-Moved :
      (x n : ℕ) (a : Allocation) (bs : List Allocation)
      → overlaps x n a ≡ true
      → WellPlaced end a
      → Moved x n (a ∷ bs) (align_up (add32 a.address a.size))
  hit-Moved x n a bs hit placed =
      let (used, inside, ends, starts) = overlap_end x n a hit placed in
      rw (align_up-end a inside) (record {
        higher = ends;
        within = inside.high;
        unit = omega (arith, inside);
        fewer = ground (arith, above_mono bs x (a.address + a.size));
        skips = λ z hz free. ground (arith, free.0);
      })

  miss-Moved :
      (x n : ℕ) (a : Allocation) (bs : List Allocation) (y : ℕ)
      → Moved x n bs y
      → Moved x n (a ∷ bs) y
  miss-Moved x n a bs y m = record {
    higher = m.higher;
    within = m.within;
    unit = m.unit;
    fewer = ground (arith, m.fewer, m.higher);
    skips = λ z hz free. m.skips z hz free.1;
  }

  first_overlap-Moved :
      (x n : ℕ) (bs : List Allocation) (y : ℕ)
      → All (WellPlaced end) bs
      → first_overlap x n bs ≡ some y
      → Moved x n bs y
  unfolding first_overlap
  first_overlap-Moved x n [] y placed e = cc
  first_overlap-Moved x n (a ∷ bs) y placed e = elim (Bool-cases (overlaps x n a)) [
    | inl hit ↦
        let same : some (align_up (add32 a.address a.size)) ≡ some y = ground (arith, hit) in
        let eq : align_up (add32 a.address a.size) ≡ y = cc in
        rw (← eq) (hit-Moved x n a bs hit placed.0)
    | inr miss ↦
        let rest : first_overlap x n bs ≡ some y = ground (arith, miss) in
        miss-Moved x n a bs y (first_overlap-Moved x n bs y placed.1 rest)
  ]

  -- What the search returns: a unit at or above the start, free if it is in the heap, and below
  -- every other free range.
  pub record Found (x n : ℕ) (bs : List Allocation) (y : ℕ) : Type 0 where
    pub higher : x ≤ y
    pub unit : y % 64 ≡ 0
    pub word : IsU32 y
    pub free : y < end → IsU32 (y + n) → IsFree bs y n
    pub lowest : (z : ℕ) → x ≤ z → IsFree bs z n → y ≤ z

  Found-later :
      (x n : ℕ) (bs : List Allocation) (y z : ℕ) → Moved x n bs y → Found y n bs z → Found x n bs z
  Found-later x n bs y z m f = record {
    higher = omega (arith, m.higher, f.higher);
    unit = f.unit;
    word = f.word;
    free = f.free;
    lowest = λ w hw free. f.lowest w (m.skips w hw free) free;
  }

  -- The search ends within one round for each block above the start, and one more.
  pub search_from-Found :
      (fuel x n : ℕ) (bs : List Allocation)
      → above bs x < fuel
      → IsU32 x
      → x % 64 ≡ 0
      → All (WellPlaced end) bs
      → (y : ℕ) × (search_from fuel end n bs x ≡ some y) × Found x n bs y
  unfolding search_from
  search_from-Found zero x n bs h hx unit placed = elim h [ ]
  search_from-Found (suc fuel) x n bs h hx unit placed = elim (Bool-cases (ltb x end)) [
    | inr out ↦ (
      x,
      ground (arith, out),
      record {
        higher = omega arith;
        unit = unit;
        word = hx;
        free = λ below _. absurd (omega (arith, ltb→le x end out));
        lowest = λ z hz _. hz;
      },
    )
    | inl inside ↦ elim (Option-cases (first_overlap x n bs)) [
      | inl stays ↦ (
        x,
        ground (arith, inside, stays),
        record {
          higher = omega arith;
          unit = unit;
          word = hx;
          free = λ _ hn. first_overlap-none x n bs hn placed stays;
          lowest = λ z hz _. hz;
        },
      )
      | inr (y, e) ↦
          let m = first_overlap-Moved x n bs y placed e in
          let (z, found, post) =
            search_from-Found fuel y n bs (omega (arith, m.fewer)) (omega (arith, m.within)) m.unit
              placed in
          (z, ground (arith, inside, e, found), Found-later x n bs y z m post)
    ]
  ]
