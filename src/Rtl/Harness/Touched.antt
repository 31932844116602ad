-- ===== src/Rtl/Harness/Touched.antt =====
-- The bytes that a store touches: those that the harness writes to the memory, and those that the
-- cycle model enters in `dirty`.
use open_gpu.Prelude.{
  ℕ, zero, suc, ◌+◌, ◌-◌, ◌≤◌, ◌<◌, ◌≡◌, refl, sym, ap, ◌∙◌, inl, inr, Bool, true, false, not, ◌&&◌,
  ◌||◌, some, List, [], ◌∷◌, ◌++◌, ◌⊎◌, ◌==◌, arith, Bool-cases, ltb, leb,
}
use open_gpu.Prelude.Word.{u32_mod, add32}
use open_gpu.Prelude.Chain.{After, After-bind, After-map, After-some}
use open_gpu.Config.{Config, IsSupported}
use open_gpu.Memory.{Bytes, Pmem, paddr_write, store_le}
use open_gpu.Memory.Words.{paddr_write_cases, store_le-frame}
use open_gpu.Cycle.State.{Store, CycleModel}
use open_gpu.Cycle.Mask.{mask_has}
use open_gpu.Cycle.Kmu.{step_cores, write_dcr, advance, capture}
use open_gpu.Cycle.Pack.{pack}
use open_gpu.Cycle.Step.{fired_core, diff_cycle}
use open_gpu.Cycle.Step.Stores.{store_all-SameLists}
use open_gpu.Cycle.Transfer.{store_equal, store_byte, store_bytes, store_ref, store_all}
use open_gpu.Cycle.Step.Ascending.{occurrences, SameStores, store_equal_sound, store_equal_refl}
use open_gpu.Cycle.Step.Writes.{
  occurs, Writes, store_byte-Writes, store_bytes-Writes, store_all-Writes,
}
use open_gpu.Rtl.Dpi.{write_masked}

-- One of the bytes of the mask from `b` on, with `left` to go, is byte `j` of the memory.
pub covers : Config → ℕ → ℕ → ℕ → ℕ → ℕ → Bool
covers c j addr mask zero b = false
covers c j addr mask (suc left) b =
    (mask_has mask b && addr + b == c.mbase + j) || covers c j addr mask left (b + 1)

abbrev pub touches : Config → ℕ → List Store → Bool
touches c j [] = false
touches c j (s ∷ ss) = covers c j s.addr s.mask 4 0 || touches c j ss

or_left : (a b : Bool) → a ≡ true → (a || b) ≡ true
or_left a b h = rw h refl

or_right : (a b : Bool) → b ≡ true → (a || b) ≡ true
or_right true b h = refl
or_right false b h = h

touches_found :
    (c : Config) (j : ℕ) (ss : List Store)
    → touches c j ss ≡ true
    → (s : Store) × (0 < occurrences s ss) × (covers c j s.addr s.mask 4 0 ≡ true)
touches_found c j [] h = cc
touches_found c j (s ∷ ss) h = elim (Bool-cases (covers c j s.addr s.mask 4 0)) [
  | inl hit ↦ (s, ground (arith, store_equal_refl s), hit)
  | inr miss ↦
      let (t, count, hit) = touches_found c j ss (rw miss at h) in (t, omega (arith, count), hit)
]

touches-occurrences :
    (c : Config) (j : ℕ) (ss : List Store) (s : Store)
    → 0 < occurrences s ss
    → covers c j s.addr s.mask 4 0 ≡ true
    → touches c j ss ≡ true
touches-occurrences c j [] s h hit = absurd (omega arith)
touches-occurrences c j (t ∷ ts) s h hit = elim (Bool-cases (store_equal s t)) [
  | inl here ↦
      let same : s ≡ t = store_equal_sound s t here in
      let hit' : covers c j t.addr t.mask 4 0 ≡ true =
        sym (ap (λ (u : Store). covers c j u.addr u.mask 4 0) same) ∙ hit in
      or_left (covers c j t.addr t.mask 4 0) (touches c j ts) hit'
  | inr away ↦
      or_right (covers c j t.addr t.mask 4 0) (touches c j ts)
        (touches-occurrences c j ts s (ground (arith, away, h)) hit)
]

-- Lists of the same stores touch the same bytes.
pub touches-SameStores :
    (c : Config) (j : ℕ) (ss ts : List Store)
    → SameStores ss ts
    → touches c j ss ≡ true
    → touches c j ts ≡ true
touches-SameStores c j ss ts same h =
    let (s, count, hit) = touches_found c j ss h in
    touches-occurrences c j ts s (omega (arith, same s, count)) hit

-- What is dirty stays dirty.
Writes-dirty :
    (m m' : CycleModel) (j : ℕ) → Writes m m' → occurs j m.dirty ≡ true → occurs j m'.dirty ≡ true
Writes-dirty m m' j w h = elim (Bool-cases (occurs j m'.dirty)) [
  | inl hit ↦ hit
  | inr clean ↦ absurd (ground (arith, (w.frame j clean).0, h))
]

occurs_last : (j : ℕ) (is : List ℕ) → occurs j (is ++ j ∷ []) ≡ true
occurs_last j [] = ground arith
occurs_last j (i ∷ is) = or_right (j == i) (occurs j (is ++ j ∷ [])) (occurs_last j is)

store_byte-dirty :
    (c : Config) (s : Store) (b j : ℕ) (m : CycleModel)
    → mask_has s.mask b ≡ true
    → s.addr + b ≡ c.mbase + j
    → j < m.mem_size
    → occurs j (store_byte c s b m).dirty ≡ true
unfolding store_byte
store_byte-dirty c s b j m has at h =
    let offset : c.mbase + j - c.mbase ≡ j = omega arith in
    let inside : (ltb (c.mbase + j) c.mbase || not (ltb (c.mbase + j) (c.mbase + m.mem_size)))
        ≡ false =
      ground arith in
    rw (store_byte, has, at, inside, offset) (occurs_last j m.dirty)

store_bytes-dirty :
    (c : Config) (s : Store) (left b j : ℕ) (m : CycleModel)
    → covers c j s.addr s.mask left b ≡ true
    → j < m.mem_size
    → occurs j (store_bytes c s left b m).dirty ≡ true
unfolding store_bytes covers
store_bytes-dirty c s zero b j m h small = cc
store_bytes-dirty c s (suc left) b j m h small =
    let next = store_byte c s b m in
    let w = store_byte-Writes c s b m in
    elim (Bool-cases (mask_has s.mask b && s.addr + b == c.mbase + j)) [
      | inl here ↦
          Writes-dirty next (store_bytes c s left (b + 1) next) j
            (store_bytes-Writes c s left (b + 1) next)
            (store_byte-dirty c s b j m (ground (arith, here)) (ground (arith, here)) small)
      | inr away ↦
          store_bytes-dirty c s left (b + 1) j next (rw away at h) (omega (arith, w.size, small))
    ]

-- The model enters every byte of the memory that its stores touch.
pub store_all-dirty :
    (c : Config) (ss : List Store) (j : ℕ) (m : CycleModel)
    → touches c j ss ≡ true
    → j < m.mem_size
    → occurs j (store_all c ss m).dirty ≡ true
unfolding store_all store_ref
store_all-dirty c [] j m h small = cc
store_all-dirty c (s ∷ ss) j m h small =
    let next = store_ref c s m in
    let w = store_bytes-Writes c s 4 0 m in
    elim (Bool-cases (covers c j s.addr s.mask 4 0)) [
      | inl here ↦
          Writes-dirty next (store_all c ss next) j (store_all-Writes c ss next)
            (store_bytes-dirty c s 4 0 j m here small)
      | inr away ↦ store_all-dirty c ss j next (rw away at h) (omega (arith, w.size, small))
    ]

-- After a cycle every byte that the expected stores touch is dirty.
pub diff_cycle-dirty :
    (sort : List Store → List Store) (c : Config) (m : CycleModel)
    → After
        (λ m'.
          (j : ℕ) → touches c j m'.expected ≡ true → j < m'.mem_size → occurs j m'.dirty ≡ true)
        (diff_cycle sort c m)
unfolding diff_cycle pack
diff_cycle-dirty sort c m =
    let fired = fired_core c m in
    let start = record m { expected = capture c m c.num_cores 0; dirty = [] } in
    After-bind
      (λ m'. (j : ℕ) → touches c j m'.expected ≡ true → j < m'.mem_size → occurs j m'.dirty ≡ true)
      (step_cores c fired c.num_cores 0 start) _
      λ stepped e j hit small.
        let model = advance c fired (write_dcr stepped) in
        let sorted = record model { expected = sort model.expected } in
        let w = store_all-Writes c sorted.expected sorted in
        let l = store_all-SameLists c sorted.expected sorted in
        store_all-dirty c sorted.expected j sorted (sym (ap (touches c j) l.expected) ∙ hit)
          (omega (arith, w.size, small))

-- There is a memory, and it is as `p` at every byte for which the test fails.
abbrev pub Spares : (ℕ → Bool) → Bytes → Pmem → Type 0
Spares touched p q = (p' : Bytes) × (q ≡ some p') × ((j : ℕ) → touched j ≡ false → p' j ≡ p j)

covers-suc :
    (c : Config) (j addr mask left b : ℕ)
    → covers c j addr mask (suc left) b ≡ false
    → ((mask_has mask b && addr + b == c.mbase + j) ≡ false)
      × (covers c j addr mask left (b + 1) ≡ false)
unfolding covers
covers-suc c j addr mask left b miss = (ground (arith, miss), ground (arith, miss))

module _ (c : Config) (s : IsSupported c) where
  write_byte-Spares :
      (p : Bytes) (addr b v : ℕ)
      → addr < u32_mod
      → b < 4
      → After (Spares (λ j. addr + b == c.mbase + j) p) (paddr_write c (some p) (add32 addr b) 1 v)
  write_byte-Spares p addr b v word small =
      let a = add32 addr b in
      let off = a - c.mbase in
      rw (paddr_write_cases c s p a 1 v (omega arith) (omega arith) (omega arith))
        (elim (Bool-cases (leb c.mbase a && leb (a + 1) (c.mbase + c.msize))) [
          | inr outside ↦ rw outside tt
          | inl fits ↦ rw fits (
            store_le p off 1 v,
            refl,
            λ j away.
                let apart : (j < off) ⊎ (off + 1 ≤ j) = ground (arith, away, fits, s.base_pos) in
                store_le-frame p off 1 v j apart,
          )
        ])

  -- The harness changes no byte but those that the mask covers.
  pub write_masked-Spares :
      (addr mask : ℕ) (value : ℕ → ℕ) (left b : ℕ) (p : Bytes)
      → addr < u32_mod
      → b + left ≤ 4
      → After
          (Spares (λ j. covers c j addr mask left b) p)
          (write_masked c addr mask value left b (some p))
  unfolding write_masked
  write_masked-Spares addr mask value zero b p word few = (p, refl, λ j miss. refl)
  write_masked-Spares addr mask value (suc left) b p word few =
      let Q = Spares (λ j. covers c j addr mask (suc left) b) p in
      let rest = λ (p' : Bytes). write_masked c addr mask value left (b + 1) (some p') in
      elim (Bool-cases (mask_has mask b)) [
        | inr masked ↦ rw masked (
            After-map (Spares (λ j. covers c j addr mask left (b + 1)) p) Q (rest p)
              (λ q (p', now, same).
                (p', now, λ j miss. same j (covers-suc c j addr mask left b miss).1))
              (write_masked-Spares addr mask value left (b + 1) p word (omega arith)))
        | inl written ↦
            let write = paddr_write c (some p) (add32 addr b) 1 (value b) in
            let here = λ (j : ℕ). addr + b == c.mbase + j in
            rw written (
              After-bind Q write _ λ q e.
                let (p', now, same) =
                  After-some (Spares here p) write q
                    (write_byte-Spares p addr b (value b) word (omega arith)) e in
                rw now (
                  After-map (Spares (λ j. covers c j addr mask left (b + 1)) p') Q (rest p')
                    (λ r (p'', now', same'). (
                      p'',
                      now',
                      λ j miss.
                          same' j (covers-suc c j addr mask left b miss).1
                          ∙ same j
                              (ground (arith, written, (covers-suc c j addr mask left b miss).0)),
                    ))
                    (write_masked-Spares addr mask value left (b + 1) p' word (omega arith))))
      ]
