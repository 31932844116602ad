-- ===== src/Cycle/Step/Writes.antt =====
-- The bytes written in a cycle, and their entries in `dirty`.
use open_gpu.Prelude.{
  ℕ, zero, suc, ◌+◌, ◌-◌, ◌<◌, ◌≡◌, refl, ap, ◌∙◌, inl, inr, Bool, true, false, not, ◌||◌, Option,
  none, some, List, [], ◌∷◌, ◌++◌, ltb, ◌==◌, arith, Bool-cases,
}
use open_gpu.Prelude.Chain.{After, After-bind, After-map, After-some}
use open_gpu.Config.{Config}
use open_gpu.Memory.{Bytes}
use open_gpu.Cycle.State.{CycleModel, Store, put}
use open_gpu.Cycle.Mask.{mask_has}
use open_gpu.Cycle.Transfer.{store_byte, store_bytes, store_ref, store_all}
use open_gpu.Cycle.Core.{step_core}
use open_gpu.Cycle.Kmu.{is_fired, step_cores, write_dcr, advance, capture}
use open_gpu.Cycle.Pack.{pack}
use open_gpu.Cycle.Step.{fired_core, diff_cycle}

abbrev pub occurs : ℕ → List ℕ → Bool
occurs i [] = false
occurs i (j ∷ js) = i == j || occurs i js

-- What `std::sort` and `std::unique` together promise.
pub record IsTidy (tidy : List ℕ → List ℕ) : Type 0 where
  pub keeps : (is : List ℕ) (i : ℕ) → occurs i (tidy is) ≡ occurs i is

occurs-append : (i j : ℕ) (is : List ℕ) → occurs i (is ++ j ∷ []) ≡ (occurs i is || i == j)
occurs-append i j [] = ground arith
occurs-append i j (k ∷ ks) = ground (arith, occurs-append i j ks)

-- From `m` to `m'` bytes are written, each inside the memory and noted in `dirty`.
pub record Writes (m m' : CycleModel) : Type 0 where
  pub size : m'.mem_size ≡ m.mem_size
  pub active : m'.active ≡ m.active
  pub frame :
      (i : ℕ) → occurs i m'.dirty ≡ false → (occurs i m.dirty ≡ false) × (m'.mem i ≡ m.mem i)
  pub inside :
      ((i : ℕ) → occurs i m.dirty ≡ true → i < m.mem_size)
      → (i : ℕ) → occurs i m'.dirty ≡ true
      → i < m'.mem_size

Writes-refl : (m : CycleModel) → Writes m m
Writes-refl m = record {
  size = refl;
  active = refl;
  frame = λ i clean. (clean, refl);
  inside = λ h. h;
}

Writes-trans : {m m' m'' : CycleModel} → Writes m m' → Writes m' m'' → Writes m m''
Writes-trans p q = record {
  size = q.size ∙ p.size;
  active = q.active ∙ p.active;
  frame = λ i clean.
      let (clean', same) = q.frame i clean in
      let (clean'', same') = p.frame i clean' in (clean'', same ∙ same');
  inside = λ h. q.inside (p.inside h);
}

pub store_byte-Writes :
    (c : Config) (s : Store) (b : ℕ) (m : CycleModel) → Writes m (store_byte c s b m)
unfolding store_byte
store_byte-Writes c s b m = elim (Bool-cases (mask_has s.mask b)) [
  | inr masked ↦ rw (store_byte, masked) (Writes-refl m)
  | inl written ↦
      elim (Bool-cases
        (ltb (s.addr + b) c.mbase || not (ltb (s.addr + b) (c.mbase + m.mem_size)))) [
          | inl outside ↦
              rw (store_byte, written, outside)
                (record {
                  size = refl;
                  active = refl;
                  frame = λ i clean. (clean, refl);
                  inside = λ h. h;
                })
          | inr fits ↦
              let at = s.addr + b - c.mbase in
              rw (store_byte, written, fits)
                (record {
                  size = refl;
                  active = refl;
                  frame = λ i clean.
                      let split = occurs-append i at m.dirty in
                      let away : (i == at) ≡ false = ground (arith, split, clean) in
                      (ground (arith, split, clean), rw away refl);
                  inside = λ h i hit. elim (Bool-cases (occurs i m.dirty)) [
                    | inl old ↦ h i old
                    | inr new ↦
                        let split = occurs-append i at m.dirty in
                        let here : i ≡ at = ground (arith, split, new, hit) in
                        ground (arith, here, fits)
                  ];
                })
        ]
]

pub store_bytes-Writes :
    (c : Config) (s : Store) (left b : ℕ) (m : CycleModel) → Writes m (store_bytes c s left b m)
unfolding store_bytes
store_bytes-Writes c s zero b m = Writes-refl m
store_bytes-Writes c s (suc left) b m =
    Writes-trans (store_byte-Writes c s b m)
      (store_bytes-Writes c s left (b + 1) (store_byte c s b m))

pub store_all-Writes : (c : Config) (ss : List Store) (m : CycleModel) → Writes m (store_all c ss m)
unfolding store_all store_ref
store_all-Writes c [] m = Writes-refl m
store_all-Writes c (s ∷ ss) m =
    Writes-trans (store_bytes-Writes c s 4 0 m) (store_all-Writes c ss (store_ref c s m))

-- What the steps of the cores, the registers and the walk over the grid leave alone.
record SameMemory (m m' : CycleModel) : Type 0 where
  size : m'.mem_size ≡ m.mem_size
  active : m'.active ≡ m.active
  mem : m'.mem ≡ m.mem
  dirty : m'.dirty ≡ m.dirty

SameMemory-trans : {m m' m'' : CycleModel} → SameMemory m m' → SameMemory m' m'' → SameMemory m m''
SameMemory-trans p q = record {
  size = q.size ∙ p.size;
  active = q.active ∙ p.active;
  mem = q.mem ∙ p.mem;
  dirty = q.dirty ∙ p.dirty;
}

write_dcr-SameMemory : (m : CycleModel) → SameMemory m (write_dcr m)
unfolding write_dcr
write_dcr-SameMemory m = record {
  size = ground arith;
  active = ground arith;
  mem = ground arith;
  dirty = ground arith;
}

advance-SameMemory :
    (c : Config) (fired : Option ℕ) (m : CycleModel) → SameMemory m (advance c fired m)
unfolding advance
advance-SameMemory c none m = record {
  size = ground arith;
  active = ground arith;
  mem = ground arith;
  dirty = ground arith;
}
advance-SameMemory c (some sel) m = record {
  size = ground arith;
  active = ground arith;
  mem = ground arith;
  dirty = ground arith;
}

step_cores-SameMemory :
    (c : Config) (fired : Option ℕ) (left i : ℕ) (m : CycleModel)
    → After (SameMemory m) (step_cores c fired left i m)
unfolding step_cores
step_cores-SameMemory c fired zero i m = record {
  size = refl;
  active = refl;
  mem = refl;
  dirty = refl;
}
step_cores-SameMemory c fired (suc left) i m =
    After-bind (SameMemory m) (step_core c m i (is_fired fired i) (m.cores i)) _ λ (core, bad) e.
      let next = record m { cores = put m.cores i core; failed = m.failed || bad } in
      After-map (SameMemory next) (SameMemory m) (step_cores c fired left (i + 1) next)
        (λ u k. record { size = k.size; active = k.active; mem = k.mem; dirty = k.dirty })
        (step_cores-SameMemory c fired left (i + 1) next)

-- A cycle writes from an empty list of dirty bytes on.
pub diff_cycle-Writes :
    (sort : List Store → List Store) (c : Config) (m : CycleModel)
    → After (Writes (record m { dirty = [] })) (diff_cycle sort c m)
unfolding diff_cycle pack
diff_cycle-Writes sort c m =
    let fired = fired_core c m in
    let start = record m { expected = capture c m c.num_cores 0; dirty = [] } in
    After-bind (Writes (record m { dirty = [] })) (step_cores c fired c.num_cores 0 start) _
      λ stepped e.
        let stepping =
          After-some (SameMemory start) (step_cores c fired c.num_cores 0 start) stepped
            (step_cores-SameMemory c fired c.num_cores 0 start) e in
        let same =
          SameMemory-trans (SameMemory-trans stepping (write_dcr-SameMemory stepped))
            (advance-SameMemory c fired (write_dcr stepped)) in
        let model = advance c fired (write_dcr stepped) in
        let sorted = record model { expected = sort model.expected } in
        let w = store_all-Writes c sorted.expected sorted in
        record {
          size = w.size ∙ same.size;
          active = w.active ∙ same.active;
          frame = λ i clean. (refl, (w.frame i clean).1 ∙ ap (λ (p : Bytes). p i) same.mem);
          inside = λ _. w.inside (λ i hit.
              let clean : occurs i model.dirty ≡ false = ap (occurs i) same.dirty in
              absurd (ground (arith, clean, hit)));
        }
