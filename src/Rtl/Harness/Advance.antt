-- ===== src/Rtl/Harness/Advance.antt =====
-- A cycle between the two edges: what the stores of the design and the step of the model leave.
use open_gpu.Prelude.{
  ℕ, ◌<◌, ◌≡◌, refl, sym, ap, ◌∙◌, inl, inr, Bool, true, false, not, some, List, [], arith,
  Bool-cases,
}
use open_gpu.Prelude.Chain.{After, After-bind, After-some}
use open_gpu.Config.{Config, IsSupported}
use open_gpu.Memory.{Bytes, Pmem}
use open_gpu.Cycle.State.{Store, CycleModel}
use open_gpu.Cycle.Step.{same_stores, set_inputs, diff_cycle, diff_step}
use open_gpu.Cycle.Step.Ascending.{IsSort, same_stores_sound}
use open_gpu.Cycle.Step.Stores.{IsCaptured, diff_cycle-IsCaptured}
use open_gpu.Cycle.Step.Writes.{occurs, Writes, diff_cycle-Writes}
use open_gpu.Rtl.Top.{Top, Pins}
use open_gpu.Rtl.Harness.{Bench, sample_pins, observe_cores, between_edges}
use open_gpu.Rtl.Harness.Touched.{touches, Spares, touches-SameStores, diff_cycle-dirty}
use open_gpu.Rtl.Harness.Observe.{Watches, observe_cores-Watches}

-- The memory is there, and agrees with the model's at every byte for which the test succeeds.
abbrev pub Agrees : Config → (ℕ → Bool) → CycleModel → Pmem → Type 0
Agrees c test m q =
    (p : Bytes) × (q ≡ some p) × ((i : ℕ) → i < c.msize → test i ≡ true → p i ≡ m.mem i)

-- A run in progress, in which every byte of the memory is as in the model.
pub record InStep (c : Config) (pins : Pins) (m : CycleModel) (q : Pmem) : Type 0 where
  pub running : pins.reset ≡ false
  pub active : m.active ≡ true
  pub size : m.mem_size ≡ c.msize
  pub mem : Agrees c (λ i. true) m q

-- The pins other than `reset` do not matter.
pub InStep-pins :
    {c : Config} {pins : Pins} {m : CycleModel} {q : Pmem} (pins' : Pins)
    → pins'.reset ≡ pins.reset
    → InStep c pins m q
    → InStep c pins' m q
InStep-pins pins' same h = record {
  running = same ∙ h.running;
  active = h.active;
  size = h.size;
  mem = h.mem;
}

module _ (T : Top) (sort : List Store → List Store) (tidy : List ℕ → List ℕ) (c : Config) where
  -- The same between the edges, of the bytes that are not dirty, if the stores are the expected ones.
  pub record Advanced (pins : Pins) (m : CycleModel) (q : Pmem) : Type 0 where
    pub running : pins.reset ≡ false
    pub active : m.active ≡ true
    pub size : m.mem_size ≡ c.msize
    pub mem :
        same_stores (sort m.actual) m.expected ≡ true → Agrees c (λ i. not (occurs i m.dirty)) m q

  -- A byte that is not dirty is not touched by the observed stores, if they are the expected ones.
  untouched :
      (m : CycleModel) (i : ℕ)
      → IsSort sort
      → same_stores (sort m.actual) m.expected ≡ true
      → (touches c i m.expected ≡ true → occurs i m.dirty ≡ true)
      → occurs i m.dirty ≡ false
      → touches c i m.actual ≡ false
  untouched m i sorts same enters clean = elim (Bool-cases (touches c i m.actual)) [
    | inr miss ↦ miss
    | inl hit ↦
        let one = same_stores_sound (sort m.actual) m.expected same in
        let sorted =
          touches-SameStores c i m.actual (sort m.actual) (λ s. sym (sorts.keeps m.actual s)) hit in
        absurd (cc (sym clean ∙ enters (sym (ap (touches c i) one) ∙ sorted)))
  ]

  step-Advanced :
      (pins : Pins) (m m' : CycleModel) (p : Bytes) (q : Pmem)
      → IsSort sort
      → pins.reset ≡ false
      → m.active ≡ true
      → m.mem_size ≡ c.msize
      → ((i : ℕ) → i < c.msize → p i ≡ m.mem i)
      → Spares (λ j. touches c j m.actual) p q
      → diff_cycle sort c m ≡ some m'
      → Advanced pins m' q
  step-Advanced pins m m' p q sorts running active size before (p', now, only) e =
      let w =
        After-some (Writes (record m { dirty = [] })) (diff_cycle sort c m) m'
          (diff_cycle-Writes sort c m) e in
      let k =
        After-some (IsCaptured sort c m) (diff_cycle sort c m) m' (diff_cycle-IsCaptured sort c m)
          e in
      let enters =
        After-some
          (λ (x : CycleModel).
            (j : ℕ) → touches c j x.expected ≡ true → j < x.mem_size → occurs j x.dirty ≡ true)
          (diff_cycle sort c m) m' (diff_cycle-dirty sort c m) e in
      record {
        running = running;
        active = w.active ∙ active;
        size = w.size ∙ size;
        mem = λ same. (
          p',
          now,
          λ i small keep.
              let clean : occurs i m'.dirty ≡ false = ground (arith, keep) in
              let away =
                untouched m' i sorts same (λ hit. enters i hit (omega (arith, w.size, size, small)))
                  clean in
              only i (sym (ap (touches c i) k.actual) ∙ away)
              ∙ before i small
              ∙ sym (w.frame i clean).1,
        );
      }

  abbrev pub Advances : Bench T → Type 0
  Advances b = Advanced b.pins b.ref b.pmem

  sample_pins-Advanced :
      (b low : Bench T) (p : Bytes) (m' : CycleModel)
      → IsSort sort
      → InStep c b.pins b.ref b.pmem
      → b.pmem ≡ some p
      → Watches T sort tidy c p b low
      → diff_step sort c (sample_pins low.pins low.ref) ≡ some m'
      → Advanced low.pins m' low.pmem
  unfolding sample_pins set_inputs diff_step
  sample_pins-Advanced b low p m' sorts h mapped w e =
      let (p0, mapped0, before) = h.mem in
      let one : p0 ≡ p = cc in
      let running : low.pins.reset ≡ false = ap (λ (x : Pins). x.reset) w.pins ∙ h.running in
      step-Advanced low.pins (sample_pins low.pins low.ref) m' p low.pmem sorts running
        (ap (λ (m : CycleModel). m.active) w.ref ∙ h.active)
        (ap (λ (m : CycleModel). m.mem_size) w.ref ∙ h.size)
        (λ i small.
          ap (λ (a : Bytes). a i) (sym one)
          ∙ before i small refl
          ∙ ap (λ (m : CycleModel). m.mem i) (sym w.ref))
        w.mem (ground (arith, running, e))

  pub between_edges-Advances :
      (b : Bench T)
      → IsSupported c
      → IsSort sort
      → InStep c b.pins b.ref b.pmem
      → After Advances (between_edges T sort tidy c b)
  unfolding between_edges
  between_edges-Advances b s sorts h =
      let (p, mapped, same) = h.mem in
      let observed = observe_cores T sort tidy c c.num_cores 0 b in
      After-bind Advances observed _ λ low e.
        let w =
          After-some (Watches T sort tidy c p b) observed low
            (observe_cores-Watches T sort tidy c c.num_cores 0 b p s h.active mapped) e in
        After-bind Advances (diff_step sort c (sample_pins low.pins low.ref)) _
          λ m' e'. sample_pins-Advanced b low p m' sorts h mapped w e'
