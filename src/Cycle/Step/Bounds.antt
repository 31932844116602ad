-- ===== src/Cycle/Step/Bounds.antt =====
-- The bounds of all cores over a cycle of the model.
use open_gpu.Prelude.{
  ℕ, zero, suc, ◌+◌, ◌<◌, ◌≡◌, refl, ◌∙◌, Bool, ◌||◌, Option, none, some, List, [], ◌∷◌, arith,
  Bool-cases, inl, inr,
}
use open_gpu.Prelude.Chain.{After, After-bind, After-some}
use open_gpu.Config.{Config}
use open_gpu.Cycle.State.{CycleCore, CycleModel, Store, put, new_model, new_core}
use open_gpu.Cycle.Mask.{mask_has}
use open_gpu.Cycle.Mask.Turn.{first_from_turn}
use open_gpu.Cycle.Transfer.{store_byte, store_bytes, store_ref, store_all}
use open_gpu.Cycle.Core.{step_core}
use open_gpu.Cycle.Core.Inside.{IsCore, put-cases}
use open_gpu.Cycle.Core.Bounds.{step_core-IsCore}
use open_gpu.Cycle.Kmu.{is_fired, ready_mask, select_core, step_cores, write_dcr, advance, capture}
use open_gpu.Cycle.Pack.{pack}
use open_gpu.Cycle.Step.{fired_core, diff_cycle, diff_step}

-- What the stores, the registers and the packing leave alone.
record SameCores (m m' : CycleModel) : Type 0 where
  cores : m'.cores ≡ m.cores
  rr : m'.rr ≡ m.rr

store_byte-SameCores :
    (c : Config) (s : Store) (b : ℕ) (m : CycleModel) → SameCores m (store_byte c s b m)
unfolding store_byte
store_byte-SameCores c s b m = record { cores = ground arith; rr = ground arith }

store_bytes-SameCores :
    (c : Config) (s : Store) (left b : ℕ) (m : CycleModel) → SameCores m (store_bytes c s left b m)
unfolding store_bytes
store_bytes-SameCores c s zero b m = record { cores = refl; rr = refl }
store_bytes-SameCores c s (suc left) b m =
    let first = store_byte-SameCores c s b m in
    let rest = store_bytes-SameCores c s left (b + 1) (store_byte c s b m) in
    record { cores = rest.cores ∙ first.cores; rr = rest.rr ∙ first.rr }

store_all-SameCores :
    (c : Config) (ss : List Store) (m : CycleModel) → SameCores m (store_all c ss m)
unfolding store_all store_ref
store_all-SameCores c [] m = record { cores = refl; rr = refl }
store_all-SameCores c (s ∷ ss) m =
    let first = store_bytes-SameCores c s 4 0 m in
    let rest = store_all-SameCores c ss (store_ref c s m) in
    record { cores = rest.cores ∙ first.cores; rr = rest.rr ∙ first.rr }

write_dcr-SameCores : (m : CycleModel) → SameCores m (write_dcr m)
unfolding write_dcr
write_dcr-SameCores m = record { cores = ground arith; rr = ground arith }

-- Every core is in bounds, and the core whose turn it is exists.
pub record IsModel (c : Config) (m : CycleModel) : Type 0 where
  pub each : (i : ℕ) → IsCore c (m.cores i)
  pub turn : m.rr < c.num_cores

IsModel-SameCores : (c : Config) (m m' : CycleModel) → SameCores m m' → IsModel c m → IsModel c m'
IsModel-SameCores c m m' k h = record { each = rw k.cores h.each; turn = rw k.rr h.turn }

-- A core that is chosen exists.
abbrev InRange : Config → Option ℕ → Type 0
InRange c fired = (sel : ℕ) → fired ≡ some sel → sel < c.num_cores

fired_core-InRange : (c : Config) (m : CycleModel) → m.rr < c.num_cores → InRange c (fired_core c m)
unfolding fired_core select_core
fired_core-InRange c m h sel e = elim (Bool-cases m.running) [
  | inr halted ↦ absurd (ground (arith, halted, e))
  | inl runs ↦ elim (first_from_turn (mask_has (ready_mask c m)) m.rr c.num_cores h) [
    | inr (nothing, _) ↦ absurd (ground (arith, runs, nothing, e))
    | inl (x, d, found, next, near, inside) ↦
        let same : x ≡ sel = ground (arith, runs, found, e) in rw (← same) inside
  ]
]

advance-cores :
    (c : Config) (fired : Option ℕ) (m : CycleModel) → (advance c fired m).cores ≡ m.cores
unfolding advance
advance-cores c none m = ground arith
advance-cores c (some sel) m = ground arith

advance-rr :
    (c : Config) (fired : Option ℕ) (m : CycleModel)
    → InRange c fired
    → m.rr < c.num_cores
    → (advance c fired m).rr < c.num_cores
unfolding advance
advance-rr c none m inside h = ground (arith, h)
advance-rr c (some sel) m inside h = let near = inside sel refl in ground (arith, near, h)

advance-IsModel :
    (c : Config) (fired : Option ℕ) (m : CycleModel)
    → InRange c fired
    → IsModel c m
    → IsModel c (advance c fired m)
advance-IsModel c fired m inside h = record {
  each = rw (advance-cores c fired m) h.each;
  turn = advance-rr c fired m inside h.turn;
}

new_core-IsCore : (c : Config) → 0 < c.num_warps → 0 < c.num_threads → IsCore c new_core
new_core-IsCore c warps threads = record {
  stack = λ _. omega arith;
  warp = warps;
  turn = warps;
  thread = threads;
  x0 = λ _. refl;
  fields = λ e. absurd (cc e);
}

module _ (c : Config) (warps : 0 < c.num_warps) (threads : 0 < c.num_threads) where
  step_cores-IsModel :
      (fired : Option ℕ) (left i : ℕ) (m : CycleModel)
      → IsModel c m
      → After (IsModel c) (step_cores c fired left i m)
  unfolding step_cores
  step_cores-IsModel fired zero i m h = h
  step_cores-IsModel fired (suc left) i m h =
      After-bind (IsModel c) (step_core c m i (is_fired fired i) (m.cores i)) _ λ (core, bad) e.
        let kept =
          After-some (λ (x : CycleCore × Bool). IsCore c x.0)
            (step_core c m i (is_fired fired i) (m.cores i)) (core, bad)
            (step_core-IsCore c m i (is_fired fired i) (m.cores i) warps threads (h.each i)) e in
        step_cores-IsModel fired left (i + 1)
          (record m { cores = put m.cores i core; failed = m.failed || bad })
          (record {
            each = λ j. elim (put-cases m.cores i j core) [
              | inl (_, at) ↦ rw at kept
              | inr at ↦ rw at (h.each j)
            ];
            turn = h.turn;
          })

  diff_cycle-IsModel :
      (sort : List Store → List Store) (m : CycleModel)
      → IsModel c m
      → After (IsModel c) (diff_cycle sort c m)
  unfolding diff_cycle pack
  diff_cycle-IsModel sort m h =
      let fired = fired_core c m in
      let start = record m { expected = capture c m c.num_cores 0; dirty = [] } in
      After-bind (IsModel c) (step_cores c fired c.num_cores 0 start) _ λ stepped e.
        let kept =
          After-some (IsModel c) (step_cores c fired c.num_cores 0 start) stepped
            (step_cores-IsModel fired c.num_cores 0 start (record { each = h.each; turn = h.turn }))
            e in
        let written =
          IsModel-SameCores c stepped (write_dcr stepped) (write_dcr-SameCores stepped) kept in
        let advanced =
          advance-IsModel c fired (write_dcr stepped) (fired_core-InRange c m h.turn) written in
        let model = advance c fired (write_dcr stepped) in
        let sorted = record model { expected = sort model.expected } in
        let stored =
          IsModel-SameCores c sorted (store_all c sorted.expected sorted)
            (store_all-SameCores c sorted.expected sorted)
            (record { each = advanced.each; turn = advanced.turn }) in
        record { each = stored.each; turn = stored.turn }

  -- A cycle of the model, with any inputs, keeps this of every core and of the model, unless it
  -- divides by zero: the warp and the lane in work and the warp whose turn it is exist, no stack
  -- holds more than eight entries, every register x0 is zero, a load or store that is carried out
  -- names the registers x0 to x15, and the core whose turn it is exists. A write to a register index
  -- of 16 or more would go to the file of the next lane.
  pub diff_step-IsModel :
      (sort : List Store → List Store) (m m' : CycleModel)
      → 0 < c.num_cores
      → IsModel c m
      → diff_step sort c m ≡ some m'
      → IsModel c m'
  unfolding diff_step pack
  diff_step-IsModel sort m m' cores h e = elim (Bool-cases m.reset) [
    | inl reset ↦
        let fresh = record new_model { mem = m.mem; mem_size = m.mem_size; active = m.active } in
        let same : pack c fresh ≡ m' = ground (arith, reset, e) in
        rw (← same) (record { each = λ _. new_core-IsCore c warps threads; turn = cores })
    | inr runs ↦
        let step : diff_cycle sort c m ≡ some m' = ground (arith, runs, e) in
        After-some (IsModel c) (diff_cycle sort c m) m' (diff_cycle-IsModel sort m h) step
  ]
