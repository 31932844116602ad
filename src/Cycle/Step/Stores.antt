-- ===== src/Cycle/Step/Stores.antt =====
-- The comparison of the stores of a cycle, once they are sorted.
use open_gpu.Prelude.{
  ℕ, zero, suc, ◌+◌, ◌≡◌, ◌↔◌, refl, sym, ap, ◌∙◌, inl, inr, true, false, ◌||◌, Option, none, some,
  List, [], ◌∷◌, arith, Bool-cases,
}
use open_gpu.Prelude.Chain.{After, After-bind, After-map, After-some}
use open_gpu.Config.{Config}
use open_gpu.Cycle.State.{CycleModel, Store, put}
use open_gpu.Cycle.Transfer.{store_byte, store_bytes, store_ref, store_all}
use open_gpu.Cycle.Core.{step_core}
use open_gpu.Cycle.Kmu.{is_fired, step_cores, write_dcr, advance, capture}
use open_gpu.Cycle.Pack.{pack}
use open_gpu.Cycle.Step.{fired_core, diff_cycle, diff_step, same_stores, check_stores}
use open_gpu.Cycle.Step.Ascending.{
  occurrences, SameStores, IsSort, ascending_same, same_stores_sound,
}

-- What a cycle does to the stores of the model.
pub record SameLists (m m' : CycleModel) : Type 0 where
  pub expected : m'.expected ≡ m.expected
  pub actual : m'.actual ≡ m.actual

SameLists-trans : {m m' m'' : CycleModel} → SameLists m m' → SameLists m' m'' → SameLists m m''
SameLists-trans p q = record { expected = q.expected ∙ p.expected; actual = q.actual ∙ p.actual }

store_byte-SameLists :
    (c : Config) (s : Store) (b : ℕ) (m : CycleModel) → SameLists m (store_byte c s b m)
unfolding store_byte
store_byte-SameLists c s b m = record { expected = ground arith; actual = ground arith }

store_bytes-SameLists :
    (c : Config) (s : Store) (left b : ℕ) (m : CycleModel) → SameLists m (store_bytes c s left b m)
unfolding store_bytes
store_bytes-SameLists c s zero b m = record { expected = refl; actual = refl }
store_bytes-SameLists c s (suc left) b m =
    SameLists-trans (store_byte-SameLists c s b m)
      (store_bytes-SameLists c s left (b + 1) (store_byte c s b m))

pub store_all-SameLists :
    (c : Config) (ss : List Store) (m : CycleModel) → SameLists m (store_all c ss m)
unfolding store_all store_ref
store_all-SameLists c [] m = record { expected = refl; actual = refl }
store_all-SameLists c (s ∷ ss) m =
    SameLists-trans (store_bytes-SameLists c s 4 0 m) (store_all-SameLists c ss (store_ref c s m))

write_dcr-SameLists : (m : CycleModel) → SameLists m (write_dcr m)
unfolding write_dcr
write_dcr-SameLists m = record { expected = ground arith; actual = ground arith }

advance-SameLists :
    (c : Config) (fired : Option ℕ) (m : CycleModel) → SameLists m (advance c fired m)
unfolding advance
advance-SameLists c none m = record { expected = ground arith; actual = ground arith }
advance-SameLists c (some sel) m = record { expected = ground arith; actual = ground arith }

step_cores-SameLists :
    (c : Config) (fired : Option ℕ) (left i : ℕ) (m : CycleModel)
    → After (SameLists m) (step_cores c fired left i m)
unfolding step_cores
step_cores-SameLists c fired zero i m = record { expected = refl; actual = refl }
step_cores-SameLists c fired (suc left) i m =
    After-bind (SameLists m) (step_core c m i (is_fired fired i) (m.cores i)) _ λ (core, bad) e.
      let next = record m { cores = put m.cores i core; failed = m.failed || bad } in
      After-map (SameLists next) (SameLists m) (step_cores c fired left (i + 1) next)
        (λ u k. record { expected = k.expected; actual = k.actual })
        (step_cores-SameLists c fired left (i + 1) next)

-- After a cycle the expected stores are those captured at its start, sorted, and the observed ones
-- are as before.
pub record IsCaptured (sort : List Store → List Store) (c : Config) (m m' : CycleModel)
    : Type 0 where
  pub expected : m'.expected ≡ sort (capture c m c.num_cores 0)
  pub actual : m'.actual ≡ m.actual

pub diff_cycle-IsCaptured :
    (sort : List Store → List Store) (c : Config) (m : CycleModel)
    → After (IsCaptured sort c m) (diff_cycle sort c m)
unfolding diff_cycle pack
diff_cycle-IsCaptured sort c m =
    let fired = fired_core c m in
    let start = record m { expected = capture c m c.num_cores 0; dirty = [] } in
    After-bind (IsCaptured sort c m) (step_cores c fired c.num_cores 0 start) _ λ stepped e.
      let stepping =
        After-some (SameLists start) (step_cores c fired c.num_cores 0 start) stepped
          (step_cores-SameLists c fired c.num_cores 0 start) e in
      let written = SameLists-trans stepping (write_dcr-SameLists stepped) in
      let advanced = SameLists-trans written (advance-SameLists c fired (write_dcr stepped)) in
      let model = advance c fired (write_dcr stepped) in
      let sorted = record model { expected = sort model.expected } in
      let stored = store_all-SameLists c sorted.expected sorted in
      record {
        expected = stored.expected ∙ ap sort advanced.expected;
        actual = stored.actual ∙ advanced.actual;
      }

pub check_stores_passes :
    (sort : List Store → List Store) (m : CycleModel)
    → (check_stores sort m).1 ≡ same_stores (sort m.actual) m.expected
unfolding check_stores
check_stores_passes sort m = elim (Bool-cases (same_stores (sort m.actual) m.expected)) [
  | inl same ↦ rw same refl
  | inr differ ↦ rw differ refl
]

-- A cycle without reset, and the check that follows it: the check passes exactly if the stores
-- observed from the hardware are the ones that the cores of the model were about to make, each as
-- often, in whatever order they were observed. It holds for every sorting function that keeps the
-- stores and puts them in the order of `operator<`.
pub check_stores-diff_step :
    (sort : List Store → List Store) (c : Config) (m m' : CycleModel)
    → IsSort sort
    → m.reset ≡ false
    → diff_step sort c m ≡ some m'
    → ((check_stores sort m').1 ≡ true) ↔ SameStores m.actual (capture c m c.num_cores 0)
unfolding diff_step check_stores
check_stores-diff_step sort c m m' sorts runs e =
    let step : diff_cycle sort c m ≡ some m' = ground (arith, runs, e) in
    let k =
      After-some (IsCaptured sort c m) (diff_cycle sort c m) m' (diff_cycle-IsCaptured sort c m)
        step in
    let due = capture c m c.num_cores 0 in
    let passes : (check_stores sort m').1 ≡ same_stores (sort m.actual) (sort due) =
      check_stores_passes sort m'
      ∙ ap (λ (x : List Store). same_stores (sort x) m'.expected) k.actual
      ∙ ap (same_stores (sort m.actual)) k.expected in
    (
      λ ok u.
          let one : sort m.actual ≡ sort due =
            same_stores_sound (sort m.actual) (sort due) (sym passes ∙ ok) in
          sym (sorts.keeps m.actual u) ∙ ap (occurrences u) one ∙ sorts.keeps due u,
      λ h.
          let same : SameStores (sort m.actual) (sort due) =
            λ u. sorts.keeps m.actual u ∙ h u ∙ sym (sorts.keeps due u) in
          passes
          ∙ ascending_same (sort m.actual) (sort due) (sorts.ascending m.actual)
              (sorts.ascending due) same,
    )
