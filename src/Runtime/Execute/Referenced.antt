-- ===== src/Runtime/Execute/Referenced.antt =====
-- What a launch that succeeds in a differential build has kept of the reference model, whatever the
-- two models are: gpu_launch of sw/runtime/gpu/gpu.c, from the snapshot of the memory on.
use open_gpu.Prelude.{
  ℕ, ◌+◌, ◌≡◌, refl, sym, ap, ◌∙◌, inl, inr, Bool, true, false, Option, none, some, arith,
  Bool-cases, if◌then◌else◌,
}
use open_gpu.Prelude.Chain.{After, After-bind, After-each, After-map, After-then}
use open_gpu.Config.{Config, IsSupported}
use open_gpu.Memory.{Bytes, Pmem, copy_into, guest_to_host, get_bytes, put_bytes}
use open_gpu.Trace.{trace_suppress}
use open_gpu.Backend.{World, Model, model_dcr_write, model_launch, model_wait, model_fault}
use open_gpu.Runtime.Types.{Result, success, Handle, Kernel}
use open_gpu.Runtime.Launch.{LaunchInfo, Runtime, wait_limit}
use open_gpu.Runtime.Alloc.Correct.{IsReady}
use open_gpu.Runtime.Execute.{
  differential, world, start_execution, run_reference, after_reference, launch_differential,
  gpu_launch,
}
use open_gpu.Runtime.Execute.Waiting.{Agree}
use open_gpu.Runtime.Execute.Reached.{gpu_launch-reached}

-- What a successful read, or write, of the whole memory says.
read_whole :
    (c : Config) (pmem : Pmem) (off : ℕ) (result : Bytes)
    → IsSupported c
    → guest_to_host c c.mbase ≡ some off
    → get_bytes c pmem off c.msize ≡ some result
    → (left : Bytes) × (pmem ≡ some left) × Agree c.msize left result
unfolding guest_to_host get_bytes
read_whole c none off result sup at e = absurd (cc e)
read_whole c (some m) off result sup at e =
    let start : off ≡ 0 = ground (arith, sup, at) in
    let same : (λ i. m (off + i)) ≡ result = ground (arith, e) in
    (m, refl, λ j small. ap m (omega (arith, start)) ∙ ap (λ (b : Bytes). b j) same)

written_whole :
    (c : Config) (pmem pmem' : Pmem) (off : ℕ) (source : Bytes)
    → IsSupported c
    → guest_to_host c c.mbase ≡ some off
    → put_bytes c pmem off c.msize source ≡ some pmem'
    → (memory : Bytes) × (pmem' ≡ some memory) × Agree c.msize source memory
unfolding guest_to_host put_bytes
written_whole c none pmem' off source sup at e = absurd (cc e)
written_whole c (some m) pmem' off source sup at e =
    let start : off ≡ 0 = ground (arith, sup, at) in
    let same : pmem' ≡ some (copy_into m off c.msize source) = ground (arith, e) in
    (copy_into m off c.msize source, same, λ j small. rw start (ground (arith, small)))

module _ (E R : Model) (c : Config) where
  -- A run of the reference model that has ended, from `start` to `last`, the bytes it has left, and
  -- the launch of the execution model after it, on the bytes from which the reference model began.
  pub record IsReferenced (rt : Runtime E R) : Type 0 where
    pub before : Option R.State
    pub between : Option R.State
    pub after : Option R.State
    pub start : World
    pub middle : World
    pub last : World
    pub launched : model_launch R before start ≡ some (between, middle, true)
    pub waited : model_wait R between middle wait_limit ≡ some (after, last, true)
    pub left : Bytes
    pub mapped : last.pmem ≡ some left
    pub reference : Bytes
    pub kept : rt.core.device.reference ≡ some reference
    pub copied : Agree c.msize left reference
    pub initial : Bytes
    pub began : start.pmem ≡ some initial
    pub idle : Option E.State
    pub restored : World
    pub running : World
    pub started : model_launch E idle restored ≡ some (rt.execution, running, true)
    pub memory : Bytes
    pub reset : restored.pmem ≡ some memory
    pub same : Agree c.msize initial memory

  -- What the part after the run of the reference model makes of the globals, if it succeeds.
  record IsKept (rt : Runtime E R) (snapshot : Bytes) (rt' : Runtime E R) : Type 0 where
    left : Bytes
    mapped : rt.core.pmem ≡ some left
    reference : Bytes
    kept : rt'.core.device.reference ≡ some reference
    copied : Agree c.msize left reference
    restored : World
    running : World
    started : model_launch E rt.execution restored ≡ some (rt'.execution, running, true)
    memory : Bytes
    reset : restored.pmem ≡ some memory
    same : Agree c.msize snapshot memory

  -- The globals before the launch of the execution model.
  abbrev restored_with : Runtime E R → Bytes → Pmem → Runtime E R
  restored_with rt result pmem = record rt {
    core = record rt.core {
      device = record rt.core.device { reference = some result };
      pmem = pmem;
    };
  }

  abbrev IsStarted : Runtime E R → Runtime E R → Type 0
  IsStarted rt rt' =
      (w : World) × (model_launch E rt.execution (world E R rt) ≡ some (rt'.execution, w, true))
      × (rt'.core.device.reference ≡ rt.core.device.reference)

  start_execution-IsStarted :
      (rt : Runtime E R) (h : Handle)
      → After (λ (rt', e). e ≡ success → IsStarted rt rt') (start_execution E R rt h)
  unfolding start_execution
  start_execution-IsStarted rt h =
      After-bind (λ (rt', e). e ≡ success → IsStarted rt rt')
        (model_launch E rt.execution (world E R rt)) _
        λ (x, w, started) e. elim (Bool-cases started) [
          | inl on ↦ rw on (λ _. (w, e ∙ ap (λ (t : Bool). some (x, w, t)) on, refl))
          | inr off ↦ rw off (λ fails. absurd (cc fails))
        ]

  after_reference-IsKept :
      (rt : Runtime E R) (h : Handle) (snapshot : Bytes) (done : Bool)
      → IsSupported c
      → After
          (λ (rt', e). e ≡ success → (done ≡ true) × IsKept rt snapshot rt')
          (after_reference E R c rt h snapshot done)
  unfolding after_reference
  after_reference-IsKept rt h snapshot false sup = λ e. absurd (cc e)
  after_reference-IsKept rt h snapshot true sup =
      let Q : Runtime E R × Result → Type 0 =
        λ (rt', e). e ≡ success → (true ≡ true) × IsKept rt snapshot rt' in
      After-bind Q (guest_to_host c c.mbase) _ λ off at.
        After-bind Q (get_bytes c rt.core.pmem off c.msize) _ λ result got.
          After-bind Q (put_bytes c rt.core.pmem off c.msize snapshot) _ λ pmem put.
            let (left, mapped, copied) = read_whole c rt.core.pmem off result sup at got in
            let (memory, reset, same) = written_whole c rt.core.pmem pmem off snapshot sup at put in
            After-map (λ (rt', e). e ≡ success → IsStarted (restored_with rt result pmem) rt') Q
              (start_execution E R (restored_with rt result pmem) h)
              (λ (rt', e) k good.
                let (running, started, kept) = k good in
                (
                  refl,
                  record {
                    left = left;
                    mapped = mapped;
                    reference = result;
                    kept = kept;
                    copied = copied;
                    restored = record { pmem = pmem; trace = rt.trace };
                    running = running;
                    started = started;
                    memory = memory;
                    reset = reset;
                    same = same;
                  },
                ))
              (start_execution-IsStarted (restored_with rt result pmem) h)

  -- A run of the reference model that has ended.
  record HasRun (rt ran : Runtime E R) : Type 0 where
    between : Option R.State
    middle : World
    last : World
    launched : model_launch R rt.reference_model (world E R rt) ≡ some (between, middle, true)
    waited : model_wait R between middle wait_limit ≡ some (ran.reference_model, last, true)
    ended : ran.core.pmem ≡ last.pmem

  run_reference-HasRun :
      (rt : Runtime E R) → After (λ (ran, done). done ≡ true → HasRun rt ran) (run_reference E R rt)
  unfolding run_reference
  run_reference-HasRun rt =
      let Q : Runtime E R × Bool → Type 0 = λ (ran, done). done ≡ true → HasRun rt ran in
      After-bind Q (model_launch R rt.reference_model (world E R rt)) _ λ (m, w, started) e.
        After-bind Q (if started then model_wait R m w wait_limit else some (m, w, false)) _
          λ (m', w', finished) e' done. elim (Bool-cases started) [
            | inr off ↦ absurd (ground (arith, off, done))
            | inl on ↦
                let good : finished ≡ true = ground (arith, on, done) in
                record {
                  between = m;
                  middle = w;
                  last = w';
                  launched = e ∙ ap (λ (t : Bool). some (m, w, t)) on;
                  waited = ground (arith, on, e', good);
                  ended = refl;
                }
          ]

  -- The globals after the run of the reference model.
  abbrev loud : Runtime E R → Runtime E R
  loud ran = record ran {
    core = record ran.core {
      device = record ran.core.device { reference_fault = model_fault R ran.reference_model };
    };
    trace = trace_suppress false ran.trace;
  }

  referenced :
      (rt ran rt' : Runtime E R) (snapshot initial : Bytes)
      → HasRun rt ran
      → IsKept (loud ran) snapshot rt'
      → rt.core.pmem ≡ some initial
      → Agree c.msize initial snapshot
      → IsReferenced rt'
  referenced rt ran rt' snapshot initial run kept began taken = record {
    before = rt.reference_model;
    between = run.between;
    after = ran.reference_model;
    start = world E R rt;
    middle = run.middle;
    last = run.last;
    launched = run.launched;
    waited = run.waited;
    left = kept.left;
    mapped = sym run.ended ∙ kept.mapped;
    reference = kept.reference;
    kept = kept.kept;
    copied = kept.copied;
    initial = initial;
    began = began;
    idle = ran.execution;
    restored = kept.restored;
    running = kept.running;
    started = kept.started;
    memory = kept.memory;
    reset = kept.reset;
    same = λ j small. taken j small ∙ kept.same j small;
  }

  launch_differential-IsReferenced :
      (rt : Runtime E R) (h : Handle) (allocated : Bool)
      → IsSupported c
      → After
          (λ (rt', e). e ≡ success → IsReferenced rt')
          (launch_differential E R c rt h allocated)
  unfolding launch_differential
  launch_differential-IsReferenced rt h false sup = λ e. absurd (cc e)
  launch_differential-IsReferenced rt h true sup =
      let Q : Runtime E R × Result → Type 0 = λ (rt', e). e ≡ success → IsReferenced rt' in
      let quiet : Runtime E R = record rt { trace = trace_suppress true rt.trace } in
      After-bind Q (guest_to_host c c.mbase) _ λ off at.
        After-bind Q (get_bytes c rt.core.pmem off c.msize) _ λ snapshot got.
          After-then (λ (ran, done). done ≡ true → HasRun quiet ran) Q (run_reference E R quiet) _
            (run_reference-HasRun quiet)
            λ (ran, done) run.
              After-map (λ (rt', e). e ≡ success → (done ≡ true) × IsKept (loud ran) snapshot rt') Q
                (after_reference E R c (loud ran) h snapshot done)
                (λ (rt', e) k good.
                  let (ends, kept) = k good in
                  let (initial, began, taken) = read_whole c rt.core.pmem off snapshot sup at got in
                  referenced quiet ran rt' snapshot initial (run ends) kept began taken)
                (after_reference-IsKept (loud ran) h snapshot done sup)

  -- A launch that succeeds in a differential build.
  pub gpu_launch-IsReferenced :
      (rt rt' : Runtime E R) (h : Handle) (k : Option Kernel) (info : Option LaunchInfo)
      (allocated : Bool)
      → differential c ≡ true
      → IsSupported c
      → IsReady c rt.core
      → gpu_launch E R c rt h k info allocated ≡ some (rt', success)
      → IsReferenced rt'
  gpu_launch-IsReferenced rt rt' h k info allocated on sup r eq =
      gpu_launch-reached E R h c (λ _. Unit) IsReferenced
        (λ x w addr word _. After-each _ (model_dcr_write E x w addr word) λ _ _. tt)
        (λ rt allocated _. rw on (launch_differential-IsReferenced rt h allocated sup)) rt rt' k
        info allocated sup r tt eq
