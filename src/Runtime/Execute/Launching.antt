-- ===== src/Runtime/Execute/Launching.antt =====
-- What `gpu_launch` and `gpu_wait` do with the argument buffer: whatever happens, it is given back.
use open_gpu.Prelude.{
  ℕ, ◌%◌, ◌≡◌, ◌≢◌, refl, ◌⊎◌, inl, inr, Bool, true, false, Option, some, List, arith, Bool-cases,
  if◌then◌else◌,
}
use open_gpu.Prelude.Chain.{After, After-bind, After-some}
use open_gpu.Prelude.Word.{u32_mod}
use open_gpu.Config.{Config}
use open_gpu.Memory.{Bytes, guest_to_host, put_bytes, get_bytes}
use open_gpu.Trace.{trace_suppress}
use open_gpu.Backend.{World, Model, model_launch, model_wait}
use open_gpu.Runtime.Types.{success, Handle, Kernel, Allocation, Core, valid_device}
use open_gpu.Runtime.Alloc.{mem_free, release, released}
use open_gpu.Runtime.Launch.{LaunchInfo, Runtime, release_launch_args, configure_model, wait_limit}
use open_gpu.Runtime.Execute.{
  differential, Reply, world, with_world, start_execution, run_reference, after_reference,
  launch_differential, launch_staged,
}

-- The globals hold an argument buffer whose release leaves the table `bs`, or hold none and the
-- table is `bs`.
pub record Holds (h : Handle) (bs : List Allocation) (s : Core) : Type 0 where
  pub valid : valid_device s h ≡ true
  pub undo :
      ((s.device.launch_args_used ≡ true)
        × (release s.device.launch_args s.device.allocations ≡ some bs))
      ⊎ ((s.device.launch_args_used ≡ false) × (s.device.allocations ≡ bs))

-- The argument buffer is gone and the table is `bs`.
pub record IsGivenBack (bs : List Allocation) (s : Core) : Type 0 where
  pub table : s.device.allocations ≡ bs
  pub unused : s.device.launch_args_used ≡ false
  pub stopped : s.device.running ≡ false

pub release-IsGivenBack :
    (h : Handle) (bs : List Allocation) (s : Core)
    → Holds h bs s
    → s.device.running ≡ false
    → IsGivenBack bs (release_launch_args s h)
unfolding release_launch_args mem_free released
release-IsGivenBack h bs s r stopped = ground (arith, r.valid, r.undo)

module _ (E R : Model) (h : Handle) (bs : List Allocation) where
  -- A launch that succeeds runs and holds the buffer; one that fails has given it back.
  abbrev pub Ends : Reply E R → Type 0
  Ends (rt, e) =
      ((e ≡ success) × Holds h bs rt.core × (rt.core.device.running ≡ true))
      ⊎ ((e ≢ success) × IsGivenBack bs rt.core)

  start_execution-Ends :
      (rt : Runtime E R)
      → Holds h bs rt.core
      → rt.core.device.running ≡ false
      → After Ends (start_execution E R rt h)
  unfolding start_execution valid_device
  start_execution-Ends rt r stopped =
      After-bind Ends (model_launch E rt.execution (world E R rt)) _ λ (m, w, started) e.
        elim (Bool-cases started) [
          | inl yes_started ↦
              rw yes_started (inl (refl, record { valid = r.valid; undo = r.undo }, refl))
          | inr failed ↦ rw failed (
              inr (
                (λ eq. cc),
                release-IsGivenBack h bs _ (record { valid = r.valid; undo = r.undo }) stopped,
              ))
        ]

  -- The run of the reference model changes the models and the world, and nothing else.
  IsRun : Runtime E R → Runtime E R × Bool → Type 0
  IsRun rt (rt', done) =
      (x : Option R.State) × (w : World) × (rt'
        ≡ with_world E R (record rt { reference_model = x }) w)

  run_reference-IsRun : (rt : Runtime E R) → After (IsRun rt) (run_reference E R rt)
  unfolding run_reference IsRun
  run_reference-IsRun rt =
      After-bind (IsRun rt) (model_launch R rt.reference_model (world E R rt)) _
        λ (m, w, started) e.
          After-bind (IsRun rt)
            (if started then model_wait R m w wait_limit else some (m, w, false)) _
            λ (m', w', finished) e'. (m', w', refl)

  after_reference-Ends :
      (c : Config) (rt : Runtime E R) (initial : Bytes) (done : Bool)
      → Holds h bs rt.core
      → rt.core.device.running ≡ false
      → After Ends (after_reference E R c rt h initial done)
  unfolding after_reference valid_device
  after_reference-Ends c rt initial false r stopped =
      inr
        ((λ eq. cc), release-IsGivenBack h bs _ (record { valid = r.valid; undo = r.undo }) stopped)
  after_reference-Ends c rt initial true r stopped =
      After-bind Ends (guest_to_host c c.mbase) _ λ off e.
        After-bind Ends (get_bytes c rt.core.pmem off c.msize) _ λ result e'.
          After-bind Ends (put_bytes c rt.core.pmem off c.msize initial) _ λ restored e''.
            start_execution-Ends _ (record { valid = r.valid; undo = r.undo }) stopped

  launch_differential-Ends :
      (c : Config) (rt : Runtime E R) (allocated : Bool)
      → Holds h bs rt.core
      → rt.core.device.running ≡ false
      → After Ends (launch_differential E R c rt h allocated)
  unfolding launch_differential valid_device IsRun
  launch_differential-Ends c rt false r stopped =
      inr
        ((λ eq. cc), release-IsGivenBack h bs _ (record { valid = r.valid; undo = r.undo }) stopped)
  launch_differential-Ends c rt true r stopped =
      After-bind Ends (guest_to_host c c.mbase) _ λ off e.
        After-bind Ends (get_bytes c rt.core.pmem off c.msize) _ λ initial e'.
          let quiet : Runtime E R = record rt { trace = trace_suppress true rt.trace } in
          After-bind Ends (run_reference E R quiet) _ λ (ran, done) e''.
            let (x, w, same) =
              After-some (IsRun quiet) (run_reference E R quiet) (ran, done)
                (run_reference-IsRun quiet) e'' in
            rw same (
              after_reference-Ends c _ initial done (record { valid = r.valid; undo = r.undo })
                stopped)

  -- What follows the writes of the registers.
  configured-Ends :
      (c : Config) (rt : Runtime E R) (allocated : Bool)
      → Holds h bs rt.core
      → rt.core.device.running ≡ false
      → After Ends (
          if differential c
          then launch_differential E R c rt h allocated
          else start_execution E R rt h)
  configured-Ends c rt allocated r stopped = elim (Bool-cases (differential c)) [
    | inl on ↦ rw on (launch_differential-Ends c rt allocated r stopped)
    | inr off ↦ rw off (start_execution-Ends rt r stopped)
  ]

  pub launch_staged-Ends :
      (c : Config) (rt : Runtime E R) (k : Kernel) (info : LaunchInfo) (n : ℕ) (allocated : Bool)
      → Holds h bs rt.core
      → rt.core.device.running ≡ false
      → After Ends (launch_staged E R c rt h k info n allocated)
  unfolding launch_staged valid_device
  launch_staged-Ends c rt k info n allocated r stopped =
      let args = rt.core.device.launch_args in
      let size = info.args_size % u32_mod in
      After-bind Ends
        (configure_model E rt.execution (world E R rt) k.entry args size info.grid_dim
          info.block_dim n)
        _
        λ (m, w) e.
          After-bind Ends
            (if differential c
              then configure_model R rt.reference_model w k.entry args size info.grid_dim
                  info.block_dim n
              else some (rt.reference_model, w))
            _
            λ (m', w') e'.
              configured-Ends c _ allocated (record { valid = r.valid; undo = r.undo }) stopped
