-- ===== src/Runtime/Execute/Started.antt =====
-- What a launch and a wait that succeed say of the execution model, whatever model it is.
use open_gpu.Prelude.{ℕ, ◌≡◌, inl, inr, Bool, true, false, Option, some, Bool-cases, if◌then◌else◌}
use open_gpu.Prelude.Chain.{After, After-bind, After-then}
use open_gpu.Config.{Config, IsSupported}
use open_gpu.Memory.{Bytes, guest_to_host, put_bytes, get_bytes}
use open_gpu.Trace.{trace_suppress}
use open_gpu.Backend.{World, Model, model_dcr_write, model_launch, model_wait}
use open_gpu.Runtime.Types.{success, Handle, Kernel}
use open_gpu.Runtime.Launch.{LaunchInfo, Runtime, wait_limit}
use open_gpu.Runtime.Execute.{
  differential, world, start_execution, run_reference, after_reference, launch_differential,
  gpu_launch,
}
use open_gpu.Runtime.Alloc.Correct.{IsReady}
use open_gpu.Runtime.Execute.Reached.{gpu_launch-reached}

-- `P` is what the execution model is before the launch, and `Q` what its launch makes of the
-- globals, if it succeeds.
module _ (E R : Model) (h : Handle) (P : Option E.State → Type 0) (Q : Runtime E R → Type 0)
    (keeps : (x : Option E.State) (w : World) (addr word : ℕ)
      → P x
      → After (λ (x', w'). P x') (model_dcr_write E x w addr word))
    (starts : (rt : Runtime E R)
      → P rt.execution
      → After (λ (rt', e). e ≡ success → Q rt') (start_execution E R rt h)) where
  run_reference-execution :
      (rt : Runtime E R)
      → P rt.execution
      → After (λ (rt', done). P rt'.execution) (run_reference E R rt)
  unfolding run_reference
  run_reference-execution rt p =
      After-bind (λ (rt', done). P rt'.execution) (model_launch R rt.reference_model (world E R rt))
        _
        λ (m, w, started) e.
          After-bind (λ (rt', done). P rt'.execution)
            (if started then model_wait R m w wait_limit else some (m, w, false)) _
            λ (m', w', finished) e'. p

  after_reference-Started :
      (c : Config) (rt : Runtime E R) (initial : Bytes) (done : Bool)
      → P rt.execution
      → After (λ (rt', e). e ≡ success → Q rt') (after_reference E R c rt h initial done)
  unfolding after_reference
  after_reference-Started c rt initial false p = λ e. absurd (cc e)
  after_reference-Started c rt initial true p =
      After-bind (λ (rt', e). e ≡ success → Q rt') (guest_to_host c c.mbase) _
        λ off e.
          After-bind (λ (rt', e). e ≡ success → Q rt') (get_bytes c rt.core.pmem off c.msize) _
            λ result e'.
              After-bind (λ (rt', e). e ≡ success → Q rt')
                (put_bytes c rt.core.pmem off c.msize initial) _ λ restored e''. starts _ p

  launch_differential-Started :
      (c : Config) (rt : Runtime E R) (allocated : Bool)
      → P rt.execution
      → After (λ (rt', e). e ≡ success → Q rt') (launch_differential E R c rt h allocated)
  unfolding launch_differential
  launch_differential-Started c rt false p = λ e. absurd (cc e)
  launch_differential-Started c rt true p =
      After-bind (λ (rt', e). e ≡ success → Q rt') (guest_to_host c c.mbase) _
        λ off e.
          After-bind (λ (rt', e). e ≡ success → Q rt') (get_bytes c rt.core.pmem off c.msize) _
            λ initial e'.
              let quiet : Runtime E R = record rt { trace = trace_suppress true rt.trace } in
              After-then (λ (rt', done). P rt'.execution) (λ (rt', e). e ≡ success → Q rt')
                (run_reference E R quiet) _ (run_reference-execution quiet p)
                λ (ran, done) p'. after_reference-Started c _ initial done p'

  configured-Started :
      (c : Config) (rt : Runtime E R) (allocated : Bool)
      → P rt.execution
      → After
          (λ (rt', e). e ≡ success → Q rt')
          (if differential c
            then launch_differential E R c rt h allocated
            else start_execution E R rt h)
  configured-Started c rt allocated p = elim (Bool-cases (differential c)) [
    | inl on ↦ rw on (launch_differential-Started c rt allocated p)
    | inr off ↦ rw off (starts rt p)
  ]

  -- A launch that succeeds has started the execution model.
  pub gpu_launch-started :
      (c : Config) (rt rt' : Runtime E R) (k : Option Kernel) (info : Option LaunchInfo)
      (allocated : Bool)
      → IsSupported c
      → IsReady c rt.core
      → P rt.execution
      → gpu_launch E R c rt h k info allocated ≡ some (rt', success)
      → Q rt'
  gpu_launch-started c rt rt' k info allocated sup r p eq =
      gpu_launch-reached E R h c P Q keeps (configured-Started c) rt rt' k info allocated sup r p eq
