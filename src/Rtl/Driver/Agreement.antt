-- ===== src/Rtl/Driver/Agreement.antt =====
-- The three models of a differential build: the design, the cycle model beside it, and the software
-- model that runs first.
use open_gpu.Prelude.{
  ℕ, suc, ◌≡◌, refl, sym, ap, ◌∙◌, inl, inr, Bool, true, false, Option, none, some, List,
  Bool-cases,
}
use mathlib.Core.Path.{subst}
use open_gpu.Prelude.Chain.{After, After-bind, After-some, After-then}
use open_gpu.Config.{Config, IsSupported}
use open_gpu.Memory.{Bytes}
use open_gpu.Backend.{World, Model, model_dcr_write, model_launch, model_wait}
use open_gpu.Cycle.State.{Store}
use open_gpu.Cycle.Step.Ascending.{IsSort}
use open_gpu.Cycle.Step.Writes.{IsTidy}
use open_gpu.Runtime.Types.{success, Handle, Kernel}
use open_gpu.Runtime.Alloc.Correct.{IsReady}
use open_gpu.Runtime.Launch.{LaunchInfo, Runtime, wait_limit_pos}
use open_gpu.Runtime.Execute.{differential, world, start_execution, gpu_launch, gpu_wait}
use open_gpu.Runtime.Execute.Waiting.{Agree}
use open_gpu.Runtime.Execute.Started.{gpu_launch-started}
use open_gpu.Runtime.Execute.Referenced.{IsReferenced, gpu_launch-IsReferenced}
use open_gpu.Runtime.Execute.Waited.{gpu_wait-IsDone}
use open_gpu.Rtl.Top.{Top}
use open_gpu.Rtl.Harness.{Bench, tick, rtl_dcr_write, rtl_launch, rtl_wait}
use open_gpu.Rtl.Harness.Advance.{InStep}
use open_gpu.Rtl.Harness.Failed.{tick-reset, rtl_wait-HasFailed}
use open_gpu.Rtl.Harness.Run.{InRun, rtl_wait-InRun}
use open_gpu.Rtl.Harness.Launching.{rtl_launch-InRun}
use open_gpu.Rtl.Driver.{loaded, hm_dcr_write, hm_launch, hm_wait, hm_model}

module _ (T : Top) (sort : List Store → List Store) (tidy : List ℕ → List ℕ) (c : Config) where
  -- The hardware model is there, and not in reset.
  abbrev pub IsUp : Option (Bench T) → Type 0
  IsUp x = (b : Bench T) × (x ≡ some b) × (b.pins.reset ≡ false)

  rtl_dcr_write-reset :
      (addr word : ℕ) (b : Bench T)
      → b.pins.reset ≡ false
      → After (λ b'. b'.pins.reset ≡ false) (rtl_dcr_write T sort tidy c addr word b)
  unfolding rtl_dcr_write
  rtl_dcr_write-reset addr word b low =
      let pins = record b.pins { dcr_addr = addr; dcr_data = word; dcr_valid = true } in
      After-then (λ b'. b'.pins.reset ≡ false) (λ b'. b'.pins.reset ≡ false)
        (tick T sort tidy c (record b { pins = pins })) _
        (tick-reset T sort tidy c (record b { pins = pins }) false low) λ b' h. h

  hm_dcr_write-reset :
      (b : Bench T) (w : World) (addr word : ℕ)
      → b.pins.reset ≡ false
      → After (λ (b', w'). b'.pins.reset ≡ false) (hm_dcr_write T sort tidy c b w addr word)
  unfolding hm_dcr_write
  hm_dcr_write-reset b w addr word low =
      After-then (λ b'. b'.pins.reset ≡ false) (λ (b', w'). b'.pins.reset ≡ false)
        (rtl_dcr_write T sort tidy c addr word (loaded T sort tidy c b w)) _
        (rtl_dcr_write-reset addr word (loaded T sort tidy c b w) low) λ b' h. h

  hm_dcr_write-IsUp :
      (x : Option (Bench T)) (w : World) (addr word : ℕ)
      → IsUp x
      → After (λ (x', w'). IsUp x') (model_dcr_write (hm_model T sort tidy c) x w addr word)
  unfolding model_dcr_write
  hm_dcr_write-IsUp none w addr word (b, there, low) = cc
  hm_dcr_write-IsUp (some u) w addr word (b, there, low) =
      let same : u ≡ b = cc in
      let low' : u.pins.reset ≡ false = ap (λ (y : Bench T). y.pins.reset) same ∙ low in
      After-then (λ (b', w'). b'.pins.reset ≡ false) (λ (x', w'). IsUp x')
        (hm_dcr_write T sort tidy c u w addr word) _ (hm_dcr_write-reset u w addr word low')
        λ (b', w') h. (b', refl, h)

  -- The hardware model after a launch: unless a comparison has failed, it is in a run, on the
  -- runtime's memory.
  abbrev pub IsLaunched : Option (Bench T) → World → Type 0
  IsLaunched x w =
      (b : Bench T) × (x ≡ some b)
      × (w.pmem ≡ b.pmem)
      × (b.diff_failed ≡ false → InRun T sort tidy c b)

  module _ (s : IsSupported c) (diff : c.difftest ≡ true) (sorts : IsSort sort)
      (tidies : IsTidy tidy) where
    hm_launch-IsLaunched :
        (b : Bench T) (w : World)
        → b.pins.reset ≡ false
        → After (λ (b', w', started). IsLaunched (some b') w') (hm_launch T sort tidy c b w)
    unfolding hm_launch
    hm_launch-IsLaunched b w low =
        After-bind (λ (b', w', started). IsLaunched (some b') w')
          (rtl_launch T sort tidy c (loaded T sort tidy c b w)) _
          λ b' e. (
            b',
            refl,
            refl,
            λ fine.
                rtl_launch-InRun T sort tidy c (loaded T sort tidy c b w) b' s diff sorts tidies low
                  e fine,
          )

    model_launch-IsLaunched :
        (x : Option (Bench T)) (w : World)
        → IsUp x
        → After (λ (x', w', started). IsLaunched x' w') (model_launch (hm_model T sort tidy c) x w)
    unfolding model_launch
    model_launch-IsLaunched none w (b, there, low) = cc
    model_launch-IsLaunched (some u) w (b, there, low) =
        let same : u ≡ b = cc in
        let low' : u.pins.reset ≡ false = ap (λ (y : Bench T). y.pins.reset) same ∙ low in
        After-then (λ (b', w', started). IsLaunched (some b') w')
          (λ (x', w', started). IsLaunched x' w') (hm_launch T sort tidy c u w) _
          (hm_launch-IsLaunched u w low') λ (b', w', started) h. h

    start_execution-IsLaunched :
        (R : Model) (rt : Runtime (hm_model T sort tidy c) R) (h : Handle)
        → IsUp rt.execution
        → After
            (λ (rt', e).
              e ≡ success → IsLaunched rt'.execution (world (hm_model T sort tidy c) R rt'))
            (start_execution (hm_model T sort tidy c) R rt h)
    unfolding start_execution
    start_execution-IsLaunched R rt h up =
        let E = hm_model T sort tidy c in
        After-then (λ (x', w', started). IsLaunched x' w')
          (λ (rt', e). e ≡ success → IsLaunched rt'.execution (world E R rt'))
          (model_launch E rt.execution (world E R rt)) _
          (model_launch-IsLaunched rt.execution (world E R rt) up)
          λ (x', w', started) k. elim (Bool-cases started) [
            | inl on ↦ rw on (λ _. k)
            | inr off ↦ rw off (λ e. absurd (cc e))
          ]

    -- A launch that succeeds leaves the hardware model launched.
    pub gpu_launch-IsLaunched :
        (R : Model) (rt rt' : Runtime (hm_model T sort tidy c) R) (h : Handle) (k : Option Kernel)
        (info : Option LaunchInfo) (allocated : Bool)
        → IsReady c rt.core
        → IsUp rt.execution
        → gpu_launch (hm_model T sort tidy c) R c rt h k info allocated ≡ some (rt', success)
        → IsLaunched rt'.execution (world (hm_model T sort tidy c) R rt')
    gpu_launch-IsLaunched R rt rt' h k info allocated r up e =
        let E = hm_model T sort tidy c in
        gpu_launch-started E R h IsUp (λ rt'. IsLaunched rt'.execution (world E R rt'))
          hm_dcr_write-IsUp (λ rt' up'. start_execution-IsLaunched R rt' h up') c rt rt' k info
          allocated s r up e

    -- The hardware model in a run, on the runtime's memory.
    abbrev pub IsAgreed : Option (Bench T) → World → Type 0
    IsAgreed x w = (b : Bench T) × (x ≡ some b) × (w.pmem ≡ b.pmem) × InRun T sort tidy c b

    pub loaded-InRun :
        (b : Bench T) (w : World)
        → w.pmem ≡ b.pmem
        → InRun T sort tidy c b
        → InRun T sort tidy c (loaded T sort tidy c b w)
    loaded-InRun b w same h = record {
      unfailed = h.unfailed;
      steady = subst (InStep c b.pins b.ref) (sym same) h.steady;
    }

    rtl_wait-agreed :
        (left : ℕ) (b b' : Bench T) (w : World)
        → w.pmem ≡ b.pmem
        → (b.diff_failed ≡ false → InRun T sort tidy c b)
        → rtl_wait T sort tidy c (suc left) (loaded T sort tidy c b w) ≡ some (b', true)
        → InRun T sort tidy c b'
    rtl_wait-agreed left b b' w same run e = elim (Bool-cases b.diff_failed) [
      | inl failed ↦
          let (stays, refused) =
            rtl_wait-HasFailed T sort tidy c left (loaded T sort tidy c b w) b' true failed e in
          absurd (cc refused)
      | inr fine ↦
          rtl_wait-InRun T sort tidy c (suc left) (loaded T sort tidy c b w) b' s diff sorts tidies
            (loaded-InRun b w same (run fine)) e
    ]

    hm_wait-IsAgreed :
        (left : ℕ) (b : Bench T) (w : World)
        → w.pmem ≡ b.pmem
        → (b.diff_failed ≡ false → InRun T sort tidy c b)
        → After
            (λ (b', w', ok). ok ≡ true → IsAgreed (some b') w')
            (hm_wait T sort tidy c b w (suc left))
    unfolding hm_wait
    hm_wait-IsAgreed left b w same run =
        After-bind (λ (b', w', ok). ok ≡ true → IsAgreed (some b') w')
          (rtl_wait T sort tidy c (suc left) (loaded T sort tidy c b w)) _
          λ (b', ok) e done. (
            b',
            refl,
            refl,
            rtl_wait-agreed left b b' w same run (e ∙ ap (λ (t : Bool). some (b', t)) done),
          )

    model_wait-IsAgreed :
        (left : ℕ) (x : Option (Bench T)) (w : World)
        → IsLaunched x w
        → After
            (λ (x', w', ok). ok ≡ true → IsAgreed x' w')
            (model_wait (hm_model T sort tidy c) x w (suc left))
    unfolding model_wait
    model_wait-IsAgreed left none w (b, there, same, run) = cc
    model_wait-IsAgreed left (some u) w (b, there, same, run) =
        let one : b ≡ u = cc in
        After-then (λ (b', w', ok). ok ≡ true → IsAgreed (some b') w')
          (λ (x', w', ok). ok ≡ true → IsAgreed x' w') (hm_wait T sort tidy c u w (suc left)) _
          (hm_wait-IsAgreed left u w (same ∙ ap (λ (y : Bench T). y.pmem) one)
            (subst (λ (y : Bench T). y.diff_failed ≡ false → InRun T sort tidy c y) one run))
          λ (b', w', ok) h. h

    -- In a differential build with the hardware model, whatever the design and the reference model
    -- are, a launch from globals in order with a design that is not in reset, and a wait after it
    -- which both succeed: within the launch the reference model was launched and waited for to its
    -- end, and the hardware model was then launched on the same bytes of memory as the reference
    -- model; and the final memory agrees in every byte with the memory that the reference model
    -- left, and with the memory of the cycle model.
    pub gpu_wait_agreement :
        (R : Model) (rt rt' rt'' : Runtime (hm_model T sort tidy c) R) (h : Handle)
        (k : Option Kernel) (info : Option LaunchInfo) (allocated : Bool)
        → differential c ≡ true
        → IsReady c rt.core
        → IsUp rt.execution
        → gpu_launch (hm_model T sort tidy c) R c rt h k info allocated ≡ some (rt', success)
        → gpu_wait (hm_model T sort tidy c) R c rt' h ≡ some (rt'', success)
        → (ran : IsReferenced (hm_model T sort tidy c) R c rt') × (b : Bench T) × (memory : Bytes)
          × (rt''.execution ≡ some b)
          × (rt''.core.pmem ≡ some memory)
          × Agree c.msize ran.left memory
          × Agree c.msize b.ref.mem memory
    gpu_wait_agreement R rt rt' rt'' h k info allocated on r up launched waited =
        let E = hm_model T sort tidy c in
        let start = gpu_launch-IsLaunched R rt rt' h k info allocated r up launched in
        let ran = gpu_launch-IsReferenced E R c rt rt' h k info allocated on s r launched in
        let done = gpu_wait-IsDone E R c s rt' rt'' h on waited in
        let (left, limit) = wait_limit_pos in
        let waits : model_wait E rt'.execution (world E R rt') (suc left)
            ≡ some (rt''.execution, done.world', true) =
          ap (model_wait E rt'.execution (world E R rt')) (sym limit) ∙ done.ran in
        let (b, there, same, run) =
          After-some (λ (x', w', ok). ok ≡ true → IsAgreed x' w')
            (model_wait E rt'.execution (world E R rt') (suc left))
            (rt''.execution, done.world', true)
            (model_wait-IsAgreed left rt'.execution (world E R rt') start) waits refl in
        let (p, mapped, equal) = run.steady.mem in
        let one : p ≡ done.memory = cc (sym mapped ∙ sym same ∙ done.mapped) in
        let held : ran.reference ≡ done.reference = cc (sym ran.kept ∙ done.kept) in
        (
          ran,
          b,
          done.memory,
          there,
          done.same_pmem ∙ done.mapped,
          λ j small. ran.copied j small ∙ ap (λ (a : Bytes). a j) held ∙ done.agree j small,
          λ j small. sym (equal j small refl) ∙ ap (λ (a : Bytes). a j) one,
        )
