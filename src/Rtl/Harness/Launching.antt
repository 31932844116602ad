-- ===== src/Rtl/Harness/Launching.antt =====
-- The launch and the writes of registers: how a run begins, and that it goes on.
use open_gpu.Prelude.{
  ℕ, ◌≡◌, refl, sym, ap, ◌∙◌, inl, inr, Bool, true, false, some, List, arith, Bool-cases,
  Option-cases, if◌then◌else◌,
}
use open_gpu.Prelude.Chain.{After, After-bind, After-some, After-each}
use open_gpu.Config.{Config, IsSupported}
use open_gpu.Cycle.State.{Store}
use open_gpu.Cycle.Step.{diff_begin}
use open_gpu.Cycle.Step.Ascending.{IsSort}
use open_gpu.Cycle.Step.Writes.{IsTidy}
use open_gpu.Rtl.Top.{Top}
use open_gpu.Rtl.Harness.{Bench, tick, begin_diff, rtl_launch, rtl_dcr_write}
use open_gpu.Rtl.Harness.Checks.{guest_base}
use open_gpu.Rtl.Harness.Failed.{HasFailed, tick-HasFailed}
use open_gpu.Rtl.Harness.Advance.{InStep, InStep-pins}
use open_gpu.Rtl.Harness.Run.{InRun, tick-InRun}

module _ (T : Top) (sort : List Store → List Store) (tidy : List ℕ → List ℕ) (c : Config) where
  begin_diff-InStep :
      (b : Bench T)
      → IsSupported c
      → b.pins.reset ≡ false
      → After (λ b'. InStep c b'.pins b'.ref b'.pmem) (begin_diff T sort tidy c b)
  unfolding begin_diff diff_begin
  begin_diff-InStep b s running = elim (Option-cases b.pmem) [
    | inl absent ↦ rw (guest_base c s, absent) tt
    | inr (p, mapped) ↦
        rw (guest_base c s, mapped)
          (record {
            running = running;
            active = refl;
            size = refl;
            mem = (p, refl, λ i small any. ap p (omega arith));
          })
  ]

  -- The cycle that ends in a run without failure began in one.
  tick-unfailed :
      (b b' : Bench T)
      → tick T sort tidy c b ≡ some b'
      → b'.diff_failed ≡ false
      → b.diff_failed ≡ false
  tick-unfailed b b' e fine = elim (Bool-cases b.diff_failed) [
    | inr before ↦ before
    | inl failed ↦
        let stays : b'.diff_failed ≡ true =
          After-some (HasFailed T sort tidy c) (tick T sort tidy c b) b'
            (tick-HasFailed T sort tidy c b failed) e in
        absurd (cc (sym fine ∙ stays))
  ]

  abbrev Launched : Bench T → Type 0
  Launched b = b.diff_failed ≡ false → InRun T sort tidy c b

  rtl_launch-Launched :
      (b : Bench T)
      → IsSupported c
      → c.difftest ≡ true
      → IsSort sort
      → IsTidy tidy
      → b.pins.reset ≡ false
      → After Launched (rtl_launch T sort tidy c b)
  unfolding rtl_launch
  rtl_launch-Launched b s diff sorts tidies running =
      let launch = λ (level : Bool) (u : Bench T). record u {
        pins = record u.pins { io_gpu_launch = level };
      } in
      let cycle = λ (level : Bool) (u : Bench T). tick T sort tidy c (launch level u) in
      let begin = if c.difftest then begin_diff T sort tidy c b else some b in
      After-bind Launched begin _ λ begun e.
        let start =
          After-some (λ (u : Bench T). InStep c u.pins u.ref u.pmem) (begin_diff T sort tidy c b)
            begun (begin_diff-InStep b s running) (ground (arith, diff, e)) in
        After-bind Launched (cycle true begun) _ λ raised e'.
          After-each Launched (cycle false raised) λ b' e2 fine.
            let up = tick-unfailed (launch false raised) b' e2 fine in
            let k =
              tick-InRun T sort tidy c (launch true begun) raised s diff sorts tidies
                (InStep-pins (launch true begun).pins refl start) e' up in
            tick-InRun T sort tidy c (launch false raised) b' s diff sorts tidies
              (InStep-pins (launch false raised).pins refl k.steady) e2 fine

  -- From the launch on the memory has the bytes of the model, if no comparison fails.
  pub rtl_launch-InRun :
      (b b' : Bench T)
      → IsSupported c
      → c.difftest ≡ true
      → IsSort sort
      → IsTidy tidy
      → b.pins.reset ≡ false
      → rtl_launch T sort tidy c b ≡ some b'
      → b'.diff_failed ≡ false
      → InRun T sort tidy c b'
  rtl_launch-InRun b b' s diff sorts tidies running e fine =
      After-some Launched (rtl_launch T sort tidy c b) b'
        (rtl_launch-Launched b s diff sorts tidies running) e fine

  rtl_dcr_write-Kept :
      (addr word : ℕ) (b : Bench T)
      → IsSupported c
      → c.difftest ≡ true
      → IsSort sort
      → IsTidy tidy
      → InRun T sort tidy c b
      → After
          (λ b'. b'.diff_failed ≡ false → InRun T sort tidy c b')
          (rtl_dcr_write T sort tidy c addr word b)
  unfolding rtl_dcr_write
  rtl_dcr_write-Kept addr word b s diff sorts tidies h =
      let pins = record b.pins { dcr_addr = addr; dcr_data = word; dcr_valid = true } in
      let set = record b { pins = pins } in
      After-bind (λ b'. b'.diff_failed ≡ false → InRun T sort tidy c b') (tick T sort tidy c set) _
        λ u e fine.
          let start = InStep-pins set.pins refl h.steady in
          let k = tick-InRun T sort tidy c set u s diff sorts tidies start e fine in
          record { unfailed = fine; steady = InStep-pins _ refl k.steady }

  -- A write of a register keeps a run, if the comparison does not fail.
  pub rtl_dcr_write-InRun :
      (addr word : ℕ) (b b' : Bench T)
      → IsSupported c
      → c.difftest ≡ true
      → IsSort sort
      → IsTidy tidy
      → InRun T sort tidy c b
      → rtl_dcr_write T sort tidy c addr word b ≡ some b'
      → b'.diff_failed ≡ false
      → InRun T sort tidy c b'
  rtl_dcr_write-InRun addr word b b' s diff sorts tidies h e fine =
      let Kept = λ (u : Bench T). u.diff_failed ≡ false → InRun T sort tidy c u in
      After-some Kept (rtl_dcr_write T sort tidy c addr word b) b'
        (rtl_dcr_write-Kept addr word b s diff sorts tidies h) e fine
