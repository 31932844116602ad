-- ===== src/Rtl/Harness/Run.antt =====
-- A run: the launch, the writes of registers, and the wait for its end.
use open_gpu.Prelude.{
  ℕ, zero, suc, ◌≡◌, refl, sym, ap, ◌∙◌, Bool, true, false, not, ◌&&◌, ◌||◌, Option, some, List,
  ◌==◌, arith, if◌then◌else◌, ◌>>=◌,
}
use mathlib.Core.Path.{subst}
use open_gpu.Prelude.Chain.{After, After-bind, After-some, After-cases}
use open_gpu.Config.{Config, IsSupported}
use open_gpu.Memory.{Bytes}
use open_gpu.Cycle.State.{Store, CycleModel}
use open_gpu.Cycle.Step.{check_memory, same_bytes}
use open_gpu.Cycle.Step.Ascending.{IsSort}
use open_gpu.Cycle.Step.Writes.{IsTidy}
use open_gpu.Cycle.Step.Dirty.{same_bytes_iff}
use open_gpu.Rtl.Top.{Top}
use open_gpu.Rtl.Harness.{Bench, tick, rtl_fault, rtl_finish, rtl_wait, check_pmem}
use open_gpu.Rtl.Harness.Checks.{check_pmem-running}
use open_gpu.Rtl.Harness.Advance.{InStep}
use open_gpu.Rtl.Harness.Lockstep.{tick_lockstep}

if_false {ℓ} : {A : Type ℓ} (t : Bool) (x y : A) → t ≡ false → (if t then x else y) ≡ y
if_false t x y e = rw e refl

module _ (T : Top) (sort : List Store → List Store) (tidy : List ℕ → List ℕ) (c : Config) where
  -- A run in which nothing has failed.
  pub record InRun (b : Bench T) : Type 0 where
    pub unfailed : b.diff_failed ≡ false
    pub steady : InStep c b.pins b.ref b.pmem

  check_memory-whole :
      (m : CycleModel) (p : Bytes)
      → m.active ≡ true
      → m.mem_size ≡ c.msize
      → same_bytes p m.mem c.msize 0 ≡ true
      → check_memory tidy p c.msize true m ≡ (m, true)
  unfolding check_memory
  check_memory-whole m p active size equal =
      let known : (c.msize == m.mem_size) ≡ true = ground (arith, size) in
      rw (active, known, equal) refl

  pub check_pmem-InRun :
      (b : Bench T) → IsSupported c → InRun b → check_pmem T sort tidy c true b ≡ some (b.ref, true)
  check_pmem-InRun b s h =
      let (p, mapped, same) = h.steady.mem in
      let equal : same_bytes p b.ref.mem c.msize 0 ≡ true =
        (same_bytes_iff p b.ref.mem c.msize 0).1 (λ i low high. same i (omega arith) refl) in
      check_pmem-running T sort tidy c true b p s mapped
      ∙ ap (λ (x : CycleModel × Bool). some x)
          (check_memory-whole b.ref p h.steady.active h.steady.size equal)

  -- What a finished wait says.
  abbrev Verdict : Bench T × Bool → Type 0
  Verdict (b, ok) =
      (ok ≡ (not (T.gpu_busy b.design) && not (rtl_fault T sort tidy c b))) × (ok ≡ true → InRun b)

  -- A bench after the comparison of the whole memory has passed.
  abbrev pub finished : Bench T → Bench T
  finished b = record b { diff_failed = b.diff_failed || not true }

  pub rtl_finish-InRun :
      (b : Bench T)
      → IsSupported c
      → c.difftest ≡ true
      → InRun b
      → rtl_finish T sort tidy c b ≡ some (finished b, true)
  unfolding rtl_finish
  rtl_finish-InRun b s diff h =
      let rest : CycleModel × Bool → Option (Bench T × Bool) = λ (ref, same).
        some (record b { ref = ref; diff_failed = b.diff_failed || not same }, same) in
      if_false (not c.difftest) (some (b, true)) (check_pmem T sort tidy c true b >>= rest)
        (ap not diff)
      ∙ ap (λ (x : Option (CycleModel × Bool)). x >>= rest) (check_pmem-InRun b s h)

  finished-Verdict :
      (b : Bench T)
      → InRun b
      → T.gpu_busy b.design ≡ false
      → rtl_fault T sort tidy c b ≡ false
      → Verdict (finished b, true)
  unfolding rtl_fault
  finished-Verdict b h idle fine = (
    ground (arith, idle, fine),
    λ e. record { unfailed = ground (arith, h.unfailed); steady = h.steady },
  )

  pub rtl_wait-idle :
      (left : ℕ) (b b' : Bench T)
      → tick T sort tidy c b ≡ some b'
      → rtl_fault T sort tidy c b' ≡ false
      → T.gpu_busy b'.design ≡ false
      → rtl_wait T sort tidy c (suc left) b ≡ rtl_finish T sort tidy c b'
  unfolding rtl_wait
  rtl_wait-idle left b b' e fine idle =
      let next : Bench T → Option (Bench T × Bool) = λ u. elim (rtl_fault T sort tidy c u) [
        | true ↦ some (u, false)
        | false ↦ elim (T.gpu_busy u.design) [
          | true ↦ rtl_wait T sort tidy c left u
          | false ↦ rtl_finish T sort tidy c u
        ]
      ] in
      let stops : next b' ≡ rtl_finish T sort tidy c b' = rw (fine, idle) refl in
      ap (λ (x : Option (Bench T)). x >>= next) e ∙ stops

  pub tick-InRun :
      (b b' : Bench T)
      → IsSupported c
      → c.difftest ≡ true
      → IsSort sort
      → IsTidy tidy
      → InStep c b.pins b.ref b.pmem
      → tick T sort tidy c b ≡ some b'
      → b'.diff_failed ≡ false
      → InRun b'
  tick-InRun b b' s diff sorts tidies h e fine =
      let k = tick_lockstep T sort tidy c b b' s diff sorts tidies h e fine in
      record { unfailed = fine; steady = k.steady }

  rtl_wait-Verdict :
      (left : ℕ) (b : Bench T)
      → IsSupported c
      → c.difftest ≡ true
      → IsSort sort
      → IsTidy tidy
      → InRun b
      → After Verdict (rtl_wait T sort tidy c left b)
  unfolding rtl_wait rtl_fault
  rtl_wait-Verdict zero b s diff sorts tidies h = (ground (arith, h.unfailed), λ e. h)
  rtl_wait-Verdict (suc left) b s diff sorts tidies h =
      After-bind Verdict (tick T sort tidy c b) _ λ b' e.
        let more : Option (Bench T × Bool) = elim (T.gpu_busy b'.design) [
          | true ↦ rtl_wait T sort tidy c left b'
          | false ↦ rtl_finish T sort tidy c b'
        ] in
        After-cases Verdict (rtl_fault T sort tidy c b') (some (b', false)) more
          (λ fault. (ground (arith, fault), λ no_end. cc))
          λ fine.
            let now : b'.diff_failed ≡ false = ground (arith, fine) in
            let h' = tick-InRun b b' s diff sorts tidies h.steady e now in
            After-cases Verdict (T.gpu_busy b'.design) (rtl_wait T sort tidy c left b')
              (rtl_finish T sort tidy c b')
              (λ busy. rtl_wait-Verdict left b' s diff sorts tidies h')
              (λ idle.
                subst (After Verdict) (sym (rtl_finish-InRun b' s diff h'))
                  (finished-Verdict b' h' idle fine))

  -- The wait, for any design, any number of cycles and a differential run in which nothing has
  -- failed: if it ends, it returns true exactly if the design is idle and neither it nor the
  -- comparison has failed.
  pub rtl_wait-rtl_fault :
      (left : ℕ) (b b' : Bench T) (ok : Bool)
      → IsSupported c
      → c.difftest ≡ true
      → IsSort sort
      → IsTidy tidy
      → InRun b
      → rtl_wait T sort tidy c left b ≡ some (b', ok)
      → ok ≡ (not (T.gpu_busy b'.design) && not (rtl_fault T sort tidy c b'))
  rtl_wait-rtl_fault left b b' ok s diff sorts tidies h e =
      (After-some Verdict (rtl_wait T sort tidy c left b) (b', ok)
        (rtl_wait-Verdict left b s diff sorts tidies h) e).0

  -- If the wait returns true, for any design, any number of cycles and a differential run in which
  -- nothing has failed, then nothing has failed after it, and the memory has the bytes of the model.
  pub rtl_wait-InRun :
      (left : ℕ) (b b' : Bench T)
      → IsSupported c
      → c.difftest ≡ true
      → IsSort sort
      → IsTidy tidy
      → InRun b
      → rtl_wait T sort tidy c left b ≡ some (b', true)
      → InRun b'
  rtl_wait-InRun left b b' s diff sorts tidies h e =
      (After-some Verdict (rtl_wait T sort tidy c left b) (b', true)
          (rtl_wait-Verdict left b s diff sorts tidies h) e).1
        refl
