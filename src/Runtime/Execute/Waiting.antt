-- ===== src/Runtime/Execute/Waiting.antt =====
-- The verdict of `gpu_wait` in a differential build: what it compares and what it answers.
use open_gpu.Prelude.{
  ℕ, zero, suc, ◌+◌, ◌≤◌, ◌<◌, ◌≡◌, ◌≢◌, sym, ap, ◌∙◌, ◌⊎◌, inl, inr, true, false, Option, none,
  some, arith, ◌==◌, ==_iff, Bool-cases, Option-cases,
}
use native.Mathlib.Nat.{zero-add}
use open_gpu.Config.{Config, IsSupported}
use open_gpu.Memory.{Bytes, guest_to_host, get_bytes}
use open_gpu.Backend.{World, Model, model_wait, model_fault}
use open_gpu.Runtime.Types.{success, backend, Handle, Core, valid_device}
use open_gpu.Runtime.Alloc.{mem_free, release, released}
use open_gpu.Runtime.Launch.{Runtime, wait_limit, release_launch_args}
use open_gpu.Runtime.Execute.{
  differential, first_mismatch, world, with_world, with_reference, released_args, with_running,
  compare_memories, gpu_wait,
}

-- The loop stops at the first byte that differs, or at the end.
pub first_mismatch_cases :
    (k i : ℕ) (left right : Bytes)
    → ((first_mismatch k i left right ≡ i + k) × ((j : ℕ) → i ≤ j → j < i + k → left j ≡ right j))
      ⊎ ((j : ℕ) × (i ≤ j) × (j < i + k) × (first_mismatch k i left right ≡ j) × (left j ≢ right j))
unfolding first_mismatch
first_mismatch_cases zero i left right = inl (omega arith, λ j low high. absurd (omega arith))
first_mismatch_cases (suc k) i left right = elim (Bool-cases (left i == right i)) [
  | inr differs ↦
      inr (i, omega arith, omega arith, ground (arith, differs), ground (arith, differs))
  | inl same ↦ elim (first_mismatch_cases k (i + 1) left right) [
    | inl (e, all) ↦ inl (
      ground (arith, same, e),
      λ j low high. elim (Bool-cases (i == j)) [
        | inl here ↦
            let at : i ≡ j = (==_iff i j).0 here in rw (← at) ((==_iff (left i) (right i)).0 same)
        | inr there ↦ all j (ground (arith, there)) (omega arith)
      ],
    )
    | inr (j, low, high, e, ne) ↦ inr (j, omega arith, omega arith, ground (arith, same, e), ne)
  ]
]

-- The memories agree on every byte, or differ in one.
abbrev pub Agree : ℕ → Bytes → Bytes → Type 0
Agree n left right = (j : ℕ) → j < n → left j ≡ right j

abbrev pub Differ : ℕ → Bytes → Bytes → Type 0
Differ n left right = (j : ℕ) × (j < n) × (left j ≢ right j)

-- The last comparison of the code decides whether the memories agree.
pub mismatch_verdict :
    (n : ℕ) (left right : Bytes)
    → ((first_mismatch n 0 left right == n ≡ true) × Agree n left right)
      ⊎ ((first_mismatch n 0 left right == n ≡ false) × Differ n left right)
mismatch_verdict n left right = elim (first_mismatch_cases n 0 left right) [
  | inl (e, all) ↦ inl (ground (arith, e), λ j h. all j (omega arith) (omega arith))
  | inr (j, _, high, e, ne) ↦ inr (ground (arith, e, high), (j, omega arith, ne))
]

-- The release of the launch arguments leaves the memory and the reference buffer alone.
pub release_launch_args_keeps :
    (s : Core) (h : Handle)
    → ((release_launch_args s h).device.reference ≡ s.device.reference)
      × ((release_launch_args s h).device.reference_fault ≡ s.device.reference_fault)
      × ((release_launch_args s h).pmem ≡ s.pmem)
unfolding release_launch_args mem_free released
release_launch_args_keeps s h = elim (Bool-cases s.device.launch_args_used) [
  | inr unused ↦ ground (arith, unused)
  | inl used ↦ elim (Option-cases (release s.device.launch_args s.device.allocations)) [
    | inl stop ↦ ground (arith, used, stop)
    | inr (bs, e) ↦ ground (arith, used, e)
  ]
]

module _ (E R : Model) where
  -- The globals after the execution model has run to its end.
  abbrev pub run_ended : Runtime E R → Handle → Option E.State → World → Runtime E R
  run_ended rt h x w =
      released_args E R (with_running E R (with_world E R (record rt { execution = x }) w) false) h

module _ (E R : Model) (c : Config) (sup : IsSupported c) where
  -- The whole memory can be read.
  pub whole_memory :
      (m : Bytes)
      → (guest_to_host c c.mbase ≡ some 0)
        × (get_bytes c (some m) 0 c.msize ≡ some (λ i. m (0 + i)))
  unfolding guest_to_host get_bytes
  whole_memory m = ground (arith, sup)

  -- In a differential build, when the execution model completes without a fault and neither did the
  -- reference model, `gpu_wait` returns success exactly if the final memory agrees with the
  -- reference model's in every byte, and a backend error exactly if some byte differs. In both
  -- cases the device is no longer running, the launch arguments are released, and the reference
  -- buffer is freed.
  pub gpu_wait_verdict :
      (rt : Runtime E R) (h : Handle) (x : Option E.State) (w : World) (reference memory : Bytes)
      → differential c ≡ true
      → valid_device rt.core h ≡ true
      → rt.core.device.running ≡ true
      → model_wait E rt.execution (world E R rt) wait_limit ≡ some (x, w, true)
      → model_fault E x ≡ false
      → rt.core.device.reference_fault ≡ false
      → rt.core.device.reference ≡ some reference
      → w.pmem ≡ some memory
      → let rt' = with_reference E R (run_ended E R rt h x w) none in
        ((gpu_wait E R c rt h ≡ some (rt', success)) × Agree c.msize reference memory)
        ⊎ ((gpu_wait E R c rt h ≡ some (rt', backend)) × Differ c.msize reference memory)
  unfolding gpu_wait compare_memories
  gpu_wait_verdict rt h x w reference memory diff valid running waited sound unfaulted kept mapped =
      let (start, whole) = whole_memory memory in
      let (reference_kept, fault_kept, pmem_kept) =
        release_launch_args_keeps
          (with_running E R (with_world E R (record rt { execution = x }) w) false).core h in
      let kept' = reference_kept ∙ kept in
      let unfaulted' = fault_kept ∙ unfaulted in
      let mapped' = pmem_kept ∙ mapped in
      let shifted : Bytes = λ i. memory (0 + i) in
      let same : (i : ℕ) → shifted i ≡ memory i = λ i. ap memory (zero-add i) in
      elim (mismatch_verdict c.msize reference shifted) [
        | inl (e, all) ↦ inl (
          ground (
            arith, diff, valid, running, waited, sound, unfaulted', kept', mapped', start, whole, e,
          ),
          λ j hj. all j hj ∙ same j,
        )
        | inr (e, (j, hj, ne)) ↦ inr (
          ground (
            arith, diff, valid, running, waited, sound, unfaulted', kept', mapped', start, whole, e,
          ),
          (j, hj, λ eq. ne (eq ∙ sym (same j))),
        )
      ]
