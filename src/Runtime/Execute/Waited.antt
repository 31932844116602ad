-- ===== src/Runtime/Execute/Waited.antt =====
-- What a wait that succeeds in a differential build says.
use open_gpu.Prelude.{
  ◌+◌, ◌≡◌, refl, sym, ap, ◌∙◌, inl, inr, Bool, true, false, not, ◌||◌, Option, none, some, arith,
  ◌==◌, Bool-cases, Option-cases,
}
use native.Mathlib.Nat.{zero-add}
use open_gpu.Config.{Config, IsSupported}
use open_gpu.Memory.{Bytes, guest_to_host, get_bytes}
use open_gpu.Backend.{World, Model, model_wait, model_fault}
use open_gpu.Runtime.Types.{success, Handle, valid_device}
use open_gpu.Runtime.Launch.{Runtime, wait_limit}
use open_gpu.Runtime.Execute.{
  differential, first_mismatch, world, with_world, with_running, compare_memories, gpu_wait,
}
use open_gpu.Runtime.Execute.Waiting.{
  Agree, run_ended, mismatch_verdict, whole_memory, release_launch_args_keeps,
}

module _ (E R : Model) (c : Config) (sup : IsSupported c) where
  -- What a wait that succeeds says.
  pub record IsDone (rt : Runtime E R) (rt' : Runtime E R) : Type 0 where
    pub world' : World
    pub ran :
        model_wait E rt.execution (world E R rt) wait_limit ≡ some (rt'.execution, world', true)
    pub same_pmem : rt'.core.pmem ≡ world'.pmem
    pub memory : Bytes
    pub mapped : world'.pmem ≡ some memory
    pub reference : Bytes
    pub kept : rt.core.device.reference ≡ some reference
    pub agree : Agree c.msize reference memory

  compare_memories-success :
      (rt rt' : Runtime E R)
      → compare_memories E R c rt ≡ some (rt', success)
      → (memory reference : Bytes) × (rt.core.pmem ≡ some memory)
        × (rt.core.device.reference ≡ some reference)
        × Agree c.msize reference memory
        × (rt'.execution ≡ rt.execution)
        × (rt'.core.pmem ≡ rt.core.pmem)
  unfolding compare_memories get_bytes
  compare_memories-success rt rt' e = elim (Bool-cases rt.core.device.reference_fault) [
    | inl faulted ↦ absurd (ground (arith, faulted, e))
    | inr sound ↦ elim (Option-cases rt.core.pmem) [
      | inl absent ↦ absurd (ground (arith, sound, start, no_memory, absent, e))
      | inr (memory, mapped) ↦ elim (Option-cases rt.core.device.reference) [
        | inl none_kept ↦ absurd (ground (arith, sound, mapped, whole memory, start, none_kept, e))
        | inr (reference, kept) ↦
            elim (Bool-cases
              (first_mismatch c.msize 0 reference (λ i. memory (0 + i)) == c.msize)) [
                | inl same ↦ (
                  memory,
                  reference,
                  mapped,
                  kept,
                  all_agree reference memory same,
                  ground (arith, sound, mapped, whole memory, start, kept, same, e),
                  ground (arith, sound, mapped, whole memory, start, kept, same, e),
                )
                | inr differ ↦
                    absurd (ground (arith, sound, mapped, whole memory, start, kept, differ, e))
              ]
      ]
    ]
  ]
    where
      start : guest_to_host c c.mbase ≡ some 0
      start = (whole_memory E R c sup (λ _. 0)).0

      whole : (m : Bytes) → get_bytes c (some m) 0 c.msize ≡ some (λ i. m (0 + i))
      whole m = (whole_memory E R c sup m).1

      all_agree :
          (reference memory : Bytes)
          → (first_mismatch c.msize 0 reference (λ i. memory (0 + i)) == c.msize) ≡ true
          → Agree c.msize reference memory
      all_agree reference memory same =
          elim (mismatch_verdict c.msize reference (λ i. memory (0 + i))) [
            | inl (e, all) ↦ λ j h. all j h ∙ ap memory (zero-add j)
            | inr (e, other) ↦ absurd (cc (sym e ∙ same))
          ]

      no_memory : get_bytes c none 0 c.msize ≡ none
      no_memory = refl

  -- A wait that succeeds in a differential build.
  pub gpu_wait-IsDone :
      (rt rt' : Runtime E R) (h : Handle)
      → differential c ≡ true
      → gpu_wait E R c rt h ≡ some (rt', success)
      → IsDone rt rt'
  unfolding gpu_wait
  gpu_wait-IsDone rt rt' h diff eq =
      elim (Bool-cases (not (valid_device rt.core h) || not rt.core.device.running)) [
        | inl refused ↦ absurd (ground (arith, refused, eq))
        | inr fine ↦ elim (Option-cases (model_wait E rt.execution (world E R rt) wait_limit)) [
          | inl stuck ↦ absurd (ground (arith, fine, stuck, eq))
          | inr ((x, w, completed), ran) ↦ elim (Bool-cases completed) [
            | inr timeout ↦ absurd (ground (arith, fine, ran, timeout, eq))
            | inl ended ↦ elim (Bool-cases (model_fault E x)) [
              | inl faulted ↦ absurd (ground (arith, fine, ran, ended, faulted, eq))
              | inr sound ↦
                  let reached : compare_memories E R c (run_ended E R rt h x w)
                      ≡ some (rt', success) =
                    ground (arith, fine, ran, ended, sound, diff, eq) in
                  let (memory, reference, mapped, kept, agree, same_model, same_memory) =
                    compare_memories-success (run_ended E R rt h x w) rt' reached in
                  let (reference_kept, fault_kept, pmem_kept) =
                    release_launch_args_keeps
                      (with_running E R (with_world E R (record rt { execution = x }) w) false).core
                      h in
                  record {
                    world' = w;
                    ran =
                        ran
                        ∙ ap (λ (t : Bool). some (x, w, t)) ended
                        ∙ ap (λ (y : Option E.State). some (y, w, true)) (sym same_model);
                    same_pmem = same_memory ∙ pmem_kept;
                    memory = memory;
                    mapped = sym pmem_kept ∙ mapped;
                    reference = reference;
                    kept = sym reference_kept ∙ kept;
                    agree = agree;
                  }
            ]
          ]
        ]
      ]
