-- ===== src/Runtime/Execute/Balance.antt =====
-- The argument buffer over a whole launch: a failed launch, and a launch followed by its wait,
-- leave exactly the ranges of the heap free that were free before.
use open_gpu.Prelude.{
  ℕ, ◌≤◌, ◌≡◌, ◌≢◌, refl, ◌∙◌, ◌⊎◌, inl, inr, Bool, true, false, not, Option, none, some, List,
  arith, ◌==◌, Bool-cases, Option-cases, if◌then◌else◌,
}
use open_gpu.Prelude.Chain.{After, After-bind, After-map, After-some}
use open_gpu.Prelude.Word.{u32_max}
use open_gpu.Config.{Config, IsSupported}
use open_gpu.Memory.{guest_to_host, get_bytes}
use open_gpu.Backend.{Model, model_wait, model_fault}
use open_gpu.Runtime.Types.{
  Result, success, invalid_argument, timeout, backend, Handle, Kernel, Allocation, Core,
  valid_device,
}
use open_gpu.Runtime.Alloc.Correct.{IsReady}
use open_gpu.Runtime.Launch.{LaunchInfo, Runtime, geometry, launch_allowed, stage_args, wait_limit}
use open_gpu.Runtime.Execute.{
  differential, Reply, world, with_world, with_reference, with_running, launch_staged,
  launch_checked, gpu_launch, compare_memories, gpu_wait, first_mismatch,
}
use open_gpu.Runtime.Execute.Launching.{
  Holds, IsGivenBack, release-IsGivenBack, Ends, launch_staged-Ends,
}
use open_gpu.Runtime.Execute.Staging.{SameFree, Staged, stage_args-Staged}

module _ (E R : Model) (h : Handle) (rt : Runtime E R) where
  -- The device is not running, holds no buffer, and has the same ranges free as `rt`.
  pub record IsRestored (rt' : Runtime E R) : Type 0 where
    pub stopped : rt'.core.device.running ≡ false
    pub unused : rt'.core.device.launch_args_used ≡ false
    pub same : SameFree rt.core.device.allocations rt'.core.device.allocations

  -- A launch that has passed its checks runs, holding the buffer, or fails and is restored.
  abbrev pub Launched : Reply E R → Type 0
  Launched (rt', e) =
      ((e ≡ success)
        × (rt'.core.device.running ≡ true)
        × (bs : List Allocation) × SameFree rt.core.device.allocations bs
        × Holds h bs rt'.core)
      ⊎ ((e ≢ success) × IsRestored rt')

module _ (E R : Model) (c : Config) (sup : IsSupported c) (rt : Runtime E R) (h : Handle) where
  Ends-Launched :
      (bs : List Allocation)
      → SameFree rt.core.device.allocations bs
      → (x : Reply E R) → Ends E R h bs x
      → Launched E R h rt x
  Ends-Launched bs same (rt', e) (inl (done, held, running)) = inl (done, running, bs, same, held)
  Ends-Launched bs same (rt', e) (inr (ne, back)) =
      inr (ne, record { stopped = back.stopped; unused = back.unused; same = rw back.table same })

  Staged-Launched :
      (s : Core) (failed : Option Result) (k : Kernel) (info : LaunchInfo) (n : ℕ)
      (allocated : Bool)
      → rt.core.device.running ≡ false
      → Staged rt.core h (s, failed)
      → let rt' : Runtime E R = record rt { core = s } in
        After (Launched E R h rt) (elim failed [
          | some e ↦ some (rt', e)
          | none ↦ launch_staged E R c rt' h k info n allocated
        ])
  unfolding Staged
  Staged-Launched s none k info n allocated stopped (bs, same, held, running) =
      let rt' : Runtime E R = record rt { core = s } in
      After-map (Ends E R h bs) (Launched E R h rt) (launch_staged E R c rt' h k info n allocated)
        (Ends-Launched bs same)
        (launch_staged-Ends E R h bs c rt' k info n allocated held (running ∙ stopped))
  Staged-Launched s (some e) k info n allocated stopped (ne, table, unused, running) = inr (
    ne,
    record {
      stopped = running ∙ stopped;
      unused = unused;
      same = rw table (λ z k. ((λ q. q), (λ q. q)));
    },
  )

  launch_checked-Launched :
      (k : Kernel) (info : LaunchInfo) (n : ℕ) (allocated : Bool)
      → IsReady c rt.core
      → valid_device rt.core h ≡ true
      → rt.core.device.running ≡ false
      → info.args_size ≤ u32_max
      → After (Launched E R h rt) (launch_checked E R c rt h k info n allocated)
  unfolding launch_checked
  launch_checked-Launched k info n allocated r valid stopped small =
      After-bind (Launched E R h rt) (stage_args c rt.core h info) _ λ (s, failed) e.
        Staged-Launched s failed k info n allocated stopped (
          After-some (Staged rt.core h) (stage_args c rt.core h info) (s, failed)
            (stage_args-Staged c sup rt.core h r info valid small) e)

  -- `gpu_launch` on a device in order has one of three outcomes. It succeeds: the device is running
  -- and holds an argument buffer, or none is needed, whose release will leave the same ranges of
  -- the heap free as before the call. Or its checks refuse the call as invalid, and nothing
  -- changes. Or it fails later on, and the device is not running, holds no buffer, and has the same
  -- ranges free as before.
  pub gpu_launch_cases :
      (rt' : Runtime E R) (k : Option Kernel) (info : Option LaunchInfo) (allocated : Bool)
      (e : Result)
      → IsReady c rt.core
      → gpu_launch E R c rt h k info allocated ≡ some (rt', e)
      → Launched E R h rt (rt', e) ⊎ ((e ≡ invalid_argument) × (rt' ≡ rt))
  unfolding gpu_launch launch_allowed
  gpu_launch_cases rt' none info allocated e r eq = inr (cc, cc)
  gpu_launch_cases rt' (some k) none allocated e r eq = inr (cc, cc)
  gpu_launch_cases rt' (some k) (some info) allocated e r eq =
      elim (Bool-cases (launch_allowed rt.core h k info)) [
        | inr refused ↦ inr (ground (arith, refused, eq), ground (arith, refused, eq))
        | inl allowed ↦ elim (Option-cases (geometry c info)) [
          | inl outside ↦
              inr (ground (arith, allowed, outside, eq), ground (arith, allowed, outside, eq))
          | inr (n, inside) ↦
              let reached : launch_checked E R c rt h k info n allocated ≡ some (rt', e) =
                ground (arith, allowed, inside, eq) in
              inl (
                After-some (Launched E R h rt) (launch_checked E R c rt h k info n allocated)
                  (rt', e)
                  (launch_checked-Launched k info n allocated r (ground (arith, allowed))
                    (ground (arith, allowed)) (ground (arith, allowed)))
                  reached)
        ]
      ]

module _ (E R : Model) (c : Config) (h : Handle) (bs : List Allocation) where
  abbrev Back : Reply E R → Type 0
  Back (rt, e) = IsGivenBack bs rt.core

  compare_memories-Back :
      (rt : Runtime E R) → IsGivenBack bs rt.core → After Back (compare_memories E R c rt)
  unfolding compare_memories
  compare_memories-Back rt back = elim (Bool-cases rt.core.device.reference_fault) [
    | inl faulted ↦
        rw faulted (record { table = back.table; unused = back.unused; stopped = back.stopped })
    | inr sound ↦ rw sound (
        After-bind Back (guest_to_host c c.mbase) _ λ off e.
          After-bind Back (get_bytes c rt.core.pmem off c.msize) _ λ actual e'.
            After-bind Back rt.core.device.reference _ λ reference e''.
              elim (Bool-cases (first_mismatch c.msize 0 reference actual == c.msize)) [
                | inl agree ↦
                    rw agree
                      (record { table = back.table; unused = back.unused; stopped = back.stopped })
                | inr differ ↦
                    rw differ
                      (record { table = back.table; unused = back.unused; stopped = back.stopped })
              ])
  ]

  -- The four ways in which the verdict can fall.
  verdict-Back :
      (idle : Runtime E R) (completed verdict diff : Bool)
      → IsGivenBack bs idle.core
      → After Back (
          if not completed
          then some (
            if diff then with_reference E R idle none else idle,
            if verdict then backend else timeout,
          )
          else if verdict
          then some (idle, backend)
          else if diff
          then compare_memories E R c idle
          else some (idle, success))
  verdict-Back idle false verdict false back = back
  verdict-Back idle false verdict true back = record {
    table = back.table;
    unused = back.unused;
    stopped = back.stopped;
  }
  verdict-Back idle true true diff back = back
  verdict-Back idle true false true back = compare_memories-Back idle back
  verdict-Back idle true false false back = back

  gpu_wait-Back :
      (rt : Runtime E R)
      → Holds h bs rt.core
      → rt.core.device.running ≡ true
      → After Back (gpu_wait E R c rt h)
  unfolding gpu_wait valid_device
  gpu_wait-Back rt held running =
      rw (held.valid, running)
        (After-bind Back (model_wait E rt.execution (world E R rt) wait_limit) _
          λ (m, w, completed) e. verdict-Back _ completed (model_fault E m) (differential c) (
            release-IsGivenBack h bs
              (with_running E R (with_world E R (record rt { execution = m }) w) false).core
              (record { valid = held.valid; undo = held.undo }) refl))

-- A launch that succeeds, followed by the wait for it, leaves the device stopped, holding no
-- argument buffer, with exactly the ranges of the heap free that were free before the launch,
-- whatever the verdict of the wait.
pub gpu_wait-gpu_launch :
    (E R : Model) (c : Config) (rt rt' rt'' : Runtime E R) (h : Handle) (k : Option Kernel)
    (info : Option LaunchInfo) (allocated : Bool) (e : Result)
    → IsSupported c
    → IsReady c rt.core
    → gpu_launch E R c rt h k info allocated ≡ some (rt', success)
    → gpu_wait E R c rt' h ≡ some (rt'', e)
    → IsRestored E R h rt rt''
gpu_wait-gpu_launch E R c rt rt' rt'' h k info allocated e sup r launched waited =
    elim (gpu_launch_cases E R c sup rt h rt' k info allocated success r launched) [
      | inr (ne, _) ↦ cc
      | inl (inr (ne, _)) ↦ absurd (ne refl)
      | inl (inl (_, running, bs, same, held)) ↦
          let back =
            After-some (Back E R c h bs) (gpu_wait E R c rt' h) (rt'', e)
              (gpu_wait-Back E R c h bs rt' held running) waited in
          record { stopped = back.stopped; unused = back.unused; same = rw back.table same }
    ]
