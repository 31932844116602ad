-- ===== src/Runtime/Execute/Staging.antt =====
-- What the staging of the arguments leaves: the buffer held over an equivalent table of blocks,
-- or an error and the table as it was.
use open_gpu.Prelude.{
  ℕ, ◌≤◌, ◌<◌, ◌≡◌, ◌≢◌, ◌↔◌, refl, inl, inr, true, false, Option, none, some, List, arith, ◌==◌,
  Bool-cases, Option-cases,
}
use open_gpu.Prelude.Chain.{After, After-bind}
use open_gpu.Prelude.Word.{u32_max}
use open_gpu.Config.{Config, IsSupported}
use open_gpu.Runtime.Types.{Result, success, Handle, Allocation, Core, valid_device}
use open_gpu.Runtime.Alloc.{mem_free, release, released}
use open_gpu.Runtime.Alloc.Blocks.{IsFree}
use open_gpu.Runtime.Alloc.Correct.{IsReady, Allocated, rounded, mem_alloc_cases}
use open_gpu.Runtime.Alloc.Release.{mem_free-mem_alloc}
use open_gpu.Runtime.Transfer.{raw_write}
use open_gpu.Runtime.Launch.{LaunchInfo, stage_args, staged}
use open_gpu.Runtime.Execute.Launching.{Holds}

-- The same ranges miss all blocks in use of both tables.
abbrev pub SameFree : List Allocation → List Allocation → Type 0
SameFree bs bs' = (z k : ℕ) → IsFree bs' z k ↔ IsFree bs z k

-- A release that succeeds has found its block.
mem_free-release :
    (s s' : Core) (h : Handle) (address : ℕ)
    → valid_device s h ≡ true
    → mem_free s h address ≡ (s', success)
    → release address s.device.allocations ≡ some s'.device.allocations
unfolding mem_free released
mem_free-release s s' h address valid e =
    elim (Option-cases (release address s.device.allocations)) [
      | inl stop ↦ absurd (ground (arith, valid, stop, e))
      | inr (bs, found) ↦ ground (arith, valid, found, e)
    ]

-- The globals at the start of the staging.
abbrev fresh : Core → Core
fresh s = record s { device = record s.device { launch_args = 0; launch_args_used = false } }

-- What the staging leaves: the buffer held over an equivalent table, or an error and the old table.
unfoldable pub Staged : Core → Handle → Core × Option Result → Type 0
Staged s h (s', none) =
    (bs : List Allocation) × SameFree s.device.allocations bs
    × Holds h bs s'
    × (s'.device.running ≡ s.device.running)
Staged s h (s', some e) =
    (e ≢ success)
    × (s'.device.allocations ≡ s.device.allocations)
    × (s'.device.launch_args_used ≡ false)
    × (s'.device.running ≡ s.device.running)

module _ (c : Config) (sup : IsSupported c) (s : Core) (h : Handle) (r : IsReady c s) where
  staged_buffer :
      (info : LaunchInfo) (s' : Core) (n a : ℕ)
      → valid_device s h ≡ true
      → 0 < n
      → Allocated c (fresh s) s' n a
      → After (Staged s h) (staged c s' info success (some a))
  unfolding staged Staged valid_device
  staged_buffer info s' n a valid pos done =
      let ready : IsReady c (fresh s) = record { mapped = r.mapped; table = r.table } in
      let (s'', e, same) = mem_free-mem_alloc c (fresh s) s' h n a ready valid pos done in
      let valid' : valid_device s' h ≡ true = rw done.after valid in
      let found = mem_free-release s' s'' h a valid' e in
      let running : s'.device.running ≡ s.device.running = rw done.after refl in
      elim (Option-cases info.args_host) [
        | inl missing ↦ rw missing tt
        | inr (source, given) ↦ rw given (
            After-bind (Staged s h) (raw_write c s'.pmem a source info.args_size) _ λ p e'. (
              s''.device.allocations,
              same,
              record { valid = valid'; undo = inl (refl, found) },
              running,
            ))
      ]

  pub stage_args-Staged :
      (info : LaunchInfo)
      → valid_device s h ≡ true
      → info.args_size ≤ u32_max
      → After (Staged s h) (stage_args c s h info)
  unfolding stage_args Staged valid_device
  stage_args-Staged info valid small = elim (Bool-cases (info.args_size == 0)) [
    | inl empty ↦ rw empty (
      s.device.allocations,
      (λ z k. ((λ q. q), (λ q. q))),
      record { valid = valid; undo = inr (refl, refl) },
      refl,
    )
    | inr some_args ↦
        let pos : 0 < info.args_size = ground (arith, some_args) in
        let ready : IsReady c (fresh s) = record { mapped = r.mapped; table = r.table } in
        rw some_args
          (elim (mem_alloc_cases c sup (fresh s) h info.args_size ready valid pos small) [
            | inl (s', a, e, done) ↦
                rw e (staged_buffer info s' (rounded info.args_size) a valid (omega arith) done)
            | inr (e, _) ↦ rw e ((λ eq. cc), refl, refl, refl)
          ])
  ]
