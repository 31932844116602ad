-- ===== src/Runtime/Execute/Reached.antt =====
-- What holds after a launch that succeeds, if it holds after the part of the launch that follows the
-- configuration of the models.
use open_gpu.Prelude.{
  ℕ, ◌≤◌, ◌%◌, ◌≡◌, ◌≢◌, refl, ap, inl, inr, Bool, true, Option, none, some, arith, Bool-cases,
  Option-cases, if◌then◌else◌, ◌>>=◌,
}
use open_gpu.Prelude.Word.{u32_mod, u32_max}
use open_gpu.Prelude.Chain.{After, After-bind, After-some, After-then}
use open_gpu.Config.{Config, IsSupported}
use open_gpu.Backend.{World, Model, model_dcr_write}
use open_gpu.Runtime.Types.{Result, success, Handle, Kernel, Core, valid_device}
use open_gpu.Runtime.Launch.{
  LaunchInfo, Dims, Runtime, geometry, launch_allowed, stage_args, configure_model,
}
use open_gpu.Runtime.Execute.{
  differential, world, start_execution, launch_differential, launch_staged, launch_checked,
  gpu_launch,
}
use open_gpu.Runtime.Alloc.Correct.{IsReady}
use open_gpu.Runtime.Execute.Staging.{Staged, stage_args-Staged}

-- The ten writes keep what one write keeps.
module _ (M : Model) (P : Option M.State → Type 0)
    (keeps : (x : Option M.State) (w : World) (addr word : ℕ)
      → P x
      → After (λ (x', w'). P x') (model_dcr_write M x w addr word)) where
  Keeps : Option M.State × World → Type 0
  Keeps (x, w) = P x

  pub configure_model-kept :
      (x : Option M.State) (w : World) (entry args size : ℕ) (grid block : Dims) (n : ℕ)
      → P x
      → After (λ (x', w'). P x') (configure_model M x w entry args size grid block n)
  unfolding configure_model
  configure_model-kept x w entry args size grid block n h = next x w _ entry _ h λ x w h.
      next x w _ args _ h λ x w h. next x w _ size _ h λ x w h. next x w _ block.x _ h λ x w h.
        next x w _ block.y _ h λ x w h. next x w _ block.z _ h λ x w h.
          next x w _ grid.x _ h
            λ x w h. next x w _ grid.y _ h λ x w h. next x w _ grid.z _ h λ x w h. keeps x w _ n h
    where
      next :
          (x : Option M.State) (w : World) (addr word : ℕ)
          (f : Option M.State × World → Option (Option M.State × World))
          → P x
          → ((x : Option M.State) (w : World) → P x → After (λ (x', w'). P x') (f (x, w)))
          → After (λ (x', w'). P x') (model_dcr_write M x w addr word >>= f)
      next x w addr word f h k =
          After-then (λ (x', w'). P x') (λ (x', w'). P x') (model_dcr_write M x w addr word) f
            (keeps x w addr word h) (λ (x', w') h'. k x' w' h')

Staged-failed :
    (s s' : Core) (failed : Option Result) (h : Handle)
    → Staged s h (s', failed)
    → failed ≢ some success
unfolding Staged
Staged-failed s s' none h staged = λ e. cc e
Staged-failed s s' (some e) h (ne, table, unused, running) = λ q. ne (cc q)

-- `P` is what the execution model is before the launch, and `Q` what the rest of the launch makes
-- of the globals, if it succeeds.
module _ (E R : Model) (h : Handle) (c : Config) (P : Option E.State → Type 0)
    (Q : Runtime E R → Type 0)
    (keeps : (x : Option E.State) (w : World) (addr word : ℕ)
      → P x
      → After (λ (x', w'). P x') (model_dcr_write E x w addr word))
    (rest : (rt : Runtime E R) (allocated : Bool)
      → P rt.execution
      → After
          (λ (rt', e). e ≡ success → Q rt')
          (if differential c
            then launch_differential E R c rt h allocated
            else start_execution E R rt h)) where
  launch_staged-reached :
      (rt : Runtime E R) (k : Kernel) (info : LaunchInfo) (n : ℕ) (allocated : Bool)
      → P rt.execution
      → After (λ (rt', e). e ≡ success → Q rt') (launch_staged E R c rt h k info n allocated)
  unfolding launch_staged
  launch_staged-reached rt k info n allocated p =
      let args = rt.core.device.launch_args in
      let size = info.args_size % u32_mod in
      After-then (λ (x, w). P x) (λ (rt', e). e ≡ success → Q rt')
        (configure_model E rt.execution (world E R rt) k.entry args size info.grid_dim
          info.block_dim n)
        _
        (configure_model-kept E P keeps rt.execution (world E R rt) k.entry args size info.grid_dim
          info.block_dim n p)
        λ (m, w) p'.
          After-bind (λ (rt', e). e ≡ success → Q rt')
            (if differential c
              then configure_model R rt.reference_model w k.entry args size info.grid_dim
                  info.block_dim n
              else some (rt.reference_model, w))
            _ λ (m', w') e'. rest _ allocated p'

  staged-reached :
      (rt : Runtime E R) (s : Core) (failed : Option Result) (k : Kernel) (info : LaunchInfo)
      (n : ℕ) (allocated : Bool)
      → P rt.execution
      → failed ≢ some success
      → let rt' : Runtime E R = record rt { core = s } in
        After
          (λ (rt', e). e ≡ success → Q rt')
          (elim failed [
            | some e ↦ some (rt', e)
            | none ↦ launch_staged E R c rt' h k info n allocated
          ])
  staged-reached rt s none k info n allocated p ne =
      launch_staged-reached (record rt { core = s }) k info n allocated p
  staged-reached rt s (some e) k info n allocated p ne =
      λ done. absurd (ne (ap (λ (x : Result). some x) done))

  launch_checked-reached :
      (rt : Runtime E R) (k : Kernel) (info : LaunchInfo) (n : ℕ) (allocated : Bool)
      → IsSupported c
      → IsReady c rt.core
      → valid_device rt.core h ≡ true
      → info.args_size ≤ u32_max
      → P rt.execution
      → After (λ (rt', e). e ≡ success → Q rt') (launch_checked E R c rt h k info n allocated)
  unfolding launch_checked
  launch_checked-reached rt k info n allocated sup r valid small p =
      After-bind (λ (rt', e). e ≡ success → Q rt') (stage_args c rt.core h info) _
        λ (s, failed) e.
          let staged =
            After-some (Staged rt.core h) (stage_args c rt.core h info) (s, failed)
              (stage_args-Staged c sup rt.core h r info valid small) e in
          staged-reached rt s failed k info n allocated p (Staged-failed rt.core s failed h staged)

  -- A launch that succeeds has reached the end of its rest.
  pub gpu_launch-reached :
      (rt rt' : Runtime E R) (k : Option Kernel) (info : Option LaunchInfo) (allocated : Bool)
      → IsSupported c
      → IsReady c rt.core
      → P rt.execution
      → gpu_launch E R c rt h k info allocated ≡ some (rt', success)
      → Q rt'
  unfolding gpu_launch launch_allowed
  gpu_launch-reached rt rt' none info allocated sup r p eq = absurd (cc eq)
  gpu_launch-reached rt rt' (some k) none allocated sup r p eq = absurd (cc eq)
  gpu_launch-reached rt rt' (some k) (some info) allocated sup r p eq =
      elim (Bool-cases (launch_allowed rt.core h k info)) [
        | inr refused ↦ absurd (ground (arith, refused, eq))
        | inl allowed ↦ elim (Option-cases (geometry c info)) [
          | inl outside ↦ absurd (ground (arith, allowed, outside, eq))
          | inr (n, inside) ↦
              let reached : launch_checked E R c rt h k info n allocated ≡ some (rt', success) =
                ground (arith, allowed, inside, eq) in
              After-some (λ (x, e). e ≡ success → Q x)
                (launch_checked E R c rt h k info n allocated) (rt', success)
                (launch_checked-reached rt k info n allocated sup r (ground (arith, allowed))
                  (ground (arith, allowed)) p)
                reached refl
        ]
      ]
