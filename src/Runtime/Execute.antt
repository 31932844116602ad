-- ===== src/Runtime/Execute.antt =====
-- `gpu_launch` and `gpu_wait` of sw/runtime/gpu/gpu.c as a whole. An outcome of `none` is a process
-- that aborts, or an access that C leaves undefined.
pub mod Waiting
pub mod Launching
pub mod Staging
pub mod Balance
pub mod Stale
pub mod Reached
pub mod Referenced
pub mod Started
pub mod Waited
use open_gpu.Prelude.{
  ℕ, zero, suc, ◌+◌, ◌%◌, Bool, true, false, not, ◌&&◌, ◌||◌, Option, none, some, ltb, ◌==◌,
  if◌then◌else◌, ◌>>=◌,
}
use open_gpu.Prelude.Word.{u32_mod}
use open_gpu.Config.{Config}
use open_gpu.Memory.{Bytes, Pmem, guest_to_host, put_bytes, get_bytes}
use open_gpu.Trace.{Trace, trace_suppress}
use open_gpu.Backend.{World, Model, model_launch, model_wait, model_fault}
use open_gpu.Runtime.Types.{
  Result, success, invalid_argument, out_of_memory, bad_state, timeout, backend, Handle, Kernel,
  Device, Core, valid_device,
}
use open_gpu.Runtime.Launch.{
  LaunchInfo, Runtime, geometry, launch_allowed, release_launch_args, stage_args, configure_model,
  wait_limit,
}

-- `defined(CONFIG_HM) && defined(CONFIG_DIFFTEST)`
abbrev pub differential : Config → Bool
differential c = c.hm && c.difftest

-- `while (i < n && left[i] == right[i]) ++i`, from `i` on with `n - i` bytes to go.
unfoldable pub first_mismatch : ℕ → ℕ → Bytes → Bytes → ℕ
first_mismatch zero i left right = i
first_mismatch (suc k) i left right =
    let rest = first_mismatch k (i + 1) left right in if left i == right i then rest else i

module _ (E R : Model) where
  -- What `gpu_launch` and `gpu_wait` return.
  abbrev pub Reply : Type 0
  Reply = Runtime E R × Result

  abbrev pub world : Runtime E R → World
  world rt = record { pmem = rt.core.pmem; trace = rt.trace }

  abbrev pub with_world : Runtime E R → World → Runtime E R
  with_world rt w = record rt { core = record rt.core { pmem = w.pmem }; trace = w.trace }

  abbrev pub with_reference : Runtime E R → Option Bytes → Runtime E R
  with_reference rt b = record rt {
    core = record rt.core { device = record rt.core.device { reference = b } };
  }

  abbrev pub released_args : Runtime E R → Handle → Runtime E R
  released_args rt h = record rt { core = release_launch_args rt.core h }

  abbrev pub with_running : Runtime E R → Bool → Runtime E R
  with_running rt b = record rt {
    core = record rt.core { device = record rt.core.device { running = b } };
  }

  -- The launch of the execution model, and what follows in every build.
  unfoldable pub start_execution : Runtime E R → Handle → Option Reply
  start_execution rt h = do
    (m, w, started) ← model_launch E rt.execution (world rt)
    let rt' = with_world (record rt { execution = m }) w
    if started
        then some (with_running rt' true, success)
        else some (released_args (with_reference rt' none) h, backend)

  -- The run of the reference model: its launch, and its wait if it has started.
  unfoldable pub run_reference : Runtime E R → Option (Runtime E R × Bool)
  run_reference rt = do
    (m, w, started) ← model_launch R rt.reference_model (world rt)
    (m', w', finished) ← (if started then model_wait R m w wait_limit else some (m, w, false))
    some (with_world (record rt { reference_model = m' }) w', started && finished)

  -- What follows the run of the reference model, `initial` being the snapshot of the memory.
  unfoldable pub after_reference : Config → Runtime E R → Handle → Bytes → Bool → Option Reply
  after_reference c rt h initial false = some (released_args (with_reference rt none) h, timeout)
  after_reference c rt h initial true = do
    off ← guest_to_host c c.mbase
    result ← get_bytes c rt.core.pmem off c.msize
    restored ← put_bytes c rt.core.pmem off c.msize initial
    let core = record rt.core {
      device = record rt.core.device { reference = some result };
      pmem = restored;
    }
    start_execution (record rt { core = core }) h

  -- The part of a differential build; `allocated` says that both buffers are given.
  unfoldable pub launch_differential : Config → Runtime E R → Handle → Bool → Option Reply
  launch_differential c rt h false = some (released_args (with_reference rt none) h, out_of_memory)
  launch_differential c rt h true = do
    off ← guest_to_host c c.mbase
    initial ← get_bytes c rt.core.pmem off c.msize
    let quiet = record rt { trace = trace_suppress true rt.trace }
    (ran, done) ← run_reference quiet
    let device = record ran.core.device { reference_fault = model_fault R ran.reference_model }
    let loud = record ran {
      core = record ran.core { device = device };
      trace = trace_suppress false ran.trace;
    }
    after_reference c loud h initial done

  -- The part of `gpu_launch` after the staging of the arguments.
  unfoldable pub launch_staged :
      Config → Runtime E R → Handle → Kernel → LaunchInfo → ℕ → Bool → Option Reply
  launch_staged c rt h k info block_size allocated =
      let args = rt.core.device.launch_args in
      let size = info.args_size % u32_mod in
      (do
        (m, w) ←
            configure_model E rt.execution (world rt) k.entry args size info.grid_dim info.block_dim
              block_size
        (r, w') ←
            (if differential c
              then configure_model R rt.reference_model w k.entry args size info.grid_dim
                  info.block_dim block_size
              else some (rt.reference_model, w))
        let configured = with_world (record rt { execution = m; reference_model = r }) w'
        let ready = record configured { trace = record configured.trace { events = 0 } }
        if differential c then launch_differential c ready h allocated else start_execution ready h)

  unfoldable pub launch_checked :
      Config → Runtime E R → Handle → Kernel → LaunchInfo → ℕ → Bool → Option Reply
  launch_checked c rt h k info block_size allocated = do
    (s, failed) ← stage_args c rt.core h info
    let rt' = record rt { core = s }
    elim failed [
      | some e ↦ some (rt', e)
      | none ↦ launch_staged c rt' h k info block_size allocated
    ]

  -- `gpu_launch`; `none` for a NULL kernel or info, `allocated` as above.
  unfoldable pub gpu_launch :
      Config → Runtime E R → Handle → Option Kernel → Option LaunchInfo → Bool → Option Reply
  gpu_launch c rt h none info allocated = some (rt, invalid_argument)
  gpu_launch c rt h (some k) none allocated = some (rt, invalid_argument)
  gpu_launch c rt h (some k) (some info) allocated =
      if not (launch_allowed rt.core h k info)
      then some (rt, invalid_argument)
      else elim (geometry c info) [
        | none ↦ some (rt, invalid_argument)
        | some block_size ↦ launch_checked c rt h k info block_size allocated
      ]

  -- The comparison at the end of `gpu_wait` in a differential build.
  unfoldable pub compare_memories : Config → Runtime E R → Option Reply
  compare_memories c rt =
      if rt.core.device.reference_fault then some (with_reference rt none, backend) else (do
        off ← guest_to_host c c.mbase
        actual ← get_bytes c rt.core.pmem off c.msize
        reference ← rt.core.device.reference
        if first_mismatch c.msize 0 reference actual == c.msize
            then some (with_reference rt none, success)
            else some (with_reference rt none, backend))

  unfoldable pub gpu_wait : Config → Runtime E R → Handle → Option Reply
  gpu_wait c rt h =
      if not (valid_device rt.core h) || not rt.core.device.running
      then some (rt, bad_state)
      else (do
        (m, w, completed) ← model_wait E rt.execution (world rt) wait_limit
        let stopped = with_running (with_world (record rt { execution = m }) w) false
        let idle = released_args stopped h
        let verdict = model_fault E m
        if not completed
            then some (
              if differential c then with_reference idle none else idle,
              if verdict then backend else timeout,
            )
            else if verdict
            then some (idle, backend)
            else if differential c
            then compare_memories c idle
            else some (idle, success))
