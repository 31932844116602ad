-- ===== src/Tests/Launch.antt =====
-- Launches and waits with a simulator that does nothing.
use open_gpu.Prelude.{ℕ, ◌+◌, ◌≡◌, ◌↔◌, ◌⊎◌, refl, true, false, some, none, arith}
use open_gpu.Config.{Config, IsSupported, kernel_base}
use open_gpu.Trace.{initial_trace}
use open_gpu.Backend.{Model, model_dcr_write, model_launch, model_wait, model_fault}
use open_gpu.Runtime.Types.{success, backend, invalid_argument, singleton, Kernel, valid_device}
use open_gpu.Runtime.Alloc.Correct.{IsReady}
use open_gpu.Runtime.Range.{mul_u32}
use open_gpu.Runtime.Launch.{
  LaunchInfo, Runtime, has_zero, volume, geometry, launch_allowed, stage_args, release_launch_args,
  configure_model,
}
use open_gpu.Runtime.Launch.Geometry.{IsGeometry, geometry_iff}
use open_gpu.Runtime.Execute.{
  gpu_launch, launch_checked, launch_staged, start_execution, gpu_wait, with_reference, world,
}
use open_gpu.Runtime.Execute.Waiting.{run_ended, Agree, Differ, gpu_wait_verdict}
use open_gpu.Runtime.Execute.Balance.{Launched, IsRestored, gpu_launch_cases, gpu_wait-gpu_launch}
use open_gpu.Memory.{Bytes}
use open_gpu.Prelude.Word.{add32}
use open_gpu.Runtime.Transfer.{kernel_load_memory}
use open_gpu.Runtime.Transfer.Loading.{loaded_byte, with_kernel, kernel_load_memory_lem}
use open_gpu.Runtime.Execute.Stale.{start, load, gpu_launch-Loads}
use open_gpu.Tests.Fixture.{
  opened-valid, default_config, default-IsSupported, zeros, opened_core, opened-IsReady,
}

-- It starts, completes at once, and never faults.
abbrev pub idle_model : Model
idle_model = record {
  State = ℕ;
  create = λ w _ _. some (some 0, w);
  dcr_write = λ x w _ _. some (x + 1, w);
  launch = λ x w. some (x, w, true);
  wait = λ x w _. some (x, w, true);
  fault = λ _. false;
}

-- configs/gpu_sm_defconfig
abbrev pub sm_config : Config
sm_config = record default_config { hm = false; difftest = false }

sm-IsSupported : IsSupported sm_config
sm-IsSupported = omega arith

abbrev pub kernel : Kernel
kernel = record { device = singleton; entry = kernel_base; generation = 0 }

abbrev pub info : LaunchInfo
info = record {
  grid_dim = record { x = 3; y = 1; z = 1 };
  block_dim = record { x = 4; y = 2; z = 2 };
  args_host = none;
  args_size = 0;
}

-- The image of a kernel, and the kernel of the first load.
abbrev ones : Bytes
ones _ = 1

abbrev reloaded : Kernel
reloaded = record { device = singleton; entry = kernel_base; generation = add32 0 1 }

geometry_iff_example : (geometry default_config info ≡ some 16) ↔ IsGeometry default_config info 16
geometry_iff_example = geometry_iff default_config info 16 (omega arith) (omega arith)

abbrev pub before : Runtime idle_model idle_model
before = record {
  core = opened_core;
  trace = initial_trace;
  execution = some 0;
  reference_model = none;
}

-- After the launch: ten registers are written, and the device runs.
abbrev running_runtime : Runtime idle_model idle_model
running_runtime = record before {
  core = record opened_core { device = record opened_core.device { running = true } };
  execution = some 10;
}

abbrev after : Runtime idle_model idle_model
after = record before { execution = some 10 }

launches :
    gpu_launch idle_model idle_model sm_config before singleton (some kernel) (some info) true
    ≡ some (running_runtime, success)
unfolding gpu_launch launch_checked launch_staged start_execution launch_allowed geometry has_zero
    volume mul_u32 stage_args configure_model model_dcr_write model_launch valid_device
launches = refl

waits : gpu_wait idle_model idle_model sm_config running_runtime singleton ≡ some (after, success)
unfolding gpu_wait model_wait model_fault release_launch_args valid_device
waits = refl

sm-IsReady : IsReady sm_config opened_core
sm-IsReady = record { mapped = (zeros, refl); table = opened-IsReady.table }

gpu_launch_cases_example :
    Launched idle_model idle_model singleton before (running_runtime, success)
    ⊎ ((success ≡ invalid_argument) × (running_runtime ≡ before))
gpu_launch_cases_example =
    gpu_launch_cases idle_model idle_model sm_config sm-IsSupported before singleton running_runtime
      (some kernel) (some info) true success sm-IsReady launches

gpu_wait-gpu_launch_example : IsRestored idle_model idle_model singleton before after
gpu_wait-gpu_launch_example =
    gpu_wait-gpu_launch idle_model idle_model sm_config before running_runtime after singleton
      (some kernel) (some info) true success sm-IsSupported sm-IsReady launches waits

-- A differential run in progress, with the reference model's memory kept.
abbrev compared : Runtime idle_model idle_model
compared = record running_runtime {
  core = record running_runtime.core {
    device = record running_runtime.core.device { reference = some zeros };
  };
  reference_model = some 10;
}

gpu_wait_verdict_example :
    let rt' =
      with_reference idle_model idle_model
        (run_ended idle_model idle_model compared singleton
          (some 10)
          (world idle_model idle_model compared))
        none in
    ((gpu_wait idle_model idle_model default_config compared singleton ≡ some (rt', success))
      × Agree default_config.msize zeros zeros)
    ⊎ ((gpu_wait idle_model idle_model default_config compared singleton ≡ some (rt', backend))
        × Differ default_config.msize zeros zeros)
unfolding valid_device model_wait model_fault
gpu_wait_verdict_example =
    gpu_wait_verdict idle_model idle_model default_config default-IsSupported compared singleton
      (some 10) (world idle_model idle_model compared) zeros zeros refl refl refl refl refl refl
      refl refl

-- The load of an image on a device just opened.
first_load :
    (m' : Bytes) × (kernel_load_memory sm_config opened_core singleton (some ones) 24 true true
      ≡ some (with_kernel opened_core reloaded m', success, some reloaded))
    × ((a : ℕ) → m' a ≡ loaded_byte sm_config zeros ones 24 a)
first_load =
    kernel_load_memory_lem sm_config sm-IsSupported opened_core singleton zeros ones 24 refl
      opened-valid (omega arith) (omega arith)

abbrev after_load : Runtime idle_model idle_model
after_load = record before { core = with_kernel opened_core reloaded first_load.0 }

-- The kernel of generation 0 is older than that load.
gpu_launch-Loads_example :
    gpu_launch idle_model idle_model sm_config after_load singleton (some kernel) (some info) true
    ≡ some (after_load, invalid_argument)
gpu_launch-Loads_example =
    gpu_launch-Loads idle_model idle_model sm_config after_load opened_core 1 singleton kernel
      (some info) true (omega arith) refl (load singleton ones 24 reloaded start first_load.1)
      (omega arith) (omega arith)
