-- ===== src/Tests/Host.antt =====
-- The entry of a host program, on an application that leaves its device open.
use Prim.Native.String.{String}
use open_gpu.Prelude.{ℕ, ◌≡◌, ◌⊎◌, refl, true, false, Option, none, some, List, [], ◌∷◌}
use open_gpu.Memory.{init_mem}
use open_gpu.Runtime.Launch.{Runtime}
use open_gpu.Runtime.Init.{behind, runtime_init, create_models, parse_args, zero_device}
use open_gpu.Trace.{initial_trace}
use open_gpu.Host.{Frontend, host_main}
use open_gpu.Host.Shutdown.{IsShut, host_main-IsShut}
use open_gpu.Tests.Launch.{idle_model, sm_config}
use open_gpu.Tests.Kernels.{tiny_strtoull}

-- The globals before the program starts.
abbrev asleep : Runtime idle_model idle_model
asleep = record {
  core = record { initialized = false; device = zero_device; pmem = none };
  trace = initial_trace;
  execution = none;
  reference_model = none;
}

abbrev application : Frontend idle_model idle_model
application argv rt =
    some
      (record rt { core = record rt.core { device = record rt.core.device { opened = true } } }, 7)

abbrev ended : Runtime idle_model idle_model
ended = ended_by (
    host_main idle_model idle_model sm_config tiny_strtoull application asleep "vecadd" ("-v" ∷ [])
      true)
  where
    ended_by : Option (Runtime idle_model idle_model × ℕ) → Runtime idle_model idle_model
    ended_by none = asleep
    ended_by (some (rt, status)) = rt

ends :
    host_main idle_model idle_model sm_config tiny_strtoull application asleep "vecadd"
      ("-v" ∷ [])
      true
    ≡ some (ended, 7)
unfolding host_main runtime_init parse_args behind init_mem create_models
ends = refl

host_main-IsShut_example :
    IsShut idle_model idle_model sm_config ended
    × ((◌≡◌ {A = ℕ} 7 2)
        ⊎ ((argv : List String) × (before : Runtime idle_model idle_model) × (after : Runtime
              idle_model idle_model)
            × (before.core.initialized ≡ true)
            × (application argv before ≡ some (after, 7))))
host_main-IsShut_example =
    host_main-IsShut idle_model idle_model sm_config tiny_strtoull application asleep ended "vecadd"
      ("-v" ∷ []) true 7 refl ends
