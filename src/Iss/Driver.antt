-- ===== src/Iss/Driver.antt =====
-- The software model behind the interface of sw/sim/model.h: the branches of sw/sim/model.cpp for
-- `GPU_MODEL_SM`, which drive the instruction-set simulator.
pub mod Accepts
use Prim.Native.String.{String}
use open_gpu.Prelude.{
  ℕ, Bool, true, false, Option, none, some, List, [], ◌==◌, if◌then◌else◌, ◌>>=◌,
}
use open_gpu.Config.{Config}
use open_gpu.Backend.{World, Model}
use open_gpu.Iss.State.{Iss, initial_registers, iss_init, iss_dcr_write}
use open_gpu.Iss.Step.{iss_done, iss_run}
use open_gpu.Iss.Grid.{iss_launch}

-- `struct gpu_model` of the software kind, with the globals of the simulator.
pub record SmState : Type 0 where
  pub num_harts : ℕ
  pub iss : Iss

-- The globals of the simulator before the program starts.
abbrev pub initial_iss : Iss
initial_iss = record {
  cores = [];
  physical_count = 0;
  rr = 0;
  registers = initial_registers;
  faulted = false;
}

-- `before` is what the globals hold at the call: the initial values, or what an earlier run has
-- left, of which `gpu_iss_init` keeps the registers.
unfoldable pub sm_create : Iss → World → ℕ → List String → Option (Option SmState × World)
sm_create before w num_harts argv =
    if num_harts == 0
    then some (none, w)
    else some (some (record { num_harts = num_harts; iss = iss_init num_harts before }), w)

unfoldable pub sm_dcr_write : SmState → World → ℕ → ℕ → Option (SmState × World)
sm_dcr_write x w addr word =
    some
      (record x { iss = record x.iss { registers = iss_dcr_write addr word x.iss.registers } }, w)

-- `allocated` is the outcome of the `calloc` of the lanes.
unfoldable pub sm_launch : Config → Bool → SmState → World → Option (SmState × World × Bool)
sm_launch c allocated x w = do
  (s, launched) ← iss_launch c (iss_init x.num_harts x.iss) allocated
  some (record x { iss = s }, w, launched)

unfoldable pub sm_wait : Config → SmState → World → ℕ → Option (SmState × World × Bool)
sm_wait c x w max_steps = do
  (s, w') ← iss_run max_steps c x.iss w
  some (record x { iss = s }, w', iss_done s)

abbrev pub sm_model : Config → Iss → Bool → Model
sm_model c before allocated = record {
  State = SmState;
  create = sm_create before;
  dcr_write = sm_dcr_write;
  launch = sm_launch c allocated;
  wait = sm_wait c;
  fault = λ x. x.iss.faulted;
}
