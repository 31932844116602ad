-- ===== src/Rtl/Driver.antt =====
-- The hardware model behind the interface of sw/sim/model.h: the branches of sw/sim/model.cpp for
-- `GPU_MODEL_HM`, which drive the harness. The memory and the trace are the runtime's, and go
-- in and out.
pub mod Agreement
use Prim.Native.String.{String}
use open_gpu.Prelude.{
  ℕ, Bool, true, false, not, ◌||◌, Option, none, some, List, [], ◌==◌, if◌then◌else◌, ◌>>=◌,
}
use open_gpu.Config.{Config}
use open_gpu.Backend.{World, Model}
use open_gpu.Cycle.State.{Store}
use open_gpu.Rtl.Top.{Top}
use open_gpu.Rtl.Harness.{
  Bench, new_bench, rtl_init, gpu_rtl_init, rtl_launch, rtl_dcr_write, rtl_wait, rtl_fault,
}

module _ (T : Top) (sort : List Store → List Store) (tidy : List ℕ → List ℕ) (c : Config) where
  abbrev pub loaded : Bench T → World → Bench T
  loaded b w = record b { pmem = w.pmem; trace = w.trace }

  abbrev pub stored : Bench T → World → World
  stored b w = record w { pmem = b.pmem; trace = b.trace }

  -- `gpu_model_create` and `gpu_model_init`, the first in a program
  unfoldable pub hm_create : World → ℕ → List String → Option (Option (Bench T) × World)
  hm_create w num_harts argv = if not c.hm || num_harts == 0 then some (none, w) else (do
    b ← rtl_init T sort tidy c argv (new_bench T sort tidy c w)
    b' ← gpu_rtl_init T sort tidy c b
    some (some b', stored b' w))

  unfoldable pub hm_dcr_write : Bench T → World → ℕ → ℕ → Option (Bench T × World)
  hm_dcr_write b w addr word = do
    b' ← rtl_dcr_write T sort tidy c addr word (loaded b w)
    some (b', stored b' w)

  unfoldable pub hm_launch : Bench T → World → Option (Bench T × World × Bool)
  hm_launch b w = do b' ← rtl_launch T sort tidy c (loaded b w); some (b', stored b' w, true)

  unfoldable pub hm_wait : Bench T → World → ℕ → Option (Bench T × World × Bool)
  hm_wait b w steps = do
    (b', ok) ← rtl_wait T sort tidy c steps (loaded b w)
    some (b', stored b' w, ok)

  abbrev pub hm_model : Model
  hm_model = record {
    State = Bench T;
    create = hm_create;
    dcr_write = hm_dcr_write;
    launch = hm_launch;
    wait = hm_wait;
    fault = rtl_fault T sort tidy c;
  }
