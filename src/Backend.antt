-- ===== src/Backend.antt =====
-- The interface of sw/sim/model.h, through which sw/runtime/gpu/gpu.c drives a simulator. A
-- component that simulates is a value of `Model`; the runtime takes two of them as parameters.
use Prim.Native.String.{String}
use open_gpu.Prelude.{ℕ, Bool, true, false, Option, none, some, List, ◌>>=◌}
use open_gpu.Memory.{Pmem}
use open_gpu.Trace.{Trace}

-- What a simulator shares with the runtime.
pub record World : Type 0 where
  pub pmem : Pmem
  pub trace : Trace

-- A reply of `none` is a process that aborts.
pub record Model : Type 1 where
  pub State : Type 0
  -- `gpu_model_create` and `gpu_model_init`, on the number of harts and the arguments; no state is
  -- a failure
  pub create : World → ℕ → List String → Option (Option State × World)
  pub dcr_write : State → World → ℕ → ℕ → Option (State × World)
  pub launch : State → World → Option (State × World × Bool)
  pub wait : State → World → ℕ → Option (State × World × Bool)
  pub fault : State → Bool

-- The functions of the header take a pointer, and answer for NULL as written here.
module _ (M : Model) where
  open M use {State, dcr_write, launch, wait, fault}

  unfoldable pub model_dcr_write : Option State → World → ℕ → ℕ → Option (Option State × World)
  model_dcr_write none w addr word = some (none, w)
  model_dcr_write (some x) w addr word = do (x', w') ← dcr_write x w addr word; some (some x', w')

  unfoldable pub model_launch : Option State → World → Option (Option State × World × Bool)
  model_launch none w = some (none, w, false)
  model_launch (some x) w = do (x', w', started) ← launch x w; some (some x', w', started)

  unfoldable pub model_wait : Option State → World → ℕ → Option (Option State × World × Bool)
  model_wait none w steps = some (none, w, false)
  model_wait (some x) w steps = do (x', w', finished) ← wait x w steps; some (some x', w', finished)

  unfoldable pub model_fault : Option State → Bool
  model_fault none = true
  model_fault (some x) = fault x
