-- ===== src/Host.antt =====
-- The entry of a host program (sw/launcher.cpp). What the application does between the start and
-- the end of the runtime, `frontend_main`, is an argument.
pub mod Shutdown
use Prim.Native.String.{String}
use open_gpu.Prelude.{ℕ, Bool, true, Option, none, some, List, ◌>>=◌}
use open_gpu.Config.{Config}
use open_gpu.Backend.{Model}
use open_gpu.Runtime.Launch.{Runtime}
use open_gpu.Runtime.Init.{Strtoull, runtime_init, runtime_fini}

module _ (E R : Model) where
  -- `frontend_main`, on its arguments and the globals; it returns the exit status, as the bit pattern
  -- of the `int`, or does not return.
  abbrev pub Frontend : Type 0
  Frontend = List String → Runtime E R → Option (Runtime E R × ℕ)

  -- What `main` does once `memu_runtime_init` has returned.
  unfoldable pub after_init :
      Config → Frontend → Runtime E R → Option (List String) → Option (Runtime E R × ℕ)
  after_init c frontend rt none = some (rt, 2)
  after_init c frontend rt (some argv) = do
    (rt', status) ← frontend argv rt
    some (runtime_fini E R c rt', status)

  -- `main`
  unfoldable pub host_main :
      Config
      → Strtoull
      → Frontend
      → Runtime E R
      → String
      → List String
      → Bool
      → Option (Runtime E R × ℕ)
  unfolding after_init
  host_main c strtoull frontend rt program args allocated = do
    (rt', argv) ← runtime_init E R c strtoull rt program args true allocated
    after_init c frontend rt' argv
