-- ===== src/Rtl/Top.antt =====
-- What Verilator generates from the hardware: the class `VGPUTop`.
use Prim.Native.String.{String}
use open_gpu.Prelude.{ℕ, Bool, List}
use open_gpu.Rtl.Dpi.{Calls}

-- The inputs that the harness writes.
pub record Pins : Type 0 where
  pub clock : Bool
  pub reset : Bool
  pub dcr_valid : Bool
  pub dcr_addr : ℕ
  pub dcr_data : ℕ
  pub io_gpu_launch : Bool

-- The design as `new` makes it, `Verilated::commandArgs`, `eval` with the calls that it makes, and
-- the two outputs that are read.
pub record Top : Type 1 where
  pub Design : Type 0
  pub fresh : Design
  pub initial_pins : Pins
  pub command_args : List String → Design → Design
  pub eval : Pins → Design → Calls Design
  pub gpu_busy : Design → Bool
  pub gpu_fault : Design → Bool
