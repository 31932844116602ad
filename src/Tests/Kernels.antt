-- ===== src/Tests/Kernels.antt =====
-- Kernels, the life of the device, the command line and the trace at concrete inputs.
use text.Mathlib.Text.{◌==◌ as str_eq}
use open_gpu.Prelude.{
  ℕ, ◌+◌, ◌≡◌, ◌≢◌, ◌⊎◌, refl, true, false, some, none, List, [], ◌∷◌, arith, if◌then◌else◌,
}
use open_gpu.Prelude.Word.{add32}
use open_gpu.Config.{kernel_base}
use open_gpu.Memory.{Bytes}
use open_gpu.Trace.{Trace, initial_trace}
use open_gpu.Trace.Limit.{commit, stored, make_all, make, push_lines, make_all-printed, make_silent}
use open_gpu.Runtime.Types.{Result, success, singleton, Kernel, Core, valid_device}
use open_gpu.Runtime.Transfer.{kernel_load_memory, File, kernel_load_file}
use open_gpu.Runtime.Transfer.Loading.{
  loaded_byte, with_kernel, kernel_load_memory_lem, IsReadable, kernel_load_file_cases,
}
use open_gpu.Runtime.Device.{device_close}
use open_gpu.Runtime.Device.Lifecycle.{IsSealed, device_close_seals}
use open_gpu.Runtime.Init.{Strtoull, zero_device}
use open_gpu.Runtime.Init.Options.{Item, plain, trace, limit, joined}
use open_gpu.Tests.Fixture.{default_config, default-IsSupported, zeros, opened_core, opened-valid}

abbrev image : Bytes
image i = i + 7

-- The kernel of the first load.
abbrev first_kernel : Kernel
first_kernel = record { device = singleton; entry = kernel_base; generation = add32 0 1 }

kernel_load_memory_lem_example :
    (m' : Bytes) × (kernel_load_memory default_config opened_core singleton
        (some image)
        24
        true
        true
      ≡ some (with_kernel opened_core first_kernel m', success, some first_kernel))
    × ((a : ℕ) → m' a ≡ loaded_byte default_config zeros image 24 a)
kernel_load_memory_lem_example =
    kernel_load_memory_lem default_config default-IsSupported opened_core singleton zeros image 24
      refl opened-valid (omega arith) (omega arith)

abbrev good_file : File
good_file = record {
  opens = true;
  seeks_end = true;
  length = some 24;
  seeks_start = true;
  allocates = true;
  reads = true;
  content = image;
}

kernel_load_file_cases_example :
    ((n : ℕ) × IsReadable good_file n
      × (kernel_load_file default_config opened_core singleton true good_file true true
          ≡ kernel_load_memory default_config opened_core singleton
              (some good_file.content)
              n
              true
              true))
    ⊎ (((n : ℕ) → ¬ IsReadable good_file n)
        × ((e : Result) × (e ≢ success)
            × (kernel_load_file default_config opened_core singleton true good_file true true
                ≡ some (opened_core, e, none))))
kernel_load_file_cases_example =
    kernel_load_file_cases default_config opened_core singleton good_file true opened-valid

-- The globals of a runtime that has just started.
abbrev started_core : Core
started_core = record { initialized = true; device = zero_device; pmem = some zeros }

closes : device_close opened_core singleton ≡ (started_core, success)
unfolding device_close valid_device
closes = refl

device_close_seals_example : IsSealed default_config started_core
device_close_seals_example =
    device_close_seals default_config opened_core started_core singleton closes

-- `strtoull` on the one value that the test uses.
abbrev pub tiny_strtoull : Strtoull
tiny_strtoull s = if str_eq s "64" then (64, true) else (0, false)

abbrev items : List Item
items = plain "35" ∷ trace ∷ limit "64" ∷ joined "--gpu-trace-limit=64" "64" ∷ plain "-v" ∷ []

abbrev traced : Trace
traced = record initial_trace { requested = true; limit = 1 }

make_all-printed_example :
    (make_all (commit 0 4 19 ∷ stored 0 8 15 1 ∷ []) traced).printed
    ≡ push_lines 1 (commit 0 4 19 ∷ stored 0 8 15 1 ∷ []) []
make_all-printed_example =
    make_all-printed (commit 0 4 19 ∷ stored 0 8 15 1 ∷ []) traced (omega arith) (omega arith) refl
      refl

make_silent_example : make (commit 0 4 19) initial_trace ≡ initial_trace
make_silent_example = make_silent (commit 0 4 19) initial_trace refl
