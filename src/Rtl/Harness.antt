-- ===== src/Rtl/Harness.antt =====
-- The harness of sw/sim/hm/rtl.cpp: a clock cycle of the design beside one of the cycle model, and
-- the functions that sw/sim/model.cpp calls. The waves are not modelled.
pub mod Touched
pub mod Checks
pub mod Observe
pub mod Advance
pub mod Lockstep
pub mod Kept
pub mod Failed
pub mod Run
pub mod Launching
use Prim.Native.String.{String}
use open_gpu.Prelude.{
  ℕ, zero, suc, ◌+◌, ◌*◌, ◌%◌, Bool, true, false, not, ◌&&◌, ◌||◌, Option, none, some, List, [],
  ◌==◌, if◌then◌else◌, ◌>>=◌, get_or,
}
use open_gpu.Prelude.Word.{u32_mod, u64_mod}
use open_gpu.Config.{Config}
use open_gpu.Memory.{Pmem, guest_to_host}
use open_gpu.Trace.{Trace}
use open_gpu.Backend.{World}
use open_gpu.Iss.Decode.{shr}
use open_gpu.Cycle.State.{Array, Store, CycleModel, new_model, core_words, state_words}
use open_gpu.Cycle.Step.{
  diff_reset, diff_begin, set_inputs, diff_step, check_stores, observe_store, apply_stores,
  check_memory,
}
use open_gpu.Rtl.Dpi.{Dpi, Bus, diff_clear, write_masked, perform}
use open_gpu.Rtl.Top.{Pins, Top}

-- The statics of rtl.cpp, dpi.cpp and difftest.cpp, and the memory and the trace that they share
-- with the runtime.
pub record Bench (T : Top) : Type 0 where
  pub design : T.Design
  pub pins : Pins
  pub cycles : ℕ
  pub diff_failed : Bool
  pub dpi : Dpi
  pub ref : CycleModel
  pub pmem : Pmem
  pub trace : Trace

-- Word `k` of core `i` in the snapshot, an array of `uint32_t`.
abbrev pub port : Config → Array → ℕ → ℕ → ℕ
port c state i k = state (23 + i * core_words c + k) % u32_mod

-- The comparison of the snapshot with the state of the model, with `left` words to go.
unfoldable pub same_words : List ℕ → Array → ℕ → ℕ → Bool
same_words packed state zero word = true
same_words packed state (suc left) word =
    get_or packed word 0 == state word && same_words packed state left (word + 1)

-- `cycle_diff_set_inputs(top->reset, ...)`
unfoldable pub sample_pins : Pins → CycleModel → CycleModel
unfolding set_inputs
sample_pins pins m =
    set_inputs pins.reset pins.dcr_valid pins.dcr_addr pins.dcr_data pins.io_gpu_launch m

module _ (T : Top) (sort : List Store → List Store) (tidy : List ℕ → List ℕ) (c : Config) where
  abbrev pub bus_of : Bench T → Bus
  bus_of b = record { dpi = b.dpi; pmem = b.pmem; trace = b.trace }

  -- `top->eval()`
  unfoldable pub eval_top : Bench T → Option (Bench T)
  unfolding perform
  eval_top b = do
    (design, bus) ← perform c (T.eval b.pins b.design) (bus_of b)
    some (record b { design = design; dpi = bus.dpi; pmem = bus.pmem; trace = bus.trace })

  -- A store is noted, and written to the memory.
  unfoldable pub observe_write : ℕ → ℕ → ℕ → Bench T → Option (Bench T)
  observe_write addr mask word b = do
    p ← write_masked c addr mask (λ k. shr word (8 * k)) 4 0 b.pmem
    some (record b { ref = observe_store addr mask word b.ref; pmem = p })

  -- The store that core `i` makes in this cycle, if it makes one.
  unfoldable pub observe_core : ℕ → Bench T → Option (Bench T)
  unfolding observe_write
  observe_core i b =
      if port c b.dpi.state i 23 == 0
      then some b
      else observe_write (port c b.dpi.state i 25) (port c b.dpi.state i 24 % 256)
          (port c b.dpi.state i 26) b

  -- The loop over the cores, with `left` to go.
  unfoldable pub observe_cores : ℕ → ℕ → Bench T → Option (Bench T)
  unfolding observe_core
  observe_cores zero i b = some b
  observe_cores (suc left) i b = do b' ← observe_core i b; observe_cores left (i + 1) b'

  -- What `tick` does between the two edges, in a differential build.
  unfoldable pub between_edges : Bench T → Option (Bench T)
  unfolding observe_cores sample_pins diff_step
  between_edges b = do
    b' ← observe_cores c.num_cores 0 b
    ref ← diff_step sort c (sample_pins b'.pins b'.ref)
    some (record b' { ref = ref })

  -- `cycle_diff_check_memory(guest_to_host(CONFIG_MBASE), CONFIG_MSIZE, full)`; without a memory
  -- the pointer is NULL, which is not looked at before the launch.
  unfoldable pub check_pmem : Bool → Bench T → Option (CycleModel × Bool)
  unfolding check_memory guest_to_host
  check_pmem full b = do
    off ← guest_to_host c c.mbase
    elim b.pmem [
      | none ↦ if b.ref.active then none else some (b.ref, true)
      | some p ↦ some (check_memory tidy (λ i. p (off + i)) c.msize full b.ref)
    ]

  -- The comparisons of the stores and of the snapshot, each made only if nothing has failed so far.
  unfoldable pub compare_state : Bench T → Bench T
  unfolding check_stores same_words
  compare_state b =
      let failed = b.diff_failed || b.dpi.failed in
      let (ref, stores) = if failed then (b.ref, true) else check_stores sort b.ref in
      let failed' =
        failed || not stores || not (same_words ref.packed b.dpi.state (state_words c) 0) in
      record b { ref = ref; diff_failed = failed' }

  -- The comparison of the written bytes, if nothing has failed so far, and the end of the phase.
  unfoldable pub compare_written : Bench T → Option (Bench T)
  unfolding check_pmem apply_stores
  compare_written b = do
    (ref, same) ← if b.diff_failed then some (b.ref, true) else check_pmem false b
    some (record b { ref = apply_stores ref; diff_failed = b.diff_failed || not same })

  -- What `tick` does after the rising edge, in a differential build.
  unfoldable pub check_edge : Bench T → Option (Bench T)
  unfolding compare_state compare_written
  check_edge b = compare_written (compare_state b)

  abbrev clocked : Bool → Bench T → Bench T
  clocked level b = record b { pins = record b.pins { clock = level } }

  -- A part of `tick` that only a differential build has.
  unfoldable pub when_difftest : (Bench T → Option (Bench T)) → Bench T → Option (Bench T)
  when_difftest part b = if c.difftest then part b else some b

  -- The second evaluation after the rising edge, and the checks.
  unfoldable pub settle : Bench T → Option (Bench T)
  unfolding eval_top check_edge
  settle b = do settled ← eval_top b; check_edge settled

  -- `tick`
  unfoldable pub tick : Bench T → Option (Bench T)
  unfolding eval_top when_difftest between_edges settle
  tick b = do
    low ← eval_top (clocked false b)
    before ← when_difftest between_edges low
    high ← eval_top (clocked true before)
    after ← when_difftest settle high
    some (record after { cycles = (after.cycles + 1) % u64_mod })

  -- `gpu_rtl_fault`
  unfoldable pub rtl_fault : Bench T → Bool
  rtl_fault b = T.gpu_fault b.design || b.diff_failed

  -- The statics before the program starts.
  unfoldable pub new_bench : World → Bench T
  new_bench w = record {
    design = T.fresh;
    pins = T.initial_pins;
    cycles = 0;
    diff_failed = false;
    dpi = diff_clear;
    ref = new_model;
    pmem = w.pmem;
    trace = w.trace;
  }

  -- `rtl_init`, with `reset` written out.
  unfoldable pub rtl_init : List String → Bench T → Option (Bench T)
  unfolding tick diff_reset
  rtl_init argv b = do
    let idle = record b.pins {
      io_gpu_launch = false;
      dcr_valid = false;
      dcr_addr = 0;
      dcr_data = 0;
      reset = true;
    }
    let quiet = record b { design = T.command_args argv b.design; pins = idle }
    let cleared = record quiet { ref = diff_reset c; diff_failed = false; dpi = diff_clear }
    b' ← tick (if c.difftest then cleared else quiet)
    some (record b' {
      pins = record b'.pins { reset = false };
      diff_failed = b'.diff_failed || (c.difftest && not b'.dpi.seen);
    })

  -- `gpu_rtl_init`
  unfoldable pub gpu_rtl_init : Bench T → Option (Bench T)
  unfolding tick
  gpu_rtl_init b = tick (record b { pins = record b.pins { io_gpu_launch = false } })

  -- `cycle_diff_begin(guest_to_host(CONFIG_MBASE), CONFIG_MSIZE)`
  unfoldable pub begin_diff : Bench T → Option (Bench T)
  unfolding diff_begin guest_to_host
  begin_diff b = do
    off ← guest_to_host c c.mbase
    p ← b.pmem
    some (record b { ref = diff_begin (λ i. p (off + i)) c.msize b.ref })

  -- `gpu_rtl_launch`, which always returns true
  unfoldable pub rtl_launch : Bench T → Option (Bench T)
  unfolding tick begin_diff
  rtl_launch b = do
    begun ← if c.difftest then begin_diff b else some b
    raised ← tick (record begun { pins = record begun.pins { io_gpu_launch = true } })
    tick (record raised { pins = record raised.pins { io_gpu_launch = false } })

  -- `gpu_rtl_dcr_write`
  unfoldable pub rtl_dcr_write : ℕ → ℕ → Bench T → Option (Bench T)
  unfolding tick
  rtl_dcr_write addr word b = do
    let pins = record b.pins { dcr_addr = addr; dcr_data = word; dcr_valid = true }
    b' ← tick (record b { pins = pins })
    some (record b' { pins = record b'.pins { dcr_valid = false } })

  -- The end of `gpu_rtl_wait` at an idle design.
  unfoldable pub rtl_finish : Bench T → Option (Bench T × Bool)
  rtl_finish b = if not c.difftest then some (b, true) else (do
    (ref, same) ← check_pmem true b
    some (record b { ref = ref; diff_failed = b.diff_failed || not same }, same))

  -- `gpu_rtl_wait`, with `left` cycles to go
  unfoldable pub rtl_wait : ℕ → Bench T → Option (Bench T × Bool)
  rtl_wait zero b = some (b, not (T.gpu_busy b.design) && not (T.gpu_fault b.design))
  rtl_wait (suc left) b = do
    b' ← tick b
    elim (rtl_fault b') [
      | true ↦ some (b', false)
      | false ↦ elim (T.gpu_busy b'.design) [ true ↦ rtl_wait left b' | false ↦ rtl_finish b' ]
    ]
