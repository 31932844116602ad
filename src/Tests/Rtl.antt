-- ===== src/Tests/Rtl.antt =====
-- The harness at a concrete design: one that mirrors the cycle model, and is about to store a word.
use open_gpu.Prelude.{
  ◌≤◌, ◌==◌, ℕ, ◌+◌, ◌<◌, ◌≡◌, ◌↔◌, refl, ◌∙◌, Bool, true, false, not, ◌&&◌, Option, none, some,
  List, [], ◌∷◌, get_or, arith, if◌then◌else◌,
}
use open_gpu.Config.{IsSupported}
use open_gpu.Memory.{paddr_write, store_le}
use open_gpu.Iss.Decode.{opcode, funct3, rs1_of, rs2_of, imm_s}
use open_gpu.Trace.{initial_trace}
use open_gpu.Cycle.State.{CycleModel, new_model, state_words}
use open_gpu.Cycle.Pack.{pack}
use open_gpu.Cycle.Step.{diff_step, observe_store}
use open_gpu.Rtl.Dpi.{OpenArray, Calls, done, publish, diff_clear}
use open_gpu.Rtl.Top.{Top}
use open_gpu.Cycle.Step.Writes.{IsTidy}
use open_gpu.Rtl.Harness.{Bench, sample_pins, tick, rtl_fault, rtl_wait}
use open_gpu.Rtl.Dpi.{gpu_diff_state}
use open_gpu.Rtl.Dpi.Bounds.{IsAccepted, gpu_diff_state-IsAccepted}
use open_gpu.Rtl.Dpi.Snapshot.{publish_all, latest, is_given, Shows, gpu_diff_state_latest}
use open_gpu.Rtl.Harness.Failed.{HasFailed, rtl_wait-HasFailed}
use open_gpu.Rtl.Harness.Run.{InRun, finished, rtl_finish-InRun, rtl_wait-idle, rtl_wait-rtl_fault}
use open_gpu.Rtl.Harness.Advance.{InStep}
use open_gpu.Rtl.Harness.Lockstep.{Matched, tick_lockstep}
use open_gpu.Tests.Fixture.{zeros}
use open_gpu.Tests.Sorting.{insertion_sort, insertion_sort-IsSort}
use open_gpu.Tests.Cycle.{tiny_config, storing, untidied}

abbrev pub words : CycleModel → OpenArray
words m = record {
  size = state_words tiny_config;
  contiguous = some (λ k. get_or m.packed k 0);
  element = λ _. none;
}

abbrev pub stepped : CycleModel → Option CycleModel → Calls (CycleModel × Bool)
stepped m none = done (m, true)
stepped m (some m') = publish 0 (words m') (done (m', true))

-- The model, and the level of the clock at the last evaluation.
abbrev pub mirror : Top
mirror = record {
  Design = CycleModel × Bool;
  fresh = (new_model, false);
  initial_pins = record {
    clock = false;
    reset = false;
    dcr_valid = false;
    dcr_addr = 0;
    dcr_data = 0;
    io_gpu_launch = false;
  };
  command_args = λ _ d. d;
  eval = λ pins (m, high).
      if pins.clock
      then (if high
          then done (m, true)
          else stepped m (diff_step insertion_sort tiny_config (sample_pins pins m)))
      else done (m, false);
  gpu_busy = λ _. false;
  gpu_fault = λ _. false;
}

abbrev running : CycleModel
running = pack tiny_config (record new_model {
  cores = λ _. storing;
  active = true;
  mem = zeros;
  mem_size = tiny_config.msize;
})

abbrev bench : Bench mirror
bench = record {
  design = (running, false);
  pins = mirror.initial_pins;
  cycles = 7;
  diff_failed = false;
  dpi = record diff_clear { state = λ k. get_or running.packed k 0 };
  ref = running;
  pmem = some zeros;
  trace = initial_trace;
}

abbrev or_bench : Option (Bench mirror) → Bench mirror
or_bench none = bench
or_bench (some b) = b

abbrev ticked : Bench mirror
ticked = or_bench (tick mirror insertion_sort untidied tiny_config bench)

ticks : tick mirror insertion_sort untidied tiny_config bench ≡ some ticked
unfolding tick opcode funct3 paddr_write rs1_of imm_s observe_store diff_clear rs2_of store_le
ticks = refl

sane : ticked.diff_failed ≡ false
unfolding tick opcode funct3 paddr_write rs1_of imm_s observe_store diff_clear rs2_of store_le
sane = refl

pub tiny-IsSupported : IsSupported tiny_config
tiny-IsSupported = omega arith

pub untidied-IsTidy : IsTidy untidied
untidied-IsTidy = record { keeps = λ is i. refl }

running-InStep : InStep tiny_config bench.pins bench.ref bench.pmem
unfolding pack
running-InStep = record {
  running = refl;
  active = refl;
  size = refl;
  mem = (zeros, refl, λ i small any. refl);
}

tick_lockstep_example : Matched mirror insertion_sort untidied tiny_config ticked
tick_lockstep_example =
    tick_lockstep mirror insertion_sort untidied tiny_config bench ticked tiny-IsSupported refl
      insertion_sort-IsSort untidied-IsTidy running-InStep ticks sane

bench-InRun : InRun mirror insertion_sort untidied tiny_config bench
bench-InRun = record { unfailed = refl; steady = running-InStep }

ticked-InRun : InRun mirror insertion_sort untidied tiny_config ticked
ticked-InRun = record { unfailed = sane; steady = tick_lockstep_example.steady }

-- The wait ends after one cycle.
waits :
    rtl_wait mirror insertion_sort untidied tiny_config 1 bench
    ≡ some (finished mirror insertion_sort untidied tiny_config ticked, true)
unfolding rtl_fault
waits =
    rtl_wait-idle mirror insertion_sort untidied tiny_config 0 bench ticked ticks
      (ground (arith, sane)) refl
    ∙ rtl_finish-InRun mirror insertion_sort untidied tiny_config ticked tiny-IsSupported refl
        ticked-InRun

rtl_wait-rtl_fault_example : true ≡ (
    not (mirror.gpu_busy ticked.design)
    && not (
        rtl_fault mirror insertion_sort untidied tiny_config
          (finished mirror insertion_sort untidied tiny_config ticked)))
rtl_wait-rtl_fault_example =
    rtl_wait-rtl_fault mirror insertion_sort untidied tiny_config 1 bench
      (finished mirror insertion_sort untidied tiny_config ticked) true tiny-IsSupported refl
      insertion_sort-IsSort untidied-IsTidy bench-InRun waits

-- The same with a comparison that has failed.
abbrev failing : Bench mirror
failing = record bench { diff_failed = true }

abbrev or_pair : Option (Bench mirror × Bool) → Bench mirror
or_pair none = failing
or_pair (some (b, ok)) = b

abbrev refused : Bench mirror
refused = or_pair (rtl_wait mirror insertion_sort untidied tiny_config 1 failing)

refuses : rtl_wait mirror insertion_sort untidied tiny_config 1 failing ≡ some (refused, false)
unfolding rtl_wait rtl_fault tick opcode funct3 paddr_write rs1_of imm_s observe_store diff_clear
    rs2_of store_le
refuses = refl

rtl_wait-HasFailed_example :
    HasFailed mirror insertion_sort untidied tiny_config refused × (false ≡ false)
rtl_wait-HasFailed_example =
    rtl_wait-HasFailed mirror insertion_sort untidied tiny_config 0 failing refused false refl
      refuses

-- Three calls: the whole state in one piece, and then two words of it anew, one by one.
abbrev calls : List (ℕ × OpenArray)
calls =
    (0, words running)
    ∷ (5, record { size = 2; contiguous = none; element = λ k. some (k + 40) })
    ∷ (6, record { size = 1; contiguous = some (λ _. 7); element = λ _. none })
    ∷ []

delivered : (publish_all tiny_config calls diff_clear).failed ≡ false
unfolding gpu_diff_state diff_clear pack
delivered = refl

gpu_diff_state_latest_example :
    Shows (latest calls (λ _. none)) (publish_all tiny_config calls diff_clear)
    × (((publish_all tiny_config calls diff_clear).seen ≡ true)
        ↔ ((k : ℕ) → k < state_words tiny_config → is_given (latest calls (λ _. none) k) ≡ true))
gpu_diff_state_latest_example = gpu_diff_state_latest tiny_config calls refl delivered

-- Two words at place 5, of which the array delivers one.
abbrev one_short : OpenArray
one_short = record { size = 2; contiguous = none; element = λ k. if k == 0 then some 9 else none }

gpu_diff_state-IsAccepted_example :
    (((gpu_diff_state tiny_config 5 one_short diff_clear).failed ≡ false)
      ↔ ((diff_clear.failed ≡ false) × IsAccepted tiny_config 5 one_short))
    × ((k : ℕ)
        → state_words tiny_config ≤ k
        → ((gpu_diff_state tiny_config 5 one_short diff_clear).state k ≡ diff_clear.state k)
          × ((gpu_diff_state tiny_config 5 one_short diff_clear).valid k ≡ diff_clear.valid k))
gpu_diff_state-IsAccepted_example =
    gpu_diff_state-IsAccepted tiny_config 5 one_short diff_clear refl
