-- ===== src/Tests/Hardware.antt =====
-- A launch and a wait with the hardware model, on a design that mirrors the cycle model and is idle
-- at once.
use open_gpu.Prelude.{
  ℕ, ◌+◌, ◌≡◌, refl, sym, ap, ◌∙◌, inl, inr, Bool, true, false, ◌||◌, ◌&&◌, leb, ltb, Option, none,
  some, if◌then◌else◌, ◌>>=◌,
}
use mathlib.Core.Path.{subst}
use open_gpu.Memory.{Bytes, paddr_write, store_le, guest_to_host, put_bytes, get_bytes}
use open_gpu.Trace.{initial_trace, trace_suppress}
use open_gpu.Backend.{World, Model, model_dcr_write, model_launch, model_wait, model_fault}
use open_gpu.Iss.Decode.{opcode, funct3, rs1_of, rs2_of, imm_s}
use open_gpu.Cycle.State.{new_model}
use open_gpu.Cycle.Pack.{pack}
use open_gpu.Cycle.Step.{observe_store}
use open_gpu.Runtime.Types.{Result, success, singleton, valid_device}
use open_gpu.Runtime.Alloc.Correct.{IsReady}
use open_gpu.Runtime.Range.{mul_u32}
use open_gpu.Runtime.Launch.{
  LaunchInfo, Runtime, geometry, has_zero, volume, launch_allowed, stage_args, configure_model,
  release_launch_args, wait_limit, wait_limit_pos,
}
use open_gpu.Runtime.Execute.{
  world, with_reference, gpu_launch, gpu_wait, launch_checked, launch_staged, launch_differential,
  run_reference, after_reference, start_execution,
}
use open_gpu.Rtl.Dpi.{diff_clear}
use open_gpu.Rtl.Harness.{Bench, tick, rtl_wait, rtl_fault, rtl_launch, rtl_dcr_write, new_bench}
use open_gpu.Rtl.Harness.Lockstep.{tick_lockstep}
use open_gpu.Rtl.Harness.Run.{InRun, finished, rtl_finish-InRun, rtl_wait-idle}
use open_gpu.Rtl.Driver.Agreement.{
  IsUp, IsLaunched, loaded-InRun, gpu_launch-IsLaunched, gpu_wait_agreement,
}
use open_gpu.Runtime.Execute.Referenced.{IsReferenced}
use open_gpu.Runtime.Execute.Waiting.{Agree, run_ended, gpu_wait_verdict}
use open_gpu.Rtl.Driver.{loaded, stored, hm_model, hm_dcr_write, hm_launch, hm_wait}
use open_gpu.Tests.Fixture.{zeros, opened_core, opened-IsReady}
use open_gpu.Tests.Launch.{idle_model, kernel, info}
use open_gpu.Tests.Sorting.{insertion_sort, insertion_sort-IsSort}
use open_gpu.Tests.Cycle.{tiny_config, untidied}
use open_gpu.Tests.Rtl.{mirror, tiny-IsSupported, untidied-IsTidy}

abbrev hardware : Model
hardware = hm_model mirror insertion_sort untidied tiny_config

abbrev first_world : World
first_world = record { pmem = some zeros; trace = initial_trace }

abbrev small_info : LaunchInfo
small_info = record info { block_dim = record { x = 1; y = 1; z = 1 } }

abbrev ready : Runtime hardware idle_model
ready = record {
  core = opened_core;
  trace = initial_trace;
  execution = some (record (new_bench mirror insertion_sort untidied tiny_config first_world) {
    design =
        (pack tiny_config (record new_model { mem = zeros; mem_size = tiny_config.msize }), false);
    ref = pack tiny_config new_model;
  });
  reference_model = some 0;
}

abbrev or_ready : Option (Runtime hardware idle_model × Result) → Runtime hardware idle_model
or_ready none = ready
or_ready (some (rt, e)) = rt

abbrev or_bench : Option (Bench mirror) → Bench mirror
or_bench none = new_bench mirror insertion_sort untidied tiny_config first_world
or_bench (some b) = b

abbrev launched : Runtime hardware idle_model
launched = or_ready (
    gpu_launch hardware idle_model tiny_config ready singleton (some kernel) (some small_info) true)

launches :
    gpu_launch hardware idle_model tiny_config ready singleton (some kernel) (some small_info) true
    ≡ some (launched, success)
unfolding gpu_launch tick launch_allowed valid_device geometry has_zero volume mul_u32
    launch_checked stage_args launch_staged configure_model model_dcr_write hm_dcr_write
    rtl_dcr_write new_bench diff_clear launch_differential get_bytes run_reference model_launch
    model_wait model_fault after_reference put_bytes start_execution hm_launch rtl_launch
    guest_to_host opcode funct3 paddr_write rs1_of imm_s observe_store rs2_of store_le
    release_launch_args trace_suppress
launches = refl

-- The hardware model after the launch, and after the cycle of the wait.
abbrev begun : Bench mirror
begun =
    loaded mirror insertion_sort untidied tiny_config (or_bench launched.execution)
      (world hardware idle_model launched)

abbrev ended : Bench mirror
ended = or_bench (tick mirror insertion_sort untidied tiny_config begun)

has_value : {A : Type 0} → Option A → Bool
has_value none = false
has_value (some a) = true

or_bench_lem : (x : Option (Bench mirror)) → has_value x ≡ true → x ≡ some (or_bench x)
unfolding has_value
or_bench_lem none e = cc
or_bench_lem (some b) e = refl

ticks : tick mirror insertion_sort untidied tiny_config begun ≡ some ended
unfolding gpu_launch tick launch_allowed valid_device geometry has_zero volume mul_u32
    launch_checked stage_args launch_staged configure_model model_dcr_write hm_dcr_write
    rtl_dcr_write new_bench diff_clear launch_differential get_bytes run_reference model_launch
    model_wait model_fault after_reference put_bytes start_execution hm_launch rtl_launch
    guest_to_host opcode funct3 paddr_write rs1_of imm_s observe_store rs2_of store_le
    release_launch_args trace_suppress has_value
ticks = or_bench_lem (tick mirror insertion_sort untidied tiny_config begun) refl

sane : ended.diff_failed ≡ false
unfolding gpu_launch tick launch_allowed valid_device geometry has_zero volume mul_u32
    launch_checked stage_args launch_staged configure_model model_dcr_write hm_dcr_write
    rtl_dcr_write new_bench diff_clear launch_differential get_bytes run_reference model_launch
    model_wait model_fault after_reference put_bytes start_execution hm_launch rtl_launch
    guest_to_host opcode funct3 paddr_write rs1_of imm_s observe_store rs2_of store_le
    release_launch_args trace_suppress
sane = refl

launched_sane : (or_bench launched.execution).diff_failed ≡ false
unfolding gpu_launch tick launch_allowed valid_device geometry has_zero volume mul_u32
    launch_checked stage_args launch_staged configure_model model_dcr_write hm_dcr_write
    rtl_dcr_write new_bench diff_clear launch_differential get_bytes run_reference model_launch
    model_wait model_fault after_reference put_bytes start_execution hm_launch rtl_launch
    guest_to_host opcode funct3 paddr_write rs1_of imm_s observe_store rs2_of store_le
    release_launch_args trace_suppress
launched_sane = refl

launch_run :
    (x : Option (Bench mirror)) (w : World)
    → IsLaunched mirror insertion_sort untidied tiny_config x w
    → (or_bench x).diff_failed ≡ false
    → InRun mirror insertion_sort untidied tiny_config
        (loaded mirror insertion_sort untidied tiny_config (or_bench x) w)
launch_run none w (b, there, same, run) fine = cc
launch_run (some u) w (b, there, same, run) fine =
    let one : b ≡ u = cc in
    loaded-InRun mirror insertion_sort untidied tiny_config tiny-IsSupported refl
      insertion_sort-IsSort untidied-IsTidy u w (same ∙ ap (λ (y : Bench mirror). y.pmem) one)
      (subst
        (λ (y : Bench mirror).
          y.diff_failed ≡ false → InRun mirror insertion_sort untidied tiny_config y)
        one run fine)

ready-IsReady : IsReady tiny_config ready.core
ready-IsReady = record { mapped = (zeros, refl); table = opened-IsReady.table }

ready-IsUp : IsUp mirror insertion_sort untidied tiny_config ready.execution
unfolding new_bench
ready-IsUp = (_, refl, refl)

begun-InRun : InRun mirror insertion_sort untidied tiny_config begun
begun-InRun =
    launch_run launched.execution (world hardware idle_model launched)
      (gpu_launch-IsLaunched mirror insertion_sort untidied tiny_config tiny-IsSupported refl
        insertion_sort-IsSort untidied-IsTidy idle_model ready launched singleton (some kernel)
        (some small_info) true ready-IsReady ready-IsUp launches)
      launched_sane

ended-InRun : InRun mirror insertion_sort untidied tiny_config ended
ended-InRun =
    let k =
      tick_lockstep mirror insertion_sort untidied tiny_config begun ended tiny-IsSupported refl
        insertion_sort-IsSort untidied-IsTidy begun-InRun.steady ticks sane in
    record { unfailed = sane; steady = k.steady }

abbrev idle_bench : Bench mirror
idle_bench = finished mirror insertion_sort untidied tiny_config ended

rtl_waits :
    rtl_wait mirror insertion_sort untidied tiny_config wait_limit begun ≡ some (idle_bench, true)
unfolding rtl_fault
rtl_waits =
    let (left, limit) = wait_limit_pos in
    ap (λ (n : ℕ). rtl_wait mirror insertion_sort untidied tiny_config n begun) limit
    ∙ rtl_wait-idle mirror insertion_sort untidied tiny_config left begun ended ticks sane refl
    ∙ rtl_finish-InRun mirror insertion_sort untidied tiny_config ended tiny-IsSupported refl
        ended-InRun

abbrev idle_world : World
idle_world =
    stored mirror insertion_sort untidied tiny_config idle_bench
      (world hardware idle_model launched)

hm_waits :
    hm_wait mirror insertion_sort untidied tiny_config
      (or_bench launched.execution)
      (world hardware idle_model launched)
      wait_limit
    ≡ some (idle_bench, idle_world, true)
unfolding hm_wait
hm_waits =
    ap
      (λ (r : Option (Bench mirror × Bool)). r >>= λ (b', ok). some (
        b',
        stored mirror insertion_sort untidied tiny_config b' (world hardware idle_model launched),
        ok,
      ))
      rtl_waits

model_waits :
    (x : Option (Bench mirror)) (w : World)
    → has_value x ≡ true
    → hm_wait mirror insertion_sort untidied tiny_config (or_bench x) w wait_limit
      ≡ some (idle_bench, idle_world, true)
    → model_wait hardware x w wait_limit ≡ some (some idle_bench, idle_world, true)
unfolding model_wait has_value
model_waits none w h e = cc
model_waits (some b) w h e =
    ap (λ (r : Option (Bench mirror × World × Bool)). r >>= λ (b', w', ok). some (some b', w', ok))
      e

abbrev or_bytes : Option Bytes → Bytes
or_bytes none = zeros
or_bytes (some p) = p

or_bytes_lem : (x : Option Bytes) → has_value x ≡ true → x ≡ some (or_bytes x)
unfolding has_value
or_bytes_lem none e = cc
or_bytes_lem (some b) e = refl

abbrev reference : Bytes
reference = or_bytes launched.core.device.reference

abbrev memory : Bytes
memory = or_bytes idle_world.pmem

kept : launched.core.device.reference ≡ some reference
unfolding gpu_launch tick launch_allowed valid_device geometry has_zero volume mul_u32
    launch_checked stage_args launch_staged configure_model model_dcr_write hm_dcr_write
    rtl_dcr_write new_bench diff_clear launch_differential get_bytes run_reference model_launch
    model_wait model_fault after_reference put_bytes start_execution hm_launch rtl_launch
    guest_to_host opcode funct3 paddr_write rs1_of imm_s observe_store rs2_of store_le
    release_launch_args trace_suppress has_value
kept = or_bytes_lem launched.core.device.reference refl

mapped : idle_world.pmem ≡ some memory
unfolding gpu_launch tick launch_allowed valid_device geometry has_zero volume mul_u32
    launch_checked stage_args launch_staged configure_model model_dcr_write hm_dcr_write
    rtl_dcr_write new_bench diff_clear launch_differential get_bytes run_reference model_launch
    model_wait model_fault after_reference put_bytes start_execution hm_launch rtl_launch
    guest_to_host opcode funct3 paddr_write rs1_of imm_s observe_store rs2_of store_le
    release_launch_args trace_suppress has_value
mapped = or_bytes_lem idle_world.pmem refl

same_zero : (t : Bool) → ◌≡◌ {A = ℕ} (if t then 0 else 0) 0
same_zero true = refl
same_zero false = refl

memory_zero : (j : ℕ) → memory j ≡ 0
unfolding gpu_launch tick launch_allowed valid_device geometry has_zero volume mul_u32
    launch_checked stage_args launch_staged configure_model model_dcr_write hm_dcr_write
    rtl_dcr_write new_bench diff_clear launch_differential get_bytes run_reference model_launch
    model_wait model_fault after_reference put_bytes start_execution hm_launch rtl_launch
    guest_to_host opcode funct3 paddr_write rs1_of imm_s observe_store rs2_of store_le
    release_launch_args trace_suppress
memory_zero j = same_zero (leb 0 j && ltb j (0 + tiny_config.msize))

reference_zero : (j : ℕ) → reference j ≡ 0
unfolding gpu_launch tick launch_allowed valid_device geometry has_zero volume mul_u32
    launch_checked stage_args launch_staged configure_model model_dcr_write hm_dcr_write
    rtl_dcr_write new_bench diff_clear launch_differential get_bytes run_reference model_launch
    model_wait model_fault after_reference put_bytes start_execution hm_launch rtl_launch
    guest_to_host opcode funct3 paddr_write rs1_of imm_s observe_store rs2_of store_le
    release_launch_args trace_suppress
reference_zero j = refl

idle_sane : model_fault hardware (some idle_bench) ≡ false
unfolding model_fault rtl_fault
idle_sane = ap (λ (t : Bool). t || false) sane

waited :
    let rt' =
      with_reference hardware idle_model
        (run_ended hardware idle_model launched singleton (some idle_bench) idle_world)
        none in
    gpu_wait hardware idle_model tiny_config launched singleton ≡ some (rt', success)
unfolding gpu_launch tick launch_allowed valid_device geometry has_zero volume mul_u32
    launch_checked stage_args launch_staged configure_model model_dcr_write hm_dcr_write
    rtl_dcr_write new_bench diff_clear launch_differential get_bytes run_reference model_launch
    model_wait model_fault after_reference put_bytes start_execution hm_launch rtl_launch
    guest_to_host opcode funct3 paddr_write rs1_of imm_s observe_store rs2_of store_le
    release_launch_args trace_suppress has_value
waited =
    elim (gpu_wait_verdict hardware idle_model tiny_config tiny-IsSupported launched singleton
      (some idle_bench) idle_world reference memory refl refl refl
      (model_waits launched.execution (world hardware idle_model launched) refl hm_waits) idle_sane
      refl kept mapped) [
        | inl (e, agree) ↦ e
        | inr (e, (j, small, differ)) ↦ absurd (differ (reference_zero j ∙ sym (memory_zero j)))
      ]

gpu_wait_agreement_example :
    let rt' =
      with_reference hardware idle_model
        (run_ended hardware idle_model launched singleton (some idle_bench) idle_world)
        none in
    (ran : IsReferenced hardware idle_model tiny_config launched) × (b : Bench mirror)
    × (final : Bytes) × (rt'.execution ≡ some b)
    × (rt'.core.pmem ≡ some final)
    × Agree tiny_config.msize ran.left final
    × Agree tiny_config.msize b.ref.mem final
gpu_wait_agreement_example =
    gpu_wait_agreement mirror insertion_sort untidied tiny_config tiny-IsSupported refl
      insertion_sort-IsSort untidied-IsTidy idle_model ready launched
      (with_reference hardware idle_model
        (run_ended hardware idle_model launched singleton (some idle_bench) idle_world) none)
      singleton (some kernel) (some small_info) true refl ready-IsReady ready-IsUp launches waited
