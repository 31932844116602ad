-- ===== src/Runtime/Init.antt =====
-- The start and the end of the runtime (`memu_runtime_init`, `memu_runtime_fini`) of
-- sw/runtime/gpu/gpu.c, with the trace options that the start takes off the command line.
pub mod Options
use Prim.Native.Char.{code}
use Prim.Native.String.{String}
use text.Mathlib.Text.{◌==◌ as str_eq}
use open_gpu.Prelude.{
  ℕ, Bool, true, false, not, ◌&&◌, ◌||◌, Option, none, some, List, [], ◌∷◌, ◌==◌, if◌then◌else◌,
  ◌>>=◌, replicate,
}
use open_gpu.Config.{Config, max_allocs}
use open_gpu.Memory.{Bytes, init_mem, free_mem}
use open_gpu.Trace.{Trace}
use open_gpu.Backend.{Model}
use open_gpu.Runtime.Types.{Device, Core, singleton, no_allocation}
use open_gpu.Runtime.Device.{num_harts, device_close}
use open_gpu.Runtime.Launch.{Runtime}
use open_gpu.Runtime.Execute.{differential, world, with_world}

-- The rest of `s` behind the prefix `p`, if `s` begins with it (`strncmp`).
unfoldable pub behind : String → String → Option String
behind String.[] s = some s
behind (String.◌∷◌ a p) String.[] = none
behind (String.◌∷◌ a p) (String.◌∷◌ b s) = if code a == code b then behind p s else none

-- What `strtoull(value, &end, 0)` says: the number, and whether `*end` is the terminator.
abbrev pub Strtoull : Type 0
Strtoull = String → ℕ × Bool

-- The value of the limit option; `none` if it is refused.
unfoldable pub read_limit : Strtoull → String → Trace → Option Trace
read_limit strtoull value t =
    let (parsed, ended) = strtoull value in
    if not ended || parsed == 0 then none else some (record t { limit = parsed })

-- What is kept of the arguments, put in front of what the rest keeps.
abbrev pub keep : String → Trace × Option (List String) → Trace × Option (List String)
keep a (t, none) = (t, none)
keep a (t, some kept) = (t, some (a ∷ kept))

-- The loop over the arguments behind the program's name: the trace settings, changed also where the
-- loop fails, and the arguments that are left for the application, or `none` for a failure.
unfoldable pub parse_args : Strtoull → List String → Trace → Trace × Option (List String)
parse_args strtoull [] t = (t, some [])
parse_args strtoull (a ∷ []) t =
    if str_eq a "--gpu-trace"
    then (record t { requested = true }, some [])
    else if str_eq a "--gpu-trace-limit"
    then (t, none)
    else elim (behind "--gpu-trace-limit=" a) [
      | none ↦ (t, some (a ∷ []))
      | some value ↦ elim (read_limit strtoull value t) [
        | none ↦ (t, none)
        | some t' ↦ (t', some [])
      ]
    ]
parse_args strtoull (a ∷ b ∷ rest) t = elim (str_eq a "--gpu-trace") [
  | true ↦ parse_args strtoull (b ∷ rest) (record t { requested = true })
  | false ↦ elim (str_eq a "--gpu-trace-limit") [
    | true ↦ elim (read_limit strtoull b t) [
      | none ↦ (t, none)
      | some t' ↦ parse_args strtoull rest t'
    ]
    | false ↦ elim (behind "--gpu-trace-limit=" a) [
      | none ↦ keep a (parse_args strtoull (b ∷ rest) t)
      | some value ↦ elim (read_limit strtoull value t) [
        | none ↦ (t, none)
        | some t' ↦ parse_args strtoull (b ∷ rest) t'
      ]
    ]
  ]
]

-- `memset(&singleton, 0, sizeof singleton)`
abbrev pub zero_device : Device
zero_device = record {
  opened = false;
  running = false;
  kernel_generation = 0;
  allocations = replicate max_allocs no_allocation;
  kernels = [];
  launch_args = 0;
  launch_args_used = false;
  reference = none;
  reference_fault = false;
}

module _ (E R : Model) where
  -- What the start returns: the globals, and the application's arguments or `none` for -1.
  abbrev pub InitReply : Type 0
  InitReply = Runtime E R × Option (List String)

  -- The last steps of a start that succeeds.
  abbrev pub started : Runtime E R → List String → InitReply
  started rt argv =
      (record rt { core = record rt.core { initialized = true; device = zero_device } }, some argv)

  -- A start that fails at a model: the execution model is gone and the memory is freed.
  abbrev pub torn_down : Runtime E R → Runtime E R
  torn_down rt = record rt {
    core = record rt.core { pmem = free_mem rt.core.pmem };
    execution = none;
  }

  -- The creation of the reference model, in a differential build.
  unfoldable pub create_reference : Config → Runtime E R → List String → Option InitReply
  create_reference c rt argv = do
    (y, w) ← R.create (world E R rt) (num_harts c) argv
    let rt' = with_world E R rt w
    some (elim y [
      | none ↦ (record (torn_down rt') { reference_model = none }, none)
      | some m ↦ started (record rt' { reference_model = some m }) argv
    ])

  -- The creation of the models; an outcome of `none` is a process that aborts.
  unfoldable pub create_models : Config → Runtime E R → List String → Option InitReply
  unfolding create_reference
  create_models c rt argv = do
    (x, w) ← E.create (world E R rt) (num_harts c) argv
    let rt' = with_world E R rt w
    elim x [
      | none ↦ some (torn_down rt', none)
      | some m ↦
          let made = record rt' { execution = some m } in
          if differential c then create_reference c made argv else some (started made argv)
    ]

  -- `given` says that both out pointers are given, `allocated` that `calloc` gives the memory.
  unfoldable pub runtime_init :
      Config → Strtoull → Runtime E R → String → List String → Bool → Bool → Option InitReply
  runtime_init c strtoull rt program args given allocated =
      if rt.core.initialized || not given
      then some (rt, none)
      else (let (t, kept) = parse_args strtoull args rt.trace in
          let rt' = record rt { trace = t } in
          elim kept [
            | none ↦ some (rt', none)
            | some app ↦ (do
              p ← init_mem allocated
              create_models c (record rt' { core = record rt'.core { pmem = p } }) (program ∷ app))
          ])

  unfoldable pub runtime_fini : Config → Runtime E R → Runtime E R
  runtime_fini c rt =
      if not rt.core.initialized
      then rt
      else (let s = if rt.core.device.opened then (device_close rt.core singleton).0 else rt.core in
          record rt {
            core = record s { initialized = false; pmem = free_mem s.pmem };
            execution = none;
            reference_model = if differential c then none else rt.reference_model;
          })
