-- ===== src/Host/Shutdown.antt =====
-- The end of a host program: whatever the application does, the runtime is shut down.
use Prim.Native.String.{String}
use open_gpu.Prelude.{
  ℕ, ◌≡◌, refl, ◌⊎◌, inl, inr, Bool, true, false, not, ◌||◌, Option, none, some, List, ◌∷◌, arith,
  Bool-cases, Option-cases, ◌>>=◌,
}
use open_gpu.Prelude.Chain.{After, After-bind, After-some, After-then}
use open_gpu.Config.{Config}
use open_gpu.Memory.{init_mem}
use open_gpu.Trace.{Trace}
use open_gpu.Backend.{Model}
use open_gpu.Runtime.Types.{Handle, valid_device}
use open_gpu.Runtime.Device.{num_harts}
use open_gpu.Runtime.Launch.{Runtime}
use open_gpu.Runtime.Execute.{differential, world, with_world}
use open_gpu.Runtime.Init.{
  Strtoull, InitReply, parse_args, create_reference, create_models, runtime_init, runtime_fini,
}
use open_gpu.Host.{Frontend, after_init, host_main}

module _ (E R : Model) (c : Config) where
  -- The runtime is not initialised, so it accepts no device.
  pub record IsShut (rt : Runtime E R) : Type 0 where
    pub ended : rt.core.initialized ≡ false
    pub refuses : (h : Handle) → valid_device rt.core h ≡ false

  ended-IsShut : (rt : Runtime E R) → rt.core.initialized ≡ false → IsShut rt
  unfolding valid_device
  ended-IsShut rt ended = record { ended = ended; refuses = λ h. ground (arith, ended) }

  runtime_fini-IsShut : (rt : Runtime E R) → IsShut (runtime_fini E R c rt)
  unfolding runtime_fini
  runtime_fini-IsShut rt = elim (Bool-cases rt.core.initialized) [
    | inl on ↦ ended-IsShut (runtime_fini E R c rt) (ground (arith, on))
    | inr off ↦ ended-IsShut (runtime_fini E R c rt) (ground (arith, off))
  ]

  -- The runtime is initialised exactly after a start that succeeds.
  abbrev Begins : InitReply E R → Type 0
  Begins (rt, none) = rt.core.initialized ≡ false
  Begins (rt, some argv) = rt.core.initialized ≡ true

  create_reference-Begins :
      (rt : Runtime E R) (argv : List String)
      → rt.core.initialized ≡ false
      → After Begins (create_reference E R c rt argv)
  unfolding create_reference
  create_reference-Begins rt argv off =
      After-bind Begins (R.create (world E R rt) (num_harts c) argv) _ λ (y, w) e.
        elim (Option-cases y) [ inl missing ↦ rw missing off | inr (m, made) ↦ rw made refl ]

  create_models-Begins :
      (rt : Runtime E R) (argv : List String)
      → rt.core.initialized ≡ false
      → After Begins (create_models E R c rt argv)
  unfolding create_models
  create_models-Begins rt argv off =
      After-bind Begins (E.create (world E R rt) (num_harts c) argv) _ λ (x, w) e.
        elim (Option-cases x) [
          | inl missing ↦ rw missing off
          | inr (m, made) ↦ rw made (elim (Bool-cases (differential c)) [
            | inl on ↦ rw on (
                create_reference-Begins (record (with_world E R rt w) { execution = some m }) argv
                  off)
            | inr plain ↦ rw plain refl
          ])
        ]

  runtime_init-Begins :
      (strtoull : Strtoull) (rt : Runtime E R) (program : String) (args : List String)
      (given allocated : Bool)
      → rt.core.initialized ≡ false
      → After Begins (runtime_init E R c strtoull rt program args given allocated)
  unfolding runtime_init
  runtime_init-Begins strtoull rt program args given allocated off =
      elim (Bool-cases (rt.core.initialized || not given)) [
        | inl refused ↦ rw refused off
        | inr fine ↦ rw fine (parsed (parse_args strtoull args rt.trace))
      ]
    where
      parsed :
          (x : Trace × Option (List String))
          → After Begins (elim x.1 [
            | none ↦ some (record rt { trace = x.0 }, none)
            | some app ↦ (do
              p ← init_mem allocated
              create_models E R c
                  (record rt { trace = x.0; core = record rt.core { pmem = p } })
                  (program ∷ app))
          ])
      parsed (t, none) = off
      parsed (t, some app) = After-bind Begins (init_mem allocated) _ λ p e.
          create_models-Begins (record rt { trace = t; core = record rt.core { pmem = p } })
            (program ∷ app) off

  -- What the end of the program says.
  abbrev Ends : (List String → Runtime E R → Option (Runtime E R × ℕ)) → Runtime E R × ℕ → Type 0
  Ends frontend (rt, status) =
      IsShut rt
      × ((status ≡ 2)
          ⊎ ((argv : List String) × (before : Runtime E R) × (after : Runtime E R)
              × (before.core.initialized ≡ true)
              × (frontend argv before ≡ some (after, status))))

  after_init-Ends :
      (frontend : Frontend E R) (rt : Runtime E R) (argv : Option (List String))
      → Begins (rt, argv)
      → After (Ends frontend) (after_init E R c frontend rt argv)
  unfolding after_init
  after_init-Ends frontend rt none off = (ended-IsShut rt off, inl refl)
  after_init-Ends frontend rt (some argv) off =
      After-bind (Ends frontend) (frontend argv rt) _
        λ (rt', status) e. (runtime_fini-IsShut rt', inr (argv, rt, rt', off, e))

  host_main-Ends :
      (strtoull : Strtoull) (frontend : Frontend E R) (rt : Runtime E R) (program : String)
      (args : List String) (allocated : Bool)
      → rt.core.initialized ≡ false
      → After (Ends frontend) (host_main E R c strtoull frontend rt program args allocated)
  unfolding host_main
  host_main-Ends strtoull frontend rt program args allocated off =
      After-then Begins (Ends frontend) (runtime_init E R c strtoull rt program args true allocated)
        _ (runtime_init-Begins strtoull rt program args true allocated off)
        λ (rt', argv) begun. after_init-Ends frontend rt' argv begun

  -- However a program that begins with the runtime not initialised ends, and whatever the
  -- application and the models do: the runtime is not initialised and accepts no device, and the
  -- exit status is 2, or the one that the application has returned after a start with the runtime
  -- initialised.
  pub host_main-IsShut :
      (strtoull : Strtoull) (frontend : Frontend E R) (rt rt' : Runtime E R) (program : String)
      (args : List String) (allocated : Bool) (status : ℕ)
      → rt.core.initialized ≡ false
      → host_main E R c strtoull frontend rt program args allocated ≡ some (rt', status)
      → IsShut rt'
        × ((status ≡ 2)
            ⊎ ((argv : List String) × (before : Runtime E R) × (after : Runtime E R)
                × (before.core.initialized ≡ true)
                × (frontend argv before ≡ some (after, status))))
  host_main-IsShut strtoull frontend rt rt' program args allocated status off e =
      After-some (Ends frontend) (host_main E R c strtoull frontend rt program args allocated)
        (rt', status) (host_main-Ends strtoull frontend rt program args allocated off) e
