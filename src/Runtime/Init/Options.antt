-- ===== src/Runtime/Init/Options.antt =====
-- The command line as `memu_runtime_init` reads it: which arguments are the runtime's own, and that
-- the others reach the application in their order.
use Prim.Native.String.{String}
use text.Mathlib.Text.{◌==◌ as str_eq}
use open_gpu.Prelude.{◌≡◌, ◌<◌, true, false, none, some, List, [], ◌∷◌}
use open_gpu.Trace.{Trace}
use open_gpu.Runtime.Init.{behind, Strtoull}

-- The items of a command line.
pub data Item : Type 0 where
  -- an argument of the application
  plain : String → Item
  -- `--gpu-trace`
  trace : Item
  -- `--gpu-trace-limit`, and the value as the next argument
  limit : String → Item
  -- the argument `--gpu-trace-limit=` with the value behind it
  joined : String → String → Item

abbrev pub render : List Item → List String
render [] = []
render (plain a ∷ is) = a ∷ render is
render (trace ∷ is) = "--gpu-trace" ∷ render is
render (limit v ∷ is) = "--gpu-trace-limit" ∷ v ∷ render is
render (joined a v ∷ is) = a ∷ render is

-- The arguments of the application, in their order.
abbrev pub plains : List Item → List String
plains [] = []
plains (plain a ∷ is) = a ∷ plains is
plains (trace ∷ is) = plains is
plains (limit v ∷ is) = plains is
plains (joined a v ∷ is) = plains is

-- An argument that is no option name.
pub record IsWord (a : String) : Type 0 where
  pub not_trace : str_eq a "--gpu-trace" ≡ false
  pub not_limit : str_eq a "--gpu-trace-limit" ≡ false

module _ (strtoull : Strtoull) where
  -- The settings that the items leave: the last limit counts.
  abbrev pub settings : List Item → Trace → Trace
  settings [] t = t
  settings (plain a ∷ is) t = settings is t
  settings (trace ∷ is) t = settings is (record t { requested = true })
  settings (limit v ∷ is) t = settings is (record t { limit = (strtoull v).0 })
  settings (joined a v ∷ is) t = settings is (record t { limit = (strtoull v).0 })

  -- A value that the code accepts: a number that is not zero, with nothing behind it.
  pub record IsLimit (v : String) : Type 0 where
    pub ended : (strtoull v).1 ≡ true
    pub pos : 0 < (strtoull v).0

  abbrev pub IsItem : Item → Type 0
  IsItem (plain a) = IsWord a × (behind "--gpu-trace-limit=" a ≡ none)
  IsItem trace = Unit
  IsItem (limit v) = IsLimit v
  IsItem (joined a v) = IsWord a × (behind "--gpu-trace-limit=" a ≡ some v) × IsLimit v
