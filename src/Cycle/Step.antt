-- ===== src/Cycle/Step.antt =====
-- The hooks of sw/sim/hm/difftest.cpp that rtl.cpp calls. `std::sort` on stores, and `std::sort`
-- followed by `std::unique` on offsets, are arguments.
pub mod Bounds
pub mod Ascending
pub mod Stores
pub mod Writes
pub mod Dirty
use open_gpu.Prelude.{
  ℕ, zero, suc, ◌+◌, ◌%◌, Bool, true, false, not, ◌&&◌, Option, none, some, List, [], ◌∷◌, ◌++◌,
  ◌==◌, if◌then◌else◌, ◌>>=◌,
}
use open_gpu.Prelude.Word.{u64_mod}
use open_gpu.Config.{Config}
use open_gpu.Memory.{Bytes}
use open_gpu.Cycle.State.{Store, CycleModel, new_model}
use open_gpu.Cycle.Transfer.{store_equal, store_all}
use open_gpu.Cycle.Kmu.{select_core, capture, step_cores, write_dcr, advance}
use open_gpu.Cycle.Pack.{pack}

-- `cycle_diff_init` and `cycle_diff_reset`
unfoldable pub diff_reset : Config → CycleModel
unfolding pack
diff_reset c = pack c new_model

-- `cycle_diff_begin`
unfoldable pub diff_begin : Bytes → ℕ → CycleModel → CycleModel
diff_begin p size m = record m {
  mem = p;
  mem_size = size;
  active = true;
  failed = false;
  cycle = 0;
}

-- `cycle_diff_set_inputs`
unfoldable pub set_inputs : Bool → Bool → ℕ → ℕ → Bool → CycleModel → CycleModel
set_inputs reset valid addr word launch m = record m {
  reset = reset;
  dcr_valid = valid;
  dcr_addr = addr;
  dcr_data = word;
  launch = launch;
}

-- The core that takes a block in this cycle: `fire` and `sel`.
unfoldable pub fired_core : Config → CycleModel → Option ℕ
unfolding select_core
fired_core c m = if m.running then select_core c m else none

-- `m.actual == m.expected`
unfoldable pub same_stores : List Store → List Store → Bool
unfolding store_equal
same_stores [] [] = true
same_stores [] (t ∷ ts) = false
same_stores (s ∷ ss) [] = false
same_stores (s ∷ ss) (t ∷ ts) = store_equal s t && same_stores ss ts

module _ (sort : List Store → List Store) where
  -- The part of `cycle_diff_step` for a cycle without reset.
  unfoldable pub diff_cycle : Config → CycleModel → Option CycleModel
  unfolding fired_core capture step_cores write_dcr advance store_all pack
  diff_cycle c m = do
    let fired = fired_core c m
    let captured_model = record m { expected = capture c m c.num_cores 0; dirty = [] }
    stepped ← step_cores c fired c.num_cores 0 captured_model
    let advanced = advance c fired (write_dcr stepped)
    let sorted = record advanced { expected = sort advanced.expected }
    let stored = store_all c sorted.expected sorted
    some (pack c (record stored { cycle = (stored.cycle + 1) % u64_mod }))

  -- `cycle_diff_step`
  unfoldable pub diff_step : Config → CycleModel → Option CycleModel
  unfolding diff_cycle pack
  diff_step c m =
      let fresh = record new_model { mem = m.mem; mem_size = m.mem_size; active = m.active } in
      if m.reset then some (pack c fresh) else diff_cycle c m

  -- `cycle_diff_check_stores`
  unfoldable pub check_stores : CycleModel → CycleModel × Bool
  unfolding same_stores
  check_stores m =
      let sorted = record m { actual = sort m.actual } in
      if same_stores sorted.actual sorted.expected
      then (sorted, true)
      else (record sorted { failed = true }, false)

-- `cycle_diff_observe_store`
unfoldable pub observe_store : ℕ → ℕ → ℕ → CycleModel → CycleModel
observe_store a k d m =
    if m.active
    then record m {
      actual = m.actual ++ record { addr = a; data_word = if k == 0 then 0 else d; mask = k } ∷ [];
    }
    else m

-- `cycle_diff_apply_stores`
unfoldable pub apply_stores : CycleModel → CycleModel
apply_stores m = record m { actual = [] }

-- `std::memcmp(a, m.mem.data(), z) == 0`, with `left` bytes to go.
unfoldable pub same_bytes : Bytes → Bytes → ℕ → ℕ → Bool
same_bytes a b zero i = true
same_bytes a b (suc left) i = a i == b i && same_bytes a b left (i + 1)

-- The loop over `m.dirty`.
unfoldable pub same_at : Bytes → Bytes → List ℕ → Bool
same_at a b [] = true
same_at a b (i ∷ is) = a i == b i && same_at a b is

module _ (tidy : List ℕ → List ℕ) where
  -- `cycle_diff_check_memory`
  unfoldable pub check_memory : Bytes → ℕ → Bool → CycleModel → CycleModel × Bool
  unfolding same_bytes same_at
  check_memory a z full m =
      let tidied = record m { dirty = tidy m.dirty } in
      if not m.active
      then (m, true)
      else if not (z == m.mem_size)
      then (m, false)
      else if full
      then (if same_bytes a m.mem z 0 then (m, true) else (record m { failed = true }, false))
      else if same_at a tidied.mem tidied.dirty
      then (tidied, true)
      else (record tidied { failed = true }, false)
