-- ===== src/Tests/Cycle.antt =====
-- The cycle model at concrete inputs: one core of one warp of one lane, about to store a word.
use open_gpu.Prelude.{
  ℕ, ◌<◌, ◌≡◌, ◌↔◌, refl, Bool, true, false, Option, none, some, List, [], ◌∷◌, arith, ◌==◌,
}
use open_gpu.Config.{Config}
use open_gpu.Iss.Decode.{opcode, rs1_of, rs2_of, funct3, imm_s}
use open_gpu.Iss.Grid.{unflatten}
use open_gpu.Iss.Grid.Coordinates.{cells}
use open_gpu.Cycle.State.{CycleCore, mem_req, Store, CycleModel, new_core, new_model, put}
use open_gpu.Cycle.Mask.{mask_has}
use open_gpu.Cycle.Transfer.{
  captured, store_all, store_ref, store_bytes, store_byte, memory_address, lane_register,
  store_mask,
}
use open_gpu.Cycle.Core.{step_core, step_active, step_request, next_lane, next_warp, bad_fields}
use open_gpu.Cycle.Pack.{pack}
use open_gpu.Cycle.Pack.Layout.{gpr_word, field_name-pack}
use open_gpu.Cycle.Names.{gpr_field, field_name}
use open_gpu.Prelude.{get_elem?}
use open_gpu.Cycle.Kmu.{
  capture, step_cores, advance, write_dcr, next_block, is_storing, is_request, select_core,
}
use open_gpu.Iss.Decode.{uses_rd, uses_rs1, uses_rs2, rd_of}
use open_gpu.Cycle.Kmu.Walk.{advances, advances_walk}
use open_gpu.Cycle.Step.{diff_cycle, diff_step, fired_core, check_stores, check_memory}
use open_gpu.Cycle.Step.Bounds.{IsModel, diff_step-IsModel}
use open_gpu.Cycle.Step.Ascending.{SameStores}
use open_gpu.Cycle.Step.Stores.{check_stores-diff_step}
use open_gpu.Cycle.Step.Writes.{occurs}
use open_gpu.Cycle.Step.Dirty.{check_memory_dirty}
use open_gpu.Tests.Fixture.{default_config}
use open_gpu.Tests.Sorting.{insertion_sort, insertion_sort-IsSort}

abbrev pub tiny_config : Config
tiny_config = record default_config { num_cores = 1; num_warps = 1; num_threads = 1 }

-- The launch of a grid of 3 by 2 blocks, while the registers still point at another block.
abbrev launching : CycleModel
launching = record new_model {
  grid = record { x = 3; y = 2; z = 1 };
  block = record { x = 2; y = 0; z = 0 };
  launch = true;
}

abbrev launched : CycleModel
launched = record (advance default_config none launching) { launch = false }

advances_walk_example :
    ((k : ℕ)
      → k < cells launching.grid
      → ((advances default_config (λ _. 0) k launched).block ≡ unflatten launching.grid k)
        × ((advances default_config (λ _. 0) k launched).running ≡ true))
    × ((advances default_config (λ _. 0) (cells launching.grid) launched).running ≡ false)
advances_walk_example =
    advances_walk default_config launching none (λ _. 0) refl
      (record {
        x_pos = omega arith;
        y_pos = omega arith;
        z_pos = omega arith;
        small = omega arith;
      })
      (omega arith)

-- Warp 1 is the only one that is valid, and warp 2 is to be asked first.
abbrev only_one : ℕ → Bool
only_one x = x == 1

-- sw x2, 0(x1), with the word 0xdeadbeef for the second word of the memory.
abbrev pub storing : CycleCore
storing = record new_core {
  state = mem_req;
  cta_active = true;
  im = 1;
  inst = 0x0020a023;
  gpr = λ _. put (put (λ _. 0) 1 0x80000004) 2 0xdeadbeef;
}

abbrev observed : Store
observed = record { addr = 0x80000004; data_word = 0xdeadbeef; mask = 15 }

abbrev storing_model : CycleModel
storing_model = record new_model {
  cores = λ _. storing;
  active = true;
  mem_size = 16;
  actual = observed ∷ [];
}

is_captured : capture tiny_config storing_model 1 0 ≡ observed ∷ []
unfolding capture captured mask_has opcode rs1_of rs2_of funct3 imm_s
is_captured = refl

abbrev or_before : Option CycleModel → CycleModel
or_before none = storing_model
or_before (some m) = m

abbrev stored_model : CycleModel
stored_model = or_before (diff_step insertion_sort tiny_config storing_model)

steps : diff_step insertion_sort tiny_config storing_model ≡ some stored_model
unfolding diff_step diff_cycle
steps = refl

storing-IsModel : IsModel tiny_config storing_model
unfolding bad_fields uses_rd uses_rs1 uses_rs2 rd_of rs1_of rs2_of opcode
storing-IsModel = record {
  each = λ _. record {
    stack = λ _. omega arith;
    warp = omega arith;
    turn = omega arith;
    thread = omega arith;
    x0 = λ _. refl;
    fields = λ _. refl;
  };
  turn = omega arith;
}

diff_step-IsModel_example : IsModel tiny_config stored_model
diff_step-IsModel_example =
    diff_step-IsModel tiny_config (omega arith) (omega arith) insertion_sort storing_model
      stored_model (omega arith) storing-IsModel steps

check_stores-diff_step_example :
    ((check_stores insertion_sort stored_model).1 ≡ true)
    ↔ SameStores (observed ∷ []) (capture tiny_config storing_model 1 0)
check_stores-diff_step_example =
    check_stores-diff_step insertion_sort tiny_config storing_model stored_model
      insertion_sort-IsSort refl steps

-- The store writes bytes 4 to 7.
untouched : (i : ℕ) → occurs i stored_model.dirty ≡ false → stored_model.mem i ≡ 0
unfolding diff_step diff_cycle step_cores step_core step_active step_request next_lane next_warp
    write_dcr advance next_block capture captured is_storing is_request fired_core select_core
    store_all store_ref store_bytes store_byte mask_has opcode rs1_of rs2_of funct3 imm_s
    memory_address lane_register store_mask pack
untouched i clean = ground (arith, clean)

-- The list as it is has all that it holds.
abbrev pub untidied : List ℕ → List ℕ
untidied is = is

check_memory_dirty_example :
    ((check_memory untidied stored_model.mem 16 false stored_model).1 ≡ true)
    ↔ ((check_memory untidied stored_model.mem 16 true stored_model).1 ≡ true)
check_memory_dirty_example =
    check_memory_dirty insertion_sort untidied tiny_config storing_model stored_model
      storing_model.mem stored_model.mem (record { keeps = λ is i. refl }) refl refl steps
      (λ i h. refl) untouched

field_name-pack_example :
    (get_elem? (pack default_config storing_model).packed (gpr_word default_config 1 9 2)
      ≡ some 0xdeadbeef)
    × (field_name default_config (gpr_word default_config 1 9 2) ≡ gpr_field 1 9 2)
field_name-pack_example =
    field_name-pack default_config storing_model 1 9 2 (omega arith) (omega arith) (omega arith)
