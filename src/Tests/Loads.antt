-- ===== src/Tests/Loads.antt =====
-- A load of the cycle model beside one of the simulator: the second half of the second word.
use open_gpu.Prelude.{◌%◌, ◌≡◌, refl, inl, inr, false, some, arith}
use open_gpu.Iss.Step.{load_mem}
use open_gpu.Cycle.State.{CycleModel, new_model}
use open_gpu.Cycle.Transfer.{load_value}
use open_gpu.Cycle.Agree.Load.{IsInside, load_value-load_mem}
use open_gpu.Tests.Fixture.{default_config}

abbrev counting : CycleModel
counting = record new_model { mem = λ i. i % 256; mem_size = 0x8000000 }

counting-IsInside : IsInside default_config counting 0x80000006
counting-IsInside = record {
  bytes = λ i. omega arith;
  size = refl;
  base = omega arith;
  start = omega arith;
  stop = omega arith;
  top = omega arith;
}

load_value-load_mem_example :
    (load_mem default_config (some counting.mem) 0x80000006 1
      ≡ some ((load_value default_config counting 0x80000006 1).0, false))
    × ((load_value default_config counting 0x80000006 1).1 ≡ false)
load_value-load_mem_example =
    load_value-load_mem default_config counting 1 0x80000006 counting-IsInside
      (inr (inr (inl (inl refl, omega arith))))
