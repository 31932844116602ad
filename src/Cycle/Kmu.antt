-- ===== src/Cycle/Kmu.antt =====
-- One cycle of the model: the choice of a core, the registers, the walk over the grid and the
-- stores (`cycle_diff_step` and its neighbours of sw/sim/hm/difftest.cpp).
pub mod Next
pub mod Walk
use open_gpu.Prelude.{
  ℕ, zero, suc, ◌+◌, ◌-◌, Bool, true, false, not, ◌&&◌, ◌||◌, Option, none, some, List, [], ◌∷◌,
  ◌==◌, if◌then◌else◌, ◌>>=◌,
}
use open_gpu.Prelude.Word.{add32}
use open_gpu.Config.{Config}
use open_gpu.Iss.State.{Triple}
use open_gpu.Iss.Decode.{opcode}
use open_gpu.Cycle.State.{
  CycleCore, CoreState, sched, fetch, exec, mem_req, mem_resp, Store, CycleModel, put, zero_triple,
}
use open_gpu.Cycle.Mask.{mask_has, mask_where, first_from}
use open_gpu.Cycle.Transfer.{captured}
use open_gpu.Cycle.Core.{step_core}

-- `c.state == SCHED`
unfoldable pub is_sched : CoreState → Bool
is_sched sched = true
is_sched fetch = false
is_sched exec = false
is_sched mem_req = false
is_sched mem_resp = false

unfoldable pub is_request : CoreState → Bool
is_request mem_req = true
is_request sched = false
is_request fetch = false
is_request exec = false
is_request mem_resp = false

-- A core that can take a block.
unfoldable pub is_ready : CycleCore → Bool
unfolding is_sched
is_ready core = not core.cta_active && is_sched core.state

-- `ready` and `busy`, a bit for each core.
unfoldable pub ready_mask : Config → CycleModel → ℕ
unfolding is_ready mask_where
ready_mask c m = mask_where (λ i. is_ready (m.cores i)) c.num_cores 0 0

unfoldable pub busy_mask : Config → CycleModel → ℕ
unfolding mask_where
busy_mask c m = mask_where (λ i. (m.cores i).cta_active) c.num_cores 0 0

-- The core chosen in turn among those that are ready: `any` and `sel`.
unfoldable pub select_core : Config → CycleModel → Option ℕ
unfolding first_from ready_mask mask_has
select_core c m = first_from (mask_has (ready_mask c m)) m.rr c.num_cores c.num_cores 0

-- The core is about to make a store.
unfoldable pub is_storing : CycleCore → Bool
unfolding is_request mask_has
is_storing core =
    core.cta_active && is_request core.state && mask_has core.im core.mt && opcode core.inst == 0x23

-- The stores of this cycle, with `left` cores to go.
unfoldable pub capture : Config → CycleModel → ℕ → ℕ → List Store
unfolding is_storing captured
capture c m zero i = []
capture c m (suc left) i =
    let rest = capture c m left (i + 1) in
    if is_storing (m.cores i) then captured c (m.cores i) ∷ rest else rest

-- `fire && i == sel`
unfoldable pub is_fired : Option ℕ → ℕ → Bool
is_fired none i = false
is_fired (some sel) i = i == sel

-- Every core makes its step, with `left` cores to go.
unfoldable pub step_cores : Config → Option ℕ → ℕ → ℕ → CycleModel → Option CycleModel
unfolding step_core is_fired
step_cores c fired zero i m = some m
step_cores c fired (suc left) i m = do
  (core, bad) ← step_core c m i (is_fired fired i) (m.cores i)
  step_cores c fired left (i + 1)
      (record m { cores = put m.cores i core; failed = m.failed || bad })

-- A write to a device register; an address that names none is ignored.
unfoldable pub write_dcr : CycleModel → CycleModel
write_dcr m =
    let a = m.dcr_addr in
    let d = m.dcr_data in
    if not m.dcr_valid
    then m
    else if a == 0x10
    then record m { startup = d }
    else if a == 0x11
    then record m { args = d }
    else if a == 0x12
    then record m { args_size = d }
    else if a == 0x13
    then record m { dim = record m.dim { x = d } }
    else if a == 0x14
    then record m { dim = record m.dim { y = d } }
    else if a == 0x15
    then record m { dim = record m.dim { z = d } }
    else if a == 0x16
    then record m { grid = record m.grid { x = d } }
    else if a == 0x17
    then record m { grid = record m.grid { y = d } }
    else if a == 0x18
    then record m { grid = record m.grid { z = d } }
    else if a == 0x19
    then record m { block_size = d }
    else m

-- The next block of the grid, and whether there is one.
unfoldable pub next_block : Triple → Triple → Triple × Bool
next_block grid b =
    if not (add32 b.x 1 == grid.x)
    then (record b { x = add32 b.x 1 }, true)
    else if not (add32 b.y 1 == grid.y)
    then (record b { x = 0; y = add32 b.y 1 }, true)
    else if not (add32 b.z 1 == grid.z)
    then (record { x = 0; y = 0; z = add32 b.z 1 }, true)
    else (zero_triple, false)

-- The launch, or the step to the next block after one has been handed to core `sel`.
unfoldable pub advance : Config → Option ℕ → CycleModel → CycleModel
unfolding next_block
advance c fired m =
    if m.launch
    then record m {
      block = zero_triple;
      running =
          not (m.block_size == 0)
          && not (m.grid.x == 0)
          && not (m.grid.y == 0)
          && not (m.grid.z == 0);
    }
    else elim fired [
      | none ↦ m
      | some sel ↦
          (let (b, more) = next_block m.grid m.block in
            record m {
              rr = if sel == c.num_cores - 1 then 0 else sel + 1;
              block = b;
              running = m.running && more;
            })
    ]
