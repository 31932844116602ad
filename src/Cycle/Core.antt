-- ===== src/Cycle/Core.antt =====
-- One cycle of one core: `accept_cta` and `step_core` of sw/sim/hm/difftest.cpp. A core is returned
-- with the flag that a load has failed, which sets `failed` of the model. `none` is a division by
-- zero.
pub mod Inside
pub mod Bounds
use open_gpu.Prelude.{
  ℕ, ◌+◌, ◌-◌, ◌*◌, ◌/◌, ◌%◌, Bool, true, false, not, ◌&&◌, ◌||◌, Option, none, some, ltb, leb,
  ◌==◌, if◌then◌else◌, ◌>>=◌,
}
use open_gpu.Prelude.Word.{add32}
use open_gpu.Config.{Config}
use open_gpu.Iss.Decode.{opcode, rd_of, funct3, rs1_of, rs2_of, imm_b, uses_rd, uses_rs1, uses_rs2}
use open_gpu.Iss.Grid.{mul32}
use open_gpu.Cycle.State.{
  CycleCore, CoreState, sched, fetch, exec, mem_req, mem_resp, CycleModel, put, put_register,
  stack_depth,
}
use open_gpu.Cycle.Mask.{mask_has, mask_where, first_from}
use open_gpu.Cycle.Transfer.{load32, lane_register, memory_address, load_value}
use open_gpu.Cycle.Lane.{takes, is_branch, split_masks, lane_steps}

unfoldable pub next_warp : Config → CycleCore → CycleCore
next_warp c core = record core {
  rr = if core.iw == c.num_warps - 1 then 0 else core.iw + 1;
  state = sched;
}

-- `c.fault = 1; c.cta_active = 0`
abbrev pub stop_core : CycleCore → CycleCore
stop_core core = record core { fault = true; cta_active = false }

-- The lanes of warp `w` that have a thread of the block.
unfoldable pub cta_mask : Config → ℕ → ℕ → ℕ
unfolding mask_where
cta_mask c block_size w = mask_where (λ t. ltb (w * c.num_threads + t) block_size) c.num_threads 0 0

-- The number of the first thread of the block in the grid.
unfoldable pub first_gid : CycleModel → ℕ
first_gid m =
    let bl = add32 (mul32 (add32 (mul32 m.block.z m.grid.y) m.block.y) m.grid.x) m.block.x in
    mul32 bl m.block_size

-- The core once it has taken the block.
unfoldable pub with_cta : Config → CycleModel → CycleCore → CycleCore
unfolding cta_mask first_gid
with_cta c m core = record core {
  cta_active = true;
  fault = false;
  state = sched;
  rr = 0;
  args = m.args;
  block = m.block;
  dim = m.dim;
  grid = m.grid;
  pc = λ _. m.startup;
  sp = λ _. 0;
  mask = cta_mask c m.block_size;
  valid = λ w. ltb (w * c.num_threads) m.block_size;
  tx = λ i. i % m.dim.x;
  ty = λ i. i / m.dim.x % m.dim.y;
  tz = λ i. i / mul32 m.dim.x m.dim.y;
  gid = λ i. add32 (first_gid m) i;
  gpr = λ _ _. 0;
}

unfoldable pub accept_cta : Config → CycleModel → CycleCore → Option CycleCore
unfolding with_cta
accept_cta c m core =
    if m.dim.x == 0 || m.dim.y == 0 || mul32 m.dim.x m.dim.y == 0
    then none
    else some (with_cta c m core)

-- State SCHED.
unfoldable pub step_sched : Config → CycleCore → CycleCore
unfolding first_from
step_sched c core = elim (first_from core.valid core.rr c.num_warps c.num_warps 0) [
  | none ↦ record core { cta_active = false }
  | some sel ↦ record core { iw = sel; im = core.mask sel; ip = core.pc sel; state = fetch }
]

-- EBREAK: the warp goes on with the masks on top of its stack, or ends.
unfoldable pub step_break : Config → CycleCore → CycleCore
unfolding next_warp
step_break c core = next_warp c (
    if core.sp core.iw == 0
    then record core { valid = put core.valid core.iw false }
    else (let s = core.sp core.iw - 1 in
        record core {
          sp = put core.sp core.iw s;
          pc = put core.pc core.iw (core.stack_pc core.iw s);
          mask = put core.mask core.iw (core.stack_mask core.iw s);
        }))

-- What a branch does with the masks of the lanes that take it and that do not.
unfoldable pub branch_to : CycleCore → ℕ → ℕ → CycleCore
branch_to core tk fl =
    let target = add32 core.ip (imm_b core.inst) in
    let s = core.sp core.iw in
    if not (is_branch (funct3 core.inst))
    then stop_core core
    else if not (tk == 0) && not (fl == 0)
    then (if leb stack_depth s then stop_core core else record core {
      sp = put core.sp core.iw (s + 1);
      stack_pc = put core.stack_pc core.iw (put (core.stack_pc core.iw) s target);
      stack_mask = put core.stack_mask core.iw (put (core.stack_mask core.iw) s tk);
      pc = put core.pc core.iw (add32 core.ip 4);
      mask = put core.mask core.iw fl;
    })
    else if not (tk == 0)
    then record core { pc = put core.pc core.iw target; mask = put core.mask core.iw tk }
    else record core { pc = put core.pc core.iw (add32 core.ip 4); mask = put core.mask core.iw fl }

-- Lane `t` takes the branch.
unfoldable pub lane_takes : Config → CycleCore → ℕ → Bool
unfolding takes lane_register
lane_takes c core t =
    takes (funct3 core.inst) (lane_register c core t (rs1_of core.inst))
      (lane_register c core t (rs2_of core.inst))

unfoldable pub step_branch : Config → CycleCore → CycleCore
unfolding next_warp branch_to split_masks lane_takes
step_branch c core =
    let (tk, fl) = split_masks (lane_takes c core) core.im c.num_threads 0 (0, 0) in
    next_warp c (branch_to core tk fl)

-- Every other instruction of state EXEC.
unfoldable pub step_lanes : Config → ℕ → CycleCore → CycleCore
unfolding next_warp lane_steps
step_lanes c cid core =
    let p = lane_steps c cid c.num_threads 0 (record {
      core = core;
      good = true;
      diverged = false;
      target_set = false;
      first = 0;
      next = add32 core.ip 4;
    }) in
    next_warp c (
      if not p.good || p.diverged
      then stop_core p.core
      else record p.core { pc = put p.core.pc p.core.iw p.next })

-- A register field in use that names none of the 16 registers.
unfoldable pub bad_fields : ℕ → Bool
bad_fields inst =
    let op = opcode inst in
    (uses_rd op && leb 16 (rd_of inst))
    || (uses_rs1 op && leb 16 (rs1_of inst))
    || (uses_rs2 op && leb 16 (rs2_of inst))

-- State EXEC.
unfoldable pub step_exec : Config → ℕ → CycleCore → CycleCore
unfolding bad_fields step_break step_branch step_lanes
step_exec c cid core =
    let op = opcode core.inst in
    if bad_fields core.inst
    then record (stop_core core) { state = sched }
    else if op == 3 || op == 0x23
    then record core { mt = 0; state = mem_req }
    else if core.inst == 0x00100073
    then step_break c core
    else if op == 0x63
    then step_branch c core
    else step_lanes c cid core

-- On to the next lane in `state`, or, after the last, to the next warp.
unfoldable pub next_lane : Config → CycleCore → CycleCore
unfolding next_warp
next_lane c core =
    if core.mt == c.num_threads - 1
    then next_warp c (record core { pc = put core.pc core.iw (add32 core.ip 4) })
    else record core { mt = core.mt + 1; state = mem_req }

-- State MEM_REQ: a lane outside the mask is passed over.
unfoldable pub step_request : Config → CycleCore → CycleCore
unfolding next_lane mask_has
step_request c core =
    if not (mask_has core.im core.mt) then next_lane c core else record core { state = mem_resp }

-- State MEM_RESP.
unfoldable pub step_response : Config → CycleModel → CycleCore → CycleCore × Bool
unfolding next_lane load_value memory_address
step_response c m core =
    let x = core.iw * c.num_threads + core.mt in
    let rd = rd_of core.inst in
    let loads = opcode core.inst == 3 && not (rd == 0) in
    let (value, bad) = load_value c m (memory_address c core) (funct3 core.inst) in
    let written = if loads then put_register core.gpr x rd value else core.gpr in
    (next_lane c (record core { gpr = put written x (put (written x) 0 0) }), loads && bad)

-- A core with a block, in the given state.
unfoldable pub step_active : Config → CycleModel → ℕ → CycleCore → CoreState → CycleCore × Bool
unfolding step_sched step_exec step_request step_response
step_active c m cid core sched = (step_sched c core, false)
step_active c m cid core fetch =
    let (word, bad) = load32 c m core.ip in (record core { inst = word; state = exec }, bad)
step_active c m cid core exec = (step_exec c cid core, false)
step_active c m cid core mem_req = (step_request c core, false)
step_active c m cid core mem_resp = step_response c m core

unfoldable pub step_core : Config → CycleModel → ℕ → Bool → CycleCore → Option (CycleCore × Bool)
unfolding accept_cta step_active
step_core c m cid true core = do core' ← accept_cta c m core; some (core', false)
step_core c m cid false core =
    if not core.cta_active then some (core, false) else some (step_active c m cid core core.state)
