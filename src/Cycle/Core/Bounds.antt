-- ===== src/Cycle/Core/Bounds.antt =====
-- The steps of a core, one by one, and the bounds of Inside.
use open_gpu.Prelude.{
  ℕ, zero, suc, ◌+◌, ◌-◌, ◌*◌, ◌<◌, ◌≡◌, refl, inl, inr, Bool, true, false, not, ◌&&◌, ◌||◌, leb,
  ◌==◌, arith, Bool-cases, Option-cases, if◌then◌else◌,
}
use open_gpu.Prelude.Chain.{After, After-bind, After-some}
use open_gpu.Config.{Config}
use open_gpu.Iss.Decode.{opcode, rd_of, funct3, rs1_of, rs2_of, uses_rd}
use open_gpu.Iss.Grid.{mul32}
use open_gpu.Cycle.State.{
  CycleCore, CycleModel, CoreState, sched, fetch, exec, mem_req, mem_resp, put, put_register,
  stack_depth,
}
use open_gpu.Cycle.Mask.{mask_has}
use open_gpu.Cycle.Mask.Turn.{first_from_turn}
use open_gpu.Prelude.Word.{add32}
use open_gpu.Cycle.Transfer.{load32, lane_register, load_value, memory_address}
use open_gpu.Cycle.Lane.{
  Pass, lane_value, write_lane, lane_step, lane_steps, is_branch, split_masks,
}
use open_gpu.Cycle.Core.{
  next_warp, accept_cta, step_sched, step_break, branch_to, step_branch, step_lanes, step_exec,
  next_lane, step_request, step_response, step_active, step_core, lane_takes, bad_fields,
}
use open_gpu.Cycle.Core.Inside.{
  IsCore, written_field, loaded_field, next_turn, with_stack, with_register, with_state, with_warp,
  with_thread, either_way,
}

lane_step-inst : (c : Config) (cid t : ℕ) (p : Pass) → (lane_step c cid t p).core.inst ≡ p.core.inst
unfolding lane_step write_lane
lane_step-inst c cid t p =
    elim (Option-cases (
      lane_value c p.core cid t (lane_register c p.core t (rs1_of p.core.inst))
        (lane_register c p.core t (rs2_of p.core.inst)))) [
          | inl fails ↦ rw (lane_step, fails) refl
          | inr (res, e) ↦ rw (lane_step, e) refl
        ]

module _ (c : Config) where
  step_sched-IsCore : (core : CycleCore) → IsCore c core → IsCore c (step_sched c core)
  unfolding step_sched
  step_sched-IsCore core h = elim (first_from_turn core.valid core.rr c.num_warps h.turn) [
    | inl (x, d, e, next, near, inside) ↦
        rw (step_sched, e) (with_state (with_warp h x inside) fetch core.inst refl)
    | inr (e, nothing) ↦ rw (step_sched, e) h
  ]

  step_break-IsCore : (core : CycleCore) → IsCore c core → IsCore c (step_break c core)
  unfolding step_break next_warp
  step_break-IsCore core h = elim (Bool-cases (core.sp core.iw == 0)) [
    | inl empty ↦ rw (step_break, empty) (next_turn h)
    | inr entries ↦
        rw (step_break, entries)
          (next_turn (with_stack h core.iw (core.sp core.iw - 1) (omega (arith, h.stack core.iw))))
  ]

  branch_to-IsCore :
      (core : CycleCore) (tk fl : ℕ) → IsCore c core → IsCore c (branch_to core tk fl)
  unfolding branch_to
  branch_to-IsCore core tk fl h = elim (Bool-cases (is_branch (funct3 core.inst))) [
    | inr bad ↦ rw (branch_to, bad) h
    | inl good ↦ elim (Bool-cases (not (tk == 0) && not (fl == 0))) [
      | inr one_side ↦ elim (Bool-cases (tk == 0)) [
        | inl none_takes ↦ rw (branch_to, good, one_side, none_takes) h
        | inr all_take ↦ rw (branch_to, good, one_side, all_take) h
      ]
      | inl both ↦ elim (Bool-cases (leb stack_depth (core.sp core.iw))) [
        | inl full ↦ rw (branch_to, good, both, full) h
        | inr room ↦
            rw (branch_to, good, both, room)
              (with_stack h core.iw (core.sp core.iw + 1) (ground (arith, room)))
      ]
    ]
  ]

  step_branch-IsCore : (core : CycleCore) → IsCore c core → IsCore c (step_branch c core)
  unfolding step_branch next_warp
  step_branch-IsCore core h =
      let (tk, fl) = split_masks (lane_takes c core) core.im c.num_threads 0 (0, 0) in
      next_turn (branch_to-IsCore core tk fl h)

  next_lane-IsCore :
      (core : CycleCore)
      → bad_fields core.inst ≡ false
      → IsCore c core
      → IsCore c (next_lane c core)
  unfolding next_lane next_warp
  next_lane-IsCore core good h = elim (Bool-cases (core.mt == c.num_threads - 1)) [
    | inl last ↦ rw (next_lane, last) (next_turn h)
    | inr more ↦
        rw (next_lane, more)
          (with_thread h (core.mt + 1) mem_req good (ground (arith, more, h.thread)))
  ]

  lane_step-IsCore :
      (cid t : ℕ) (p : Pass)
      → bad_fields p.core.inst ≡ false
      → IsCore c p.core
      → IsCore c (lane_step c cid t p).core
  unfolding lane_step write_lane
  lane_step-IsCore cid t p good h =
      let x = p.core.iw * c.num_threads + t in
      let rd = rd_of p.core.inst in
      let kept = λ (v : ℕ).
        with_register h x rd v (uses_rd (opcode p.core.inst) && not (rd == 0))
          (written_field p.core.inst good) in
      let a = lane_register c p.core t (rs1_of p.core.inst) in
      let b = lane_register c p.core t (rs2_of p.core.inst) in
      elim (Option-cases (lane_value c p.core cid t a b)) [
        | inl fails ↦ rw (lane_step, fails) (kept 0)
        | inr (res, e) ↦ rw (lane_step, e) (kept res)
      ]

  lane_steps-IsCore :
      (cid left t : ℕ) (p : Pass)
      → bad_fields p.core.inst ≡ false
      → IsCore c p.core
      → IsCore c (lane_steps c cid left t p).core
  unfolding lane_steps
  lane_steps-IsCore cid zero t p good h = h
  lane_steps-IsCore cid (suc left) t p good h = elim (Bool-cases (mask_has p.core.im t)) [
    | inl active ↦
        rw (lane_steps, active)
          (lane_steps-IsCore cid left (t + 1) (lane_step c cid t p)
            (rw (lane_step-inst c cid t p) good) (lane_step-IsCore cid t p good h))
    | inr idle ↦ rw (lane_steps, idle) (lane_steps-IsCore cid left (t + 1) p good h)
  ]

  step_lanes-IsCore :
      (cid : ℕ) (core : CycleCore)
      → bad_fields core.inst ≡ false
      → IsCore c core
      → IsCore c (step_lanes c cid core)
  unfolding step_lanes next_warp
  step_lanes-IsCore cid core good h =
      let start : Pass = record {
        core = core;
        good = true;
        diverged = false;
        target_set = false;
        first = 0;
        next = add32 core.ip 4;
      } in
      let p = lane_steps c cid c.num_threads 0 start in
      let kept = lane_steps-IsCore cid c.num_threads 0 start good h in
      elim (Bool-cases (not p.good || p.diverged)) [
        | inl bad ↦ rw (step_lanes, bad) (next_turn kept)
        | inr fine ↦ rw (step_lanes, fine) (next_turn kept)
      ]

  step_exec-IsCore :
      (cid : ℕ) (core : CycleCore)
      → 0 < c.num_threads
      → IsCore c core
      → IsCore c (step_exec c cid core)
  unfolding step_exec
  step_exec-IsCore cid core threads h = elim (Bool-cases (bad_fields core.inst)) [
    | inl bad ↦ rw (step_exec, bad) (with_state h sched core.inst refl)
    | inr fields ↦ elim (Bool-cases (opcode core.inst == 3 || opcode core.inst == 0x23)) [
      | inl memory ↦ rw (step_exec, fields, memory) (with_thread h 0 mem_req fields threads)
      | inr other_op ↦ elim (Bool-cases (core.inst == 0x00100073)) [
        | inl break ↦ rw (step_exec, fields, other_op, break) (step_break-IsCore core h)
        | inr runs ↦ elim (Bool-cases (opcode core.inst == 0x63)) [
          | inl branch ↦ rw (step_exec, fields, other_op, runs, branch) (step_branch-IsCore core h)
          | inr lanes ↦
              rw (step_exec, fields, other_op, runs, lanes) (step_lanes-IsCore cid core fields h)
        ]
      ]
    ]
  ]

  step_request-IsCore :
      (core : CycleCore)
      → bad_fields core.inst ≡ false
      → IsCore c core
      → IsCore c (step_request c core)
  unfolding step_request
  step_request-IsCore core good h = elim (Bool-cases (mask_has core.im core.mt)) [
    | inl active ↦ rw (step_request, active) (with_thread h core.mt mem_resp good h.thread)
    | inr idle ↦ rw (step_request, idle) (next_lane-IsCore core good h)
  ]

  step_response-IsCore :
      (m : CycleModel) (core : CycleCore)
      → bad_fields core.inst ≡ false
      → IsCore c core
      → IsCore c (step_response c m core).0
  unfolding step_response
  step_response-IsCore m core good h =
      let x = core.iw * c.num_threads + core.mt in
      let loads = opcode core.inst == 3 && not (rd_of core.inst == 0) in
      let value = (load_value c m (memory_address c core) (funct3 core.inst)).0 in
      let written = if loads then put_register core.gpr x (rd_of core.inst) value else core.gpr in
      next_lane-IsCore (record core { gpr = put written x (put (written x) 0 0) }) good
        (with_register h x (rd_of core.inst) value loads (loaded_field core.inst good))

  accept_cta-IsCore :
      (m : CycleModel) (core : CycleCore)
      → 0 < c.num_warps
      → IsCore c core
      → After (IsCore c) (accept_cta c m core)
  unfolding accept_cta
  accept_cta-IsCore m core warps h =
      elim (Bool-cases (m.dim.x == 0 || m.dim.y == 0 || mul32 m.dim.x m.dim.y == 0)) [
        | inl empty ↦ rw empty tt
        | inr box ↦ rw box (record {
          stack = λ _. omega arith;
          warp = h.warp;
          turn = warps;
          thread = h.thread;
          x0 = λ _. refl;
          fields = λ e. absurd (cc e);
        })
      ]

  step_active-IsCore :
      (m : CycleModel) (cid : ℕ) (core : CycleCore) (state : CoreState)
      → core.state ≡ state
      → 0 < c.num_threads
      → IsCore c core
      → IsCore c (step_active c m cid core state).0
  unfolding step_active
  step_active-IsCore m cid core sched e threads h = step_sched-IsCore core h
  step_active-IsCore m cid core fetch e threads h = with_state h exec (load32 c m core.ip).0 refl
  step_active-IsCore m cid core exec e threads h = step_exec-IsCore cid core threads h
  step_active-IsCore m cid core mem_req e threads h =
      step_request-IsCore core (h.fields (rw e refl)) h
  step_active-IsCore m cid core mem_resp e threads h =
      step_response-IsCore m core (h.fields (rw e refl)) h

  -- A cycle of a core, in any state, with any word fetched and any memory, keeps the bounds.
  pub step_core-IsCore :
      (m : CycleModel) (cid : ℕ) (fire : Bool) (core : CycleCore)
      → 0 < c.num_warps
      → 0 < c.num_threads
      → IsCore c core
      → After (λ (x : CycleCore × Bool). IsCore c x.0) (step_core c m cid fire core)
  unfolding step_core
  step_core-IsCore m cid true core warps threads h =
      After-bind (λ (x : CycleCore × Bool). IsCore c x.0) (accept_cta c m core) _
        λ core' e.
          After-some (IsCore c) (accept_cta c m core) core' (accept_cta-IsCore m core warps h) e
  step_core-IsCore m cid false core warps threads h =
      either_way (λ (x : CycleCore × Bool). IsCore c x.0) core.cta_active (core, false)
        (step_active c m cid core core.state) h
        (step_active-IsCore m cid core core.state refl threads h)
