-- ===== src/Cycle/Pack.antt =====
-- `pack` of sw/sim/hm/difftest.cpp: the state as the words that the hardware is compared with. The
-- words are listed by their index; every word that the source does not write is zero.
pub mod Concat
pub mod Layout
use Prim.Native.Nat.{bit_and, bit_or}
use open_gpu.Prelude.{
  ℕ, zero, suc, ◌+◌, ◌*◌, Bool, true, false, not, ◌&&◌, ◌||◌, none, some, List, [], ◌∷◌, ◌++◌, ◌==◌,
  if◌then◌else◌,
}
use open_gpu.Prelude.Word.{not32}
use open_gpu.Config.{Config}
use open_gpu.Iss.State.{Triple}
use open_gpu.Iss.Decode.{shl, opcode, funct3, rs2_of}
use open_gpu.Iss.Alu.{flag}
use open_gpu.Cycle.State.{
  CycleCore, CoreState, sched, fetch, exec, mem_req, mem_resp, CycleModel, contexts, stack_depth,
}
use open_gpu.Cycle.Mask.{mask_has, mask_where}
use open_gpu.Cycle.Transfer.{load32, lane_register, memory_address, store_mask}
use open_gpu.Cycle.Kmu.{is_request, ready_mask, busy_mask, select_core}

unfoldable pub state_code : CoreState → ℕ
state_code sched = 0
state_code fetch = 1
state_code exec = 2
state_code mem_req = 3
state_code mem_resp = 4

-- `c.state == MEM_REQ || c.state == MEM_RESP`
unfoldable pub in_memory : CoreState → Bool
in_memory sched = false
in_memory fetch = false
in_memory exec = false
in_memory mem_req = true
in_memory mem_resp = true

abbrev pub words_of : Triple → List ℕ
words_of t = t.x ∷ t.y ∷ t.z ∷ []

-- `f i ∷ ... ∷ f (i + left - 1)`, joined.
unfoldable pub gather : (ℕ → List ℕ) → ℕ → ℕ → List ℕ
gather f zero i = []
gather f (suc left) i = f i ++ gather f left (i + 1)

-- One of `left` cores, from core `i` on, passes the test.
unfoldable pub any_from : (ℕ → Bool) → ℕ → ℕ → Bool
any_from test zero i = false
any_from test (suc left) i = test i || any_from test left (i + 1)

-- `packed[0]` to `packed[22]`.
unfoldable pub top_words : Config → CycleModel → List ℕ
unfolding ready_mask busy_mask select_core any_from
top_words c m =
    let ready = ready_mask c m in
    let busy = busy_mask c m in
    let done = mask_where (λ i. not (m.cores i).cta_active) c.num_cores 0 0 in
    let chosen = select_core c m in
    let topbusy = flag (m.running || not (busy == 0)) in
    topbusy
      ∷ flag (any_from (λ i. (m.cores i).fault) c.num_cores 0)
      ∷ done
      ∷ m.startup
      ∷ m.args
      ∷ m.args_size
      ∷ words_of m.dim
    ++ words_of m.grid
    ++ m.block_size ∷ words_of m.block
    ++ flag m.running
      ∷ m.rr
      ∷ elim chosen [ none ↦ 0 | some sel ↦ if m.running then shl 1 sel else 0 ]
      ∷ ready
      ∷ busy
      ∷ topbusy
      ∷ elim chosen [ none ↦ 0 | some sel ↦ bit_or sel (shl 1 31) ]
      ∷ []

-- `d[22]` to `d[27]`, and whether the load of `d[27]` fails.
unfoldable pub port_words : Config → CycleModel → CycleCore → List ℕ × Bool
unfolding mask_has in_memory memory_address lane_register store_mask load32 is_request
port_words c m core =
    let op = opcode core.inst in
    let a = memory_address c core in
    let reads = op == 3 && not (is_request core.state) in
    let (word, bad) = load32 c m (bit_and a (not32 3)) in
    if in_memory core.state && mask_has core.im core.mt
    then (
      flag (op == 3 && is_request core.state)
          ∷ flag (op == 0x23 && is_request core.state)
          ∷ store_mask (funct3 core.inst) a
          ∷ bit_and a (not32 3)
          ∷ shl (lane_register c core core.mt (rs2_of core.inst)) (bit_and a 3 * 8)
          ∷ (if reads then word else 0)
          ∷ [],
      reads && bad,
    )
    else (0 ∷ 0 ∷ 0 ∷ 0 ∷ 0 ∷ 0 ∷ [], false)

-- The words of warp `w`, and of context `x`.
unfoldable pub warp_words : CycleCore → ℕ → List ℕ
warp_words core w =
    flag (core.valid w)
    ∷ core.pc w
    ∷ core.mask w
    ∷ core.sp w
    ∷ gather (λ s. core.stack_pc w s ∷ core.stack_mask w s ∷ []) stack_depth 0

unfoldable pub lane_words : CycleCore → ℕ → List ℕ
lane_words core x =
    core.tx x ∷ core.ty x ∷ core.tz x ∷ core.gid x ∷ gather (λ r. core.gpr x r ∷ []) 16 0

-- `d[0]` to `d[21]`.
unfoldable pub core_head : Config → CycleCore → List ℕ
unfolding state_code
core_head c core =
    state_code core.state
      ∷ flag core.cta_active
      ∷ flag core.fault
      ∷ core.rr
      ∷ core.iw
      ∷ core.im
      ∷ core.ip
      ∷ core.inst
      ∷ core.mt
      ∷ words_of core.block
    ++ words_of core.dim
    ++ words_of core.grid
    ++ core.args
      ∷ mask_where core.valid c.num_warps 0 0
      ∷ flag (state_code core.state == 1)
      ∷ core.ip
      ∷ []

-- The words of a core.
unfoldable pub packed_core : Config → CycleModel → CycleCore → List ℕ
unfolding core_head port_words warp_words lane_words gather
packed_core c m core =
    core_head c core
    ++ (port_words c m core).0
    ++ gather (warp_words core) c.num_warps 0
    ++ gather (lane_words core) (contexts c) 0

unfoldable pub pack : Config → CycleModel → CycleModel
unfolding top_words packed_core port_words any_from gather
pack c m = record m {
  packed = top_words c m ++ gather (λ i. packed_core c m (m.cores i)) c.num_cores 0;
  failed = m.failed || any_from (λ i. (port_words c m (m.cores i)).1) c.num_cores 0;
}
