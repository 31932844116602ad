-- ===== src/Iss/Step.antt =====
-- One instruction of one lane (`step_core` of sw/sim/sm/iss.cpp), and one step of the simulator
-- (`gpu_iss_step`). A reply of `none` is an access outside the memory, which aborts the process.
pub mod Zero
pub mod Run
use Prim.Native.Nat.{bit_and, bit_or, bit_xor}
use open_gpu.Prelude.{
  ℕ, zero, suc, ◌+◌, ◌-◌, ◌*◌, ◌/◌, ◌%◌, ◌^◌, Bool, true, false, not, ◌&&◌, ◌||◌, Option, none,
  some, List, [], ◌∷◌, ltb, leb, ◌==◌, if◌then◌else◌, ◌>>=◌, get_elem?, set, length,
}
use open_gpu.Prelude.Word.{u32_mod, add32, sub32, not32}
use open_gpu.Config.{Config}
use open_gpu.Memory.{Pmem, paddr_read, paddr_write}
use open_gpu.Trace.{Trace, trace_commit, trace_store}
use open_gpu.Backend.{World}
use open_gpu.Iss.State.{Triple, Lane, Iss, ncores, reg, set_reg}
use open_gpu.Iss.Alu.{alu_imm, alu_reg, branch_taken, jump_target, csr_value, flag}
use open_gpu.Iss.Decode.{
  shr, shl, sar, sext, slt, opcode, rd_of, funct3, rs1_of, rs2_of, funct7, imm_i, imm_u, imm_s,
  imm_b, imm_j, uses_rd, uses_rs1, uses_rs2,
}

-- What an instruction does to its lane: a fault that ends it (`fault_core` and `return`), the halt
-- of EBREAK, or a result and a next pc, with a fault on the way if the flag is set.
pub data Outcome : Type 0 where
  trap halt : Outcome
  retire : Bool → ℕ → ℕ → Outcome

unfoldable pub same_warp : Lane → Lane → Bool
same_warp left right =
    left.warp_id == right.warp_id
    && left.block_idx.x == right.block_idx.x
    && left.block_idx.y == right.block_idx.y
    && left.block_idx.z == right.block_idx.z

-- `load_mem`: the value, and whether `fault_core` is called.
unfoldable pub load_mem : Config → Pmem → ℕ → ℕ → Option (ℕ × Bool)
load_mem c p addr f3 =
    if f3 == 0
    then (do v ← paddr_read c p addr 1; some (sext v 8, false))
    else if f3 == 1
    then (do v ← paddr_read c p addr 2; some (sext v 16, false))
    else if f3 == 2
    then (do v ← paddr_read c p addr 4; some (v, false))
    else if f3 == 4
    then (do v ← paddr_read c p addr 1; some (v, false))
    else if f3 == 5
    then (do v ← paddr_read c p addr 2; some (v, false))
    else some (0, true)

-- A store of `len` bytes and its line in the trace.
unfoldable pub store_len : Config → World → ℕ → ℕ → ℕ → ℕ → ℕ → Option World
store_len c w hartid addr value len mask = do
  p ← paddr_write c w.pmem addr len value
  some (record { pmem = p; trace = trace_store hartid addr mask value w.trace })

-- `store_mem`: the memory and the trace, and whether `fault_core` is called.
unfoldable pub store_mem : Config → World → ℕ → ℕ → ℕ → ℕ → Option (World × Bool)
store_mem c w hartid addr value f3 =
    if f3 == 0
    then (do w' ← store_len c w hartid addr value 1 1; some (w', false))
    else if f3 == 1
    then (do w' ← store_len c w hartid addr value 2 3; some (w', false))
    else if f3 == 2
    then (do w' ← store_len c w hartid addr value 4 15; some (w', false))
    else some (w, true)

-- The loop of JALR: every other lane of the warp that stands at the same pc goes to the same
-- target. The numbers are the lane's own index and the index of the head of the list.
unfoldable pub targets_agree : ℕ → Lane → ℕ → ℕ → ℕ → ℕ → List Lane → Bool
unfolding same_warp jump_target
targets_agree own l rs1 offset target i [] = true
targets_agree own l rs1 offset target i (other ∷ rest) =
    (not (not (i == own) && not other.halted && other.pc == l.pc && same_warp l other)
      || jump_target (reg other rs1) offset == target)
    && targets_agree own l rs1 offset target (i + 1) rest

-- A result that falls through to the next instruction, or the `default` of a switch.
abbrev pub retire_or_trap : ℕ → Option ℕ → Outcome
retire_or_trap next none = trap
retire_or_trap next (some result) = retire false result next

abbrev pub branch_to : ℕ → ℕ → Option Bool → Outcome
branch_to next target none = trap
branch_to next target (some taken) = retire false 0 (if taken then target else next)

-- The switch on the opcode, `i` being the lane's index among `cores`.
unfoldable pub execute :
    Config → List Lane → ℕ → Lane → World → ℕ → ℕ → ℕ → Option (Outcome × World)
execute c cores i l w inst a b =
    let op = opcode inst in
    let f3 = funct3 inst in
    let next = add32 l.pc 4 in
    if op == 0x37
    then some (retire false (imm_u inst) next, w)
    else if op == 0x17
    then some (retire false (add32 l.pc (imm_u inst)) next, w)
    else if op == 0x13
    then some (retire_or_trap next (alu_imm inst a), w)
    else if op == 0x33
    then some (retire_or_trap next (alu_reg inst a b), w)
    else if op == 0x03
    then (do (v, bad) ← load_mem c w.pmem (add32 a (imm_i inst)) f3; some (retire bad v next, w))
    else if op == 0x23
    then (do
      (w', bad) ← store_mem c w l.hartid (add32 a (imm_s inst)) b f3
      some (retire bad 0 next, w'))
    else if op == 0x63
    then some (branch_to next (add32 l.pc (imm_b inst)) (branch_taken f3 a b), w)
    else if op == 0x6f
    then some (retire false next (add32 l.pc (imm_j inst)), w)
    else if op == 0x67
    then (let target = jump_target a (imm_i inst) in
        some (
          if targets_agree i l (rs1_of inst) (imm_i inst) target 0 cores
              then retire false next target
              else trap,
          w,
        ))
    else if op == 0x73
    then some (
      if inst == 0x00100073
          then halt
          else if f3 == 2 && rs1_of inst == 0
          then retire_or_trap next (csr_value l (bit_and (shr inst 20) 0xfff))
          else trap,
      w,
    )
    else some (trap, w)

-- The end of `step_core`: `gpr[rd] = result` if the opcode has an `rd` that is not 0, then
-- `gpr[0] = 0` and the new pc.
unfoldable pub write_back : ℕ → ℕ → ℕ → Lane → Lane
unfolding set_reg
write_back inst result next l =
    let written =
      if uses_rd (opcode inst) && not (rd_of inst == 0) then set_reg l (rd_of inst) result else l in
    record written { gpr = set written.gpr 0 0; pc = next }

-- `fault_core` on lane `i`, which is `l`.
abbrev pub fault_core : Iss → ℕ → Lane → Iss
fault_core s i l = record s { cores = set s.cores i (record l { halted = true }); faulted = true }

unfoldable pub finish : Iss → ℕ → Lane → ℕ → Outcome → Iss
unfolding write_back
finish s i l inst trap = fault_core s i l
finish s i l inst halt = record s { cores = set s.cores i (record l { halted = true }) }
finish s i l inst (retire bad result next) =
    let l' = write_back inst result next l in
    if bad then fault_core s i l' else record s { cores = set s.cores i l' }

-- The check of the register fields that the opcode uses: RV32E has 16 registers.
unfoldable pub bad_registers : ℕ → Bool
bad_registers inst =
    (uses_rd (opcode inst) && leb 16 (rd_of inst))
    || (uses_rs1 (opcode inst) && leb 16 (rs1_of inst))
    || (uses_rs2 (opcode inst) && leb 16 (rs2_of inst))

unfoldable pub step_core : Config → Iss → World → ℕ → Lane → Option (Iss × World)
step_core c s w i l = do
  inst ← paddr_read c w.pmem l.pc 4
  if bad_registers inst then some (fault_core s i l, w) else (do
    let a = if uses_rs1 (opcode inst) then reg l (rs1_of inst) else 0
    let b = if uses_rs2 (opcode inst) then reg l (rs2_of inst) else 0
    let w' = record w { trace = trace_commit l.hartid l.pc inst w.trace }
    (outcome, w'') ← execute c s.cores i l w' inst a b
    some (finish s i l inst outcome, w''))

-- `gpu_iss_done`
unfoldable pub all_halted : List Lane → Bool
all_halted [] = true
all_halted (l ∷ rest) = l.halted && all_halted rest

unfoldable pub iss_done : Iss → Bool
unfolding all_halted
iss_done s = s.faulted || (all_halted s.cores && not (ncores s == 0))

-- The scan of `gpu_iss_step`, with `left` lanes still to look at: the index of the lane to step and
-- the new `rr`, or no lane and the new `rr`.
unfoldable pub scan : ℕ → List Lane → ℕ → Option (ℕ × Lane) × ℕ
scan zero cores rr = (none, rr)
scan (suc left) cores rr =
    let next = (rr + 1) % u32_mod % length cores in
    elim (get_elem? cores rr) [
      | none ↦ (none, rr)
      | some l ↦ elim l.halted [ true ↦ scan left cores next | false ↦ (some (rr, l), next) ]
    ]

-- The rest of `gpu_iss_step` once the scan has ended.
unfoldable pub step_found : Config → Iss → World → Option (ℕ × Lane) → Option (Iss × World × Bool)
step_found c s w none = some (s, w, false)
step_found c s w (some (i, l)) = do (s', w') ← step_core c s w i l; some (s', w', true)

-- `gpu_iss_step`; the flag is what it returns.
unfoldable pub iss_step : Config → Iss → World → Option (Iss × World × Bool)
iss_step c s w =
    if iss_done s
    then some (s, w, false)
    else (let (found, rr) = scan (ncores s) s.cores s.rr in
        step_found c (record s { rr = rr }) w found)

-- The loop of `gpu_model_wait` for the software model, with `steps` rounds left.
unfoldable pub iss_run : ℕ → Config → Iss → World → Option (Iss × World)
iss_run zero c s w = some (s, w)
iss_run (suc steps) c s w = elim (iss_done s) [
  | true ↦ some (s, w)
  | false ↦ elim (iss_step c s w) [ none ↦ none | some (s', w', _) ↦ iss_run steps c s' w' ]
]
