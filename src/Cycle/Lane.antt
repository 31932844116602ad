-- ===== src/Cycle/Lane.antt =====
-- What the EXEC state of `step_core` (sw/sim/hm/difftest.cpp) computes for one lane, and the loops
-- over the lanes of a warp.
use Prim.Native.Nat.{bit_and, bit_or, bit_xor}
use open_gpu.Prelude.{
  ℕ, zero, suc, ◌+◌, ◌*◌, Bool, true, false, not, ◌&&◌, ◌||◌, Option, none, some, ltb, ◌==◌,
  if◌then◌else◌,
}
use open_gpu.Prelude.Word.{add32, sub32, not32}
use open_gpu.Config.{Config}
use open_gpu.Iss.Decode.{
  shr, shl, sar, slt, opcode, rd_of, funct3, rs1_of, rs2_of, funct7, imm_i, imm_u, imm_j, uses_rd,
}
use open_gpu.Iss.Alu.{flag}
use open_gpu.Cycle.State.{CycleCore, contexts, put, put_register}
use open_gpu.Cycle.Mask.{mask_has, mask_add}
use open_gpu.Cycle.Transfer.{lane_register}

-- The switch of a branch; an unknown funct3 leaves `take` false.
unfoldable pub takes : ℕ → ℕ → ℕ → Bool
takes f3 a b =
    if f3 == 0
    then a == b
    else if f3 == 1
    then not (a == b)
    else if f3 == 4
    then slt a b
    else if f3 == 5
    then not (slt a b)
    else if f3 == 6
    then ltb a b
    else if f3 == 7
    then not (ltb a b)
    else false

-- `good` of a branch.
unfoldable pub is_branch : ℕ → Bool
is_branch f3 = f3 == 0 || f3 == 1 || f3 == 4 || f3 == 5 || f3 == 6 || f3 == 7

-- The masks of the lanes that take a branch (`tk`) and that do not (`fl`), with `left` lanes to go.
unfoldable pub split_masks : (ℕ → Bool) → ℕ → ℕ → ℕ → ℕ × ℕ → ℕ × ℕ
unfolding mask_has mask_add
split_masks take im zero t masks = masks
split_masks take im (suc left) t (tk, fl) = split_masks take im left (t + 1) (
    if mask_has im t
    then (if take t then (mask_add tk t, fl) else (tk, mask_add fl t))
    else (tk, fl))

-- Opcode 0x13; `none` clears `good` and leaves `res` zero, here and below.
unfoldable pub model_imm : ℕ → ℕ → Option ℕ
model_imm inst a =
    let f3 = funct3 inst in
    let ii = imm_i inst in
    let shamt = bit_and (shr inst 20) 31 in
    if f3 == 0
    then some (add32 a ii)
    else if f3 == 2
    then some (flag (slt a ii))
    else if f3 == 3
    then some (flag (ltb a ii))
    else if f3 == 4
    then some (bit_xor a ii)
    else if f3 == 6
    then some (bit_or a ii)
    else if f3 == 7
    then some (bit_and a ii)
    else if f3 == 1
    then some (shl a shamt)
    else if f3 == 5
    then some (if not (bit_and (shr inst 30) 1 == 0) then sar a shamt else shr a shamt)
    else none

-- Opcode 0x33.
unfoldable pub model_reg : ℕ → ℕ → ℕ → Option ℕ
model_reg inst a b =
    let f3 = funct3 inst in
    let shamt = bit_and b 31 in
    if f3 == 0
    then some (if funct7 inst == 0x20 then sub32 a b else add32 a b)
    else if f3 == 1
    then some (shl a shamt)
    else if f3 == 2
    then some (flag (slt a b))
    else if f3 == 3
    then some (flag (ltb a b))
    else if f3 == 4
    then some (bit_xor a b)
    else if f3 == 5
    then some (if funct7 inst == 0x20 then sar a shamt else shr a shamt)
    else if f3 == 6
    then some (bit_or a b)
    else if f3 == 7
    then some (bit_and a b)
    else none

-- The registers that opcode 0x73 reads, for lane `t` of core `cid`.
unfoldable pub model_csr : Config → CycleCore → ℕ → ℕ → ℕ → Option ℕ
model_csr c core cid t csr =
    let x = core.iw * c.num_threads + t in
    if csr == 0xf14
    then some (core.gid x)
    else if csr == 0xcc0
    then some (core.tx x)
    else if csr == 0xcc1
    then some (core.ty x)
    else if csr == 0xcc2
    then some (core.tz x)
    else if csr == 0xcc3
    then some core.block.x
    else if csr == 0xcc4
    then some core.block.y
    else if csr == 0xcc5
    then some core.block.z
    else if csr == 0xcc6
    then some core.dim.x
    else if csr == 0xcc7
    then some core.dim.y
    else if csr == 0xcc8
    then some core.dim.z
    else if csr == 0xcc9
    then some core.grid.x
    else if csr == 0xcca
    then some core.grid.y
    else if csr == 0xccb
    then some core.grid.z
    else if csr == 0xccc
    then some core.args
    else if csr == 0xccd
    then some (cid * contexts c + core.iw * c.num_threads + t)
    else if csr == 0xcce
    then some core.iw
    else if csr == 0xccf
    then some t
    else none

-- `res` of a lane with operands `a` and `b`.
unfoldable pub lane_value : Config → CycleCore → ℕ → ℕ → ℕ → ℕ → Option ℕ
unfolding model_imm model_reg model_csr
lane_value c core cid t a b =
    let op = opcode core.inst in
    if op == 0x37
    then some (imm_u core.inst)
    else if op == 0x17
    then some (add32 core.ip (imm_u core.inst))
    else if op == 0x13
    then model_imm core.inst a
    else if op == 0x33
    then model_reg core.inst a b
    else if op == 0x6f || op == 0x67
    then some (add32 core.ip 4)
    else if op == 0x73
    then (if not (funct3 core.inst == 2) || not (rs1_of core.inst == 0)
        then none
        else model_csr c core cid t (shr core.inst 20))
    else none

-- The variables of the loop over the lanes, and the core whose registers it writes.
pub record Pass : Type 0 where
  pub core : CycleCore
  pub good : Bool
  pub diverged : Bool
  pub target_set : Bool
  pub first : ℕ
  pub next : ℕ

-- `next`, `first`, `target_set` and `div` after a jump of a lane whose first operand is `a`.
unfoldable pub jump : ℕ → Pass → Pass
jump a p =
    let op = opcode p.core.inst in
    let tg = bit_and (add32 a (imm_i p.core.inst)) (not32 1) in
    if op == 0x6f
    then record p { next = add32 p.core.ip (imm_j p.core.inst) }
    else if op == 0x67
    then (if not p.target_set
        then record p { next = tg; first = tg; target_set = true }
        else record p { next = tg; diverged = p.diverged || not (p.first == tg) })
    else p

-- `gpr[...][rd] = res` if the instruction has a result, and `gpr[...][0] = 0`.
unfoldable pub write_lane : Config → ℕ → ℕ → CycleCore → CycleCore
write_lane c t res core =
    let x = core.iw * c.num_threads + t in
    let rd = rd_of core.inst in
    let written =
      if uses_rd (opcode core.inst) && not (rd == 0)
      then put_register core.gpr x rd res
      else core.gpr in
    record core { gpr = put written x (put (written x) 0 0) }

-- One round of the loop, for lane `t` in the mask.
unfoldable pub lane_step : Config → ℕ → ℕ → Pass → Pass
unfolding lane_value jump write_lane lane_register
lane_step c cid t p =
    let a = lane_register c p.core t (rs1_of p.core.inst) in
    let b = lane_register c p.core t (rs2_of p.core.inst) in
    let value = lane_value c p.core cid t a b in
    let jumped = jump a p in
    elim value [
      | none ↦ record jumped { good = false; core = write_lane c t 0 p.core }
      | some res ↦ record jumped { core = write_lane c t res p.core }
    ]

-- The loop, with `left` lanes to go.
unfoldable pub lane_steps : Config → ℕ → ℕ → ℕ → Pass → Pass
unfolding lane_step mask_has
lane_steps c cid zero t p = p
lane_steps c cid (suc left) t p =
    lane_steps c cid left (t + 1) (if mask_has p.core.im t then lane_step c cid t p else p)
