-- ===== src/Cycle/Transfer.antt =====
-- The memory of the cycle model: words read and stores applied.
use Prim.Native.Nat.{bit_and}
use open_gpu.Prelude.{
  ℕ, zero, suc, ◌+◌, ◌-◌, ◌*◌, ◌%◌, Bool, true, false, not, ◌&&◌, ◌||◌, List, [], ◌∷◌, ◌++◌, ltb,
  ◌==◌, if◌then◌else◌,
}
use open_gpu.Prelude.Word.{add32, not32}
use open_gpu.Config.{Config}
use open_gpu.Memory.{load_le}
use open_gpu.Iss.Decode.{shr, shl, sext, opcode, funct3, rs1_of, rs2_of, imm_i, imm_s}
use open_gpu.Cycle.State.{Store, CycleCore, CycleModel, put}
use open_gpu.Cycle.Mask.{mask_has}

-- `operator<` and `operator==` of stores.
unfoldable pub store_less : Store → Store → Bool
store_less a b =
    if not (a.addr == b.addr)
    then ltb a.addr b.addr
    else if not (a.mask == b.mask)
    then ltb a.mask b.mask
    else ltb a.data_word b.data_word

unfoldable pub store_equal : Store → Store → Bool
store_equal a b = a.addr == b.addr && a.mask == b.mask && a.data_word == b.data_word

-- `load32`: the word, and whether `m.failed` is set.
unfoldable pub load32 : Config → CycleModel → ℕ → ℕ × Bool
load32 c m addr =
    if ltb addr c.mbase || ltb (c.mbase + m.mem_size) (addr + 4)
    then (0, true)
    else (load_le m.mem (addr - c.mbase) 4, false)

-- One round of the loop of `store_ref`: byte `b`.
unfoldable pub store_byte : Config → Store → ℕ → CycleModel → CycleModel
unfolding mask_has
store_byte c s b m =
    if not (mask_has s.mask b)
    then m
    else if ltb (s.addr + b) c.mbase || not (ltb (s.addr + b) (c.mbase + m.mem_size))
    then record m { failed = true }
    else record m {
      mem = put m.mem (s.addr + b - c.mbase) (shr s.data_word (8 * b) % 256);
      dirty = m.dirty ++ (s.addr + b - c.mbase) ∷ [];
    }

-- The loop, with `left` bytes to go.
unfoldable pub store_bytes : Config → Store → ℕ → ℕ → CycleModel → CycleModel
unfolding store_byte
store_bytes c s zero b m = m
store_bytes c s (suc left) b m = store_bytes c s left (b + 1) (store_byte c s b m)

unfoldable pub store_ref : Config → Store → CycleModel → CycleModel
unfolding store_bytes
store_ref c s m = store_bytes c s 4 0 m

-- `for (const auto &s : m.expected) store_ref(s)`
unfoldable pub store_all : Config → List Store → CycleModel → CycleModel
unfolding store_ref
store_all c [] m = m
store_all c (s ∷ rest) m = store_all c rest (store_ref c s m)

unfoldable pub lane_register : Config → CycleCore → ℕ → ℕ → ℕ
lane_register c core lane register_index =
    core.gpr (core.iw * c.num_threads + lane) (bit_and register_index 15)

unfoldable pub memory_address : Config → CycleCore → ℕ
unfolding lane_register
memory_address c core =
    add32 (lane_register c core core.mt (rs1_of core.inst))
      (if opcode core.inst == 3 then imm_i core.inst else imm_s core.inst)

-- The mask and the data of a store, and of the words in the packed state.
unfoldable pub store_mask : ℕ → ℕ → ℕ
store_mask f3 a =
    if f3 == 0 then shl 1 (bit_and a 3) else if f3 == 1 then shl 3 (bit_and a 3) else 15

unfoldable pub load_value : Config → CycleModel → ℕ → ℕ → ℕ × Bool
load_value c m addr f3 =
    let (raw, bad) = load32 c m (bit_and addr (not32 3)) in
    let sh = shr raw (bit_and addr 3 * 8) in
    (
      if f3 == 0
          then sext sh 8
          else if f3 == 1
          then sext sh 16
          else if f3 == 2
          then raw
          else if f3 == 4
          then bit_and sh 255
          else if f3 == 5
          then bit_and sh 65535
          else 0,
      bad,
    )

-- The store that a core in MEM_REQ is about to make.
unfoldable pub captured : Config → CycleCore → Store
unfolding memory_address lane_register store_mask
captured c core =
    let a = memory_address c core in
    record {
      addr = bit_and a (not32 3);
      data_word = shl (lane_register c core core.mt (rs2_of core.inst)) (bit_and a 3 * 8);
      mask = store_mask (funct3 core.inst) a;
    }
