-- ===== src/Rtl/Dpi.antt =====
-- The functions that the design calls: reads and writes of the memory, the words of its state,
-- which are collected for the comparison (sw/sim/hm/dpi.cpp), and the lines of the trace
-- (gpu_trace_commit and gpu_trace_store of sw/runtime/gpu/gpu.c).
pub mod Copies
pub mod Snapshot
pub mod Bounds
use Prim.Native.Nat.{bit_and}
use open_gpu.Prelude.{
  ℕ, zero, suc, ◌+◌, ◌-◌, ◌*◌, ◌^◌, Bool, true, false, not, ◌&&◌, ◌||◌, Option, none, some, ltb,
  leb, if◌then◌else◌, ◌>>=◌,
}
use open_gpu.Prelude.Word.{add32}
use open_gpu.Config.{Config}
use open_gpu.Memory.{Pmem, in_pmem, paddr_read, paddr_write}
use open_gpu.Trace.{Trace, trace_commit, trace_store}
use open_gpu.Iss.Decode.{shr}
use open_gpu.Cycle.State.{Array, put, state_words}
use open_gpu.Cycle.Mask.{mask_has}

-- The statics of a build with CONFIG_DIFFTEST.
pub record Dpi : Type 0 where
  -- `diff_state` and `diff_state_valid`, of `state_words` entries
  pub state : Array
  pub valid : ℕ → Bool
  -- `diff_state_seen` and `diff_failed`
  pub seen : Bool
  pub failed : Bool

-- An `svOpenArrayHandle`: `svSize`, the words behind `svGetArrayPtr` if that is not NULL, and the
-- word behind `svGetArrElemPtr1` if that is not NULL.
pub record OpenArray : Type 0 where
  pub size : ℕ
  pub contiguous : Option Array
  pub element : ℕ → Option ℕ

-- What the functions of the bridge change.
pub record Bus : Type 0 where
  pub dpi : Dpi
  pub pmem : Pmem
  pub trace : Trace

-- `dpi_diff_reset`
unfoldable pub diff_clear : Dpi
diff_clear = record { state = λ _. 0; valid = λ _. false; seen = false; failed = false }

-- `for (byte = 0; byte < 4; ++byte) if (mask & (1 << byte)) paddr_write(addr + byte, 1, ...)`, with
-- `left` bytes to go.
unfoldable pub write_masked : Config → ℕ → ℕ → (ℕ → ℕ) → ℕ → ℕ → Pmem → Option Pmem
unfolding mask_has
write_masked c addr mask value zero b p = some p
write_masked c addr mask value (suc left) b p = do
  p' ← if mask_has mask b then paddr_write c p (add32 addr b) 1 (value b) else some p
  write_masked c addr mask value left (b + 1) p'

unfoldable pub dpi_paddr_read : Config → Pmem → ℕ → Option ℕ
unfolding in_pmem
dpi_paddr_read c p addr = if in_pmem c addr then paddr_read c p addr 4 else some 0

-- With CONFIG_DIFFTEST the write is left to `tick`.
unfoldable pub dpi_paddr_write : Config → Pmem → ℕ → ℕ → ℕ → Option Pmem
unfolding write_masked
dpi_paddr_write c p addr mask word =
    if c.difftest
    then some p
    else write_masked c addr mask (λ b. bit_and (shr word (8 * b)) 255) 4 0 p

-- `memcpy(dst + base, src, n)`, in words.
unfoldable pub copy_words : Array → ℕ → ℕ → Array → Array
copy_words dst base n src j = if leb base j && ltb j (base + n) then src (j - base) else dst j

-- The loop over the elements, with `left` to go, and whether it comes to its end.
unfoldable pub copy_elements : (ℕ → Option ℕ) → ℕ → ℕ → ℕ → Array → Array × Bool
copy_elements element base zero word dst = (dst, true)
copy_elements element base (suc left) word dst = elim (element word) [
  | none ↦ (dst, false)
  | some v ↦ copy_elements element base left (word + 1) (put dst (base + word) v)
]

-- `seen &= valid[word]` over the words from `word` on, with `left` to go.
unfoldable pub all_valid : (ℕ → Bool) → ℕ → ℕ → Bool
all_valid valid zero word = true
all_valid valid (suc left) word = valid word && all_valid valid left (word + 1)

-- `memset(diff_state_valid + base, true, n)`, and `diff_state_seen` afterwards.
unfoldable pub mark_valid : Config → ℕ → ℕ → Dpi → Dpi
unfolding all_valid
mark_valid c base n d =
    let valid = λ (j : ℕ). (leb base j && ltb j (base + n)) || d.valid j in
    record d { valid = valid; seen = all_valid valid (state_words c) 0 }

-- The words of an array are copied to the snapshot, from the place `base` on.
unfoldable pub deliver : Config → ℕ → OpenArray → Dpi → Dpi
unfolding copy_words copy_elements mark_valid
deliver c base a d = elim a.contiguous [
  | some src ↦ mark_valid c base a.size (record d { state = copy_words d.state base a.size src })
  | none ↦
      let (dst, whole) = copy_elements a.element base a.size 0 d.state in
      if whole
      then mark_valid c base a.size (record d { state = dst })
      else record d { state = dst; failed = true }
]

-- `gpu_diff_state`; `base` is the bit pattern of the `int`.
unfoldable pub gpu_diff_state : Config → ℕ → OpenArray → Dpi → Dpi
unfolding deliver
gpu_diff_state c base a d =
    if not c.difftest
    then d
    else if leb (2 ^ 31) base || ltb (state_words c) base
    then record d { failed = true }
    else if ltb (state_words c - base) a.size
    then record d { failed = true }
    else deliver c base a d

-- A call of `eval`: the design ends it in a new state, or calls one of the functions first and goes
-- on with what that returns.
pub data Calls (D : Type 0) : Type 0 where
  done : D → Calls D
  read_word : ℕ → (ℕ → Calls D) → Calls D
  write_word : ℕ → ℕ → ℕ → Calls D → Calls D
  publish : ℕ → OpenArray → Calls D → Calls D
  trace_instruction : ℕ → ℕ → ℕ → Calls D → Calls D
  trace_write : ℕ → ℕ → ℕ → ℕ → Calls D → Calls D

module _ {D : Type 0} (c : Config) where
  unfoldable pub perform : Calls D → Bus → Option (D × Bus)
  unfolding dpi_paddr_read dpi_paddr_write gpu_diff_state trace_commit trace_store
  perform (done d) bus = some (d, bus)
  perform (read_word addr next) bus = do
    word ← dpi_paddr_read c bus.pmem addr
    perform (next word) bus
  perform (write_word addr mask word next) bus = do
    p ← dpi_paddr_write c bus.pmem addr mask word
    perform next (record bus { pmem = p })
  perform (publish base a next) bus =
      perform next (record bus { dpi = gpu_diff_state c base a bus.dpi })
  perform (trace_instruction hartid pc inst next) bus =
      perform next (record bus { trace = trace_commit hartid pc inst bus.trace })
  perform (trace_write hartid addr mask word next) bus =
      perform next (record bus { trace = trace_store hartid addr mask word bus.trace })
