-- ===== src/Memory.antt =====
-- The physical memory of sw/runtime/device/memory.c. `pmem` is the C pointer: `none` is NULL, and
-- a buffer is a function from the offset to the byte. An operation that returns `none` has aborted
-- by a failing `Assert`, or has made an access outside the `CONFIG_MSIZE` bytes of the buffer.
-- Words are stored as a little-endian host stores them.
pub mod Words
use open_gpu.Prelude.{
  ℕ, zero, suc, ◌+◌, ◌-◌, ◌*◌, ◌/◌, ◌%◌, Bool, true, false, ◌&&◌, Option, none, some, ltb, leb,
  ◌==◌, if◌then◌else◌, ◌>>=◌,
}
use open_gpu.Prelude.Word.{add32, sub32}
use open_gpu.Config.{Config}

abbrev pub Bytes : Type 0
Bytes = ℕ → ℕ

abbrev pub Pmem : Type 0
Pmem = Option Bytes

-- `calloc` gives zeros; the outcome of the call is the argument.
unfoldable pub init_mem : Bool → Option Pmem
init_mem allocated = if allocated then some (some (λ _. 0)) else none

unfoldable pub free_mem : Pmem → Pmem
free_mem _ = none

-- The bytes `off .. off + n` become those of `src`.
abbrev pub copy_into : Bytes → ℕ → ℕ → Bytes → Bytes
copy_into m off n src a = if leb off a && ltb a (off + n) then src (a - off) else m a

-- `memcpy(&value, pmem + off, len)` into a zeroed little-endian word.
unfoldable pub load_le : Bytes → ℕ → ℕ → ℕ
load_le m off zero = 0
load_le m off (suc n) = m off + 256 * load_le m (off + 1) n

-- `memcpy(pmem + off, &word, len)`.
unfoldable pub store_le : Bytes → ℕ → ℕ → ℕ → Bytes
store_le m off zero v = m
store_le m off (suc n) v = store_le (λ a. if a == off then v % 256 else m a) (off + 1) n (v / 256)

module _ (c : Config) where
  unfoldable pub in_pmem : ℕ → Bool
  in_pmem addr = ltb (sub32 addr c.mbase) c.msize

  -- The offset into the buffer of the pointer that the function returns.
  unfoldable pub guest_to_host : ℕ → Option ℕ
  unfolding in_pmem
  guest_to_host addr = if in_pmem addr && leb c.mbase addr then some (addr - c.mbase) else none

  -- `memcpy` and `memset` on the buffer: `n` bytes from the pointer on.
  unfoldable pub put_bytes : Pmem → ℕ → ℕ → Bytes → Option Pmem
  put_bytes none off n src = none
  put_bytes (some m) off n src =
      if leb (off + n) c.msize then some (some (copy_into m off n src)) else none

  -- `memcpy` out of the buffer.
  unfoldable pub get_bytes : Pmem → ℕ → ℕ → Option Bytes
  get_bytes none off n = none
  get_bytes (some m) off n = if leb (off + n) c.msize then some (λ i. m (off + i)) else none

  -- `in_pmem(addr) && in_pmem(addr + len - 1)`
  unfoldable pub access_ok : ℕ → ℕ → Bool
  unfolding in_pmem
  access_ok addr len = in_pmem addr && in_pmem (sub32 (add32 addr len) 1)

  unfoldable pub paddr_read : Pmem → ℕ → ℕ → Option ℕ
  unfolding access_ok guest_to_host
  paddr_read none addr len = none
  paddr_read (some m) addr len = do
    off ← guest_to_host addr
    if access_ok addr len && leb (off + len) c.msize then some (load_le m off len) else none

  unfoldable pub paddr_write : Pmem → ℕ → ℕ → ℕ → Option Pmem
  unfolding access_ok guest_to_host
  paddr_write none addr len word = none
  paddr_write (some m) addr len word = do
    off ← guest_to_host addr
    if access_ok addr len && leb (off + len) c.msize
        then some (some (store_le m off len word))
        else none
