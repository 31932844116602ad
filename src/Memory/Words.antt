-- ===== src/Memory/Words.antt =====
-- What a word access of memory.c does: when it is accepted, what a read finds after a write, and
-- which bytes a write leaves alone.
use open_gpu.Prelude.{
  ℕ, zero, suc, ◌+◌, ◌-◌, ◌*◌, ◌/◌, ◌%◌, ◌^◌, ◌≤◌, ◌<◌, ◌≡◌, refl, ap, ◌∙◌, ◌⊎◌, ◌↔◌, true, ◌&&◌,
  none, some, leb, ◌==◌, if◌then◌else◌, arith,
}
use mathlib.Core.Path.{ap₂}
use native.Mathlib.Nat.{mod-add-div, div-div-eq-div-mul, pow-suc}
use open_gpu.Prelude.Word.{IsU32}
use open_gpu.Config.{Config, IsSupported}
use open_gpu.Memory.{Bytes, load_le, store_le, access_ok, paddr_read, paddr_write}

-- A byte that the write does not reach stays.
pub store_le-frame :
    (m : Bytes) (off n v a : ℕ) → (a < off) ⊎ (off + n ≤ a) → store_le m off n v a ≡ m a
unfolding store_le
store_le-frame m off zero v a h = refl
store_le-frame m off (suc n) v a h =
    ground (arith, store_le-frame (λ k. if k == off then v % 256 else m k) (off + 1) n (v / 256) a)

-- The lowest byte and the rest of a word make up the word.
mod-digit : (v p : ℕ) → v % 256 + 256 * (v / 256 % p) ≡ v % (256 * p)
mod-digit v p = omega (
  arith,
  mod-add-div v (256 * p),
  mod-add-div (v / 256) p,
  ap (λ (t : ℕ). p * t) (div-div-eq-div-mul v 256 p),
)

-- A read of the bytes just written finds the word, cut to their number.
pub load_le-store_le : (m : Bytes) (off n v : ℕ) → load_le (store_le m off n v) off n ≡ v % 256 ^ n
unfolding load_le store_le
load_le-store_le m off zero v = omega arith
load_le-store_le m off (suc n) v =
    ap₂ (λ (x y : ℕ). x + 256 * y) (stays) (load_le-store_le m' (off + 1) n (v / 256))
    ∙ mod-digit v (256 ^ n)
    ∙ ap (λ (t : ℕ). v % t) (simp pow-suc (omega arith))
  where
    m' : Bytes
    m' = λ a. if a == off then v % 256 else m a

    stays : store_le m' (off + 1) n (v / 256) off ≡ v % 256
    stays = ground (arith, store_le-frame m' (off + 1) n (v / 256) off)

-- Reads below or above a write see what stood there.
pub load_le-store_le_apart :
    (m : Bytes) (off n v p k : ℕ)
    → (p + k ≤ off) ⊎ (off + n ≤ p)
    → load_le (store_le m off n v) p k ≡ load_le m p k
unfolding load_le
load_le-store_le_apart m off n v p zero h = refl
load_le-store_le_apart m off n v p (suc k) h =
    ground (arith, store_le-frame m off n v p, load_le-store_le_apart m off n v (p + 1) k)

module _ (c : Config) (s : IsSupported c) where
  -- An access is accepted exactly when all its bytes lie in the memory.
  pub access_ok_iff :
      (addr len : ℕ)
      → IsU32 addr
      → 1 ≤ len
      → len ≤ 4
      → (access_ok c addr len ≡ true) ↔ ((c.mbase ≤ addr) × (addr + len ≤ c.mbase + c.msize))
  unfolding access_ok
  access_ok_iff addr len ha h1 h4 = ground arith

  -- An access outside the memory aborts; one inside goes to the buffer at `addr - CONFIG_MBASE`.
  pub paddr_read_cases :
      (m : Bytes) (addr len : ℕ)
      → IsU32 addr
      → 1 ≤ len
      → len ≤ 4
      → paddr_read c (some m) addr len ≡ (
          if leb c.mbase addr && leb (addr + len) (c.mbase + c.msize)
          then some (load_le m (addr - c.mbase) len)
          else none)
  unfolding paddr_read
  paddr_read_cases m addr len ha h1 h4 = ground arith

  pub paddr_write_cases :
      (m : Bytes) (addr len v : ℕ)
      → IsU32 addr
      → 1 ≤ len
      → len ≤ 4
      → paddr_write c (some m) addr len v ≡ (
          if leb c.mbase addr && leb (addr + len) (c.mbase + c.msize)
          then some (some (store_le m (addr - c.mbase) len v))
          else none)
  unfolding paddr_write
  paddr_write_cases m addr len v ha h1 h4 = ground arith

  -- A word that a write has accepted is read back, cut to the bytes written.
  pub paddr_read-paddr_write :
      (m m' : Bytes) (addr len v : ℕ)
      → IsU32 addr
      → 1 ≤ len
      → len ≤ 4
      → paddr_write c (some m) addr len v ≡ some (some m')
      → paddr_read c (some m') addr len ≡ some (v % 256 ^ len)
  paddr_read-paddr_write m m' addr len v ha h1 h4 e = ground (
    arith,
    paddr_write_cases m addr len v ha h1 h4,
    paddr_read_cases m' addr len ha h1 h4,
    load_le-store_le m (addr - c.mbase) len v,
  )

  -- A write to bytes that an access does not touch does not change what that access reads, nor
  -- whether it is accepted.
  pub paddr_read-paddr_write_apart :
      (m m' : Bytes) (addr len v addr' len' : ℕ)
      → IsU32 addr
      → 1 ≤ len
      → len ≤ 4
      → IsU32 addr'
      → 1 ≤ len'
      → len' ≤ 4
      → (addr' + len' ≤ addr) ⊎ (addr + len ≤ addr')
      → paddr_write c (some m) addr len v ≡ some (some m')
      → paddr_read c (some m') addr' len' ≡ paddr_read c (some m) addr' len'
  paddr_read-paddr_write_apart m m' addr len v addr' len' ha h1 h4 ha' h1' h4' apart e = ground (
    arith,
    paddr_write_cases m addr len v ha h1 h4,
    paddr_read_cases m' addr' len' ha' h1' h4',
    paddr_read_cases m addr' len' ha' h1' h4',
    load_le-store_le_apart m (addr - c.mbase) len v (addr' - c.mbase) len',
  )
