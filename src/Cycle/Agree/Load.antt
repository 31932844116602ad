-- ===== src/Cycle/Agree/Load.antt =====
-- A load: the cycle model reads the aligned word and shifts, the simulator reads the bytes.
use Prim.Native.Nat.{bit_and}
use open_gpu.Prelude.{
  ℕ, zero, suc, ◌+◌, ◌-◌, ◌*◌, ◌/◌, ◌%◌, ◌^◌, ◌≤◌, ◌<◌, ◌≡◌, ◌⊎◌, refl, sym, ap, ◌∙◌, inl, inr,
  Bool, false, Option, some, arith,
}
use open_gpu.Prelude.Word.{u32_mod, not32}
use open_gpu.Prelude.Bits.{bit_and-mask, bit_and-ones}
use open_gpu.Config.{Config}
use open_gpu.Memory.{load_le, in_pmem, access_ok, guest_to_host, paddr_read}
use open_gpu.Iss.Decode.{sar, sext}
use open_gpu.Iss.Step.{load_mem}
use open_gpu.Cycle.State.{CycleModel}
use open_gpu.Cycle.Transfer.{load32, load_value}

-- The aligned word that holds the address lies in the memory, which both models have, and the
-- memory ends below 2 ^ 32 and starts at a word.
pub record IsInside (c : Config) (m : CycleModel) (addr : ℕ) : Type 0 where
  pub bytes : (i : ℕ) → m.mem i < 256
  pub size : m.mem_size ≡ c.msize
  pub base : c.mbase % 4 ≡ 0
  pub start : c.mbase ≤ addr
  pub stop : addr / 4 * 4 + 4 ≤ c.mbase + c.msize
  pub top : c.mbase + c.msize < u32_mod

-- The funct3 of a load, and an address that is a multiple of the size.
abbrev pub IsLoad : ℕ → ℕ → Type 0
IsLoad f3 addr =
    (f3 ≡ 0) ⊎ (f3 ≡ 4) ⊎ (((f3 ≡ 1) ⊎ (f3 ≡ 5)) × (addr % 2 ≡ 0)) ⊎ ((f3 ≡ 2) × (addr % 4 ≡ 0))

abbrev word4 : ℕ → ℕ → ℕ → ℕ → ℕ
word4 b0 b1 b2 b3 = b0 + 256 * (b1 + 256 * (b2 + 256 * (b3 + 256 * 0)))

-- A read of the simulator inside the memory.
read_inside :
    (c : Config) (m : CycleModel) (addr len : ℕ)
    → IsInside c m addr
    → 0 < len
    → len ≤ 4
    → addr % 4 + len ≤ 4
    → paddr_read c (some m.mem) addr len ≡ some (load_le m.mem (addr - c.mbase) len)
unfolding paddr_read access_ok guest_to_host in_pmem
read_inside c m addr len h pos few fits = ground (arith, h.start, h.stop, h.top, pos, few, fits)

word_inside :
    (c : Config) (m : CycleModel) (addr : ℕ)
    → IsInside c m addr
    → load32 c m (bit_and addr (not32 3)) ≡ (load_le m.mem (addr / 4 * 4 - c.mbase) 4, false)
unfolding load32
word_inside c m addr h =
    let aligned : bit_and addr (not32 3) ≡ addr / 4 * 4 =
      omega (arith, bit_and-mask 2 30 addr (omega (arith, h.stop, h.top))) in
    rw aligned (ground (arith, h.start, h.stop, h.top, h.size, h.base))

sext_byte : (x : ℕ) → sext x 8 ≡ sext (x % 256) 8
unfolding sext
sext_byte x = ap (λ (y : ℕ). sar y 24) (omega arith)

sext_half : (x : ℕ) → sext x 16 ≡ sext (x % 65536) 16
unfolding sext
sext_half x = ap (λ (y : ℕ). sar y 16) (omega arith)

-- The byte and the half word of an aligned word at an offset.
module _ (b : ℕ → ℕ) (bytes : (i : ℕ) → b i < 256) (o : ℕ) where
  abbrev aligned_word : ℕ
  aligned_word = word4 (b o) (b (o + 1)) (b (o + 1 + 1)) (b (o + 1 + 1 + 1))

  byte_at : (d : ℕ) → d < 4 → aligned_word / 2 ^ (d * 8) % 256 ≡ b (o + d)
  byte_at zero h = let same : o + 0 ≡ o = omega arith in omega (arith, ap b same, bytes o)
  byte_at (suc zero) h = omega (arith, bytes o, bytes (o + 1))
  byte_at (suc (suc zero)) h =
      let same : o + 2 ≡ o + 1 + 1 = omega arith in
      omega (arith, ap b same, bytes o, bytes (o + 1), bytes (o + 1 + 1))
  byte_at (suc (suc (suc zero))) h =
      let same : o + 3 ≡ o + 1 + 1 + 1 = omega arith in
      omega (arith, ap b same, bytes o, bytes (o + 1), bytes (o + 1 + 1), bytes (o + 1 + 1 + 1))
  byte_at (suc (suc (suc (suc d)))) h = absurd (omega arith)

  half_at :
      (d : ℕ)
      → d < 4
      → d % 2 ≡ 0
      → aligned_word / 2 ^ (d * 8) % 65536 ≡ b (o + d) + 256 * b (o + d + 1)
  half_at zero h even =
      let same : o + 0 ≡ o = omega arith in
      let next : o + 0 + 1 ≡ o + 1 = omega arith in
      omega (arith, ap b same, ap b next, bytes o, bytes (o + 1))
  half_at (suc zero) h even = absurd (omega arith)
  half_at (suc (suc zero)) h even =
      let same : o + 2 ≡ o + 1 + 1 = omega arith in
      let next : o + 2 + 1 ≡ o + 1 + 1 + 1 = omega arith in
      omega (
        arith,
        ap b same,
        ap b next,
        bytes o,
        bytes (o + 1),
        bytes (o + 1 + 1),
        bytes (o + 1 + 1 + 1),
      )
  half_at (suc (suc (suc zero))) h even = absurd (omega arith)
  half_at (suc (suc (suc (suc d)))) h even = absurd (omega arith)

-- A load inside the memory, at an address that is a multiple of its size, has the same value in the
-- cycle model and in the simulator, and neither fails.
pub load_value-load_mem :
    (c : Config) (m : CycleModel) (f3 addr : ℕ)
    → IsInside c m addr
    → IsLoad f3 addr
    → (load_mem c (some m.mem) addr f3 ≡ some ((load_value c m addr f3).0, false))
      × ((load_value c m addr f3).1 ≡ false)
unfolding load_value load_mem load_le
load_value-load_mem c m f3 addr h kind =
    let o = addr / 4 * 4 - c.mbase in
    let d = addr % 4 in
    let place : addr - c.mbase ≡ o + d = omega (arith, h.start, h.base) in
    let low : bit_and addr 3 ≡ d = bit_and-ones 2 addr in
    let raw = word_inside c m addr h in
    let word = aligned_word m.mem h.bytes o in
    let shifted = word / 2 ^ (d * 8) in
    let byte : load_le m.mem (addr - c.mbase) 1 ≡ shifted % 256 =
      omega (arith, ap m.mem place, byte_at m.mem h.bytes o d (omega arith)) in
    let half : addr % 2 ≡ 0 → load_le m.mem (addr - c.mbase) 2 ≡ shifted % 65536 = λ even. omega (
      arith,
      ap m.mem place,
      ap (λ (i : ℕ). m.mem (i + 1)) place,
      half_at m.mem h.bytes o d (omega arith) (omega (arith, even)),
    ) in
    let read : (len : ℕ)
        → 0 < len
        → len ≤ 4
        → d + len ≤ 4
        → paddr_read c (some m.mem) addr len ≡ some (load_le m.mem (addr - c.mbase) len) =
      λ len pos few fits. read_inside c m addr len h pos few fits in
    elim kind [
      | inl is ↦
          rw (is, raw, low, read 1 (omega arith) (omega arith) (omega arith))
            (ap value (ap (λ (x : ℕ). sext x 8) byte ∙ sym (sext_byte shifted)), refl)
      | inr (inl is) ↦
          rw (is, raw, low, read 1 (omega arith) (omega arith) (omega arith))
            (ap value (byte ∙ sym (bit_and-ones 8 shifted)), refl)
      | inr (inr (inl (inl is, even))) ↦
          rw (is, raw, low, read 2 (omega arith) (omega arith) (omega (arith, even)))
            (ap value (ap (λ (x : ℕ). sext x 16) (half even) ∙ sym (sext_half shifted)), refl)
      | inr (inr (inl (inr is, even))) ↦
          rw (is, raw, low, read 2 (omega arith) (omega arith) (omega (arith, even)))
            (ap value (half even ∙ sym (bit_and-ones 16 shifted)), refl)
      | inr (inr (inr (is, four))) ↦
          let whole : addr - c.mbase ≡ o = omega (arith, place, four) in
          rw (is, raw, read 4 (omega arith) (omega arith) (omega (arith, four)))
            (ap value (ap (λ (i : ℕ). load_le m.mem i 4) whole), refl)
    ]
  where
    value : ℕ → Option (ℕ × Bool)
    value v = some (v, false)
