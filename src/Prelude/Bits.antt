-- ===== src/Prelude/Bits.antt =====
-- `bit_and` with a mask of ones, and with one that clears the lowest digits.
use Prim.Native.Nat.{min, bit_and, bit_and-bitwise, digits}
use native.Mathlib.Nat.{mod-lt, div-add-mod, add-mul-mod_self_left, mod-eq_of_lt}
use open_gpu.Prelude.{
  ◌∙◌, ℕ, zero, suc, ◌+◌, ◌*◌, ◌/◌, ◌%◌, ◌^◌, ◌≤◌, ◌<◌, ◌≡◌, refl, sym, ap, arith,
}

-- A number written in `k` ones.
abbrev pub ones : ℕ → ℕ
ones zero = 0
ones (suc k) = 2 * ones k + 1

-- `k` ones, then `j` zeros.
abbrev pub mask : ℕ → ℕ → ℕ
mask zero k = ones k
mask (suc j) k = 2 * mask j k

-- The `j` lowest digits of a number, cleared one after the other.
abbrev pub clear_low : ℕ → ℕ → ℕ
clear_low zero x = x
clear_low (suc j) x = 2 * clear_low j (x / 2)

-- One more than the largest number of `j + k` digits.
abbrev pub capacity : ℕ → ℕ → ℕ
capacity zero k = ones k + 1
capacity (suc j) k = 2 * capacity j k

-- The loop over the digits of a conjunction.
abbrev meet : ℕ → ℕ → ℕ → ℕ
meet steps x m = digits (λ _. zero) min steps x m

meet_nothing : (steps m : ℕ) → meet steps 0 m ≡ 0
meet_nothing zero m = refl
meet_nothing (suc steps) m = refl

clear_low_nothing : (j : ℕ) → clear_low j 0 ≡ 0
clear_low_nothing zero = refl
clear_low_nothing (suc j) = omega (arith, clear_low_nothing j)

meet-mask :
    (steps j k x : ℕ) → x ≤ steps → x < capacity j k → meet steps x (mask j k) ≡ clear_low j x
meet-mask steps j k zero few small = meet_nothing steps (mask j k) ∙ sym (clear_low_nothing j)
meet-mask zero j k (suc x) few small = absurd (omega arith)
meet-mask (suc steps) zero zero (suc x) few small = absurd (omega arith)
meet-mask (suc steps) zero (suc k) (suc x) few small =
    let half : (2 * ones k + 1) / 2 ≡ ones k = omega arith in
    omega (
      arith,
      ap (meet steps (suc x / 2)) half,
      meet-mask steps zero k (suc x / 2) (omega arith) (omega arith),
    )
meet-mask (suc steps) (suc j) k (suc x) few small =
    let half : 2 * mask j k / 2 ≡ mask j k = omega arith in
    omega (
      arith,
      ap (meet steps (suc x / 2)) half,
      meet-mask steps j k (suc x / 2) (omega arith) (omega arith),
    )

pub bit_and-mask : (j k x : ℕ) → x < capacity j k → bit_and x (mask j k) ≡ clear_low j x
bit_and-mask j k x small = bit_and-bitwise x (mask j k) ∙ meet-mask x j k x (omega arith) small

-- The `k` lowest digits of a number.
abbrev low : ℕ → ℕ → ℕ
low zero x = 0
low (suc k) x = 2 * low k (x / 2) + x % 2

meet_nothing_right : (steps x : ℕ) → meet steps x 0 ≡ 0
meet_nothing_right zero x = refl
meet_nothing_right (suc steps) zero = refl
meet_nothing_right (suc steps) (suc x) = omega (arith, meet_nothing_right steps (suc x / 2))

low_nothing : (k : ℕ) → low k 0 ≡ 0
low_nothing zero = refl
low_nothing (suc k) = omega (arith, low_nothing k)

meet-ones : (steps k x : ℕ) → x ≤ steps → meet steps x (ones k) ≡ low k x
meet-ones steps zero x few = meet_nothing_right steps x
meet-ones steps (suc k) zero few = meet_nothing steps (ones (suc k)) ∙ sym (low_nothing (suc k))
meet-ones zero (suc k) (suc x) few = absurd (omega arith)
meet-ones (suc steps) (suc k) (suc x) few =
    let half : (2 * ones k + 1) / 2 ≡ ones k = omega arith in
    omega (arith, ap (meet steps (suc x / 2)) half, meet-ones steps k (suc x / 2) (omega arith))

mod_double : (x m : ℕ) → 0 < m → x % (2 * m) ≡ 2 * (x / 2 % m) + x % 2
mod_double x m pos =
    let below : 2 * (x / 2 % m) + x % 2 < 2 * m = omega (arith, mod-lt (x / 2) pos) in
    let whole : x ≡ 2 * (x / 2 % m) + x % 2 + 2 * m * (x / 2 / m) =
      omega (arith, div-add-mod (x / 2) m) in
    ap (λ (y : ℕ). y % (2 * m)) whole
    ∙ add-mul-mod_self_left (2 * (x / 2 % m) + x % 2) (2 * m) (x / 2 / m)
    ∙ mod-eq_of_lt below

power_pos : (k : ℕ) → 0 < 2 ^ k
power_pos zero = omega arith
power_pos (suc k) = omega (arith, power_pos k)

low-mod : (k x : ℕ) → low k x ≡ x % 2 ^ k
low-mod zero x = omega arith
low-mod (suc k) x =
    let twice : 2 ^ suc k ≡ 2 * 2 ^ k = omega arith in
    omega
      (arith, low-mod k (x / 2), mod_double x (2 ^ k) (power_pos k), ap (λ (m : ℕ). x % m) twice)

pub bit_and-ones : (k x : ℕ) → bit_and x (ones k) ≡ x % 2 ^ k
bit_and-ones k x = bit_and-bitwise x (ones k) ∙ meet-ones x k x (omega arith) ∙ low-mod k x
