-- ===== src/Cycle/Mask/Bits.antt =====
-- What the bits of a mask are after `mask |= 1u << t`.
use Prim.Native.Nat.{min, max, bit_and-bitwise, bit_or-bitwise, digits}
use open_gpu.Prelude.{
  ℕ, zero, suc, ◌+◌, ◌*◌, ◌-◌, ◌/◌, ◌%◌, ◌^◌, ◌≤◌, ◌<◌, ◌≡◌, ◌⊎◌, refl, ap, ◌∙◌, inl, inr, false,
  not, ◌||◌, arith, ◌==◌, Bool-cases, if◌then◌else◌,
}
use open_gpu.Cycle.Mask.{lane_bit, mask_has, mask_add}

-- Digit `k` of a number, and the number with that digit alone.
abbrev bit : ℕ → ℕ → ℕ
bit zero x = x % 2
bit (suc k) x = bit k (x / 2)

abbrev single : ℕ → ℕ
single zero = 1
single (suc k) = 2 * single k

single-pow : (k : ℕ) → single k ≡ 2 ^ k
single-pow zero = refl
single-pow (suc k) = omega (arith, single-pow k)

bit_nothing : (k : ℕ) → bit k 0 ≡ 0
bit_nothing zero = refl
bit_nothing (suc k) = bit_nothing k

bit-cases : (k x : ℕ) → (bit k x ≡ 0) ⊎ (bit k x ≡ 1)
bit-cases zero x = ground arith
bit-cases (suc k) x = bit-cases k (x / 2)

bit-single : (j k : ℕ) → bit j (single k) ≡ (if j == k then 1 else 0)
bit-single zero zero = refl
bit-single (suc j) zero = bit_nothing j ∙ ground arith
bit-single zero (suc k) = ground arith
bit-single (suc j) (suc k) =
    let half : 2 * single k / 2 ≡ single k = omega arith in
    ap (bit j) half ∙ bit-single j k ∙ ground arith

-- The loops over the digits of a conjunction and of a disjunction.
abbrev meet : ℕ → ℕ → ℕ → ℕ
meet steps x m = digits (λ _. zero) min steps x m

abbrev join : ℕ → ℕ → ℕ → ℕ
join steps x m = digits (λ m'. m') max steps x m

meet_right_nothing : (steps x : ℕ) → meet steps x 0 ≡ 0
meet_right_nothing zero x = refl
meet_right_nothing (suc steps) zero = refl
meet_right_nothing (suc steps) (suc x) = omega (arith, meet_right_nothing steps (suc x / 2))

join_right_nothing : (steps x : ℕ) → x ≤ steps → join steps x 0 ≡ x
join_right_nothing zero zero h = refl
join_right_nothing zero (suc x) h = absurd (omega arith)
join_right_nothing (suc steps) zero h = refl
join_right_nothing (suc steps) (suc x) h =
    omega (arith, join_right_nothing steps (suc x / 2) (omega arith))

meet_left_nothing : (steps m : ℕ) → meet steps 0 m ≡ 0
meet_left_nothing zero m = refl
meet_left_nothing (suc steps) m = refl

join_left_nothing : (steps m : ℕ) → join steps 0 m ≡ m
join_left_nothing zero m = refl
join_left_nothing (suc steps) m = refl

meet-single : (steps k x : ℕ) → x ≤ steps → meet steps x (single k) ≡ bit k x * single k
meet-single steps k zero h =
    meet_left_nothing steps (single k) ∙ omega (arith, ap (λ (b : ℕ). b * single k) (bit_nothing k))
meet-single zero k (suc x) h = absurd (omega arith)
meet-single (suc steps) zero (suc x) h = omega (arith, meet_right_nothing steps (suc x / 2))
meet-single (suc steps) (suc k) (suc x) h =
    let half : 2 * single k / 2 ≡ single k = omega arith in
    omega (arith, ap (meet steps (suc x / 2)) half, meet-single steps k (suc x / 2) (omega arith))

bit-join :
    (steps k j x : ℕ)
    → x ≤ steps
    → bit j (join steps x (single k)) ≡ (if j == k then 1 else bit j x)
bit-join steps k j zero h =
    ap (bit j) (join_left_nothing steps (single k)) ∙ bit-single j k ∙ rw (bit_nothing j) refl
bit-join zero k j (suc x) h = absurd (omega arith)
bit-join (suc steps) zero zero (suc x) h = omega arith
bit-join (suc steps) zero (suc j) (suc x) h =
    let inner : (join steps (suc x / 2) 0 * 2 + max (suc x % 2) 1) / 2 ≡ suc x / 2 =
      omega (arith, join_right_nothing steps (suc x / 2) (omega arith)) in
    ap (bit j) inner ∙ ground arith
bit-join (suc steps) (suc k) zero (suc x) h = ground arith
bit-join (suc steps) (suc k) (suc j) (suc x) h =
    let half : 2 * single k / 2 ≡ single k = omega arith in
    let inner : (join steps (suc x / 2) (2 * single k / 2) * 2 + max (suc x % 2) (2 * single k % 2))
          / 2
        ≡ join steps (suc x / 2) (single k) =
      omega (arith, ap (join steps (suc x / 2)) half) in
    ap (bit j) inner ∙ bit-join steps k j (suc x / 2) (omega arith) ∙ ground arith

single_pos : (k : ℕ) → 0 < single k
single_pos zero = omega arith
single_pos (suc k) = omega (arith, single_pos k)

single_mono : (d k n : ℕ) → d + k ≡ n → single k ≤ single n
single_mono zero k n e = let same : k ≡ n = omega arith in omega (arith, ap single same)
single_mono (suc d) k zero e = absurd (omega arith)
single_mono (suc d) k (suc n) e = omega (arith, single_mono d k n (omega arith))

-- Shifts below 32 do not wrap.
single_small : (k : ℕ) → k < 32 → single k < 2 ^ 32
single_small k h = omega (arith, single_mono (31 - k) k 31 (omega arith))

lane_bit-single : (t : ℕ) → t < 32 → lane_bit t ≡ single t
lane_bit-single t h = omega (arith, single-pow t, single_small t h)

mask_has-bit : (mask t : ℕ) → t < 32 → mask_has mask t ≡ not (bit t mask == 0)
unfolding mask_has
mask_has-bit mask t h =
    rw (lane_bit-single t h, bit_and-bitwise mask (single t), meet-single mask t mask (omega arith))
      (elim (bit-cases t mask) [
        | inl off ↦ rw off (ground arith)
        | inr on ↦ rw on (ground (arith, single_pos t))
      ])

-- After the bit of lane `t` is set the mask has lane `t` and the lanes that it had.
pub mask_has-mask_add :
    (mask t u : ℕ) → t < 32 → u < 32 → mask_has (mask_add mask t) u ≡ (u == t || mask_has mask u)
unfolding mask_add
mask_has-mask_add mask t u ht hu =
    rw
      (
        mask_has-bit (mask_add mask t) u hu,
        mask_has-bit mask u hu,
        lane_bit-single t ht,
        bit_or-bitwise mask (single t),
        bit-join mask t u mask (omega arith),
      )
      (elim (Bool-cases (u == t)) [ inl here ↦ rw here refl | inr away ↦ rw away refl ])

pub mask_has_nothing : (t : ℕ) → t < 32 → mask_has 0 t ≡ false
mask_has_nothing t h = rw (mask_has-bit 0 t h, bit_nothing t) refl
