-- ===== src/Cycle/Mask.antt =====
-- Masks of lanes and cores, one bit for each. A shift by 32 or more, which C leaves undefined, is
-- not met with fewer than 33 lanes or cores.
pub mod Turn
pub mod Bits
pub mod Split
use Prim.Native.Nat.{bit_and, bit_or}
use open_gpu.Prelude.{ℕ, zero, suc, ◌+◌, ◌%◌, Bool, not, Option, none, some, ◌==◌, if◌then◌else◌}
use open_gpu.Iss.Decode.{shl}

-- `1u << t`
abbrev pub lane_bit : ℕ → ℕ
lane_bit t = shl 1 t

-- `mask & (1u << t)`
unfoldable pub mask_has : ℕ → ℕ → Bool
mask_has mask t = not (bit_and mask (lane_bit t) == 0)

-- `mask |= 1u << t`
unfoldable pub mask_add : ℕ → ℕ → ℕ
mask_add mask t = bit_or mask (lane_bit t)

-- `for (t = ...; t < ...; ++t) if (test(t)) mask |= 1u << t`, with `left` rounds to go.
unfoldable pub mask_where : (ℕ → Bool) → ℕ → ℕ → ℕ → ℕ
unfolding mask_add
mask_where test zero t mask = mask
mask_where test (suc left) t mask =
    mask_where test left (t + 1) (if test t then mask_add mask t else mask)

-- The search for a warp or a core: the first `x = (rr + i) % count` that passes.
unfoldable pub first_from : (ℕ → Bool) → ℕ → ℕ → ℕ → ℕ → Option ℕ
first_from test rr count zero i = none
first_from test rr count (suc left) i =
    let rest = first_from test rr count left (i + 1) in
    if test ((rr + i) % count) then some ((rr + i) % count) else rest
