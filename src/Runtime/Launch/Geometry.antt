-- ===== src/Runtime/Launch/Geometry.antt =====
-- The dimensions that `gpu_launch` accepts.
use open_gpu.Prelude.{
  ℕ, ◌*◌, ◌≤◌, ◌<◌, ◌≡◌, ◌↔◌, inl, inr, false, ◌&&◌, ◌||◌, none, some, arith, ltb, leb, ltb→lt,
  Bool-cases, if◌then◌else◌,
}
use open_gpu.Prelude.Word.{le_mul_pos, IsU32, u32_mod}
use open_gpu.Config.{Config}
use open_gpu.Runtime.Range.{mul_u32_lem}
use open_gpu.Runtime.Launch.{Dims, LaunchInfo, has_zero, volume, geometry}

-- Each dimension is a `uint32_t`.
pub record IsDims (d : Dims) : Type 0 where
  pub x_in : IsU32 d.x
  pub y_in : IsU32 d.y
  pub z_in : IsU32 d.z

-- The true product of the dimensions.
abbrev pub cells : Dims → ℕ
cells d = d.x * d.y * d.z

-- None of the dimensions is zero.
pub record IsPositive (d : Dims) : Type 0 where
  pub x_pos : 0 < d.x
  pub y_pos : 0 < d.y
  pub z_pos : 0 < d.z

has_zero_lem : (d : Dims) → has_zero d ≡ false → IsPositive d
unfolding has_zero
has_zero_lem d h = ground arith

has_zero-IsPositive : (d : Dims) → IsPositive d → has_zero d ≡ false
unfolding has_zero
has_zero-IsPositive d h = ground arith

-- For dimensions that are not zero the checked product is the true one, if that is a 32-bit word.
pub volume_lem :
    (d : Dims)
    → IsDims d
    → IsPositive d
    → volume d ≡ (if ltb (cells d) u32_mod then some (cells d) else none)
unfolding volume
volume_lem d w p = elim (Bool-cases (ltb (d.x * d.y) u32_mod)) [
  | inl small ↦ ground (
    arith,
    small,
    mul_u32_lem d.x d.y w.x_in w.y_in,
    mul_u32_lem (d.x * d.y) d.z (ltb→lt _ _ small) w.z_in,
  )
  | inr large ↦
      ground (arith, large, mul_u32_lem d.x d.y w.x_in w.y_in, le_mul_pos (d.x * d.y) d.z p.z_pos)
]

-- What `gpu_launch` asks of the dimensions, in numbers with nothing wrapped.
pub record IsGeometry (c : Config) (info : LaunchInfo) (n : ℕ) : Type 0 where
  pub grid_pos : IsPositive info.grid_dim
  pub block_pos : IsPositive info.block_dim
  pub block : n ≡ cells info.block_dim
  pub resident : n ≤ c.num_warps * c.num_threads
  pub threads : cells info.grid_dim * n < u32_mod

pub cells_pos : (d : Dims) → IsPositive d → 0 < cells d
cells_pos d p = grind arith

geometry_lem :
    (c : Config) (info : LaunchInfo)
    → IsDims info.grid_dim
    → IsDims info.block_dim
    → IsPositive info.grid_dim
    → IsPositive info.block_dim
    → let g = cells info.grid_dim in
      let b = cells info.block_dim in
      geometry c info ≡ (
        if ltb b u32_mod
          && leb b (c.num_warps * c.num_threads)
          && ltb g u32_mod
          && ltb (g * b) u32_mod
        then some b
        else none)
unfolding geometry
geometry_lem c info wg wb pg pb =
    let g = cells info.grid_dim in
    let b = cells info.block_dim in
    elim (Bool-cases (ltb b u32_mod && ltb g u32_mod)) [
      | inl small ↦ ground (
        arith,
        small,
        has_zero-IsPositive info.grid_dim pg,
        has_zero-IsPositive info.block_dim pb,
        volume_lem info.grid_dim wg pg,
        volume_lem info.block_dim wb pb,
        mul_u32_lem g b,
      )
      | inr large ↦ ground (
        arith,
        large,
        has_zero-IsPositive info.grid_dim pg,
        has_zero-IsPositive info.block_dim pb,
        volume_lem info.grid_dim wg pg,
        volume_lem info.block_dim wb pb,
      )
    ]

-- The checks of the dimensions pass, with block size `n`, exactly when no dimension is zero, `n` is
-- the number of threads of a block and fits a core, and all threads of the grid can be counted in
-- 32 bits; no product in the code wraps.
pub geometry_iff :
    (c : Config) (info : LaunchInfo) (n : ℕ)
    → IsDims info.grid_dim
    → IsDims info.block_dim
    → (geometry c info ≡ some n) ↔ IsGeometry c info n
unfolding geometry
geometry_iff c info n wg wb = (forth, back)
  where
    forth : geometry c info ≡ some n → IsGeometry c info n
    forth e = elim (Bool-cases (has_zero info.grid_dim || has_zero info.block_dim)) [
      | inl zeros ↦ absurd (ground (arith, zeros, e))
      | inr fine ↦
          let pg = has_zero_lem info.grid_dim (ground (arith, fine)) in
          let pb = has_zero_lem info.block_dim (ground (arith, fine)) in
          let known = geometry_lem c info wg wb pg pb in
          record {
            grid_pos = pg;
            block_pos = pb;
            block = ground (arith, known, e);
            resident = ground (arith, known, e);
            threads = ground (arith, known, e);
          }
    ]

    back : IsGeometry c info n → geometry c info ≡ some n
    back g =
        let known = geometry_lem c info wg wb g.grid_pos g.block_pos in
        let at_least_g =
          le_mul_pos (cells info.grid_dim) n
            (omega (arith, g, cells_pos info.block_dim g.block_pos)) in
        let at_least_b : n ≤ cells info.grid_dim * n =
          omega (arith, le_mul_pos n (cells info.grid_dim) (cells_pos info.grid_dim g.grid_pos)) in
        let same = g.block in
        ground (arith, known, at_least_g, at_least_b, same, g.resident, g.threads)
