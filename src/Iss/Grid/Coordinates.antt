-- ===== src/Iss/Grid/Coordinates.antt =====
-- Which lanes a launch makes: one for each thread of each block, at its coordinates.
use open_gpu.Prelude.{
  ℕ, zero, suc, ◌+◌, ◌*◌, ◌/◌, ◌%◌, ◌<◌, ◌≡◌, refl, sym, ap, ◌∙◌, true, false, some, length,
  get_elem?, arith,
}
use mathlib.Core.Path.{ap₂}
use native.Mathlib.Nat.{
  add-mul-mod_self_left, add-mul-div_left, div-eq_of_lt, div-add-mod, div-div-eq-div-mul,
  div-lt_iff_lt-mul, mod-lt, mod-eq_of_lt, div-add-mod',
}
use open_gpu.Prelude.Word.{le_mul_pos, u32_mod, mul64}
use open_gpu.Config.{Config}
use open_gpu.Iss.State.{Triple, Lane, Iss, ncores}
use open_gpu.Iss.Grid.{
  mul32, volume64, unflatten, lanes_per_core, lane_at, lanes_from, launch_with, iss_launch,
}

-- The true product of the sides.
abbrev pub cells : Triple → ℕ
cells d = d.x * d.y * d.z

-- Every side is at least one, and the product is a 32-bit word.
pub record IsBox (d : Triple) : Type 0 where
  pub x_pos : 0 < d.x
  pub y_pos : 0 < d.y
  pub z_pos : 0 < d.z
  pub small : cells d < u32_mod

-- The position lies in the box, and its linear index is `i`.
pub record IsPosition (d p : Triple) (i : ℕ) : Type 0 where
  pub x_in : p.x < d.x
  pub y_in : p.y < d.y
  pub z_in : p.z < d.z
  pub linear : p.x + d.x * (p.y + d.y * p.z) ≡ i

-- The product of two sides does not wrap.
pub face_small : (d : Triple) → IsBox d → mul32 d.x d.y ≡ d.x * d.y
face_small d b = mod-eq_of_lt (omega (arith, b.small, le_mul_pos (d.x * d.y) d.z b.z_pos))

pub face_pos : (d : Triple) → IsBox d → 0 < d.x * d.y
face_pos d b = grind arith

-- The code's position of an index below the volume is in the box, and belongs to the index.
pub unflatten-IsPosition :
    (d : Triple) (i : ℕ) → IsBox d → i < cells d → IsPosition d (unflatten d i) i
unfolding unflatten
unflatten-IsPosition d i b h =
    let face = face_small d b in
    let rows : i / (d.x * d.y) ≡ i / d.x / d.y = sym (div-div-eq-div-mul i d.x d.y) in
    record {
      x_in = mod-lt i b.x_pos;
      y_in = mod-lt (i / d.x) b.y_pos;
      z_in = rw face ((div-lt_iff_lt-mul (face_pos d b)).1 (omega arith));
      linear =
          rw (face, rows)
            (omega (arith, div-add-mod i d.x, ap (λ (t : ℕ). d.x * t) (div-add-mod (i / d.x) d.y)));
    }

-- Every position in the box is the position of its own linear index: no two indices share one.
pub unflatten-linear :
    (d p : Triple)
    → IsBox d
    → p.x < d.x
    → p.y < d.y
    → p.z < d.z
    → unflatten d (p.x + d.x * (p.y + d.y * p.z)) ≡ p
unfolding unflatten
unflatten-linear d p b hx hy hz =
    let i = p.x + d.x * (p.y + d.y * p.z) in
    let row : i / d.x ≡ p.y + d.y * p.z =
      add-mul-div_left p.x (p.y + d.y * p.z) b.x_pos ∙ omega (arith, div-eq_of_lt hx) in
    let column : i % d.x ≡ p.x =
      add-mul-mod_self_left p.x d.x (p.y + d.y * p.z) ∙ mod-eq_of_lt hx in
    let line : (p.y + d.y * p.z) % d.y ≡ p.y =
      add-mul-mod_self_left p.y d.y p.z ∙ mod-eq_of_lt hy in
    let plane : (p.y + d.y * p.z) / d.y ≡ p.z =
      add-mul-div_left p.y p.z b.y_pos ∙ omega (arith, div-eq_of_lt hy) in
    let level : i / mul32 d.x d.y ≡ p.z =
      ap (λ (t : ℕ). i / t) (face_small d b)
      ∙ sym (div-div-eq-div-mul i d.x d.y)
      ∙ ap (λ (t : ℕ). t / d.y) row
      ∙ plane in
    let depth : i / d.x % d.y ≡ p.y = ap (λ (t : ℕ). t % d.y) row ∙ line in
    λ k. record { x = column k; y = depth k; z = level k }

volume64_lem : (d : Triple) → IsBox d → volume64 d ≡ cells d
volume64_lem d b =
    let xy : mul64 d.x d.y ≡ d.x * d.y =
      mod-eq_of_lt (omega (arith, b.small, le_mul_pos (d.x * d.y) d.z b.z_pos)) in
    ap (λ (t : ℕ). mul64 t d.z) xy ∙ mod-eq_of_lt (omega (arith, b.small))

length-lanes_from : (lane : ℕ → Lane) (i n : ℕ) → length (lanes_from lane i n) ≡ n
unfolding lanes_from
length-lanes_from lane i zero = refl
length-lanes_from lane i (suc n) = ap suc (length-lanes_from lane (i + 1) n)

get_elem?-lanes_from :
    (lane : ℕ → Lane) (i n j : ℕ) → j < n → get_elem? (lanes_from lane i n) j ≡ some (lane (i + j))
unfolding lanes_from
get_elem?-lanes_from lane i zero j h = elim h [ ]
get_elem?-lanes_from lane i (suc n) zero h = ap (λ (t : ℕ). some (lane t)) (omega arith)
get_elem?-lanes_from lane i (suc n) (suc j) h =
    get_elem?-lanes_from lane (i + 1) n j (omega arith)
    ∙ ap (λ (t : ℕ). some (lane t)) (omega arith)

-- What a launch is set up with: boxes for the grid and the block, the block's volume in its
-- register, a grid of threads that 32 bits count, and a simulator of at least one core.
pub record IsLaunchable (c : Config) (s : Iss) : Type 0 where
  pub grid : IsBox s.registers.launch_grid
  pub block : IsBox s.registers.launch_block
  pub block_size : s.registers.launch_block_size ≡ cells s.registers.launch_block
  pub threads : cells s.registers.launch_grid * cells s.registers.launch_block < u32_mod
  pub hardware : 0 < s.physical_count / lanes_per_core c

-- The lane of thread `i`, of a block of `n` threads.
pub record IsThread (c : Config) (s : Iss) (n i : ℕ) (l : Lane) : Type 0 where
  pub hart : l.hartid ≡ i
  pub start : l.pc ≡ s.registers.startup_pc
  pub args : l.args_addr ≡ s.registers.launch_args_addr
  pub runs : l.halted ≡ false
  pub thread : IsPosition s.registers.launch_block l.thread_idx (i % n)
  pub block : IsPosition s.registers.launch_grid l.block_idx (i / n)
  pub warp : l.warp_id * c.num_threads + l.lane_id ≡ i % n

pub cells_pos : (d : Triple) → IsBox d → 0 < cells d
cells_pos d b = grind arith

lane_at-IsThread :
    (c : Config) (s : Iss) (hc i : ℕ)
    → IsLaunchable c s
    → i < cells s.registers.launch_grid * cells s.registers.launch_block
    → IsThread c s
        (cells s.registers.launch_block)
        i
        (lane_at c s.registers (cells s.registers.launch_block) hc i)
unfolding lane_at
lane_at-IsThread c s hc i ok h =
    let n = cells s.registers.launch_block in
    let pos = cells_pos s.registers.launch_block ok.block in
    record {
      hart = refl;
      start = refl;
      args = refl;
      runs = refl;
      thread = unflatten-IsPosition s.registers.launch_block (i % n) ok.block (mod-lt i pos);
      block =
          unflatten-IsPosition s.registers.launch_grid (i / n) ok.grid
            ((div-lt_iff_lt-mul pos).1 h);
      warp = div-add-mod' (i % n) c.num_threads;
    }

total_pos : (a b : ℕ) → 0 < a → 0 < b → 0 < a * b
total_pos a b h k = grind arith

launch_with_lem :
    (c : Config) (s : Iss) (total n : ℕ)
    → 0 < total
    → total < u32_mod
    → n ≡ s.registers.launch_block_size
    → n < u32_mod
    → 0 < s.physical_count / lanes_per_core c
    → let hc = s.physical_count / lanes_per_core c in
      launch_with c s total n true
      ≡ some (record s { cores = lanes_from (lane_at c s.registers n hc) 0 total; rr = 0 }, true)
unfolding launch_with
launch_with_lem c s total n pos small same word hardware =
    let cut : n % u32_mod ≡ n = mod-eq_of_lt word in
    rw cut (ground (arith, pos, small, same, hardware))

-- A simulator set up with boxes for the grid and the block, the block's volume in its register, a
-- grid of threads that 32 bits count, and at least one core, launches. It then has exactly one lane
-- for each thread of the grid. Lane `i` is thread `i % n` of block `i / n`, for blocks of `n`
-- threads: it runs, starts at the start address with the argument address, its thread and block
-- coordinates lie in the block and in the grid and belong to those two indices, and its warp and
-- lane numbers make up its index in the block.
pub iss_launch_lem :
    (c : Config) (s : Iss)
    → IsLaunchable c s
    → let n = cells s.registers.launch_block in
      (s' : Iss) × (iss_launch c s true ≡ some (s', true))
      × (ncores s' ≡ cells s.registers.launch_grid * n)
      × ((i : ℕ)
          → i < ncores s'
          → (l : Lane) × (get_elem? s'.cores i ≡ some l) × IsThread c s n i l)
unfolding iss_launch
iss_launch_lem c s ok =
    let r = s.registers in
    let n = cells r.launch_block in
    let g = cells r.launch_grid in
    let hc = s.physical_count / lanes_per_core c in
    let block_size = volume64_lem r.launch_block ok.block in
    let grid_size = volume64_lem r.launch_grid ok.grid in
    let total : mul64 (volume64 r.launch_grid) (volume64 r.launch_block) ≡ g * n =
      ap₂ mul64 grid_size block_size ∙ mod-eq_of_lt (omega (arith, ok.threads)) in
    let lanes = lanes_from (lane_at c r n hc) 0 (g * n) in
    let pos : 0 < g * n =
      total_pos g n (cells_pos r.launch_grid ok.grid) (cells_pos r.launch_block ok.block) in
    let counted = length-lanes_from (lane_at c r n hc) 0 (g * n) in
    (
      record s { cores = lanes; rr = 0 },
      ap₂ (λ (t b : ℕ). launch_with c s t b true) total block_size
          ∙ launch_with_lem c s (g * n) n pos ok.threads (sym ok.block_size) ok.block.small
              ok.hardware,
      counted,
      λ i h.
          let low : i < g * n = rw counted at h in
          (
            lane_at c r n hc i,
            get_elem?-lanes_from (lane_at c r n hc) 0 (g * n) i low
                ∙ ap (λ (t : ℕ). some (lane_at c r n hc t)) (omega arith),
            lane_at-IsThread c s hc i ok low,
          ),
    )
