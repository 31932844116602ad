-- ===== src/Cycle/Agree/Start.antt =====
-- The start of a block: what `accept_cta` sets up for its lanes, beside the lanes that the
-- simulator's launch makes.
use open_gpu.Prelude.{
  ℕ, zero, suc, ◌+◌, ◌*◌, ◌/◌, ◌%◌, ◌≤◌, ◌<◌, ◌≡◌, refl, sym, ◌∙◌, some, get_or, replicate,
  length-replicate, arith,
}
use native.Mathlib.Nat.{mod-eq_of_lt, add-mul-mod_self_left, add-mul-div_left, div-eq_of_lt}
use open_gpu.Prelude.Word.{u32_mod, add32, le_mul_pos}
use open_gpu.Config.{Config}
use open_gpu.Iss.State.{Triple, Registers}
use open_gpu.Iss.Grid.{mul32, unflatten, lane_at}
use open_gpu.Iss.Grid.Coordinates.{
  cells, cells_pos, face_small, face_pos, IsBox, IsPosition, unflatten-IsPosition,
}
use open_gpu.Cycle.State.{CycleCore, CycleModel, contexts}
use open_gpu.Cycle.Core.{first_gid, with_cta, accept_cta}
use open_gpu.Cycle.Agree.{Mirrors}
use open_gpu.Cycle.Kmu.Next.{mul_succ_le}

-- The cycle model is about to hand out block `k` of the launch that the registers describe.
pub record IsBlock (r : Registers) (m : CycleModel) (k : ℕ) : Type 0 where
  pub grid_box : IsBox r.launch_grid
  pub block_box : IsBox r.launch_block
  pub start : m.startup ≡ r.startup_pc
  pub args : m.args ≡ r.launch_args_addr
  pub dim : m.dim ≡ r.launch_block
  pub grid : m.grid ≡ r.launch_grid
  pub block_size : m.block_size ≡ cells r.launch_block
  pub threads : cells r.launch_grid * cells r.launch_block < u32_mod
  pub inside : k < cells r.launch_grid
  pub block : m.block ≡ unflatten r.launch_grid k

-- The linear index, as `accept_cta` computes it.
horner : (d p : Triple) (k : ℕ) → IsPosition d p k → (p.z * d.y + p.y) * d.x + p.x ≡ k
horner d p k h = grind (arith, h.linear)

part_small : (a b c k : ℕ) → a * b + c ≡ k → 0 < b → a ≤ k
part_small a b c k e h = omega (arith, le_mul_pos a b h, e)

linear32 :
    (d p : Triple) (k : ℕ)
    → IsBox d
    → k < cells d
    → IsPosition d p k
    → add32 (mul32 (add32 (mul32 p.z d.y) p.y) d.x) p.x ≡ k
linear32 d p k box inside h =
    let whole = horner d p k h in
    let outer : p.z * d.y + p.y ≤ k = part_small (p.z * d.y + p.y) d.x p.x k whole box.x_pos in
    let e1 : mul32 p.z d.y ≡ p.z * d.y = mod-eq_of_lt (omega (arith, outer, inside, box.small)) in
    let e2 : add32 (p.z * d.y) p.y ≡ p.z * d.y + p.y =
      mod-eq_of_lt (omega (arith, outer, inside, box.small)) in
    let e3 : mul32 (p.z * d.y + p.y) d.x ≡ (p.z * d.y + p.y) * d.x =
      mod-eq_of_lt (omega (arith, whole, inside, box.small)) in
    rw (e1, e2, e3) (mod-eq_of_lt (omega (arith, whole, inside, box.small)) ∙ whole)

-- A thread of the block has its place among the threads of the grid.
thread_small : (g n k j : ℕ) → k < g → j < n → g * n < u32_mod → k * n + j < u32_mod
thread_small g n k j inside low small = omega (arith, mul_succ_le n k g inside, low, small)

first_gid_lem :
    (r : Registers) (m : CycleModel) (k : ℕ)
    → IsBlock r m k
    → first_gid m ≡ k * cells r.launch_block
unfolding first_gid
first_gid_lem r m k h =
    let position = unflatten-IsPosition r.launch_grid k h.grid_box h.inside in
    let small : k * cells r.launch_block < u32_mod = omega (
      arith,
      thread_small (cells r.launch_grid) (cells r.launch_block) k 0 h.inside
          (cells_pos r.launch_block h.block_box) h.threads,
    ) in
    rw
      (
        h.grid,
        h.block,
        h.block_size,
        linear32 r.launch_grid (unflatten r.launch_grid k) k h.grid_box h.inside position,
      )
      (mod-eq_of_lt small)

-- The index of a thread in the grid gives its block and its index in the block.
split_index : (n k j : ℕ) → 0 < n → j < n → ((k * n + j) % n ≡ j) × ((k * n + j) / n ≡ k)
split_index n k j pos low =
    let turned : k * n + j ≡ j + n * k = grind arith in
    rw turned (
      add-mul-mod_self_left j n k ∙ mod-eq_of_lt low,
      add-mul-div_left j k pos ∙ omega (arith, div-eq_of_lt low),
    )

zeros_read : (n i : ℕ) → get_or (replicate {A = ℕ} n 0) i 0 ≡ 0
zeros_read zero i = refl
zeros_read (suc n) zero = refl
zeros_read (suc n) (suc i) = zeros_read n i

-- The dimensions of a box are no divisors that are zero.
takes_block :
    (c : Config) (r : Registers) (m : CycleModel) (core : CycleCore) (k : ℕ)
    → IsBlock r m k
    → accept_cta c m core ≡ some (with_cta c m core)
unfolding accept_cta
takes_block c r m core k h =
    rw (h.dim, face_small r.launch_block h.block_box)
      (ground (arith, h.block_box.x_pos, h.block_box.y_pos, face_pos r.launch_block h.block_box))

core_place :
    (first a t : ℕ) → first + (a + t) < u32_mod → add32 (first % u32_mod) (a + t) ≡ first + a + t
core_place first a t small = omega arith

-- What a core of number `cid` holds once it has taken the block: `accept_cta` does not divide by
-- zero, and each lane of each warp that has a thread of the block stands for that thread's lane of
-- the simulator when the warp is chosen at the pc that the core holds for it: the same start address and argument address, zeroed
-- registers, the same number in the grid, coordinates, dimensions, warp and lane. The grid and the
-- block are boxes whose threads 32 bits count, the model's registers describe them, block `k` is
-- about to be handed out, and `cid` is the core on which the simulator places it.
pub accept_cta-Mirrors :
    (c : Config) (r : Registers) (m : CycleModel) (core : CycleCore) (k cid hardware_cores w t : ℕ)
    → IsBlock r m k
    → t < c.num_threads
    → w * c.num_threads + t < cells r.launch_block
    → cid ≡ k % hardware_cores
    → cid * contexts c + (w * c.num_threads + t) < u32_mod
    → (accept_cta c m core ≡ some (with_cta c m core))
      × Mirrors c cid t
          (record (with_cta c m core) { iw = w; ip = (with_cta c m core).pc w })
          (lane_at c r
            (cells r.launch_block)
            hardware_cores
            (k * cells r.launch_block + (w * c.num_threads + t)))
unfolding accept_cta with_cta lane_at unflatten
accept_cta-Mirrors c r m core k cid hardware_cores w t h thread low place small =
    let n = cells r.launch_block in
    let j = w * c.num_threads + t in
    let (local, block) = split_index n k j (cells_pos r.launch_block h.block_box) low in
    (
      takes_block c r m core k h,
      record {
        pc = sym h.start;
        size = length-replicate {A = ℕ} 16 0;
        file = λ i _. zeros_read 16 i;
        hart = sym (
            rw (first_gid_lem r m k h)
              (mod-eq_of_lt (thread_small (cells r.launch_grid) n k j h.inside low h.threads)));
        thread_x = rw (local, h.dim) refl;
        thread_y = rw (local, h.dim) refl;
        thread_z = rw (local, h.dim) refl;
        block = rw (block, h.block) refl;
        block_size = sym h.dim;
        grid_size = sym h.grid;
        args = sym h.args;
        physical =
            rw (local, block, ← place) (core_place (cid * contexts c) (w * c.num_threads) t small);
        warp = rw local (split_index c.num_threads w t (omega arith) thread).1;
        lane = rw local (split_index c.num_threads w t (omega arith) thread).0;
      },
    )
