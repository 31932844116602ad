-- ===== src/Cycle/Kmu/Walk.antt =====
-- The order in which the cycle model hands out the blocks of a grid.
use open_gpu.Prelude.{
  ℕ, zero, suc, ◌+◌, ◌<◌, ◌≡◌, refl, sym, ap, ◌∙◌, true, false, Option, ◌==◌, arith, inl, inr, some,
  ◌⊎◌,
}
use mathlib.Core.Path.{subst}
use open_gpu.Iss.State.{Triple}
use open_gpu.Iss.Grid.{unflatten}
use open_gpu.Iss.Grid.Coordinates.{cells, IsBox, IsPosition, unflatten-linear, cells_pos}
use open_gpu.Config.{Config}
use open_gpu.Cycle.State.{zero_triple, CycleModel}
use open_gpu.Cycle.Kmu.Next.{IsPosition-lt, next_block_cases}
use open_gpu.Cycle.Kmu.{advance}

Nat-cases : (n : ℕ) → (n ≡ 0) ⊎ ((k : ℕ) × (n ≡ suc k))
Nat-cases zero = inl refl
Nat-cases (suc n) = inr (n, refl)

-- `k` hand-outs in a row, the one after `i` others to core `sel i`.
abbrev pub advances : Config → (ℕ → ℕ) → ℕ → CycleModel → CycleModel
advances c sel zero m = m
advances c sel (suc k) m = advance c (some (sel k)) (advances c sel k m)

-- A launched model after `k` hand-outs, with blocks left.
record Walking (m m' : CycleModel) (k : ℕ) : Type 0 where
  launch : m'.launch ≡ false
  grid : m'.grid ≡ m.grid
  running : m'.running ≡ true
  position : IsPosition m.grid m'.block k

-- A model that has just launched: it runs, and the next block is the first of a grid.
record IsLaunched (m : CycleModel) : Type 0 where
  box : IsBox m.grid
  launch : m.launch ≡ false
  running : m.running ≡ true
  block : m.block ≡ zero_triple

module _ (c : Config) (m : CycleModel) (l : IsLaunched m) where
  Walking-start : Walking m m 0
  Walking-start = record {
    launch = l.launch;
    grid = refl;
    running = l.running;
    position = rw l.block (record {
      x_in = l.box.x_pos;
      y_in = l.box.y_pos;
      z_in = l.box.z_pos;
      linear = omega arith;
    });
  }

  Walking-advance :
      (sel k : ℕ) (m' : CycleModel)
      → Walking m m' k
      → (Walking m (advance c (some sel) m') (k + 1))
        ⊎ (((advance c (some sel) m').running ≡ false) × (k + 1 ≡ cells m.grid))
  unfolding advance
  Walking-advance sel k m' w = elim (next_block_cases m.grid m'.block k l.box w.position) [
    | inl (more, p) ↦ inl (
        rw w.launch (record {
          launch = refl;
          grid = w.grid;
          running = rw (w.running, w.grid, more) refl;
          position = rw w.grid p;
        }))
    | inr (ends, last) ↦ inr (rw (w.launch, w.running, w.grid, ends) refl, last)
  ]

  -- The walk goes on as long as there are blocks.
  advances-Walking : (sel : ℕ → ℕ) (k : ℕ) → k < cells m.grid → Walking m (advances c sel k m) k
  advances-Walking sel zero h = Walking-start
  advances-Walking sel (suc k) h =
      elim (Walking-advance (sel k) k (advances c sel k m) (advances-Walking sel k (omega arith))) [
        | inl w ↦ let next : suc k ≡ k + 1 = omega arith in rw next w
        | inr (_, last) ↦ absurd (omega arith)
      ]

launched_walk :
    (c : Config) (m : CycleModel) (sel : ℕ → ℕ)
    → IsLaunched m
    → ((k : ℕ)
        → k < cells m.grid
        → ((advances c sel k m).block ≡ unflatten m.grid k) × ((advances c sel k m).running ≡ true))
      × ((advances c sel (cells m.grid) m).running ≡ false)
launched_walk c m sel l = (
  λ k h.
      let w = advances-Walking c m l sel k h in
      let p = w.position in
      (
        sym (unflatten-linear m.grid (advances c sel k m).block l.box p.x_in p.y_in p.z_in)
            ∙ ap (unflatten m.grid) p.linear,
        w.running,
      ),
  elim (Nat-cases (cells m.grid)) [
    | inl none_left ↦ absurd (omega (arith, cells_pos m.grid l.box))
    | inr (k, before) ↦
        rw before
          (elim (Walking-advance c m l (sel k) k (advances c sel k m)
            (advances-Walking c m l sel k (omega arith))) [
              | inl w ↦ absurd (omega (arith, IsPosition-lt m.grid _ (k + 1) w.position))
              | inr (stops, _) ↦ stops
            ])
  ],
)

-- What a cycle with the launch input makes of the walk.
advance-launch :
    (c : Config) (m : CycleModel) (fired : Option ℕ)
    → m.launch ≡ true
    → IsBox m.grid
    → 0 < m.block_size
    → ((advance c fired m).grid ≡ m.grid)
      × ((advance c fired m).running ≡ true)
      × ((advance c fired m).block ≡ zero_triple)
unfolding advance
advance-launch c m fired launch box threads =
    let (x, y, z) = nonzero m.grid box in
    let size : (m.block_size == 0) ≡ false = ground (arith, threads) in
    rw launch (refl, rw (size, x, y, z) refl, refl)
  where
    nonzero :
        (d : Triple) → IsBox d → ((d.x == 0) ≡ false) × ((d.y == 0) ≡ false) × ((d.z == 0) ≡ false)
    nonzero d b = (ground (arith, b.x_pos), ground (arith, b.y_pos), ground (arith, b.z_pos))

-- A cycle with the launch input set, on a grid that is a box and blocks that are not empty, and
-- then cycles without it in which a core takes a block, whatever cores these are: the block handed
-- out after `k` others is the one that the simulator of sw/sim/sm numbers `k`, for every `k` below
-- the number of blocks of the grid; and when all are handed out, and not before, the launch no
-- longer runs.
pub advances_walk :
    (c : Config) (m : CycleModel) (fired : Option ℕ) (sel : ℕ → ℕ)
    → m.launch ≡ true
    → IsBox m.grid
    → 0 < m.block_size
    → let start : CycleModel = record (advance c fired m) { launch = false } in
      ((k : ℕ)
        → k < cells m.grid
        → ((advances c sel k start).block ≡ unflatten m.grid k)
          × ((advances c sel k start).running ≡ true))
      × ((advances c sel (cells m.grid) start).running ≡ false)
advances_walk c m fired sel launch box threads =
    let start : CycleModel = record (advance c fired m) { launch = false } in
    let (grid, running, block) = advance-launch c m fired launch box threads in
    subst
      (λ (g : Triple).
        ((k : ℕ)
          → k < cells g
          → ((advances c sel k start).block ≡ unflatten g k)
            × ((advances c sel k start).running ≡ true))
        × ((advances c sel (cells g) start).running ≡ false))
      grid
      (launched_walk c start sel (record {
        box = subst IsBox (sym grid) box;
        launch = refl;
        running = running;
        block = block;
      }))
