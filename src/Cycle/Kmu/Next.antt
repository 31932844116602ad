-- ===== src/Cycle/Kmu/Next.antt =====
-- The step from a block of a grid to the next one in the linear order.
use open_gpu.Prelude.{
  ℕ, ◌+◌, ◌*◌, ◌≤◌, ◌<◌, ◌≡◌, refl, ap, true, false, ◌==◌, arith, Bool-cases, inl, inr, ◌⊎◌,
}
use native.Mathlib.Nat.{mul_assoc, mul-le-mul_left}
use open_gpu.Prelude.Word.{u32_mod, add32, le_mul_pos}
use open_gpu.Iss.State.{Triple}
use open_gpu.Iss.Grid.Coordinates.{cells, IsBox, IsPosition}
use open_gpu.Cycle.State.{zero_triple}
use open_gpu.Cycle.Kmu.{next_block}

pub mul_succ_le : (a b n : ℕ) → b < n → a * b + a ≤ a * n
mul_succ_le a b n h = omega (arith, mul-le-mul_left {m = b + 1} {n = n} a (omega arith))

pub IsPosition-lt : (d p : Triple) (i : ℕ) → IsPosition d p i → i < cells d
IsPosition-lt d p i h =
    let rows = mul_succ_le d.y p.z d.z h.z_in in
    let all = mul_succ_le d.x (p.y + d.y * p.z) (d.y * d.z) (omega (arith, h.y_in)) in
    omega (arith, all, h.x_in, h.linear)

-- The sides of a box are words.
side_small : (d : Triple) → IsBox d → (d.x < u32_mod) × (d.y < u32_mod) × (d.z < u32_mod)
side_small d b =
    let face = le_mul_pos (d.x * d.y) d.z b.z_pos in
    let face_pos : 0 < d.x * d.y = grind arith in
    (
      omega (arith, b.small, face, le_mul_pos d.x d.y b.y_pos),
      omega (arith, b.small, face, le_mul_pos d.y d.x b.x_pos),
      omega (arith, b.small, le_mul_pos d.z (d.x * d.y) face_pos),
    )

-- A row that is full, and one more.
full_row : (dx x q k : ℕ) → x + 1 ≡ dx → x + dx * q ≡ k → dx * (q + 1) ≡ k + 1
full_row dx x q k edge e = grind arith

next_row :
    (dx dy x y z k : ℕ) → x + 1 ≡ dx → x + dx * (y + dy * z) ≡ k → 0 + dx * (y + 1 + dy * z) ≡ k + 1
next_row dx dy x y z k edge e = grind (arith, full_row dx x (y + dy * z) k edge e)

next_plane :
    (dx dy x y z k : ℕ)
    → x + 1 ≡ dx
    → y + 1 ≡ dy
    → x + dx * (y + dy * z) ≡ k
    → 0 + dx * (0 + dy * (z + 1)) ≡ k + 1
next_plane dx dy x y z k edge corner e =
    let row : dx * (dy * (z + 1)) ≡ dx * (y + dy * z + 1) =
      ap (λ (t : ℕ). dx * t) (full_row dy y z (y + dy * z) corner refl) in
    omega (arith, row, full_row dx x (y + dy * z) k edge e)

last_cell :
    (dx dy dz x y z k : ℕ)
    → x + 1 ≡ dx
    → y + 1 ≡ dy
    → z + 1 ≡ dz
    → x + dx * (y + dy * z) ≡ k
    → k + 1 ≡ dx * dy * dz
last_cell dx dy dz x y z k edge corner last e =
    let full : dx * (dy * (z + 1)) ≡ dx * (dy * dz) = ap (λ (t : ℕ). dx * (dy * t)) last in
    omega (arith, full, next_plane dx dy x y z k edge corner e, mul_assoc dx dy dz)

-- The step goes to the next block in the linear order, or ends after the last.
pub next_block_cases :
    (d b : Triple) (k : ℕ)
    → IsBox d
    → IsPosition d b k
    → (((next_block d b).1 ≡ true) × IsPosition d (next_block d b).0 (k + 1))
      ⊎ ((next_block d b ≡ (zero_triple, false)) × (k + 1 ≡ cells d))
unfolding next_block
next_block_cases d b k box p =
    let (sx, sy, sz) = side_small d box in
    let nx : add32 b.x 1 ≡ b.x + 1 = omega (arith, p.x_in) in
    let ny : add32 b.y 1 ≡ b.y + 1 = omega (arith, p.y_in) in
    let nz : add32 b.z 1 ≡ b.z + 1 = omega (arith, p.z_in) in
    rw (nx, ny, nz)
      (elim (Bool-cases (b.x + 1 == d.x)) [
        | inr inside ↦ inl (
            rw inside (
              refl,
              record {
                x_in = ground (arith, inside, p.x_in);
                y_in = p.y_in;
                z_in = p.z_in;
                linear = omega (arith, p.linear);
              },
            ))
        | inl edge ↦ elim (Bool-cases (b.y + 1 == d.y)) [
          | inr inside ↦ inl (
              rw (edge, inside)
                (
                  refl,
                  record {
                    x_in = box.x_pos;
                    y_in = ground (arith, inside, p.y_in);
                    z_in = p.z_in;
                    linear = next_row d.x d.y b.x b.y b.z k (ground (arith, edge)) p.linear;
                  },
                ))
          | inl corner ↦ elim (Bool-cases (b.z + 1 == d.z)) [
            | inr inside ↦ inl (
                rw (edge, corner, inside)
                  (
                    refl,
                    record {
                      x_in = box.x_pos;
                      y_in = box.y_pos;
                      z_in = ground (arith, inside, p.z_in);
                      linear =
                          next_plane d.x d.y b.x b.y b.z k (ground (arith, edge))
                            (ground (arith, corner)) p.linear;
                    },
                  ))
            | inl last ↦ inr (
              rw (edge, corner, last) refl,
              last_cell d.x d.y d.z b.x b.y b.z k (ground (arith, edge)) (ground (arith, corner))
                  (ground (arith, last)) p.linear,
            )
          ]
        ]
      ])
