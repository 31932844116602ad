-- ===== src/Cycle/Pack/Layout.antt =====
-- Where the packed state holds what, and what the names of its words say.
use open_gpu.Prelude.{
  ℕ, ◌+◌, ◌-◌, ◌*◌, ◌/◌, ◌%◌, ◌<◌, ◌≡◌, refl, ap, ◌∙◌, ◌&&◌, some, List, [], ◌∷◌, ◌++◌, length,
  get_elem?, arith, Bool-cases, inl, inr,
}
use native.Mathlib.Nat.{
  mul-le-mul_left, add-mul-div_left, add-mul-mod_self_left, mod-eq_of_lt, div-eq_of_lt, mul_comm,
}
use open_gpu.Config.{Config}
use open_gpu.Cycle.State.{CycleCore, CycleModel, contexts, core_words, state_words}
use open_gpu.Cycle.Mask.{mask_has}
use open_gpu.Cycle.Pack.{
  gather, in_memory, top_words, port_words, warp_words, lane_words, core_head, packed_core, pack,
}
use open_gpu.Cycle.Names.{gpr_field, core_name, lane_name, field_name}
use open_gpu.Cycle.Pack.Concat.{
  length-append, get_elem?-append_right, length-gather, get_elem?-gather_start,
}

length-warp_words : (core : CycleCore) (w : ℕ) → length (warp_words core w) ≡ 20
unfolding warp_words gather
length-warp_words core w = refl

length-lane_words : (core : CycleCore) (x : ℕ) → length (lane_words core x) ≡ 20
unfolding lane_words gather
length-lane_words core x = refl

length-port_words :
    (c : Config) (m : CycleModel) (core : CycleCore) → length (port_words c m core).0 ≡ 6
unfolding port_words
length-port_words c m core = elim (Bool-cases (in_memory core.state && mask_has core.im core.mt)) [
  | inl active ↦ rw active refl
  | inr idle ↦ rw idle refl
]

length-top_words : (c : Config) (m : CycleModel) → length (top_words c m) ≡ 23
unfolding top_words
length-top_words c m = refl

length-core_head : (c : Config) (core : CycleCore) → length (core_head c core) ≡ 22
unfolding core_head
length-core_head c core = refl

-- The words of a core in front of those of its lanes.
abbrev front_words : Config → CycleModel → CycleCore → List ℕ
front_words c m core =
    core_head c core ++ (port_words c m core).0 ++ gather (warp_words core) c.num_warps 0

length-front_words :
    (c : Config) (m : CycleModel) (core : CycleCore)
    → length (front_words c m core) ≡ 28 + 20 * c.num_warps
length-front_words c m core =
    let warps = gather (warp_words core) c.num_warps 0 in
    let ports = (port_words c m core).0 in
    omega (
      arith,
      length-append (core_head c core ++ ports) warps,
      length-append (core_head c core) ports,
      length-core_head c core,
      length-port_words c m core,
      length-gather (warp_words core) 20 (length-warp_words core) c.num_warps 0,
    )

length-packed_core :
    (c : Config) (m : CycleModel) (core : CycleCore) → length (packed_core c m core) ≡ core_words c
unfolding packed_core
length-packed_core c m core =
    let lanes = gather (lane_words core) (contexts c) 0 in
    omega (
      arith,
      length-append (front_words c m core) lanes,
      length-front_words c m core,
      length-gather (lane_words core) 20 (length-lane_words core) (contexts c) 0,
    )

-- The words of core `i`.
abbrev words_at : Config → CycleModel → ℕ → List ℕ
words_at c m i = packed_core c m (m.cores i)

length-words_at : (c : Config) (m : CycleModel) (i : ℕ) → length (words_at c m i) ≡ core_words c
length-words_at c m i = length-packed_core c m (m.cores i)

-- The packed state has as many words as the hardware is asked for.
pub length-pack : (c : Config) (m : CycleModel) → length (pack c m).packed ≡ state_words c
unfolding pack
length-pack c m =
    length-append (top_words c m) (gather (words_at c m) c.num_cores 0)
    ∙ omega (
      arith,
      length-top_words c m,
      length-gather (words_at c m) (core_words c) (length-words_at c m) c.num_cores 0,
    )

-- Word `f` of lane `l` of a core.
get_elem?-packed_core :
    (c : Config) (m : CycleModel) (core : CycleCore) (l f : ℕ)
    → l < contexts c
    → f < 20
    → get_elem? (packed_core c m core) (28 + 20 * c.num_warps + (l * 20 + f))
      ≡ get_elem? (lane_words core l) f
unfolding packed_core
get_elem?-packed_core c m core l f hl hf =
    get_elem?-append_right (front_words c m core) (gather (lane_words core) (contexts c) 0)
      (28 + 20 * c.num_warps) (l * 20 + f) (length-front_words c m core)
    ∙ get_elem?-gather_start (lane_words core) 20 (length-lane_words core) (contexts c) l f hl hf

-- Where register `r` of lane `l` of core `ci` is packed.
abbrev pub gpr_word : Config → ℕ → ℕ → ℕ → ℕ
gpr_word c ci l r = 23 + (ci * core_words c + (28 + 20 * c.num_warps + (20 * l + (4 + r))))

get_elem?-lane_words :
    (core : CycleCore) (l r : ℕ)
    → r < 16
    → get_elem? (lane_words core l) (4 + r) ≡ some (core.gpr l r)
unfolding lane_words
get_elem?-lane_words core l r h =
    get_elem?-append_right (core.tx l ∷ core.ty l ∷ core.tz l ∷ core.gid l ∷ [])
      (gather (λ f. core.gpr l f ∷ []) 16 0) 4 r refl
    ∙ (let at : r ≡ r * 1 + 0 = omega arith in
        ap (get_elem? (gather (λ f. core.gpr l f ∷ []) 16 0)) at
        ∙ get_elem?-gather_start (λ f. core.gpr l f ∷ []) 1 (λ _. refl) 16 r 0 h (omega arith))

-- The word of the packed state at the place of a register is the register.
packed_gpr :
    (c : Config) (m : CycleModel) (ci l r : ℕ)
    → ci < c.num_cores
    → l < contexts c
    → r < 16
    → get_elem? (pack c m).packed (gpr_word c ci l r) ≡ some ((m.cores ci).gpr l r)
unfolding pack
packed_gpr c m ci l r hc hl hr =
    let o = 28 + 20 * c.num_warps + (l * 20 + (4 + r)) in
    let place : gpr_word c ci l r ≡ 23 + (ci * core_words c + o) = omega arith in
    let inside : o < core_words c =
      omega (arith, mul-le-mul_left {m = l + 1} {n = contexts c} 20 (omega arith)) in
    ap (get_elem? (pack c m).packed) place
    ∙ get_elem?-append_right (top_words c m) (gather (words_at c m) c.num_cores 0) 23
        (ci * core_words c + o) (length-top_words c m)
    ∙ get_elem?-gather_start (words_at c m) (core_words c) (length-words_at c m) c.num_cores ci o hc
        inside
    ∙ get_elem?-packed_core c m (m.cores ci) l (4 + r) hl (omega arith)
    ∙ get_elem?-lane_words (m.cores ci) l r hr

-- The block and the place in it of a word behind 23 others, in blocks of `n` words.
block_place :
    (n k o : ℕ) → o < n → ((23 + (k * n + o) - 23) / n ≡ k) × ((23 + (k * n + o) - 23) % n ≡ o)
block_place n k o h =
    let place : 23 + (k * n + o) - 23 ≡ o + n * k = omega (arith, mul_comm n k) in
    let none_whole : o / n ≡ 0 = div-eq_of_lt h in
    let block : (o + n * k) / n ≡ o / n + k = add-mul-div_left o k (omega (arith, h)) in
    (
      ap (λ (t : ℕ). t / n) place ∙ omega (arith, block, none_whole),
      ap (λ (t : ℕ). t % n) place ∙ add-mul-mod_self_left o n k ∙ mod-eq_of_lt h,
    )

field_name_core :
    (c : Config) (k o : ℕ)
    → o < core_words c
    → field_name c (23 + (k * core_words c + o)) ≡ core_name c k o
unfolding field_name
field_name_core c k o h =
    let (block, place) = block_place (core_words c) k o h in
    let q = 23 + (k * core_words c + o) - 23 in
    let behind : field_name c (23 + (k * core_words c + o))
        ≡ core_name c (q / core_words c) (q % core_words c) =
      ground arith in
    behind ∙ (λ i. core_name c (block i) (place i))

core_name_lane :
    (c : Config) (k l f : ℕ)
    → f < 20
    → core_name c k (28 + 20 * c.num_warps + (20 * l + f)) ≡ lane_name k l f
unfolding core_name
core_name_lane c k l f h =
    let o = 28 + 20 * c.num_warps + (20 * l + f) in
    let x = o - 28 - 20 * c.num_warps in
    let lane : x / 20 ≡ l = omega (arith, h) in
    let place : x % 20 ≡ f = omega (arith, h) in
    let behind : core_name c k o ≡ lane_name k (x / 20) (x % 20) = ground arith in
    behind ∙ (λ i. lane_name k (lane i) (place i))

lane_name_gpr : (k l r : ℕ) → lane_name k l (4 + r) ≡ gpr_field k l r
unfolding lane_name
lane_name_gpr k l r =
    let at : 4 + r - 4 ≡ r = omega arith in
    let behind : lane_name k l (4 + r) ≡ gpr_field k l (4 + r - 4) = ground arith in
    behind ∙ ap (gpr_field k l) at

-- For every register of every lane of every core, the word of the packed state at its place is the
-- register, and the name that a mismatch there is reported under is that register's.
pub field_name-pack :
    (c : Config) (m : CycleModel) (ci l r : ℕ)
    → ci < c.num_cores
    → l < contexts c
    → r < 16
    → (get_elem? (pack c m).packed (gpr_word c ci l r) ≡ some ((m.cores ci).gpr l r))
      × (field_name c (gpr_word c ci l r) ≡ gpr_field ci l r)
field_name-pack c m ci l r hc hl hr =
    let inside : 28 + 20 * c.num_warps + (20 * l + (4 + r)) < core_words c =
      omega (arith, mul-le-mul_left {m = l + 1} {n = contexts c} 20 (omega arith)) in
    (
      packed_gpr c m ci l r hc hl hr,
      field_name_core c ci (28 + 20 * c.num_warps + (20 * l + (4 + r))) inside
          ∙ core_name_lane c ci l (4 + r) (omega arith)
          ∙ lane_name_gpr ci l r,
    )
