-- ===== src/Cycle/Mask/Split.antt =====
-- The two masks that a branch makes out of the mask of a warp.
use open_gpu.Prelude.{
  ℕ, zero, suc, ◌+◌, ◌≤◌, ◌<◌, ◌≡◌, refl, sym, ap, ◌∙◌, inl, inr, Bool, true, false, not, ◌&&◌,
  ◌||◌, ltb, leb, arith, ◌==◌, Bool-cases, if◌then◌else◌,
}
use open_gpu.Cycle.Mask.{mask_has, mask_add}
use open_gpu.Cycle.Mask.Bits.{mask_has-mask_add, mask_has_nothing}
use open_gpu.Cycle.Lane.{split_masks}

-- One of `left` lanes from `t` on.
abbrev within : ℕ → ℕ → ℕ → Bool
within t left u = leb t u && ltb u (t + left)

within_none : (t u : ℕ) → within t 0 u ≡ false
within_none t u = ground arith

within_suc : (t left u : ℕ) → within t (suc left) u ≡ (u == t || within (t + 1) left u)
within_suc t left u = ground arith

within_all : (n u : ℕ) → u < n → within 0 n u ≡ true
within_all n u h = ground arith

merge :
    (here later goes old : Bool)
    → ((later && goes) || ((here && goes) || old)) ≡ (((here || later) && goes) || old)
merge true true true old = refl
merge true true false old = refl
merge true false true old = refl
merge true false false old = refl
merge false true true old = refl
merge false true false old = refl
merge false false true old = refl
merge false false false old = refl

or_nothing : (b : Bool) → (b || false) ≡ b
or_nothing true = refl
or_nothing false = refl

module _ (take : ℕ → Bool) (im : ℕ) where
  -- The lanes of the two masks.
  abbrev goes : ℕ → Bool
  goes u = mask_has im u && take u

  abbrev stays : ℕ → Bool
  stays u = mask_has im u && not (take u)

  -- The loop body.
  abbrev sorted_lane : ℕ → ℕ × ℕ → ℕ × ℕ
  sorted_lane t (tk, fl) =
      if mask_has im t
      then (if take t then (mask_add tk t, fl) else (tk, mask_add fl t))
      else (tk, fl)

  sorted_lane-goes :
      (t u : ℕ) (masks : ℕ × ℕ)
      → t < 32
      → u < 32
      → mask_has (sorted_lane t masks).0 u ≡ ((u == t && goes u) || mask_has masks.0 u)
  sorted_lane-goes t u (tk, fl) ht hu =
      let added = mask_has-mask_add tk t u ht hu in
      elim (Bool-cases (u == t)) [
        | inl here ↦
            let same : u ≡ t = ground (arith, here) in
            elim (Bool-cases (mask_has im t)) [
              | inl on ↦ elim (Bool-cases (take t)) [
                | inl take_it ↦ rw (on, take_it, added, here, same, on, take_it) refl
                | inr leave_it ↦ rw (on, leave_it, here, same, on, leave_it) refl
              ]
              | inr off ↦ rw (off, here, same, off) refl
            ]
        | inr away ↦ elim (Bool-cases (mask_has im t)) [
          | inl on ↦ elim (Bool-cases (take t)) [
            | inl take_it ↦ rw (on, take_it, added, away) refl
            | inr leave_it ↦ rw (on, leave_it, away) refl
          ]
          | inr off ↦ rw (off, away) refl
        ]
      ]

  sorted_lane-stays :
      (t u : ℕ) (masks : ℕ × ℕ)
      → t < 32
      → u < 32
      → mask_has (sorted_lane t masks).1 u ≡ ((u == t && stays u) || mask_has masks.1 u)
  sorted_lane-stays t u (tk, fl) ht hu =
      let added = mask_has-mask_add fl t u ht hu in
      elim (Bool-cases (u == t)) [
        | inl here ↦
            let same : u ≡ t = ground (arith, here) in
            elim (Bool-cases (mask_has im t)) [
              | inl on ↦ elim (Bool-cases (take t)) [
                | inl take_it ↦ rw (on, take_it, here, same, on, take_it) refl
                | inr leave_it ↦ rw (on, leave_it, added, here, same, on, leave_it) refl
              ]
              | inr off ↦ rw (off, here, same, off) refl
            ]
        | inr away ↦ elim (Bool-cases (mask_has im t)) [
          | inl on ↦ elim (Bool-cases (take t)) [
            | inl take_it ↦ rw (on, take_it, away) refl
            | inr leave_it ↦ rw (on, leave_it, added, away) refl
          ]
          | inr off ↦ rw (off, away) refl
        ]
      ]

  split_masks-goes :
      (left t u : ℕ) (masks : ℕ × ℕ)
      → t + left ≤ 32
      → u < 32
      → mask_has (split_masks take im left t masks).0 u
        ≡ ((within t left u && goes u) || mask_has masks.0 u)
  unfolding split_masks
  split_masks-goes zero t u masks few hu = rw (within_none t u) refl
  split_masks-goes (suc left) t u masks few hu =
      split_masks-goes left (t + 1) u (sorted_lane t masks) (omega arith) hu
      ∙ ap (λ (old : Bool). (within (t + 1) left u && goes u) || old)
          (sorted_lane-goes t u masks (omega arith) hu)
      ∙ merge (u == t) (within (t + 1) left u) (goes u) (mask_has masks.0 u)
      ∙ ap (λ (w : Bool). (w && goes u) || mask_has masks.0 u) (sym (within_suc t left u))

  split_masks-stays :
      (left t u : ℕ) (masks : ℕ × ℕ)
      → t + left ≤ 32
      → u < 32
      → mask_has (split_masks take im left t masks).1 u
        ≡ ((within t left u && stays u) || mask_has masks.1 u)
  unfolding split_masks
  split_masks-stays zero t u masks few hu = rw (within_none t u) refl
  split_masks-stays (suc left) t u masks few hu =
      split_masks-stays left (t + 1) u (sorted_lane t masks) (omega arith) hu
      ∙ ap (λ (old : Bool). (within (t + 1) left u && stays u) || old)
          (sorted_lane-stays t u masks (omega arith) hu)
      ∙ merge (u == t) (within (t + 1) left u) (stays u) (mask_has masks.1 u)
      ∙ ap (λ (w : Bool). (w && stays u) || mask_has masks.1 u) (sym (within_suc t left u))

-- A lane of the warp is in the first mask if it is active and takes the branch, and in the second
-- if it is active and does not, for at most 32 lanes.
pub split_masks-has :
    (take : ℕ → Bool) (im n u : ℕ)
    → n ≤ 32
    → u < n
    → let (tk, fl) = split_masks take im n 0 (0, 0) in
      (mask_has tk u ≡ (mask_has im u && take u))
      × (mask_has fl u ≡ (mask_has im u && not (take u)))
split_masks-has take im n u few h = (
  split_masks-goes take im n 0 u (0, 0) (omega arith) (omega arith)
      ∙ rw (within_all n u h, mask_has_nothing u (omega arith)) (or_nothing (goes take im u)),
  split_masks-stays take im n 0 u (0, 0) (omega arith) (omega arith)
      ∙ rw (within_all n u h, mask_has_nothing u (omega arith)) (or_nothing (stays take im u)),
)
