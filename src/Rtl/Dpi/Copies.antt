-- ===== src/Rtl/Dpi/Copies.antt =====
-- The loop of `gpu_diff_state` over the elements of an array.
use open_gpu.Prelude.{
  ℕ, zero, suc, ◌+◌, ◌-◌, ◌≤◌, ◌<◌, ◌≡◌, ◌⊎◌, refl, sym, ap, ◌∙◌, inl, inr, Bool, true, false,
  Option, none, some, ◌==◌, arith, Bool-cases, Option-cases,
}
use mathlib.Core.Path.{subst}
use open_gpu.Cycle.State.{Array, put}
use open_gpu.Rtl.Dpi.{copy_elements}

-- What a loop over the elements that comes to its end does.
abbrev pub Copies : (ℕ → Option ℕ) → ℕ → ℕ → ℕ → Array → Array → Type 0
Copies element base left word dst dst' =
    (k : ℕ)
    → (base + word ≤ k → k < base + word + left → element (k - base) ≡ some (dst' k))
      × ((k < base + word) ⊎ (base + word + left ≤ k) → dst' k ≡ dst k)

pub copy_elements-some :
    (element : ℕ → Option ℕ) (base left word v : ℕ) (dst : Array)
    → element word ≡ some v
    → copy_elements element base (suc left) word dst
      ≡ copy_elements element base left (word + 1) (put dst (base + word) v)
unfolding copy_elements
copy_elements-some element base left word v dst there = rw (copy_elements, there) refl

pub copy_elements-none :
    (element : ℕ → Option ℕ) (base left word : ℕ) (dst : Array)
    → element word ≡ none
    → copy_elements element base (suc left) word dst ≡ (dst, false)
unfolding copy_elements
copy_elements-none element base left word dst absent = rw (copy_elements, absent) refl

Copies-suc :
    (element : ℕ → Option ℕ) (base left word v : ℕ) (dst dst' : Array)
    → element word ≡ some v
    → Copies element base left (word + 1) (put dst (base + word) v) dst'
    → Copies element base (suc left) word dst dst'
Copies-suc element base left word v dst dst' there h k = (
  λ low high. elim (Bool-cases (k == base + word)) [
    | inl here ↦
        let at : k ≡ base + word = ground (arith, here) in
        let same : dst' k ≡ v = (h k).1 (ground (arith, at)) ∙ rw here refl in
        let index : k - base ≡ word = omega (arith, at) in
        ap element index ∙ there ∙ ap (λ (x : ℕ). some x) (sym same)
    | inr away ↦ (h k).0 (ground (arith, away, low)) (omega (arith, high))
  ],
  λ apart.
      let away : (k == base + word) ≡ false = ground (arith, apart) in
      (h k).1 (ground (arith, apart)) ∙ rw away refl,
)

pub copy_elements-Copies :
    (element : ℕ → Option ℕ) (base left word : ℕ) (dst : Array)
    → (copy_elements element base left word dst).1 ≡ true
    → Copies element base left word dst (copy_elements element base left word dst).0
unfolding copy_elements
copy_elements-Copies element base zero word dst e =
    λ k. (λ low high. absurd (omega arith), λ away. refl)
copy_elements-Copies element base (suc left) word dst e = elim (Option-cases (element word)) [
  | inl absent ↦
      let stops = copy_elements-none element base left word dst absent in
      absurd (cc (sym (ap (λ (x : Array × Bool). x.1) stops) ∙ e))
  | inr (v, there) ↦
      let next = put dst (base + word) v in
      let goes = copy_elements-some element base left word v dst there in
      let rest =
        copy_elements-Copies element base left (word + 1) next
          (sym (ap (λ (x : Array × Bool). x.1) goes) ∙ e) in
      subst (λ (x : Array × Bool). Copies element base (suc left) word dst x.0) (sym goes)
        (Copies-suc element base left word v dst (copy_elements element base left (word + 1) next).0
          there rest)
]
