-- ===== src/Cycle/Mask/Turn.antt =====
-- The choice in turn: which index `first_from` returns.
use open_gpu.Prelude.{
  ℕ, zero, suc, ◌+◌, ◌%◌, ◌<◌, ◌≡◌, refl, Bool, true, false, none, some, arith, Bool-cases, inl,
  inr, ◌⊎◌, ltb, ◌-◌, ◌*◌, ap, ◌∙◌,
}
use native.Mathlib.Nat.{mod-lt, mod-eq_of_lt, add-mul-mod_self_left}
use open_gpu.Cycle.Mask.{first_from}

-- `x` comes `d` places after `rr`, passes, and nothing before it passes.
pub record IsNext (test : ℕ → Bool) (rr count x d : ℕ) : Type 0 where
  pub place : (rr + d) % count ≡ x
  pub passes : test x ≡ true
  pub earlier : (e : ℕ) → e < d → test ((rr + e) % count) ≡ false

last_or_before : (e i : ℕ) → e < i + 1 → (e ≡ i) ⊎ (e < i)
last_or_before e i h = ground arith

-- The search from round `i` on finds the next that passes, or nothing passes.
pub first_from_cases :
    (test : ℕ → Bool) (rr count left i : ℕ)
    → ((e : ℕ) → e < i → test ((rr + e) % count) ≡ false)
    → ((x : ℕ) × (d : ℕ) × (first_from test rr count left i ≡ some x)
        × IsNext test rr count x d
        × (d < i + left))
      ⊎ ((first_from test rr count left i ≡ none)
          × ((e : ℕ) → e < i + left → test ((rr + e) % count) ≡ false))
unfolding first_from
first_from_cases test rr count zero i before = inr (refl, λ e h. before e (omega arith))
first_from_cases test rr count (suc left) i before = elim (Bool-cases (test ((rr + i) % count))) [
  | inl found ↦ inl (
    (rr + i) % count,
    i,
    rw found refl,
    record { place = refl; passes = found; earlier = before },
    omega arith,
  )
  | inr fails ↦ elim (first_from_cases test rr count left (i + 1) (longer fails)) [
    | inl (x, d, e, next, h) ↦ inl (x, d, rw fails e, next, omega arith)
    | inr (e, nothing) ↦ inr (rw fails e, λ k h. nothing k (omega arith))
  ]
]
  where
    longer : test ((rr + i) % count) ≡ false → (e : ℕ) → e < i + 1 → test ((rr + e) % count) ≡ false
    longer fails e h = elim (last_or_before e i h) [
      | inl same ↦ rw same fails
      | inr early ↦ before e early
    ]

-- Going round from `rr` meets every index.
met : (rr count y : ℕ) → rr < count → y < count → (e : ℕ) × (e < count) × ((rr + e) % count ≡ y)
met rr count y hr hy = elim (Bool-cases (ltb y rr)) [
  | inl under ↦
      let sum : rr + (y + count - rr) ≡ y + count * 1 = ground (arith, under) in
      (
        y + count - rr,
        ground (arith, under),
        ap (λ (t : ℕ). t % count) sum ∙ add-mul-mod_self_left y count 1 ∙ mod-eq_of_lt hy,
      )
  | inr over ↦
      let sum : rr + (y - rr) ≡ y = ground (arith, over) in
      (y - rr, omega (arith, hy), ap (λ (t : ℕ). t % count) sum ∙ mod-eq_of_lt hy)
]

-- The choice of a warp or a core starts at the one whose turn it is, goes round, and takes the
-- first that passes; if it takes none, none passes.
pub first_from_turn :
    (test : ℕ → Bool) (rr count : ℕ)
    → rr < count
    → ((x : ℕ) × (d : ℕ) × (first_from test rr count count 0 ≡ some x)
        × IsNext test rr count x d
        × (d < count)
        × (x < count))
      ⊎ ((first_from test rr count count 0 ≡ none) × ((y : ℕ) → y < count → test y ≡ false))
first_from_turn test rr count h =
    elim (first_from_cases test rr count count 0 (λ e none_before. absurd (omega arith))) [
      | inl (x, d, e, next, near) ↦
          inl (x, d, e, next, omega arith, rw (← next.place) (mod-lt (rr + d) (omega arith)))
      | inr (e, nothing) ↦ inr (
        e,
        λ y hy. let (k, inside, at) = met rr count y h hy in rw (← at) (nothing k (omega arith)),
      )
    ]
