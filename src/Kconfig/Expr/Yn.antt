-- ===== src/Kconfig/Expr/Yn.antt =====
-- `expr_eliminate_yn` keeps the value of an expression.
use open_gpu.Prelude.{◌≤◌, ◌≡◌, refl, true, false, arith, Bool-cases, inl, inr}
use open_gpu.Kconfig.Expr.{
  Symbol, symbol_no, symbol_mod, symbol_yes, named, same_symbol, Expr, e_symbol, e_compare, e_not,
  e_and, e_or, Values, calc_value, is_symbol, simplify_and, simplify_or, eliminate_yn, expr_or,
  expr_and,
}

-- The constants have the values they name, and every value is a tristate.
pub record IsTristate (v : Values) : Type 0 where
  pub no_value : v.tri symbol_no ≡ 0
  pub yes_value : v.tri symbol_yes ≡ 2
  pub bound : (s : Symbol) → v.tri s ≤ 2

calc_value_bound : (v : Values) → IsTristate v → (e : Expr) → calc_value v e ≤ 2
unfolding calc_value
calc_value_bound v t (e_symbol s) = t.bound s
calc_value_bound v t (e_compare rel a b) = ground arith
calc_value_bound v t (e_not e) = omega arith
calc_value_bound v t (e_and l r) = ground (arith, calc_value_bound v t l, calc_value_bound v t r)
calc_value_bound v t (e_or l r) = ground (arith, calc_value_bound v t l, calc_value_bound v t r)

is_symbol-no :
    (v : Values) → IsTristate v → (e : Expr) → is_symbol symbol_no e ≡ true → calc_value v e ≡ 0
unfolding is_symbol same_symbol calc_value
is_symbol-no v t (e_symbol symbol_no) e = t.no_value
is_symbol-no v t (e_symbol symbol_mod) e = cc
is_symbol-no v t (e_symbol symbol_yes) e = cc
is_symbol-no v t (e_symbol (named a)) e = cc
is_symbol-no v t (e_compare _ _ _) e = cc
is_symbol-no v t (e_not _) e = cc
is_symbol-no v t (e_and _ _) e = cc
is_symbol-no v t (e_or _ _) e = cc

is_symbol-yes :
    (v : Values) → IsTristate v → (e : Expr) → is_symbol symbol_yes e ≡ true → calc_value v e ≡ 2
unfolding is_symbol same_symbol calc_value
is_symbol-yes v t (e_symbol symbol_no) e = cc
is_symbol-yes v t (e_symbol symbol_mod) e = cc
is_symbol-yes v t (e_symbol symbol_yes) e = t.yes_value
is_symbol-yes v t (e_symbol (named a)) e = cc
is_symbol-yes v t (e_compare _ _ _) e = cc
is_symbol-yes v t (e_not _) e = cc
is_symbol-yes v t (e_and _ _) e = cc
is_symbol-yes v t (e_or _ _) e = cc

simplify_and-value :
    (v : Values)
    → IsTristate v
    → (l r : Expr) → calc_value v (simplify_and l r) ≡ expr_and (calc_value v l) (calc_value v r)
unfolding simplify_and expr_and calc_value
simplify_and-value v t l r =
    let bl = calc_value_bound v t l in
    let br = calc_value_bound v t r in
    let no_is = t.no_value in
    elim (Bool-cases (is_symbol symbol_no l)) [
      | inl n ↦ ground (arith, n, is_symbol-no v t l n, no_is, bl, br)
      | inr nn ↦ elim (Bool-cases (is_symbol symbol_yes l)) [
        | inl y ↦ ground (arith, nn, y, is_symbol-yes v t l y, bl, br)
        | inr ny ↦ elim (Bool-cases (is_symbol symbol_no r)) [
          | inl n ↦ ground (arith, nn, ny, n, is_symbol-no v t r n, no_is, bl, br)
          | inr nr ↦ elim (Bool-cases (is_symbol symbol_yes r)) [
            | inl y ↦ ground (arith, nn, ny, nr, y, is_symbol-yes v t r y, bl, br)
            | inr yr ↦ ground (arith, nn, ny, nr, yr)
          ]
        ]
      ]
    ]

simplify_or-value :
    (v : Values)
    → IsTristate v
    → (l r : Expr) → calc_value v (simplify_or l r) ≡ expr_or (calc_value v l) (calc_value v r)
unfolding simplify_or expr_or calc_value
simplify_or-value v t l r =
    let bl = calc_value_bound v t l in
    let br = calc_value_bound v t r in
    let yes_is = t.yes_value in
    elim (Bool-cases (is_symbol symbol_no l)) [
      | inl n ↦ ground (arith, n, is_symbol-no v t l n, bl, br)
      | inr nn ↦ elim (Bool-cases (is_symbol symbol_yes l)) [
        | inl y ↦ ground (arith, nn, y, is_symbol-yes v t l y, yes_is, bl, br)
        | inr ny ↦ elim (Bool-cases (is_symbol symbol_no r)) [
          | inl n ↦ ground (arith, nn, ny, n, is_symbol-no v t r n, bl, br)
          | inr nr ↦ elim (Bool-cases (is_symbol symbol_yes r)) [
            | inl y ↦ ground (arith, nn, ny, nr, y, is_symbol-yes v t r y, yes_is, bl, br)
            | inr yr ↦ ground (arith, nn, ny, nr, yr)
          ]
        ]
      ]
    ]

abbrev pub IsOperand : Expr → Type 0
IsOperand e = (is_symbol symbol_no e ≡ false) × (is_symbol symbol_yes e ≡ false)

-- No conjunction or disjunction above the negations has the constant `n` or `y` for an operand.
abbrev pub IsReduced : Expr → Type 0
IsReduced (e_symbol s) = Unit
IsReduced (e_compare rel a b) = Unit
IsReduced (e_not e) = Unit
IsReduced (e_and l r) = IsReduced l × IsReduced r × IsOperand l × IsOperand r
IsReduced (e_or l r) = IsReduced l × IsReduced r × IsOperand l × IsOperand r

simplify_and-IsReduced : (l r : Expr) → IsReduced l → IsReduced r → IsReduced (simplify_and l r)
unfolding simplify_and
simplify_and-IsReduced l r p q = elim (Bool-cases (is_symbol symbol_no l)) [
  | inl n ↦ rw n tt
  | inr nn ↦ elim (Bool-cases (is_symbol symbol_yes l)) [
    | inl y ↦ rw (nn, y) q
    | inr ny ↦ elim (Bool-cases (is_symbol symbol_no r)) [
      | inl n ↦ rw (nn, ny, n) tt
      | inr nr ↦ elim (Bool-cases (is_symbol symbol_yes r)) [
        | inl y ↦ rw (nn, ny, nr, y) p
        | inr yr ↦ rw (nn, ny, nr, yr) (p, q, (nn, ny), (nr, yr))
      ]
    ]
  ]
]

simplify_or-IsReduced : (l r : Expr) → IsReduced l → IsReduced r → IsReduced (simplify_or l r)
unfolding simplify_or
simplify_or-IsReduced l r p q = elim (Bool-cases (is_symbol symbol_no l)) [
  | inl n ↦ rw n q
  | inr nn ↦ elim (Bool-cases (is_symbol symbol_yes l)) [
    | inl y ↦ rw (nn, y) tt
    | inr ny ↦ elim (Bool-cases (is_symbol symbol_no r)) [
      | inl n ↦ rw (nn, ny, n) p
      | inr nr ↦ elim (Bool-cases (is_symbol symbol_yes r)) [
        | inl y ↦ rw (nn, ny, nr, y) tt
        | inr yr ↦ rw (nn, ny, nr, yr) (p, q, (nn, ny), (nr, yr))
      ]
    ]
  ]
]

-- `expr_eliminate_yn` keeps the value of an expression, whatever values the symbols have.
pub eliminate_yn-value :
    (v : Values) → IsTristate v → (e : Expr) → calc_value v (eliminate_yn e) ≡ calc_value v e
unfolding eliminate_yn calc_value
eliminate_yn-value v t (e_symbol s) = refl
eliminate_yn-value v t (e_compare rel a b) = refl
eliminate_yn-value v t (e_not e) = refl
eliminate_yn-value v t (e_and l r) =
    rw
      (
        simplify_and-value v t (eliminate_yn l) (eliminate_yn r),
        eliminate_yn-value v t l,
        eliminate_yn-value v t r,
      )
      refl
eliminate_yn-value v t (e_or l r) =
    rw
      (
        simplify_or-value v t (eliminate_yn l) (eliminate_yn r),
        eliminate_yn-value v t l,
        eliminate_yn-value v t r,
      )
      refl

-- After `expr_eliminate_yn` no conjunction or disjunction above the negations has the constant `n`
-- or `y` for an operand.
pub eliminate_yn-IsReduced : (e : Expr) → IsReduced (eliminate_yn e)
unfolding eliminate_yn
eliminate_yn-IsReduced (e_symbol s) = tt
eliminate_yn-IsReduced (e_compare rel a b) = tt
eliminate_yn-IsReduced (e_not e) = tt
eliminate_yn-IsReduced (e_and l r) =
    simplify_and-IsReduced (eliminate_yn l) (eliminate_yn r) (eliminate_yn-IsReduced l)
      (eliminate_yn-IsReduced r)
eliminate_yn-IsReduced (e_or l r) =
    simplify_or-IsReduced (eliminate_yn l) (eliminate_yn r) (eliminate_yn-IsReduced l)
      (eliminate_yn-IsReduced r)
