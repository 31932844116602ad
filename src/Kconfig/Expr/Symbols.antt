-- ===== src/Kconfig/Expr/Symbols.antt =====
-- `expr_depends_symbol` and `expr_contains_symbol`.
use open_gpu.Prelude.{◌≡◌, refl, true, false, arith, Bool-cases, inl, inr, ◌≢◌}
use open_gpu.Kconfig.Expr.{
  Symbol, symbol_no, symbol_mod, symbol_yes, named, same_symbol, e_equal, e_unequal, e_lth, e_leq,
  e_gth, e_geq, Expr, e_symbol, e_compare, e_not, e_and, e_or, contains_symbol, depends_symbol,
  Values, Order, below, same, above, calc_value, expr_and, relation_holds,
}

-- A symbol that an expression depends on, it contains.
pub contains_symbol-depends_symbol :
    (s : Symbol) (e : Expr) → depends_symbol s e ≡ true → contains_symbol s e ≡ true
unfolding depends_symbol contains_symbol
contains_symbol-depends_symbol s (e_symbol t) h = h
contains_symbol-depends_symbol s (e_compare e_equal a b) h = ground (arith, h)
contains_symbol-depends_symbol s (e_compare e_unequal a b) h = ground (arith, h)
contains_symbol-depends_symbol s (e_compare e_lth a b) h = cc
contains_symbol-depends_symbol s (e_compare e_leq a b) h = cc
contains_symbol-depends_symbol s (e_compare e_gth a b) h = cc
contains_symbol-depends_symbol s (e_compare e_geq a b) h = cc
contains_symbol-depends_symbol s (e_not e) h = cc
contains_symbol-depends_symbol s (e_and l r) h =
    ground (arith, contains_symbol-depends_symbol s l, contains_symbol-depends_symbol s r, h)
contains_symbol-depends_symbol s (e_or l r) h = cc

same_symbol_sound : (s t : Symbol) → same_symbol s t ≡ true → s ≡ t
unfolding same_symbol
same_symbol_sound symbol_no symbol_no h = refl
same_symbol_sound symbol_no symbol_mod h = cc
same_symbol_sound symbol_no symbol_yes h = cc
same_symbol_sound symbol_no (named b) h = cc
same_symbol_sound symbol_mod symbol_no h = cc
same_symbol_sound symbol_mod symbol_mod h = refl
same_symbol_sound symbol_mod symbol_yes h = cc
same_symbol_sound symbol_mod (named b) h = cc
same_symbol_sound symbol_yes symbol_no h = cc
same_symbol_sound symbol_yes symbol_mod h = cc
same_symbol_sound symbol_yes symbol_yes h = refl
same_symbol_sound symbol_yes (named b) h = cc
same_symbol_sound (named a) symbol_no h = cc
same_symbol_sound (named a) symbol_mod h = cc
same_symbol_sound (named a) symbol_yes h = cc
same_symbol_sound (named a) (named b) h = let e : a ≡ b = ground (arith, h) in cc

equal_unless_same : (o : Order) → o ≢ same → relation_holds e_equal o ≡ false
unfolding relation_holds
equal_unless_same below h = refl
equal_unless_same same h = absurd (h refl)
equal_unless_same above h = refl

-- A symbol of value n compares equal to n, and not to m or y.
pub record ComparesAsNo (v : Values) (s : Symbol) : Type 0 where
  pub value : v.tri s ≡ 0
  pub to_no : v.order s symbol_no ≡ same
  pub to_mod : v.order s symbol_mod ≢ same
  pub to_yes : v.order s symbol_yes ≢ same

-- An expression that depends on a symbol of value n has value n.
pub calc_value-depends_symbol :
    (v : Values) (s : Symbol) (e : Expr)
    → ComparesAsNo v s
    → depends_symbol s e ≡ true
    → calc_value v e ≡ 0
unfolding depends_symbol calc_value expr_and relation_holds
calc_value-depends_symbol v s (e_symbol t) n h =
    let e : t ≡ s = same_symbol_sound t s h in rw e n.value
calc_value-depends_symbol v s (e_compare e_equal a b) n h =
    let at : a ≡ s = same_symbol_sound a s (ground (arith, h)) in
    let differs : v.order s b ≢ same = elim (Bool-cases (same_symbol b symbol_yes)) [
      | inl yes_side ↦ rw (same_symbol_sound b symbol_yes yes_side) n.to_yes
      | inr rest ↦ rw (same_symbol_sound b symbol_mod (ground (arith, rest, h))) n.to_mod
    ] in
    rw (at, equal_unless_same (v.order s b) differs) refl
calc_value-depends_symbol v s (e_compare e_unequal a b) n h =
    let at : a ≡ s = same_symbol_sound a s (ground (arith, h)) in
    let to : b ≡ symbol_no = same_symbol_sound b symbol_no (ground (arith, h)) in
    rw (at, to, n.to_no) refl
calc_value-depends_symbol v s (e_compare e_lth a b) n h = cc
calc_value-depends_symbol v s (e_compare e_leq a b) n h = cc
calc_value-depends_symbol v s (e_compare e_gth a b) n h = cc
calc_value-depends_symbol v s (e_compare e_geq a b) n h = cc
calc_value-depends_symbol v s (e_not e) n h = cc
calc_value-depends_symbol v s (e_or l r) n h = cc
calc_value-depends_symbol v s (e_and l r) n h = elim (Bool-cases (depends_symbol s l)) [
  | inl left ↦ ground (arith, calc_value-depends_symbol v s l n left)
  | inr misses ↦
      let right : depends_symbol s r ≡ true = ground (arith, misses, h) in
      ground (arith, calc_value-depends_symbol v s r n right)
]
