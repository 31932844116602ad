-- ===== src/Kconfig/Expr.antt =====
-- Dependency expressions of tools/kconfig/expr.c, as trees. A pointer to an expression that may be
-- NULL is an `Option`; the nodes E_LIST, E_RANGE and E_NONE, which no dependency has, are left out.
pub mod Yn
pub mod Symbols
use open_gpu.Prelude.{
  ℕ, ◌-◌, Bool, true, false, not, ◌||◌, ◌&&◌, Option, none, some, ltb, ◌==◌, if◌then◌else◌, ◌>>=◌,
}

-- A pointer to a symbol: the constants `symbol_no`, `symbol_mod`, `symbol_yes`, or another.
pub data Symbol : Type 0 where
  symbol_no symbol_mod symbol_yes : Symbol
  named : ℕ → Symbol

unfoldable pub same_symbol : Symbol → Symbol → Bool
same_symbol symbol_no symbol_no = true
same_symbol symbol_mod symbol_mod = true
same_symbol symbol_yes symbol_yes = true
same_symbol (named a) (named b) = a == b
same_symbol _ _ = false

-- E_EQUAL, E_UNEQUAL, E_LTH, E_LEQ, E_GTH, E_GEQ
pub data Relation : Type 0 where
  e_equal e_unequal e_lth e_leq e_gth e_geq : Relation

-- `struct expr`
pub data Expr : Type 0 where
  e_symbol : Symbol → Expr
  e_compare : Relation → Symbol → Symbol → Expr
  e_not : Expr → Expr
  e_and e_or : Expr → Expr → Expr

-- `tristate`: no is 0, mod is 1, yes is 2. EXPR_OR, EXPR_AND and EXPR_NOT:
unfoldable pub expr_or : ℕ → ℕ → ℕ
expr_or a b = if ltb b a then a else b

unfoldable pub expr_and : ℕ → ℕ → ℕ
expr_and a b = if ltb a b then a else b

unfoldable pub expr_not : ℕ → ℕ
expr_not a = 2 - a

-- The sign of `res` in `expr_calc_value`.
pub data Order : Type 0 where
  below same above : Order

unfoldable pub relation_holds : Relation → Order → Bool
relation_holds e_equal same = true
relation_holds e_equal _ = false
relation_holds e_unequal same = false
relation_holds e_unequal _ = true
relation_holds e_lth below = true
relation_holds e_lth _ = false
relation_holds e_leq above = false
relation_holds e_leq _ = true
relation_holds e_gth above = true
relation_holds e_gth _ = false
relation_holds e_geq below = false
relation_holds e_geq _ = true

-- What has been computed of the symbols: `curr.tri`, and how the values of two of them compare.
pub record Values : Type 0 where
  pub tri : Symbol → ℕ
  pub order : Symbol → Symbol → Order

unfoldable pub calc_value : Values → Expr → ℕ
unfolding relation_holds expr_or expr_and expr_not
calc_value v (e_symbol s) = v.tri s
calc_value v (e_and l r) = expr_and (calc_value v l) (calc_value v r)
calc_value v (e_or l r) = expr_or (calc_value v l) (calc_value v r)
calc_value v (e_not e) = expr_not (calc_value v e)
calc_value v (e_compare rel a b) = if relation_holds rel (v.order a b) then 2 else 0

-- An empty dependency is `yes`.
unfoldable pub expr_calc_value : Values → Option Expr → ℕ
expr_calc_value v none = 2
expr_calc_value v (some e) = calc_value v e

-- The node is E_SYMBOL with this symbol.
unfoldable pub is_symbol : Symbol → Expr → Bool
is_symbol s (e_symbol t) = same_symbol t s
is_symbol s (e_compare _ _ _) = false
is_symbol s (e_not _) = false
is_symbol s (e_and _ _) = false
is_symbol s (e_or _ _) = false

-- The two cases of `expr_eliminate_yn`, with the operands already treated.
unfoldable pub simplify_and : Expr → Expr → Expr
simplify_and l r =
    if is_symbol symbol_no l
    then e_symbol symbol_no
    else if is_symbol symbol_yes l
    then r
    else if is_symbol symbol_no r
    then e_symbol symbol_no
    else if is_symbol symbol_yes r
    then l
    else e_and l r

unfoldable pub simplify_or : Expr → Expr → Expr
simplify_or l r =
    if is_symbol symbol_no l
    then r
    else if is_symbol symbol_yes l
    then e_symbol symbol_yes
    else if is_symbol symbol_no r
    then l
    else if is_symbol symbol_yes r
    then e_symbol symbol_yes
    else e_or l r

unfoldable pub eliminate_yn : Expr → Expr
unfolding simplify_and simplify_or
eliminate_yn (e_and l r) = simplify_and (eliminate_yn l) (eliminate_yn r)
eliminate_yn (e_or l r) = simplify_or (eliminate_yn l) (eliminate_yn r)
eliminate_yn (e_not e) = e_not e
eliminate_yn (e_symbol s) = e_symbol s
eliminate_yn (e_compare rel a b) = e_compare rel a b

-- `expr_contains_symbol`
unfoldable pub contains_symbol : Symbol → Expr → Bool
contains_symbol s (e_and l r) = contains_symbol s l || contains_symbol s r
contains_symbol s (e_or l r) = contains_symbol s l || contains_symbol s r
contains_symbol s (e_symbol t) = same_symbol t s
contains_symbol s (e_compare _ a b) = same_symbol a s || same_symbol b s
contains_symbol s (e_not e) = contains_symbol s e

-- `expr_depends_symbol`
unfoldable pub depends_symbol : Symbol → Expr → Bool
depends_symbol s (e_and l r) = depends_symbol s l || depends_symbol s r
depends_symbol s (e_or l r) = false
depends_symbol s (e_symbol t) = same_symbol t s
depends_symbol s (e_compare e_equal a b) =
    same_symbol a s && (same_symbol b symbol_yes || same_symbol b symbol_mod)
depends_symbol s (e_compare e_unequal a b) = same_symbol a s && same_symbol b symbol_no
depends_symbol s (e_compare e_lth a b) = false
depends_symbol s (e_compare e_leq a b) = false
depends_symbol s (e_compare e_gth a b) = false
depends_symbol s (e_compare e_geq a b) = false
depends_symbol s (e_not e) = false
