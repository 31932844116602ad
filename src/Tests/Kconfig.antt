-- ===== src/Tests/Kconfig.antt =====
-- Dependency expressions at concrete inputs.
use Prim.Native.Nat.{min}
use open_gpu.Prelude.{ltb, if◌then◌else◌, ℕ, ◌≤◌, ◌≡◌, refl, true, arith}
use open_gpu.Kconfig.Expr.{
  Symbol, symbol_no, symbol_mod, symbol_yes, named, same_symbol, e_unequal, Expr, e_symbol,
  e_compare, e_not, e_and, e_or, Order, below, same, above, Values, calc_value, depends_symbol,
  simplify_and, simplify_or, eliminate_yn, is_symbol,
}
use open_gpu.Kconfig.Expr.Yn.{IsTristate, eliminate_yn-value}
use open_gpu.Kconfig.Expr.Symbols.{ComparesAsNo, calc_value-depends_symbol}

-- The symbol 0 is off, 1 is built as a module, every other one is on.
abbrev level : Symbol → ℕ
level symbol_no = 0
level symbol_mod = 1
level symbol_yes = 2
level (named n) = min n 2

abbrev ordered : ℕ → ℕ → Order
ordered a b = if ltb a b then below else if ltb b a then above else same

abbrev values : Values
values = record { tri = level; order = λ a b. ordered (level a) (level b) }

level_bound : (s : Symbol) → level s ≤ 2
level_bound symbol_no = omega arith
level_bound symbol_mod = omega arith
level_bound symbol_yes = omega arith
level_bound (named n) = omega arith

values-IsTristate : IsTristate values
values-IsTristate = record { no_value = refl; yes_value = refl; bound = level_bound }

-- y && (A1 || !n && A0 != n)
abbrev dependency : Expr
dependency = e_and (e_symbol symbol_yes) (
    e_or (e_symbol (named 1))
      (e_and (e_not (e_symbol symbol_no)) (e_compare e_unequal (named 0) symbol_no)))

-- The conjunction with `y` goes.
eliminated :
    eliminate_yn dependency
    ≡ e_or
        (e_symbol (named 1))
        (e_and (e_not (e_symbol symbol_no)) (e_compare e_unequal (named 0) symbol_no))
unfolding eliminate_yn simplify_and simplify_or same_symbol is_symbol
eliminated = refl

eliminate_yn-value_example :
    calc_value values (eliminate_yn dependency) ≡ calc_value values dependency
eliminate_yn-value_example = eliminate_yn-value values values-IsTristate dependency

-- A2 && A0 != n depends on A0.
abbrev guarded : Expr
guarded = e_and (e_symbol (named 2)) (e_compare e_unequal (named 0) symbol_no)

guarded-depends : depends_symbol (named 0) guarded ≡ true
unfolding depends_symbol same_symbol
guarded-depends = refl

off : ComparesAsNo values (named 0)
off = record { value = refl; to_no = refl; to_mod = λ e. cc; to_yes = λ e. cc }

calc_value-depends_symbol_example : calc_value values guarded ≡ 0
calc_value-depends_symbol_example =
    calc_value-depends_symbol values (named 0) guarded off guarded-depends
