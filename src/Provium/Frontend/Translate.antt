-- ===== src/Provium/Frontend/Translate.antt =====
-- provium/src/frontend.rs: `Compiler::hint`, `Compiler::expr` and `Compiler::stmts`.
use Prim.Native.String.{String}
use hubby.Prelude.{
  Bool, List, Option, [], and_then, count, false, if◌then◌else◌, is_some_and, leb, length,
  map_option, none, not, or_else, position, some, suc, true, ℕ, ◌&&◌, ◌+◌, ◌-◌, ◌^◌, ◌||◌, ◌∷◌,
}
use hubby.Provium.Frontend.Monad.{Translation, give, lift, refuse, reject, ◌>>=◌, ◌>>◌}
use hubby.Provium.Base.{Attempt, done, failed, or_fail}
use hubby.Provium.Ir.{
  Expr, Function, Op, Ty, binary_of, bits, boolean, boolean_of, comparison, eq, if_else, let_in,
  map_free, ne, shl, shr, ty_of, uint_of, variable,
}
use hubby.Provium.Syntax.{
  Attribute, BinOp, ItemFn, LitInt, Literal, Path_, RustExpr, and_op, assign_expr, binary_expr,
  bit_xor_assign, block_expr, bool_literal, call_expr, eq_op, ge_op, group_expr, gt_op, if_expr,
  int_literal, le_op, lit_expr, lt_op, method_expr, ne_op, or_op, other_expr, other_literal,
  paren_expr, path_expr, shl_op, shr_op, unary_expr,
}
use hubby.Provium.Frontend.{
  Env, find_entry, lookup, only_docs, operator, path_name, single, ty_eq, ty_from,
}

-- `BinOp::And` and `BinOp::Or`.
abbrev pub is_logical : BinOp → Bool
is_logical and_op = true
is_logical or_op = true
is_logical _ = false

abbrev pub is_or : BinOp → Bool
is_or or_op = true
is_or _ = false

abbrev pub is_test : BinOp → Bool
is_test eq_op = true
is_test ne_op = true
is_test lt_op = true
is_test le_op = true
is_test gt_op = true
is_test ge_op = true
is_test _ = false

abbrev pub is_shift : Op → Bool
is_shift shl = true
is_shift shr = true
is_shift _ = false

abbrev pub is_shift_op : BinOp → Bool
is_shift_op shl_op = true
is_shift_op shr_op = true
is_shift_op _ = false

abbrev pub is_xor_assign : BinOp → Bool
is_xor_assign bit_xor_assign = true
is_xor_assign _ = false

abbrev pub to_option : {A E : Type 0} → Attempt E A → Option A
to_option (failed e) = none
to_option (done a) = some a

-- `hint` on a literal.
abbrev pub literal_hint : Literal → Option Ty
literal_hint (bool_literal b) = some boolean
literal_hint (int_literal i) = and_then i.suffix (λ t. and_then t (λ u. to_option (ty_from u)))
literal_hint other_literal = none

-- `hint` on a binary expression, from the hints of its sides.
abbrev pub binary_hint : BinOp → Option Ty → Option Ty → Option Ty
binary_hint op left right =
    if is_test op || is_logical op
    then some boolean
    else if is_shift_op op
    then left
    else or_else left right

-- The declared result of a function.
abbrev pub result_hint : List (String × ItemFn) → Option String → Option Ty
result_hint functions name =
    and_then name
      (λ n. and_then (find_entry n functions) (λ f. and_then f.output (λ t. to_option (ty_from t))))

unfoldable pub hint : List (String × ItemFn) → Env → RustExpr → Option Ty
hint functions env (path_expr attrs path) =
    and_then (single path) (λ name. map_option (lookup env name) (λ p. p.1.ty))
hint functions env (lit_expr attrs l) = literal_hint l
hint functions env (paren_expr attrs e) = hint functions env e
hint functions env (group_expr attrs e) = hint functions env e
hint functions env (method_expr attrs receiver method turbofish args) = hint functions env receiver
hint functions env (call_expr attrs func args) = result_hint functions (path_name func)
hint functions env (binary_expr attrs op l r) =
    binary_hint op (hint functions env l) (hint functions env r)
hint functions env (block_expr attrs label stmts) = none
hint functions env (unary_expr attrs is_not e) = none
hint functions env (if_expr attrs cond yes_ no_) = none
hint functions env (assign_expr attrs l r) = none
hint functions env other_expr = none

-- The check at the end of `expr`.
abbrev pub checked : Option Ty → Expr → Translation Expr
checked expected out = do
  refuse (is_some_and expected (λ t. not (ty_eq t (ty_of out)))) "type mismatch"
  give out

-- A translation that still lacks the expected type.
abbrev pub Pending : Type 0
Pending = Option Ty → Translation Expr

-- The arm for a variable.
unfoldable pub variable_arm : Env → List Attribute → Path_ → Translation Expr
variable_arm env attrs path = do
  lift (only_docs attrs)
  name ← lift (or_fail (single path) "qualified paths are unsupported")
  (index, binding) ← lift (or_fail (lookup env name) "unresolved value")
  give (variable binding.ty index)

-- The type of an integer literal.
abbrev pub suffix_type : LitInt → Option Ty → Attempt String Ty
suffix_type i expected = elim i.suffix [
  | none ↦ or_fail expected "integer type cannot be inferred"
  | some none ↦ failed "invalid integer suffix"
  | some (some t) ↦ ty_from t
]

unfoldable pub literal_arm : ℕ → Option Ty → Literal → Translation Expr
literal_arm w expected (bool_literal b) = give (boolean_of boolean b)
literal_arm w expected (int_literal i) = do
  t ← lift (suffix_type i expected)
  width ← lift (or_fail (bits t w) "integer literal in boolean context")
  value ← lift (or_fail i.base10 "literal exceeds supported unsigned range")
  refuse (leb (2 ^ width) value) "integer literal overflows its Rust type"
  give (uint_of t width value)
literal_arm w expected other_literal = reject "unsupported literal"

-- The arm for `&&` and `||`.
unfoldable pub logical_arm : BinOp → Pending → Pending → Translation Expr
logical_arm op left right = do
  x ← left (some boolean)
  y ← right (some boolean)
  give (
      if is_or op
      then if_else boolean x (boolean_of boolean true) y
      else if_else boolean x y (boolean_of boolean false))

-- The right operand, for the type of the left one.
unfoldable pub right_operand : Op → Pending → Option Ty → Ty → Translation Expr
right_operand op right right_hint t =
    if is_shift op
    then (do
      count ← right (or_else right_hint (some t))
      refuse (not (ty_eq (ty_of count) t)) "only same-type shifts are supported"
      give count)
    else right (some t)

-- The type expected of the left operand.
abbrev pub left_expected : Op → Option Ty → Option Ty → Option Ty → Option Ty
left_expected op left_hint right_hint expected =
    if is_shift op
    then or_else left_hint expected
    else or_else (or_else left_hint right_hint) (if comparison op then none else expected)

-- Operators that Booleans have too.
abbrev pub for_booleans : Op → Bool
for_booleans eq = true
for_booleans ne = true
for_booleans _ = false

-- The arm for the other operators.
unfoldable pub operator_arm :
    Op → Pending → Pending → Option Ty → Option Ty → Option Ty → Translation Expr
unfolding right_operand
operator_arm op left right left_hint right_hint expected = do
  x ← left (left_expected op left_hint right_hint expected)
  y ← right_operand op right right_hint (ty_of x)
  refuse (ty_eq (ty_of x) boolean && not (for_booleans op)) "operator requires unsigned operands"
  give (binary_of (if comparison op then boolean else ty_of x) op x y)

unfoldable pub binary_arm :
    BinOp → Pending → Pending → Option Ty → Option Ty → Option Ty → Translation Expr
unfolding logical_arm operator_arm
binary_arm op left right left_hint right_hint expected =
    if is_logical op then logical_arm op left right else (do
      o ← lift (or_fail (operator op) "unsupported binary operator")
      operator_arm o left right left_hint right_hint expected)

-- The arm for a method call, on its receiver and its only argument.
unfoldable pub method_arm : Op → Pending → Pending → Option Ty → Translation Expr
method_arm op receiver argument expected = do
  x ← receiver expected
  refuse (ty_eq (ty_of x) boolean) "unsigned intrinsic on bool"
  y ← argument (some (ty_of x))
  give (binary_of (ty_of x) op x y)

-- The arguments of a call, bound from the last to the first around a body. The first of these
-- arguments stands under `position` bindings.
unfoldable pub bind_arguments : Ty → ℕ → List Expr → Expr → Expr
bind_arguments result position [] body = body
bind_arguments result position (x ∷ xs) body =
    let_in result (map_free x 0 (λ v. v + position)) (bind_arguments result (suc position) xs body)

-- The body of a function, in place of a call of it.
unfoldable pub inline : Function → List Expr → Expr
unfolding bind_arguments
inline f args = bind_arguments f.result 0 args (map_free f.body 0 (λ i. length args - 1 - i))
