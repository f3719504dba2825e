-- ===== src/Provium/Frontend/Walk.antt =====
-- provium/src/frontend.rs: the recursion of `Compiler::expr` and `Compiler::stmts` over a syntax tree.
use Prim.Native.String.{String}
use hubby.Prelude.{
  Bool, List, [], false, if◌then◌else◌, is_some, is_some_and, length, none, not, or_else, some, suc,
  true, ℕ, ◌==◌, ◌||◌, ◌∷◌,
}
use hubby.Provium.Frontend.Monad.{Translation, give, lift, refuse, reject, ◌>>=◌, ◌>>◌}
use hubby.Provium.Base.{Attempt, done, failed, or_fail, same_text}
use hubby.Provium.Ir.{
  Expr, Function, Op, Parameter, Ty, assert_that, boolean, if_else, let_in, negate, ty_of,
}
use hubby.Provium.Syntax.{
  Else, Exprs, Init, ItemFn, Parsed, Path_, RustExpr, Stmt, Stmts, another, assign_expr,
  binary_expr, bit_xor_op, block_expr, call_expr, else_branch, end_of_block, expr_stmt, group_expr,
  if_expr, init, lit_expr, local_stmt, macro_stmt, method_expr, no_else, no_init, no_more,
  other_expr, other_stmt, paren_expr, parsed, path_expr, then_stmt, unary_expr, unparsed,
}
use hubby.Provium.Frontend.{
  Env, intrinsic, left_attributes, lookup, only_docs, path_name, pattern_of, single, target,
}
use hubby.Provium.Frontend.Translate.{
  Pending, binary_arm, checked, hint, inline, is_xor_assign, literal_arm, method_arm, variable_arm,
}

-- What a compilation has fixed: the functions of the file, the width of `usize`, and how a call of a
-- function is compiled.
pub record Setting : Type 0 where
  pub functions : List (String × ItemFn)
  pub usize_bits : ℕ
  pub callee : String → Translation Function

-- The conditions on a method call before its parts are translated.
abbrev pub one_argument : Exprs → Bool
one_argument no_more = false
one_argument (another e no_more) = true
one_argument (another e (another d es)) = false

abbrev pub method_op : String → Bool → Exprs → Attempt String Op
method_op method turbofish args =
    if not (one_argument args) || turbofish
    then failed "only supported unsigned intrinsic methods with one argument are allowed"
    else or_fail (intrinsic method) "unsupported method: no opaque call assumptions are generated"

-- The name that is called.
abbrev pub callee_name : Env → RustExpr → Attempt String String
callee_name env func = elim (path_name func) [
  | none ↦ failed "only direct calls to source-local functions are supported"
  | some name ↦
      if is_some (lookup env name)
      then failed "function name is shadowed by a local binding"
      else elim (left_attributes func) [ failed e ↦ failed e | done _ ↦ done name ]
]

abbrev pub count_args : Exprs → ℕ
count_args no_more = 0
count_args (another e es) = suc (count_args es)

abbrev pub is_end : Stmts → Bool
is_end end_of_block = true
is_end (then_stmt s rest) = false

-- The assertion macro.
abbrev pub is_assert : Path_ → Bool
is_assert path = is_some_and (single path) (same_text "assert")

unfoldable mutual
  pub expr : Setting → RustExpr → Env → Pending
  expr s (path_expr attrs path) env expected = variable_arm env attrs path >>= checked expected
  expr s (lit_expr attrs l) env expected =
      (lift (only_docs attrs) >> literal_arm s.usize_bits expected l) >>= checked expected
  expr s (paren_expr attrs e) env expected =
      (lift (only_docs attrs) >> expr s e env expected) >>= checked expected
  expr s (group_expr attrs e) env expected =
      (lift (only_docs attrs) >> expr s e env expected) >>= checked expected
  expr s (block_expr attrs label body) env expected =
      (refuse label "unsupported Rust expression"
        >> (lift (only_docs attrs)
            >> (lift (or_fail expected "block requires a known result type") >>= λ t.
                stmts s body env t false)))
      >>= checked expected
  expr s (unary_expr attrs is_not e) env expected =
      (refuse (not is_not) "unsupported Rust expression"
        >> (lift (only_docs attrs)
            >> (expr s e env (some boolean) >>= λ x. give (negate boolean x))))
      >>= checked expected
  expr s (binary_expr attrs op l r) env expected =
      (lift (only_docs attrs)
        >> binary_arm op (expr s l env) (expr s r env) (hint s.functions env l)
            (hint s.functions env r) expected)
      >>= checked expected
  expr s (if_expr attrs cond then_branch else_part) env expected =
      (lift (only_docs attrs)
        >> (expr s cond env (some boolean) >>= λ c.
            lift (or_fail expected "if expression needs an explicit result type") >>= λ t.
            stmts s then_branch env t false >>= λ y.
            otherwise s else_part env t >>= λ n. give (if_else t c y n)))
      >>= checked expected
  expr s (method_expr attrs receiver method turbofish args) env expected =
      (lift (only_docs attrs)
        >> (lift (method_op method turbofish args) >>= λ op.
            method_arm op (expr s receiver env) (only_argument s args env)
              (or_else (hint s.functions env receiver) expected)))
      >>= checked expected
  expr s (call_expr attrs func args) env expected =
      (lift (only_docs attrs)
        >> (lift (callee_name env func) >>= λ name. s.callee name >>= λ f.
            refuse (not (count_args args == length f.parameters)) "argument count mismatch"
            >> (arguments s args env f.parameters >>= λ xs. give (inline f xs))))
      >>= checked expected
  expr s (assign_expr attrs l r) env expected = reject "unsupported Rust expression"
  expr s other_expr env expected = reject "unsupported Rust expression"

  -- The branch after `else`.
  pub otherwise : Setting → Else → Env → Ty → Translation Expr
  otherwise s no_else env t = reject "if expression requires else"
  otherwise s (else_branch e) env t = expr s e env (some t)

  -- `m.args[0]`.
  pub only_argument : Setting → Exprs → Env → Pending
  only_argument s no_more env expected = reject "only supported unsigned intrinsic methods"
  only_argument s (another e es) env expected = expr s e env expected

  -- The loop over the arguments and the parameters of a call, which stops at the shorter list.
  pub arguments : Setting → Exprs → Env → List Parameter → Translation (List Expr)
  arguments s no_more env ps = give []
  arguments s (another e es) env [] = give []
  arguments s (another e es) env (p ∷ ps) =
      expr s e env (some p.ty) >>= λ x. arguments s es env ps >>= λ xs. give (x ∷ xs)

  pub stmts : Setting → Stmts → Env → Ty → Bool → Translation Expr
  stmts s end_of_block env result assignments = reject "scalar block must return an expression"
  stmts s (then_stmt first rest) env result assignments =
      stmt s first (is_end rest) (λ inner. stmts s rest inner result assignments) env result
        assignments

  -- The first statement of a block; `rest` translates the others under more bindings.
  pub stmt :
      Setting
      → Stmt
      → (last : Bool) → (rest : Env → Translation Expr) → Env
      → Ty
      → Bool
      → Translation Expr
  stmt s (local_stmt attrs pat first) last rest env result assignments =
      lift (only_docs attrs)
      >> (lift (pattern_of pat) >>= λ p. initial s first env p.2 >>= λ value.
          rest (record { name = p.0; ty = ty_of value; mutable = p.1 } ∷ env) >>= λ body.
          give (let_in result value body))
  stmt s (expr_stmt e semicolon) last rest env result assignments =
      expression s e (expr s e env) semicolon last rest env result assignments
  stmt s (macro_stmt attrs path condition) last rest env result assignments =
      lift (only_docs attrs)
      >> (refuse (not (is_assert path)) "only the builtin assert! macro is supported"
          >> (asserted s condition env >>= λ c.
              rest env >>= λ body. give (assert_that result c body)))
  stmt s other_stmt last rest env result assignments = reject "unsupported statement"

  -- An expression statement, with its translation as a value: an assignment, a compound assignment, or
  -- the value of the block.
  pub expression :
      Setting
      → RustExpr
      → Pending
      → (semicolon last : Bool) → (rest : Env → Translation Expr) → Env
      → Ty
      → Bool
      → Translation Expr
  expression s (assign_expr attrs l r) value_of true last rest env result assignments =
      lift (target assignments attrs l env) >>= λ b. expr s r env (some b.ty) >>= λ value.
      rest (b ∷ env) >>= λ body. give (let_in result value body)
  expression s (binary_expr attrs op l r) value_of true last rest env result assignments =
      refuse (not (is_xor_assign op)) "unsupported statement"
      >> (lift (only_docs attrs)
          >> (refuse (not (is_some (path_name l))) "compound assignment requires a local variable"
              >> (lift (target assignments [] l env) >>= λ b.
                  (binary_arm bit_xor_op (expr s l env) (λ t. expr s r env t >>= checked t)
                      (hint s.functions env l) (hint s.functions env r) (some b.ty)
                    >>= checked (some b.ty))
                  >>= λ value. rest (b ∷ env) >>= λ body. give (let_in result value body))))
  expression s e value_of false true rest env result assignments = value_of (some result)
  expression s e value_of semicolon last rest env result assignments =
      reject "unsupported statement"

  -- The initial value of a local variable.
  pub initial : Setting → Init → Env → Pending
  initial s no_init env annotation = reject "uninitialized locals are unsupported"
  initial s (init diverge e) env annotation =
      refuse diverge "let-else is unsupported" >> expr s e env annotation

  -- The condition of an assertion.
  pub asserted : Setting → Parsed → Env → Translation Expr
  asserted s unparsed env = reject "assert! requires one condition without formatting arguments"
  asserted s (parsed e) env = expr s e env (some boolean)
