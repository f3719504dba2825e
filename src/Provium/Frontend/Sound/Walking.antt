-- ===== src/Provium/Frontend/Sound/Walking.antt =====
-- `Compiler::expr` and `Compiler::stmts` of provium/src/frontend.rs build well-typed expressions.
use Prim.Native.String.{String}
use hubby.Prelude.{
  Bool, Bool-cases, List, Option, [], arith, false, inl, inr, is_some, length, not, refl, some,
  some_injective, true, ℕ, ◌==◌, ◌||◌, ◌∙◌, ◌∷◌, ◌≡◌,
}
use hubby.Provium.Frontend.Monad.{Cache, Translation, ◌>>=◌}
use hubby.Provium.Base.{Ensures-weaken, done, or_fail, or_fail-eq-done}
use hubby.Provium.Ir.{Expr, Op, Parameter, Ty, boolean, comparison, let_in, ty_of}
use hubby.Provium.Syntax.{
  Else, Exprs, Init, Parsed, RustExpr, Stmt, Stmts, another, assign_expr, binary_expr, bit_xor_op,
  block_expr, call_expr, else_branch, end_of_block, expr_stmt, group_expr, if_expr, init, lit_expr,
  local_stmt, macro_stmt, method_expr, no_else, no_init, no_more, other_expr, other_stmt,
  paren_expr, parsed, path_expr, then_stmt, unary_expr, unparsed,
}
use hubby.Provium.Frontend.{Binding, Env, intrinsic, only_docs, path_name, pattern_of, target}
use hubby.Provium.Frontend.Translate.{Pending, checked, is_xor_assign}
use hubby.Provium.Frontend.Walk.{
  Setting, arguments, asserted, callee_name, count_args, expr, expression, initial, is_assert,
  is_end, method_op, one_argument, only_argument, otherwise, stmt, stmts,
}
use hubby.Provium.Frontend.Sound.{
  IsPending, IsSound, Meets, Meets-check, Meets-give, Meets-refuse, Meets-reject, Meets-run,
  Meets-then, Out, Within, meets, then-checked, types,
}
use hubby.Provium.Frontend.Sound.Arms.{
  binary_arm-Within, intrinsic-comparison, literal_arm-Within, method_arm-Within,
  variable_arm-Within,
}
use hubby.Provium.Frontend.Sound.Inlining.{AllTyped, inline-Typed}

Meets-weaken :
    {I : Cache → Type 0} {A : Type 0} {P R : A → Type 0} {m : Translation A}
    → ((a : A) → P a → R a)
    → Meets I P m
    → Meets I R m
Meets-weaken g p = meets (λ cache c. Ensures-weaken (λ q h. (g q.0 h.0, h.1)) (Meets-run p cache c))

Out-Within :
    {I : Cache → Type 0} (w : ℕ) (env : Env) (expected : Option Ty) {m : Translation Expr}
    → Meets I (Out w env expected) m
    → Meets I (Within w env) m
Out-Within w env expected p = Meets-weaken (λ e o. o.typed) p

-- An expression with a known type, where that type is expected.
Out-known :
    (w : ℕ) (env : Env) (t : Ty) (e : Expr) → Within w env e → ty_of e ≡ t → Out w env (some t) e
Out-known w env t e d h = record { typed = d; as_expected = λ v q. h ∙ some_injective q }

-- No method of the language is a comparison.
method_op-comparison :
    (method : String) (turbofish : Bool) (args : Exprs) {op : Op}
    → method_op method turbofish args ≡ done op
    → comparison op ≡ false
method_op-comparison method turbofish args {op = op} h =
    elim (Bool-cases (not (one_argument args) || turbofish)) [
      | inl bad ↦ let h' = rw bad at h in cc (h')
      | inr fine ↦
          intrinsic-comparison method op (or_fail-eq-done (intrinsic method) _ (rw fine at h))
    ]

-- A new binding of a local variable.
rebound :
    (w : ℕ) (env : Env) (b : Binding) (value body : Expr) (result : Ty)
    → Out w env (some b.ty) value
    → Out w (b ∷ env) (some result) body
    → Out w env (some result) (let_in result value body)
rebound w env b value body result o q =
    Out-known w env result _
      (q.as_expected result refl, o.typed, rw (o.as_expected b.ty refl) q.typed) refl

module _ {I : Cache → Type 0} (s : Setting)
    (callee_ok : (name : String) → Meets I (IsSound s.usize_bits) (s.callee name)) where
  mutual
    unfolding expr

    pub expr-IsPending : (e : RustExpr) (env : Env) → IsPending I s.usize_bits env (expr s e env)
    expr-IsPending (path_expr attrs path) env expected =
        then-checked s.usize_bits env expected (variable_arm-Within s.usize_bits env attrs path)
    expr-IsPending (lit_expr attrs l) env expected = then-checked s.usize_bits env expected (
        Meets-then (Meets-check (only_docs attrs))
          (λ u _. literal_arm-Within s.usize_bits env expected l))
    expr-IsPending (paren_expr attrs e) env expected = then-checked s.usize_bits env expected (
        Meets-then (Meets-check (only_docs attrs))
          (λ u _. Out-Within s.usize_bits env expected (expr-IsPending e env expected)))
    expr-IsPending (group_expr attrs e) env expected = then-checked s.usize_bits env expected (
        Meets-then (Meets-check (only_docs attrs))
          (λ u _. Out-Within s.usize_bits env expected (expr-IsPending e env expected)))
    expr-IsPending (block_expr attrs label body) env expected =
        then-checked s.usize_bits env expected (
          Meets-then (Meets-refuse label _) (λ v _.
            Meets-then (Meets-check (only_docs attrs)) (λ u _.
              Meets-then (Meets-check (or_fail expected _))
                (λ t _. Out-Within s.usize_bits env (some t) (stmts-Out body env t false)))))
    expr-IsPending (unary_expr attrs is_not e) env expected =
        then-checked s.usize_bits env expected (
          Meets-then (Meets-refuse (not is_not) _) (λ v _.
            Meets-then (Meets-check (only_docs attrs)) (λ u _.
              Meets-then (expr-IsPending e env (some boolean))
                (λ x o. Meets-give _ (refl, o.as_expected boolean refl, o.typed)))))
    expr-IsPending (binary_expr attrs op l r) env expected =
        then-checked s.usize_bits env expected (
          Meets-then (Meets-check (only_docs attrs)) (λ u _.
            binary_arm-Within s.usize_bits env op (expr s l env) (expr s r env) _ _ expected
              (expr-IsPending l env) (expr-IsPending r env)))
    expr-IsPending (if_expr attrs cond then_branch else_part) env expected =
        then-checked s.usize_bits env expected (
          Meets-then (Meets-check (only_docs attrs)) (λ u _.
            Meets-then (expr-IsPending cond env (some boolean)) (λ c oc.
              Meets-then (Meets-check (or_fail expected _)) (λ t _.
                Meets-then (stmts-Out then_branch env t false) (λ y oy.
                  Meets-then (otherwise-Out else_part env t) (λ n on. Meets-give _ (
                    oc.as_expected boolean refl,
                    oy.as_expected t refl,
                    on.as_expected t refl,
                    oc.typed,
                    oy.typed,
                    on.typed,
                  )))))))
    expr-IsPending (method_expr attrs receiver method turbofish args) env expected =
        then-checked s.usize_bits env expected (
          Meets-then (Meets-check (only_docs attrs)) (λ u _.
            Meets-then (Meets-check (method_op method turbofish args)) (λ op h.
              method_arm-Within s.usize_bits env op (expr s receiver env) (only_argument s args env)
                _ (method_op-comparison method turbofish args h) (expr-IsPending receiver env)
                (only_argument-IsPending args env))))
    expr-IsPending (call_expr attrs func args) env expected =
        then-checked s.usize_bits env expected (
          Meets-then (Meets-check (only_docs attrs)) (λ u _.
            Meets-then (Meets-check (callee_name env func)) (λ name _.
              Meets-then (callee_ok name) (λ f sound.
                Meets-then (Meets-refuse (not (count_args args == length f.parameters)) _) (λ v n.
                  Meets-then (arguments-AllTyped args env f.parameters (ground (arith, n))) (λ xs d.
                    Meets-give _ (inline-Typed s.usize_bits (types env) f xs sound d).0))))))
    expr-IsPending (assign_expr attrs l r) env expected =
        then-checked s.usize_bits env expected (Meets-reject _)
    expr-IsPending other_expr env expected = then-checked s.usize_bits env expected (Meets-reject _)

    otherwise-Out :
        (part : Else) (env : Env) (t : Ty)
        → Meets I (Out s.usize_bits env (some t)) (otherwise s part env t)
    otherwise-Out no_else env t = Meets-reject _
    otherwise-Out (else_branch e) env t = expr-IsPending e env (some t)

    only_argument-IsPending :
        (args : Exprs) (env : Env) → IsPending I s.usize_bits env (only_argument s args env)
    only_argument-IsPending no_more env expected = Meets-reject _
    only_argument-IsPending (another e es) env expected = expr-IsPending e env expected

    arguments-AllTyped :
        (args : Exprs) (env : Env) (ps : List Parameter)
        → count_args args ≡ length ps
        → Meets I (AllTyped s.usize_bits (types env) ps) (arguments s args env ps)
    arguments-AllTyped no_more env [] h = Meets-give [] tt
    arguments-AllTyped no_more env (p ∷ ps) h = absurd (omega (arith, h))
    arguments-AllTyped (another e es) env [] h = absurd (omega (arith, h))
    arguments-AllTyped (another e es) env (p ∷ ps) h =
        Meets-then (expr-IsPending e env (some p.ty)) (λ x o.
          Meets-then (arguments-AllTyped es env ps (omega (arith, h)))
            (λ xs d. Meets-give (x ∷ xs) (o.typed, o.as_expected p.ty refl, d)))

    pub stmts-Out :
        (body : Stmts) (env : Env) (result : Ty) (assignments : Bool)
        → Meets I (Out s.usize_bits env (some result)) (stmts s body env result assignments)
    stmts-Out end_of_block env result assignments = Meets-reject _
    stmts-Out (then_stmt first rest) env result assignments =
        stmt-Out first (is_end rest) (λ inner. stmts s rest inner result assignments) env result
          assignments (λ inner. stmts-Out rest inner result assignments)

    stmt-Out :
        (first : Stmt) (last : Bool) (rest : Env → Translation Expr) (env : Env) (result : Ty)
        (assignments : Bool)
        → ((inner : Env) → Meets I (Out s.usize_bits inner (some result)) (rest inner))
        → Meets I
            (Out s.usize_bits env (some result))
            (stmt s first last rest env result assignments)
    stmt-Out (local_stmt attrs pat first) last rest env result assignments k =
        Meets-then (Meets-check (only_docs attrs)) (λ u _.
          Meets-then (Meets-check (pattern_of pat)) (λ p _.
            Meets-then (initial-IsPending first env p.2) (λ value o. Meets-then (k _) (λ body b.
              Meets-give _ (
                Out-known s.usize_bits env result _ (b.as_expected result refl, o.typed, b.typed)
                  refl)))))
    stmt-Out (expr_stmt e semicolon) last rest env result assignments k =
        expression-Out e (expr s e env) semicolon last rest env result assignments
          (expr-IsPending e env) k
    stmt-Out (macro_stmt attrs path condition) last rest env result assignments k =
        Meets-then (Meets-check (only_docs attrs)) (λ u _.
          Meets-then (Meets-refuse (not (is_assert path)) _) (λ v _.
            Meets-then (asserted-Out condition env) (λ c o. Meets-then (k env) (λ body b.
              Meets-give _ (
                Out-known s.usize_bits env result _
                  (o.as_expected boolean refl, b.as_expected result refl, o.typed, b.typed)
                  refl)))))
    stmt-Out other_stmt last rest env result assignments k = Meets-reject _

    expression-Out :
        (e : RustExpr) (value_of : Pending) (semicolon last : Bool) (rest : Env → Translation Expr)
        (env : Env) (result : Ty) (assignments : Bool)
        → IsPending I s.usize_bits env value_of
        → ((inner : Env) → Meets I (Out s.usize_bits inner (some result)) (rest inner))
        → Meets I
            (Out s.usize_bits env (some result))
            (expression s e value_of semicolon last rest env result assignments)
    expression-Out (assign_expr attrs l r) value_of true last rest env result assignments v k =
        Meets-then (Meets-check (target assignments attrs l env)) (λ b _.
          Meets-then (expr-IsPending r env (some b.ty)) (λ value o.
            Meets-then (k (b ∷ env))
              (λ body q. Meets-give _ (rebound s.usize_bits env b value body result o q))))
    expression-Out (binary_expr attrs op l r) value_of true last rest env result assignments v k =
        Meets-then (Meets-refuse (not (is_xor_assign op)) _) (λ x _.
          Meets-then (Meets-check (only_docs attrs)) (λ y _.
            Meets-then (Meets-refuse (not (is_some (path_name l))) _) (λ z _.
              Meets-then (Meets-check (target assignments [] l env)) (λ b _.
                Meets-then
                  (then-checked s.usize_bits env (some b.ty) (
                    binary_arm-Within s.usize_bits env bit_xor_op (expr s l env)
                      (λ t. expr s r env t >>= checked t) _ _ (some b.ty) (expr-IsPending l env)
                      (λ t.
                        then-checked s.usize_bits env t
                          (Out-Within s.usize_bits env t (expr-IsPending r env t)))))
                  (λ value o.
                    Meets-then (k (b ∷ env)) (λ body q.
                      Meets-give _ (rebound s.usize_bits env b value body result o q)))))))
    expression-Out _ value_of false true rest env result assignments v k = v (some result)
    expression-Out _ value_of semicolon last rest env result assignments v k = Meets-reject _

    initial-IsPending :
        (first : Init) (env : Env) → IsPending I s.usize_bits env (initial s first env)
    initial-IsPending no_init env annotation = Meets-reject _
    initial-IsPending (init diverge e) env annotation =
        Meets-then (Meets-refuse diverge _) (λ u _. expr-IsPending e env annotation)

    asserted-Out :
        (condition : Parsed) (env : Env)
        → Meets I (Out s.usize_bits env (some boolean)) (asserted s condition env)
    asserted-Out unparsed env = Meets-reject _
    asserted-Out (parsed e) env = expr-IsPending e env (some boolean)
