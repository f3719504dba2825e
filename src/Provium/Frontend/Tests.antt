-- ===== src/Provium/Frontend/Tests.antt =====
-- Small Rust functions, compiled and run.
use Prim.Native.String.{String}
use hubby.Prelude.{
  List, Option, [], arith, false, get_elem?, inr, none, refl, some, true, ℕ, ◌+◌, ◌∷◌, ◌≡◌,
}
use hubby.Provium.Base.{done, failed, ◌>>=◌}
use hubby.Provium.Ir.{
  Expr, Function, Parameter, Ty, Value, add, assert_that, assertion, binary_of, boolean, evaluate,
  let_in, lt, map_free, overflow, run, size, sub, truth, u8, uint, uint_of, variable,
}
use hubby.Provium.Syntax.{
  File, FnArg, ItemFn, Path_, RustExpr, Stmts, add_op, another, assign_expr, binary_expr, call_expr,
  end_of_block, expr_stmt, fn_item, ident_pattern, init, int_literal, lit_expr, local_stmt, lt_op,
  macro_stmt, no_more, parsed, path_expr, path_type, sub_op, then_stmt, typed_arg,
}
use hubby.Provium.Frontend.{find_entry, lookup, parse, target}
use hubby.Provium.Frontend.Compile.{compile}
use hubby.Provium.Frontend.Translate.{binary_arm, hint, inline, literal_arm, variable_arm}
use hubby.Provium.Ir.Typing.{Runs, Typed, evaluate-Runs}
use hubby.Provium.Ir.Renaming.{evaluate-map_free}
use hubby.Provium.Frontend.Sound.{IsSound}
use hubby.Provium.Frontend.Sound.Caches.{Declared}
use hubby.Provium.Frontend.Compiled.{compile-IsSound, run-compile}
use hubby.Provium.Frontend.Covered.{compile-Declared}
use hubby.Provium.Frontend.Calls.{evaluate-inline, evaluate_all, size-inline, size_all}
use hubby.Provium.Frontend.Sound.Inlining.{AllTyped, Renames-none, Renames-shift}

abbrev path_of : String → Path_
path_of name = record {
  qself = false;
  leading_colon = false;
  segments = record { ident = name; arguments = false } ∷ [];
}

abbrev named : String → RustExpr
named name = path_expr [] (path_of name)

abbrev arg_of : String → String → FnArg
arg_of name t = typed_arg [] (ident_pattern [] false false name false) (path_type (path_of t))

abbrev item_of : String → List FnArg → Stmts → ItemFn
item_of name inputs body = record {
  attrs = [];
  asyncness = false;
  unsafety = false;
  abi = false;
  variadic = false;
  generics = false;
  where_clause = false;
  ident = name;
  inputs = inputs;
  output = some (path_type (path_of "u8"));
  block = body;
}

abbrev seven : RustExpr
seven = lit_expr [] (int_literal (record { suffix = none; base10 = some 7 }))

-- `fn half(a: u8, b: u8) -> u8 { a - b }`.
abbrev half : ItemFn
half =
    item_of "half" (arg_of "a" "u8" ∷ arg_of "b" "u8" ∷ [])
      (then_stmt (expr_stmt (binary_expr [] sub_op (named "a") (named "b")) false) end_of_block)

-- `fn whole(a: u8, b: u8) -> u8 { let mut c = half(b, a); assert!(c < a); c = c + 7; half(c, b) }`.
abbrev whole : ItemFn
whole = item_of "whole" (arg_of "a" "u8" ∷ arg_of "b" "u8" ∷ []) (
    then_stmt
      (local_stmt [] (ident_pattern [] false true "c" false) (
        init false
          (call_expr [] (named "half") (another (named "b") (another (named "a") no_more)))))
      (then_stmt
        (macro_stmt [] (path_of "assert") (parsed (binary_expr [] lt_op (named "c") (named "a"))))
        (then_stmt
          (expr_stmt (assign_expr [] (named "c") (binary_expr [] add_op (named "c") seven)) true)
          (then_stmt
            (expr_stmt
              (call_expr [] (named "half") (another (named "c") (another (named "b") no_more)))
              false)
            end_of_block))))

abbrev source : Option File
source = some (record { attrs = []; items = fn_item whole ∷ fn_item half ∷ [] })

abbrev functions : List (String × ItemFn)
functions = ("half", half) ∷ ("whole", whole) ∷ []

parse_test : parse source 64 ≡ done functions
unfolding parse
parse_test = refl

abbrev two : List Parameter
two = record { name = "a"; ty = u8 } ∷ record { name = "b"; ty = u8 } ∷ []

abbrev half_ir : Function
half_ir = record {
  name = "half";
  parameters = two;
  result = u8;
  body = binary_of u8 sub (variable u8 0) (variable u8 1);
}

abbrev whole_ir : Function
whole_ir = record {
  name = "whole";
  parameters = two;
  result = u8;
  body =
      let_in u8
        (let_in u8 (variable u8 1)
          (let_in u8 (variable u8 1) (binary_of u8 sub (variable u8 1) (variable u8 0))))
        (assert_that u8 (binary_of boolean lt (variable u8 0) (variable u8 1)) (
          let_in u8 (binary_of u8 add (variable u8 0) (uint_of u8 8 7)) (
            let_in u8 (variable u8 0)
              (let_in u8 (variable u8 4) (binary_of u8 sub (variable u8 1) (variable u8 0))))));
}

abbrev compiled : List Function
compiled = half_ir ∷ whole_ir ∷ []

compile_test : compile functions 64 ≡ done compiled
unfolding compile binary_arm variable_arm lookup hint inline target literal_arm map_free
compile_test = refl

abbrev inputs_of : ℕ → ℕ → List Value
inputs_of a b = uint 8 a ∷ uint 8 b ∷ []

-- `half(8, 5)` is 3, `c` becomes 10, and `half(10, 8)` is 2.
run_test : run whole_ir (inputs_of 5 8) 64 ≡ done (uint 8 2)
unfolding run
run_test = refl

-- `half(9, 5)` is 4, but `half(3, 5)` overflows, and `half(7, 2)` is not below 2.
overflow_test : run whole_ir (inputs_of 5 3) 64 ≡ failed overflow
unfolding run
overflow_test = refl

assertion_test : run whole_ir (inputs_of 2 7) 64 ≡ failed assertion
unfolding run
assertion_test = refl

run-compile_example : Runs 64 u8 (run whole_ir (inputs_of 5 8) 64)
run-compile_example =
    run-compile source 64 functions compiled 1 whole_ir (inputs_of 5 8) parse_test compile_test refl
      refl refl

compile-IsSound_example : IsSound 64 whole_ir
compile-IsSound_example = compile-IsSound functions 64 compiled 1 whole_ir compile_test refl

whole_listed : find_entry "whole" functions ≡ some whole
unfolding find_entry
whole_listed = refl

compile-Declared_example :
    (i : ℕ) × (f : Function) × (get_elem? compiled i ≡ some f) × Declared functions "whole" f
compile-Declared_example =
    compile-Declared functions 64 compiled "whole" whole compile_test whole_listed

half-IsSound : IsSound 64 half_ir
half-IsSound = compile-IsSound functions 64 compiled 0 half_ir compile_test refl

abbrev call_args : List Expr
call_args = variable u8 1 ∷ uint_of u8 8 2 ∷ []

abbrev ctx_of_two : List Ty
ctx_of_two = u8 ∷ u8 ∷ []

call_args-AllTyped : AllTyped 64 ctx_of_two two call_args
call_args-AllTyped = (refl, refl, ((refl, omega arith), refl, tt))

evaluate-inline_example :
    evaluate (inline half_ir call_args) (inputs_of 4 9)
    ≡ (evaluate_all call_args (inputs_of 4 9) >>= evaluate half_ir.body)
evaluate-inline_example =
    evaluate-inline 64 ctx_of_two (inputs_of 4 9) half_ir call_args half-IsSound call_args-AllTyped
      refl

size-inline_example : size (inline half_ir call_args) ≡ size half_ir.body + size_all call_args + 2
size-inline_example = size-inline half_ir call_args

-- `let x = a; x + b` for the variables `a` and `b`.
abbrev sum : Expr
sum = let_in u8 (variable u8 0) (binary_of u8 add (variable u8 0) (variable u8 2))

sum-Typed : Typed 64 ctx_of_two sum
sum-Typed = (refl, refl, (refl, inr (λ same. ground (arith, same)), refl, refl, refl))

evaluate-Runs_example : Runs 64 u8 (evaluate sum (inputs_of 4 9))
evaluate-Runs_example =
    evaluate-Runs 64 sum ctx_of_two (inputs_of 4 9) (inr refl) sum-Typed
      ((refl, omega arith), ((refl, omega arith), tt))

evaluate-map_free_example :
    evaluate (map_free sum 0 (λ v. v + 1)) (truth true ∷ inputs_of 4 9)
    ≡ evaluate sum (inputs_of 4 9)
evaluate-map_free_example =
    evaluate-map_free 64 sum ctx_of_two (inputs_of 4 9) (truth true ∷ inputs_of 4 9) 0 (λ v. v + 1)
      sum-Typed refl
      (Renames-shift (inputs_of 4 9) (inputs_of 4 9) 0 (truth true) (Renames-none (inputs_of 4 9)))
