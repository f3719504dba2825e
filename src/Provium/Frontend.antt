-- ===== src/Provium/Frontend.antt =====
-- provium/src/frontend.rs: types, patterns, names and signatures. An error is its message, without the
-- position in the source text.
pub mod Monad
pub mod Translate
pub mod Walk
pub mod Sound
pub mod Calls
pub mod Tests
pub mod Compile
pub mod Compiled
pub mod Covered
use Prim.Native.String.{String}
use hubby.Prelude.{
  Bool, List, Option, [], any, false, if◌then◌else◌, is_some, is_some_and, map_option, none, not,
  some, suc, true, ℕ, ◌++◌, ◌==◌, ◌||◌, ◌∷◌,
}
use hubby.Provium.Base.{
  Attempt, comes_before, done, failed, or_fail, same_text, stop_if, ◌>>=◌, ◌>>◌,
}
use hubby.Provium.Ir.{
  Op, Parameter, Ty, add, bit_and, bit_or, bit_xor, boolean, div, eq, ge, gt, le, lt, mul, ne,
  op_max, op_min, op_saturating_add, op_saturating_sub, op_wrapping_add, op_wrapping_mul,
  op_wrapping_sub, rem, shl, shr, sub, type, u16, u32, u64, u8, usize,
}
use hubby.Provium.Syntax.{
  Attribute, BinOp, File, FnArg, Item, ItemFn, Path_, Pattern, RustExpr, RustType, add_op,
  bit_and_op, bit_or_op, bit_xor_op, div_op, eq_op, fn_item, ge_op, gt_op, ident_pattern, le_op,
  lt_op, mul_op, ne_op, other_item, other_pattern, other_type, path_expr, path_type, receiver_arg,
  rem_op, shl_op, shr_op, sub_op, typed_arg, typed_pattern,
}

pub record Binding : Type 0 where
  pub name : String
  pub ty : Ty
  pub mutable : Bool

-- A stack of bindings, innermost first: the vector of the source, read from its end.
abbrev pub Env : Type 0
Env = List Binding

abbrev pub is_ident : String → Attribute → Bool
is_ident name a = is_some_and a.ident (same_text name)

-- `attributes`.
unfoldable pub only_docs : List Attribute → Attempt String (Unit {0})
only_docs [] = done tt
only_docs (a ∷ attrs) =
    let rest = only_docs attrs in
    if is_ident "doc" a
    then rest
    else failed "attributes other than doc comments are unsupported (including cfg)"

-- The single identifier of a path without qualification and arguments.
unfoldable pub single : Path_ → Option String
single path = if path.qself || path.leading_colon then none else elim path.segments [
  | [] ↦ none
  | s ∷ others ↦ elim others [ [] ↦ if s.arguments then none else some s.ident | _ ∷ _ ↦ none ]
]

-- The names of the scalar types.
unfoldable pub scalar : String → Option Ty
scalar name =
    if same_text name "bool"
    then some boolean
    else if same_text name "u8"
    then some u8
    else if same_text name "u16"
    then some u16
    else if same_text name "u32"
    then some u32
    else if same_text name "u64"
    then some u64
    else if same_text name "usize"
    then some usize
    else none

-- `ty`.
unfoldable pub ty_from : RustType → Attempt String Ty
unfolding single scalar
ty_from other_type = failed "unsupported type: references, generics, aliases, and aggregates"
ty_from (path_type path) = do
  name ← or_fail (single path) "unsupported type: references, generics, aliases, and aggregates"
  or_fail (scalar name) "unsupported type: expected bool, u8/u16/u32/u64, or usize"

-- `pattern`: the name, whether it is mutable, and the annotation.
unfoldable pub pattern_of : Pattern → Attempt String (String × Bool × Option Ty)
unfolding only_docs ty_from
pattern_of (ident_pattern attrs by_ref mutability ident subpat) =
    stop_if (by_ref || subpat) "only identifier bindings are supported"
    >> (only_docs attrs >> done (ident, mutability, none))
pattern_of (typed_pattern attrs p t) = do
  only_docs attrs
  (name, mutable, _) ← pattern_of p
  annotation ← ty_from t
  done (name, mutable, some annotation)
pattern_of other_pattern = failed "only identifier bindings are supported"

-- `path_name`.
abbrev pub path_name : RustExpr → Option String
path_name (path_expr attrs path) = single path
path_name _ = none

-- `lookup`: the innermost binding of a name, with its distance.
unfoldable pub lookup : Env → String → Option (ℕ × Binding)
lookup [] name = none
lookup (b ∷ env) name =
    let rest = lookup env name in
    if same_text b.name name then some (0, b) else map_option rest (λ (i, c). (suc i, c))

-- The loop of `signature` over the inputs, with the parameters so far, the latest first.
unfoldable pub parameters_of :
    List Parameter → Env → List FnArg → Attempt String (List Parameter × Env)
unfolding only_docs pattern_of ty_from
parameters_of parameters env [] = done (parameters, env)
parameters_of parameters env (receiver_arg ∷ inputs) = failed "method receivers are unsupported"
parameters_of parameters env (typed_arg attrs pat t ∷ inputs) = do
  only_docs attrs
  (name, mutable, _) ← pattern_of pat
  stop_if (any (λ p. same_text p.name name) parameters) "duplicate parameter"
  declared ← ty_from t
  parameters_of (parameters ++ record { name = name; ty = declared } ∷ [])
      (env ++ record { name = name; ty = declared; mutable = mutable } ∷ []) inputs

-- `signature`. Reversing the vector puts the first parameter innermost, at the head of the stack.
unfoldable pub signature : ItemFn → Attempt String (List Parameter × Env × Ty)
unfolding parameters_of
signature item = do
  (parameters, env) ← parameters_of [] [] item.inputs
  output ← or_fail item.output "explicit scalar return type required"
  result ← ty_from output
  done (parameters, env, result)

-- Whether two types are the same.
abbrev pub ty_eq : Ty → Ty → Bool
ty_eq boolean boolean = true
ty_eq u8 u8 = true
ty_eq u16 u16 = true
ty_eq u32 u32 = true
ty_eq u64 u64 = true
ty_eq usize usize = true
ty_eq _ _ = false

-- The operators of the intermediate language.
abbrev pub operator : BinOp → Option Op
operator add_op = some add
operator sub_op = some sub
operator mul_op = some mul
operator div_op = some div
operator rem_op = some rem
operator bit_and_op = some bit_and
operator bit_or_op = some bit_or
operator bit_xor_op = some bit_xor
operator shl_op = some shl
operator shr_op = some shr
operator eq_op = some eq
operator ne_op = some ne
operator lt_op = some lt
operator le_op = some le
operator gt_op = some gt
operator ge_op = some ge
operator _ = none

-- The unsigned methods.
unfoldable pub intrinsic : String → Option Op
intrinsic name =
    if same_text name "min"
    then some op_min
    else if same_text name "max"
    then some op_max
    else if same_text name "saturating_add"
    then some op_saturating_add
    else if same_text name "saturating_sub"
    then some op_saturating_sub
    else if same_text name "wrapping_add"
    then some op_wrapping_add
    else if same_text name "wrapping_sub"
    then some op_wrapping_sub
    else if same_text name "wrapping_mul"
    then some op_wrapping_mul
    else none

-- Sorted maps by name.
module _ {A : Type 0} where
  unfoldable pub find_entry : String → List (String × A) → Option A
  find_entry name [] = none
  find_entry name ((k, a) ∷ entries) =
      let rest = find_entry name entries in if same_text k name then some a else rest

  -- `BTreeMap::insert`.
  unfoldable pub insert_entry : String → A → List (String × A) → List (String × A)
  insert_entry name a [] = (name, a) ∷ []
  insert_entry name a ((k, b) ∷ entries) =
      let rest = insert_entry name a entries in
      if same_text k name
      then (name, a) ∷ entries
      else if comes_before name k
      then (name, a) ∷ (k, b) ∷ entries
      else (k, b) ∷ rest

abbrev plain : ItemFn → Bool
plain item = not (
    item.asyncness || item.unsafety || item.abi || item.variadic || item.generics
    || item.where_clause)

-- The loop of `Compiler::parse` over the items of a file.
unfoldable pub collect :
    List (String × ItemFn) → List Item → Attempt String (List (String × ItemFn))
unfolding only_docs find_entry insert_entry
collect functions [] = done functions
collect functions (other_item ∷ items) = failed "only closed top-level functions are supported"
collect functions (fn_item item ∷ items) = do
  only_docs item.attrs
  stop_if (not (plain item)) "async, unsafe, ABI, variadic, and generic functions are unsupported"
  stop_if (is_some (find_entry item.ident functions)) "duplicate function name"
  collect (insert_entry item.ident item functions) items

abbrev no_functions : List (String × ItemFn) → Bool
no_functions [] = true
no_functions (f ∷ fs) = false

-- `Compiler::parse`, on what `syn::parse_file` returns.
unfoldable pub parse : Option File → ℕ → Attempt String (List (String × ItemFn))
unfolding collect
parse source usize_bits = do
  stop_if (not (usize_bits == 32 || usize_bits == 64)) "usize width must explicitly be 32 or 64"
  file ← or_fail source "Rust parse error"
  only_docs file.attrs
  functions ← collect [] file.items
  stop_if (no_functions functions) "source contains no functions"
  done functions

-- The attributes of an assigned path.
abbrev pub left_attributes : RustExpr → Attempt String (Unit {0})
left_attributes (path_expr attrs path) = only_docs attrs
left_attributes _ = done tt

-- The target of an assignment, with its new binding.
unfoldable pub target : Bool → List Attribute → RustExpr → Env → Attempt String Binding
target assignments attrs l env = do
  only_docs attrs
  stop_if (not assignments) "assignments inside nested blocks require state-threading semantics"
  left_attributes l
  name ← or_fail (path_name l) "only local-variable assignment is supported"
  (_, b) ← or_fail (lookup env name) "unbound assignment target"
  stop_if (not b.mutable) "assignment to immutable local"
  done (record { name = name; ty = b.ty; mutable = true })
