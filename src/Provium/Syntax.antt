-- ===== src/Provium/Syntax.antt =====
-- The syntax trees that provium/src/frontend.rs matches on: of each node of `syn`, what the code reads,
-- and one constructor for the nodes that it rejects whatever they hold.
use Prim.Native.String.{String}
use hubby.Prelude.{Bool, List, Option, ℕ}

-- An attribute, by its path if that is a single identifier.
pub record Attribute : Type 0 where
  pub ident : Option String

pub record Segment : Type 0 where
  pub ident : String
  pub arguments : Bool

pub record Path_ : Type 0 where
  pub qself : Bool
  pub leading_colon : Bool
  pub segments : List Segment

pub data RustType : Type 0 where
  path_type : Path_ → RustType
  other_type : RustType

pub data Pattern : Type 0 where
  ident_pattern :
      List Attribute → (by_ref mutability : Bool) → (ident : String) → (subpat : Bool) → Pattern
  typed_pattern : List Attribute → Pattern → RustType → Pattern
  other_pattern : Pattern

-- An integer literal: `suffix` is what `syn::parse_str::<Type>` makes of a suffix, if there is one,
-- and `base10` what `base10_parse::<u64>` returns.
pub record LitInt : Type 0 where
  pub suffix : Option (Option RustType)
  pub base10 : Option ℕ

pub data Literal : Type 0 where
  bool_literal : Bool → Literal
  int_literal : LitInt → Literal
  other_literal : Literal

pub data BinOp : Type 0 where
  add_op sub_op mul_op div_op rem_op and_op or_op bit_xor_op bit_and_op bit_or_op shl_op shr_op :
      BinOp
  eq_op lt_op le_op ne_op ge_op gt_op bit_xor_assign other_assign : BinOp

mutual
  pub data RustExpr : Type 0 where
    path_expr : List Attribute → Path_ → RustExpr
    lit_expr : List Attribute → Literal → RustExpr
    paren_expr group_expr : List Attribute → RustExpr → RustExpr
    block_expr : List Attribute → (label : Bool) → Stmts → RustExpr
    unary_expr : List Attribute → (is_not : Bool) → RustExpr → RustExpr
    binary_expr : List Attribute → BinOp → (left right : RustExpr) → RustExpr
    if_expr : List Attribute → (cond : RustExpr) → (then_branch : Stmts) → Else → RustExpr
    method_expr :
        List Attribute
        → (receiver : RustExpr) → (method : String) → (turbofish : Bool) → Exprs
        → RustExpr
    call_expr : List Attribute → (func : RustExpr) → Exprs → RustExpr
    assign_expr : List Attribute → (left right : RustExpr) → RustExpr
    other_expr : RustExpr

  pub data Else : Type 0 where
    no_else : Else
    else_branch : RustExpr → Else

  pub data Exprs : Type 0 where
    no_more : Exprs
    another : RustExpr → Exprs → Exprs

  pub data Stmts : Type 0 where
    end_of_block : Stmts
    then_stmt : Stmt → Stmts → Stmts

  pub data Stmt : Type 0 where
    local_stmt : List Attribute → Pattern → Init → Stmt
    expr_stmt : RustExpr → (semicolon : Bool) → Stmt
    -- A macro, with what `syn::parse2` makes of its tokens as an expression.
    macro_stmt : List Attribute → Path_ → Parsed → Stmt
    other_stmt : Stmt

  pub data Init : Type 0 where
    no_init : Init
    init : (diverge : Bool) → RustExpr → Init

  pub data Parsed : Type 0 where
    unparsed : Parsed
    parsed : RustExpr → Parsed

pub data FnArg : Type 0 where
  typed_arg : List Attribute → Pattern → RustType → FnArg
  receiver_arg : FnArg

pub record ItemFn : Type 0 where
  pub attrs : List Attribute
  pub asyncness : Bool
  pub unsafety : Bool
  pub abi : Bool
  pub variadic : Bool
  pub generics : Bool
  pub where_clause : Bool
  pub ident : String
  pub inputs : List FnArg
  pub output : Option RustType
  pub block : Stmts

pub data Item : Type 0 where
  fn_item : ItemFn → Item
  other_item : Item

pub record File : Type 0 where
  pub attrs : List Attribute
  pub items : List Item
