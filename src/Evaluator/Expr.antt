-- ===== src/Evaluator/Expr.antt =====
-- `Expr`, `WhenClause`, `BinaryOp`, `UnaryOp`, `ScalarFunction` and `Literal` of crates/ir/src/expr.
use yacht_sql.Prelude.{ℕ, Bool, List, Option}
use yacht_sql.Prelude.Text.{Text}
use yacht_sql.Common.Externals.{Externals}
use yacht_sql.Common.Types.{DataType}

pub data BinaryOp : Type 0 where
  add sub mul div mod_op eq not_eq lt lt_eq gt gt_eq and or concat : BinaryOp
  bitwise_and bitwise_or bitwise_xor shift_left shift_right : BinaryOp

pub data UnaryOp : Type 0 where
  not minus plus bitwise_not : UnaryOp

-- Those functions that are modelled.
pub data ScalarFunction : Type 0 where
  coalesce if_null ifnull null_if if_function greatest least : ScalarFunction
  safe_add safe_subtract safe_multiply safe_negate safe_divide : ScalarFunction

mutual
  pub data Literal (X : Externals) : Type 0 where
    null : Literal X
    bool : Bool → Literal X
    int64 : ℕ → Literal X
    float64 : X.F64 → Literal X
    numeric big_numeric : X.Decimal → Literal X
    string : Text → Literal X
    bytes : List ℕ → Literal X
    date time timestamp datetime : ℕ → Literal X
    interval : ℕ → ℕ → ℕ → Literal X
    array : Literals X → Literal X
    struct : LiteralFields X → Literal X
    json : X.Json → Literal X

  -- Vec<Literal>
  pub data Literals (X : Externals) : Type 0 where
    no_literals : Literals X
    literal_cons : Literal X → Literals X → Literals X

  -- Vec<(String, Literal)>
  pub data LiteralFields (X : Externals) : Type 0 where
    no_literal_fields : LiteralFields X
    literal_field : Text → Literal X → LiteralFields X → LiteralFields X

-- The kinds of expression that are modelled. Those that another part of the executor evaluates, and
-- that are an error here, are without their contents.
mutual
  pub data Expr (X : Externals) : Type 0 where
    literal : Literal X → Expr X
    column : Option Text → Text → Option ℕ → Expr X
    binary_op : Expr X → BinaryOp → Expr X → Expr X
    unary_op : UnaryOp → Expr X → Expr X
    scalar_function : ScalarFunction → Exprs X → Expr X
    case : OptionExpr X → WhenClauses X → OptionExpr X → Expr X
    is_null : Expr X → Bool → Expr X
    is_distinct_from : Expr X → Expr X → Bool → Expr X
    in_list : Expr X → Exprs X → Bool → Expr X
    in_unnest : Expr X → Expr X → Bool → Expr X
    between : Expr X → Expr X → Expr X → Bool → Expr X
    array : Exprs X → Option DataType → Expr X
    alias : Expr X → Text → Expr X
    parameter variable placeholder : Text → Expr X
    at_time_zone : Expr X → Expr X → Expr X
    aggregate user_defined_aggregate window aggregate_window wildcard lambda : Expr X
    in_subquery exists subquery scalar_subquery array_subquery default : Expr X

  -- Vec<Expr>
  pub data Exprs (X : Externals) : Type 0 where
    no_exprs : Exprs X
    expr_cons : Expr X → Exprs X → Exprs X

  -- Option<Box<Expr>>
  pub data OptionExpr (X : Externals) : Type 0 where
    no_expr : OptionExpr X
    some_expr : Expr X → OptionExpr X

  -- Vec<WhenClause>, each with its condition and its result
  pub data WhenClauses (X : Externals) : Type 0 where
    no_clauses : WhenClauses X
    when_then : Expr X → Expr X → WhenClauses X → WhenClauses X
