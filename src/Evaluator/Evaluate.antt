-- ===== src/Evaluator/Evaluate.antt =====
-- `evaluate` of crates/executor/src/ir_evaluator/mod.rs, with `eval_binary_op`, `eval_unary_op`,
-- `eval_scalar_function`, `eval_case`, `eval_in_list` and the other functions that it calls.
use yacht_sql.Prelude.{Bool, true, false, not, List, [], ◌∷◌, ◌++◌, Option, none, if◌then◌else◌}
use yacht_sql.Prelude.Text.{Text, codes}
use yacht_sql.Prelude.Assoc.{or_else}
use yacht_sql.Common.Error.{Result, ok, ◌>>=◌}
use yacht_sql.Common.Externals.{Externals}
use yacht_sql.Common.Operators.{Operators}
use yacht_sql.Common.Types.{Value, Values, nil, cons, is_null}
use yacht_sql.Evaluator.Arithmetic.{add_values, sub_values, mul_values, div_values, mod_values}
use yacht_sql.Evaluator.Comparison.{
  eq_values, neq_values, eq_values_with_collation, neq_values_with_collation, compare_values,
  values_equal, is_lt, is_le, is_gt, is_ge,
}
use yacht_sql.Evaluator.Logic
use yacht_sql.Evaluator.Logic.{
  invalid, and_values, or_values, concat_values, not_value, minus_value, bitwise_not_value,
}
use yacht_sql.Evaluator.Functions.{fn_coalesce, fn_ifnull, fn_nullif, fn_if}
use yacht_sql.Evaluator.Math.{
  fn_greatest, fn_least, fn_safe_add, fn_safe_subtract, fn_safe_multiply, fn_safe_negate,
  fn_safe_divide,
}
use yacht_sql.Evaluator.Expr.{
  Expr, Exprs, no_exprs, expr_cons, OptionExpr, no_expr, some_expr, WhenClauses, no_clauses,
  when_then, BinaryOp, UnaryOp, ScalarFunction,
}
use yacht_sql.Evaluator.Literals.{eval_literal}
use yacht_sql.Evaluator.Tests.{
  IrEvaluator, negate_if, eval_column, collation_of, eval_variable, is_distinct, in_unnest_values,
  at_zone, between_values,
}

module _ {X : Externals} where
  -- cond_val.as_bool().unwrap_or(false)
  abbrev pub is_true : Value X → Bool
  is_true (Value.bool b) = b
  is_true _ = false

  unfoldable pub get_collation_for_expr : IrEvaluator X → Expr X → Option Text
  unfolding collation_of
  get_collation_for_expr ev (Expr.column table name index) =
      collation_of table name ev.schema.fields
  get_collation_for_expr ev _ = none

  -- The collation of the left operand, or that of the right one.
  abbrev pub collation_for : IrEvaluator X → Expr X → Expr X → Option Text
  collation_for ev left right =
      or_else (get_collation_for_expr ev left) (get_collation_for_expr ev right)

  -- v.into_iter().collect() for a vector of values
  unfoldable pub to_values : List (Value X) → Values X
  to_values [] = nil
  to_values (v ∷ vs) = cons v (to_values vs)

module _ {X : Externals} (O : Operators X) where
  -- The match of `eval_binary_op` on the operator, with the values of the operands.
  unfoldable pub apply_binary_op : Option Text → BinaryOp → Value X → Value X → Result (Value X)
  apply_binary_op collation BinaryOp.add l r = add_values O l r
  apply_binary_op collation BinaryOp.sub l r = sub_values O l r
  apply_binary_op collation BinaryOp.mul l r = mul_values O l r
  apply_binary_op collation BinaryOp.div l r = div_values O l r
  apply_binary_op collation BinaryOp.mod_op l r = mod_values O l r
  apply_binary_op collation BinaryOp.eq l r = eq_values_with_collation O l r collation
  apply_binary_op collation BinaryOp.not_eq l r = neq_values_with_collation O l r collation
  apply_binary_op collation BinaryOp.lt l r = compare_values O l r is_lt
  apply_binary_op collation BinaryOp.lt_eq l r = compare_values O l r is_le
  apply_binary_op collation BinaryOp.gt l r = compare_values O l r is_gt
  apply_binary_op collation BinaryOp.gt_eq l r = compare_values O l r is_ge
  apply_binary_op collation BinaryOp.and l r = and_values l r
  apply_binary_op collation BinaryOp.or l r = or_values l r
  apply_binary_op collation BinaryOp.concat l r = concat_values l r
  apply_binary_op collation BinaryOp.bitwise_and l r = Logic.bitwise_and l r
  apply_binary_op collation BinaryOp.bitwise_or l r = Logic.bitwise_or l r
  apply_binary_op collation BinaryOp.bitwise_xor l r = Logic.bitwise_xor l r
  apply_binary_op collation BinaryOp.shift_left l r = Logic.shift_left l r
  apply_binary_op collation BinaryOp.shift_right l r = Logic.shift_right l r

  unfoldable pub eval_binary_op_with_values : BinaryOp → Value X → Value X → Result (Value X)
  eval_binary_op_with_values BinaryOp.add l r = add_values O l r
  eval_binary_op_with_values BinaryOp.sub l r = sub_values O l r
  eval_binary_op_with_values BinaryOp.mul l r = mul_values O l r
  eval_binary_op_with_values BinaryOp.div l r = div_values O l r
  eval_binary_op_with_values BinaryOp.mod_op l r = mod_values O l r
  eval_binary_op_with_values BinaryOp.eq l r = eq_values O l r
  eval_binary_op_with_values BinaryOp.not_eq l r = neq_values O l r
  eval_binary_op_with_values BinaryOp.lt l r = compare_values O l r is_lt
  eval_binary_op_with_values BinaryOp.lt_eq l r = compare_values O l r is_le
  eval_binary_op_with_values BinaryOp.gt l r = compare_values O l r is_gt
  eval_binary_op_with_values BinaryOp.gt_eq l r = compare_values O l r is_ge
  eval_binary_op_with_values BinaryOp.and l r = and_values l r
  eval_binary_op_with_values BinaryOp.or l r = or_values l r
  eval_binary_op_with_values BinaryOp.concat l r = concat_values l r
  eval_binary_op_with_values BinaryOp.bitwise_and l r = Logic.bitwise_and l r
  eval_binary_op_with_values BinaryOp.bitwise_or l r = Logic.bitwise_or l r
  eval_binary_op_with_values BinaryOp.bitwise_xor l r = Logic.bitwise_xor l r
  eval_binary_op_with_values BinaryOp.shift_left l r = Logic.shift_left l r
  eval_binary_op_with_values BinaryOp.shift_right l r = Logic.shift_right l r

  -- The match of `eval_unary_op` on the operator, with the value of the operand.
  unfoldable pub apply_unary_op : UnaryOp → Value X → Result (Value X)
  apply_unary_op UnaryOp.not v = not_value v
  apply_unary_op UnaryOp.minus v = minus_value O v
  apply_unary_op UnaryOp.plus v = ok v
  apply_unary_op UnaryOp.bitwise_not v = bitwise_not_value v

  -- The match of `eval_scalar_function` on the function, with the values of the arguments.
  unfoldable pub apply_function : ScalarFunction → List (Value X) → Result (Value X)
  apply_function ScalarFunction.coalesce args = fn_coalesce args
  apply_function ScalarFunction.if_null args = fn_ifnull args
  apply_function ScalarFunction.ifnull args = fn_ifnull args
  apply_function ScalarFunction.null_if args = fn_nullif O args
  apply_function ScalarFunction.if_function args = fn_if args
  apply_function ScalarFunction.greatest args = fn_greatest O args
  apply_function ScalarFunction.least args = fn_least O args
  apply_function ScalarFunction.safe_add args = fn_safe_add O args
  apply_function ScalarFunction.safe_subtract args = fn_safe_subtract O args
  apply_function ScalarFunction.safe_multiply args = fn_safe_multiply O args
  apply_function ScalarFunction.safe_negate args = fn_safe_negate O args
  apply_function ScalarFunction.safe_divide args = fn_safe_divide O args

module _ {X : Externals} (O : Operators X) (ev : IrEvaluator X) where
  unfoldable mutual
    pub evaluate : Expr X → List (Value X) → Result (Value X)
    evaluate (Expr.literal l) row = eval_literal O l
    evaluate (Expr.column table name index) row = eval_column ev table name index row
    evaluate (Expr.binary_op left op right) row = evaluate left row >>= λ l.
        evaluate right row >>= λ r. apply_binary_op O (collation_for ev left right) op l r
    evaluate (Expr.unary_op op e) row = evaluate e row >>= λ v. apply_unary_op O op v
    evaluate (Expr.scalar_function f args) row =
        evaluate_all args row >>= λ vs. apply_function O f vs
    evaluate (Expr.case no_expr clauses otherwise) row =
        search_condition clauses row (evaluate_else otherwise row)
    evaluate (Expr.case (some_expr e) clauses otherwise) row =
        evaluate e row >>= λ v. search_value v clauses row (evaluate_else otherwise row)
    evaluate (Expr.is_null e negated) row =
        evaluate e row >>= λ v. ok (Value.bool (negate_if negated (is_null v)))
    evaluate (Expr.is_distinct_from left right negated) row = evaluate left row >>= λ l.
        evaluate right row >>= λ r. ok (Value.bool (negate_if negated (is_distinct O l r)))
    evaluate (Expr.in_list e list negated) row = evaluate e row >>= λ v.
        let found = search_list v list row negated false in
        if is_null v then ok Value.null else found
    evaluate (Expr.in_unnest e elements negated) row =
        evaluate e row >>= λ v. evaluate elements row >>= λ a. in_unnest_values O v a negated
    evaluate (Expr.between e low high negated) row = evaluate e row >>= λ v.
        evaluate low row >>= λ l. evaluate high row >>= λ h. between_values O v l h negated
    evaluate (Expr.array elements t) row =
        evaluate_all elements row >>= λ vs. ok (Value.array (to_values vs))
    evaluate (Expr.alias e name) row = evaluate e row
    evaluate (Expr.parameter name) row = invalid (codes "Unbound parameter: " ++ name)
    evaluate (Expr.variable name) row = eval_variable ev name
    evaluate (Expr.placeholder id) row = invalid (codes "Unbound placeholder: " ++ id)
    evaluate (Expr.at_time_zone timestamp zone) row =
        evaluate timestamp row >>= λ ts. evaluate zone row >>= λ tz. at_zone ts tz
    evaluate Expr.aggregate row =
        invalid (codes "Aggregates should be evaluated by aggregate executor")
    evaluate Expr.user_defined_aggregate row =
        invalid (codes "User-defined aggregates should be evaluated by aggregate executor")
    evaluate Expr.window row =
        invalid (codes "Window functions should be evaluated by window executor")
    evaluate Expr.aggregate_window row =
        invalid (codes "Aggregate window functions should be evaluated by plan executor")
    evaluate Expr.wildcard row = invalid (codes "Wildcard should be expanded before evaluation")
    evaluate Expr.lambda row = invalid (codes "Lambda expressions should be evaluated inline")
    evaluate Expr.in_subquery row =
        invalid (codes "Subqueries should be evaluated by plan executor")
    evaluate Expr.exists row = invalid (codes "EXISTS should be evaluated by plan executor")
    evaluate Expr.subquery row = invalid (codes "Subqueries should be evaluated by plan executor")
    evaluate Expr.scalar_subquery row =
        invalid (codes "Scalar subqueries should be evaluated by plan executor")
    evaluate Expr.array_subquery row =
        invalid (codes "ArraySubquery should be evaluated by plan executor")
    evaluate Expr.default row = ok Value.default

    -- args.iter().map(|a| self.evaluate(a, row)).collect::<Result<_>>()
    pub evaluate_all : Exprs X → List (Value X) → Result (List (Value X))
    evaluate_all no_exprs row = ok []
    evaluate_all (expr_cons e es) row =
        evaluate e row >>= λ v. evaluate_all es row >>= λ vs. ok (v ∷ vs)

    -- `else_result` of a CASE
    pub evaluate_else : OptionExpr X → List (Value X) → Result (Value X)
    evaluate_else no_expr row = ok Value.null
    evaluate_else (some_expr e) row = evaluate e row

    -- The loop of `eval_case` without an operand.
    pub search_condition : WhenClauses X → List (Value X) → Result (Value X) → Result (Value X)
    search_condition no_clauses row otherwise = otherwise
    search_condition (when_then condition result clauses) row otherwise =
        evaluate condition row >>= λ c.
        let chosen = evaluate result row in
        let more = search_condition clauses row otherwise in if is_true c then chosen else more

    -- The loop of `eval_case` with the value of its operand.
    pub search_value :
        Value X → WhenClauses X → List (Value X) → Result (Value X) → Result (Value X)
    search_value v no_clauses row otherwise = otherwise
    search_value v (when_then condition result clauses) row otherwise =
        evaluate condition row >>= λ c.
        let chosen = evaluate result row in
        let more = search_value v clauses row otherwise in
        if values_equal O v c then chosen else more

    -- The loop of `eval_in_list` over the items.
    pub search_list : Value X → Exprs X → List (Value X) → Bool → Bool → Result (Value X)
    search_list v no_exprs row negated has_null =
        if has_null then ok Value.null else ok (Value.bool negated)
    search_list v (expr_cons item list) row negated has_null = evaluate item row >>= λ w.
        let after_null = search_list v list row negated true in
        let more = search_list v list row negated has_null in
        if is_null w
        then after_null
        else if values_equal O v w
        then ok (Value.bool (not negated))
        else more
