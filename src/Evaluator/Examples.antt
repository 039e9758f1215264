-- ===== src/Evaluator/Examples.antt =====
-- Tests of the evaluator, and instances of its theorems.
use yacht_sql.Prelude.{inr, ℕ, ◌+◌, ◌≡◌, refl, true, false, List, [], ◌∷◌, none, some, ◌≢◌, arith}
use yacht_sql.Prelude.Text.{codes, to_uppercase}
use yacht_sql.Common.Error.{Result, ok, err, invalid_query}
use yacht_sql.Common.Sample.{sample_externals, sample_operators}
use yacht_sql.Common.Signed.{offset, wrapping_sub, signed_cmp}
use yacht_sql.Common.ValueEquality.{value_eq}
use yacht_sql.Common.Types.{Value, DataType, is_null}
use yacht_sql.Storage.Schema.{FieldMode, new_field, field_index_qualified}
use yacht_sql.Evaluator.Arithmetic.{add_values, sub_values, div_values}
use yacht_sql.Evaluator.Comparison.{
  compare_values, eq_values_with_collation, neq_values_with_collation, values_equal, is_lt, is_ge,
}
use yacht_sql.Evaluator.Math.{fn_greatest, fn_safe_add}
use yacht_sql.Evaluator.Expr.{
  Expr, Exprs, no_exprs, expr_cons, no_expr, some_expr, WhenClauses, no_clauses, when_then, Literal,
  BinaryOp, UnaryOp, ScalarFunction,
}
use yacht_sql.Evaluator.Functions.{fn_if}
use yacht_sql.Evaluator.Logic.{and_values, or_values, not_value}
use yacht_sql.Evaluator.Tests.{IrEvaluator, eval_column, in_values, between_values}
use yacht_sql.Evaluator.Evaluate.{
  evaluate, evaluate_all, get_collation_for_expr, apply_binary_op, apply_function,
}
use yacht_sql.Evaluator.Literals.{eval_literal}
use yacht_sql.Evaluator.Kleene.{kleene}
use yacht_sql.Evaluator.Symmetry.{
  OrderLaws, compare_values-swap, compare-swap, swapped, neq-eq, negated, map_ok,
}
use yacht_sql.Evaluator.Membership.{
  in_list-in_unnest, in_list-disjunction, disjunction, HaveNoCollation,
}
use yacht_sql.Evaluator.Negation.{evaluate-negated}
use yacht_sql.Evaluator.Ranges.{between-and, between_null_bound}
use yacht_sql.Evaluator.Conditionals.{case-equalities, equalities, ConditionsHaveNoCollation}
use yacht_sql.Evaluator.Bounds.{IsGreatest, ints, fn_greatest-ints, add-safe_add, AddFits}
use yacht_sql.Evaluator.Operands.{evaluate-at_time_zone}

-- A schema with one column, and a row for it.
abbrev sample_evaluator : IrEvaluator sample_externals
sample_evaluator = record {
  schema = record { fields = new_field (codes "id") DataType.int64 FieldMode.nullable ∷ [] };
  variables = none;
  system_variables = none;
}

abbrev seven : List (Value sample_externals)
seven = Value.int64 7 ∷ []

abbrev id_column : Expr sample_externals
id_column = Expr.column none (codes "id") (some 0)

abbrev int : ℕ → Expr sample_externals
int n = Expr.literal (Literal.int64 n)

abbrev null_literal : Expr sample_externals
null_literal = Expr.literal Literal.null

abbrev yes_literal : Expr sample_externals
yes_literal = Expr.literal (Literal.bool true)

abbrev evaluated : Expr sample_externals → Result (Value sample_externals)
evaluated e = evaluate sample_operators sample_evaluator e seven

abbrev laws : OrderLaws sample_operators
laws = record {
  ordered_cmp-swap = compare-swap;
  partial_cmp-swap = compare-swap;
  decimal_cmp-swap = compare-swap;
  date_cmp-swap = compare-swap;
  time_cmp-swap = compare-swap;
  datetime_cmp-swap = compare-swap;
  timestamp_cmp-swap = compare-swap;
}

abbrev items : Exprs sample_externals
items = expr_cons (int 3) (expr_cons null_literal (expr_cons (int 7) no_exprs))

abbrev clauses : WhenClauses sample_externals
clauses = when_then null_literal (int 1) (when_then (int 7) (int 2) no_clauses)

evaluator_tests :
    (evaluated (Expr.in_list id_column items true) ≡ ok (Value.bool false))
    × (evaluated (Expr.case (some_expr id_column) clauses no_expr) ≡ ok (Value.int64 2))
    × (evaluated (Expr.binary_op id_column BinaryOp.div (int 0))
        ≡ err (invalid_query (codes "Division by zero")))
    × (evaluated (Expr.binary_op id_column BinaryOp.sub (int 9))
        ≡ ok (Value.int64 0xfffffffffffffffe))
    × (evaluated (Expr.between id_column (int 0xffffffffffffffff) (int 7) false)
        ≡ ok (Value.bool true))
    × (evaluated (Expr.column none (codes "id") none) ≡ ok (Value.int64 7))
unfolding evaluate eval_literal eval_column apply_binary_op in_values between_values values_equal
    value_eq div_values sub_values compare_values is_null wrapping_sub signed_cmp
    field_index_qualified new_field
evaluator_tests = (refl, refl, refl, refl, refl, refl)

abbrev id_below : ℕ → Expr sample_externals
id_below n = Expr.binary_op id_column BinaryOp.lt (int n)

-- The premises of the instances.
id_is_seven : evaluated id_column ≡ ok (Value.int64 7)
unfolding evaluate eval_column
id_is_seven = refl

null_evaluates : evaluated null_literal ≡ ok Value.null
unfolding evaluate eval_literal
null_evaluates = refl

int_evaluates : (n : ℕ) → evaluated (int n) ≡ ok (Value.int64 n)
unfolding evaluate eval_literal
int_evaluates n = refl

text_evaluates :
    evaluated (Expr.literal (Literal.string (codes "UTC"))) ≡ ok (Value.string (codes "UTC"))
unfolding evaluate eval_literal
text_evaluates = refl

abbrev item_values : List (Value sample_externals)
item_values = Value.int64 3 ∷ Value.null ∷ Value.int64 7 ∷ []

items_evaluate : evaluate_all sample_operators sample_evaluator items seven ≡ ok item_values
unfolding evaluate eval_literal
items_evaluate = refl

seven_not_null : is_null {X = sample_externals} (Value.int64 7) ≡ false
unfolding is_null
seven_not_null = refl

int_not_null : (n : ℕ) → is_null {X = sample_externals} (Value.int64 n) ≡ false
unfolding is_null
int_not_null n = refl

id_has_no_collation : get_collation_for_expr sample_evaluator id_column ≡ none
unfolding get_collation_for_expr to_uppercase new_field
id_has_no_collation = refl

literal_has_no_collation :
    (l : Literal sample_externals) → get_collation_for_expr sample_evaluator (Expr.literal l) ≡ none
unfolding get_collation_for_expr
literal_has_no_collation l = refl

items-HaveNoCollation : HaveNoCollation sample_evaluator items
unfolding get_collation_for_expr
items-HaveNoCollation = (refl, (refl, (refl, tt)))

clauses_have_no_collation : ConditionsHaveNoCollation sample_evaluator clauses
unfolding get_collation_for_expr
clauses_have_no_collation = (refl, (refl, tt))

one_below_two :
    compare_values sample_operators (Value.int64 1) (Value.int64 2) is_lt ≡ ok (Value.bool true)
unfolding compare_values
one_below_two = refl

seven_below_nine :
    compare_values sample_operators (Value.int64 7) (Value.int64 9) is_ge ≡ ok (Value.bool false)
unfolding compare_values
seven_below_nine = refl

some-ne-none : (d : ℕ) → some d ≢ none
some-ne-none d = ground arith

if_evaluates :
    evaluated (
      Expr.scalar_function ScalarFunction.if_function
        (expr_cons yes_literal (expr_cons (int 1) (expr_cons (int 2) no_exprs))))
    ≡ ok (Value.int64 1)
unfolding evaluate eval_literal apply_function fn_if
if_evaluates = refl

nine_above_seven : evaluated (id_below 9) ≡ ok (Value.bool true)
unfolding evaluate eval_literal eval_column apply_binary_op compare_values
nine_above_seven = refl

five_not_above_seven : evaluated (id_below 5) ≡ ok (Value.bool false)
unfolding evaluate eval_literal eval_column apply_binary_op compare_values
five_not_above_seven = refl

kleene_example :
    (and_values {X = sample_externals} Value.null (Value.bool false) ≡ ok (Value.bool false))
    × (or_values {X = sample_externals} Value.null (Value.bool false) ≡ ok Value.null)
    × (not_value {X = sample_externals} Value.null ≡ ok Value.null)
kleene_example = kleene {X = sample_externals} none (some false)

compare_values-swap_example :
    compare_values sample_operators (Value.int64 2) (Value.int64 1) (swapped is_lt)
    ≡ ok (Value.bool true)
compare_values-swap_example =
    compare_values-swap sample_operators laws (Value.int64 1) (Value.int64 2) is_lt one_below_two

neq-eq_example :
    neq_values_with_collation sample_operators (Value.int64 3) (Value.float64 3) none
    ≡ map_ok sample_operators negated
        (eq_values_with_collation sample_operators (Value.int64 3) (Value.float64 3) none)
neq-eq_example = neq-eq sample_operators (Value.int64 3) (Value.float64 3) none refl

in_list-in_unnest_example :
    evaluated (Expr.in_list id_column items true)
    ≡ evaluated (Expr.in_unnest id_column (Expr.array items none) true)
in_list-in_unnest_example =
    in_list-in_unnest sample_operators sample_evaluator seven id_column items none true
      (Value.int64 7) item_values id_is_seven items_evaluate

in_list-disjunction_example :
    evaluated (Expr.in_list id_column items false) ≡ evaluated (disjunction id_column items)
in_list-disjunction_example =
    in_list-disjunction sample_operators sample_evaluator seven id_column items (Value.int64 7)
      item_values id_has_no_collation items-HaveNoCollation seven_not_null id_is_seven
      items_evaluate

evaluate-negated_example :
    (evaluated (Expr.is_null id_column true)
      ≡ evaluated (Expr.unary_op UnaryOp.not (Expr.is_null id_column false)))
    × (evaluated (Expr.is_distinct_from id_column (int 3) true)
        ≡ evaluated (Expr.unary_op UnaryOp.not (Expr.is_distinct_from id_column (int 3) false)))
    × (evaluated (Expr.in_list id_column items true)
        ≡ evaluated (Expr.unary_op UnaryOp.not (Expr.in_list id_column items false)))
    × (evaluated (Expr.in_unnest id_column (int 3) true)
        ≡ evaluated (Expr.unary_op UnaryOp.not (Expr.in_unnest id_column (int 3) false)))
    × (evaluated (Expr.between id_column (int 3) (int 9) true)
        ≡ evaluated (Expr.unary_op UnaryOp.not (Expr.between id_column (int 3) (int 9) false)))
evaluate-negated_example =
    evaluate-negated sample_operators sample_evaluator seven id_column (int 3) (int 9) items

between-and_example :
    evaluated (Expr.between id_column (int 3) (int 9) false)
    ≡ evaluated (
        Expr.binary_op
          (Expr.binary_op id_column BinaryOp.gt_eq (int 3))
          BinaryOp.and
          (Expr.binary_op id_column BinaryOp.lt_eq (int 9)))
between-and_example =
    between-and sample_operators sample_evaluator seven some-ne-none id_column (int 3) (int 9)
      (Value.int64 7) (Value.int64 3) (Value.int64 9) id_is_seven (int_evaluates 3)
      (int_evaluates 9) seven_not_null (int_not_null 3) (int_not_null 9)

between_null_bound_example :
    (evaluated (Expr.between id_column (int 9) null_literal false) ≡ ok Value.null)
    × (evaluated (
          Expr.binary_op
            (Expr.binary_op id_column BinaryOp.gt_eq (int 9))
            BinaryOp.and
            (Expr.binary_op id_column BinaryOp.lt_eq null_literal))
        ≡ ok (Value.bool false))
between_null_bound_example =
    between_null_bound sample_operators sample_evaluator seven id_column (int 9) null_literal
      (Value.int64 7) (Value.int64 9) Value.null id_is_seven (int_evaluates 9) null_evaluates
      seven_not_null (inr (refl, seven_below_nine))

case-equalities_example :
    evaluated (Expr.case (some_expr id_column) clauses no_expr)
    ≡ evaluated (Expr.case no_expr (equalities id_column clauses) no_expr)
case-equalities_example =
    case-equalities sample_operators sample_evaluator seven id_column clauses no_expr
      (Value.int64 7) id_has_no_collation clauses_have_no_collation id_is_seven

add-safe_add_example :
    (AddFits 3 0xffffffffffffffff
      → (sum : ℕ) × (add_values sample_operators (Value.int64 3) (Value.int64 0xffffffffffffffff)
          ≡ ok (Value.int64 sum))
        × (fn_safe_add sample_operators (Value.int64 3 ∷ Value.int64 0xffffffffffffffff ∷ [])
            ≡ ok (Value.int64 sum))
        × (offset sum + 0x8000000000000000 ≡ offset 3 + offset 0xffffffffffffffff))
    × ((AddFits 3 0xffffffffffffffff → ⊥)
        → fn_safe_add sample_operators (Value.int64 3 ∷ Value.int64 0xffffffffffffffff ∷ [])
          ≡ ok Value.null)
add-safe_add_example =
    add-safe_add sample_operators 3 0xffffffffffffffff (omega arith) (omega arith)

fn_greatest-ints_example :
    (m : ℕ) × (fn_greatest sample_operators
        (ints sample_operators (3 ∷ 0xffffffffffffffff ∷ 5 ∷ []))
      ≡ ok (Value.int64 m))
    × IsGreatest m (3 ∷ 0xffffffffffffffff ∷ 5 ∷ [])
fn_greatest-ints_example = fn_greatest-ints sample_operators 3 (0xffffffffffffffff ∷ 5 ∷ [])

evaluate-at_time_zone_example :
    evaluated (Expr.at_time_zone id_column (Expr.literal (Literal.string (codes "UTC"))))
    ≡ evaluated id_column
evaluate-at_time_zone_example =
    evaluate-at_time_zone sample_operators sample_evaluator seven id_column
      (Expr.literal (Literal.string (codes "UTC"))) text_evaluates
