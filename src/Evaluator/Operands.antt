-- ===== src/Evaluator/Operands.antt =====
-- `evaluate` of crates/executor/src/ir_evaluator/mod.rs on an operator against the values of its
-- operands.
use yacht_sql.Prelude.{◌≡◌, refl, ap₂, inl, inr, List, none, fun_ext}
use yacht_sql.Common.Error.{Result, ok, ◌>>=◌, Result-cases}
use yacht_sql.Common.Externals.{Externals}
use yacht_sql.Common.Operators.{Operators}
use yacht_sql.Common.Types.{Value}
use yacht_sql.Evaluator.Comparison.{eq_values, neq_values}
use yacht_sql.Evaluator.Expr.{Expr, BinaryOp}
use yacht_sql.Evaluator.Tests.{IrEvaluator, at_zone}
use yacht_sql.Evaluator.Evaluate.{
  evaluate, apply_binary_op, eval_binary_op_with_values, get_collation_for_expr,
}

module _ {X : Externals} where
  bind-eq :
      (m n : Result (Value X)) (f g : Value X → Result (Value X))
      → m ≡ n
      → ((v : Value X) → f v ≡ g v)
      → (m >>= f) ≡ (n >>= g)
  bind-eq m n f g e h = ap₂ ◌>>=◌ e (fun_ext h)

module _ {X : Externals} where
  at_zone_lem : (v zone : Value X) → at_zone v zone ≡ ok v
  unfolding at_zone
  at_zone_lem (Value.timestamp t) (Value.string s) = refl
  at_zone_lem (Value.date_time t) (Value.string s) = refl
  at_zone_lem _ _ = refl

module _ {X : Externals} (O : Operators X) where
  apply-with_values :
      (op : BinaryOp) (l r : Value X)
      → apply_binary_op O none op l r ≡ eval_binary_op_with_values O op l r
  unfolding apply_binary_op eval_binary_op_with_values eq_values neq_values
  apply-with_values BinaryOp.add l r = refl
  apply-with_values _ l r = refl

module _ {X : Externals} (O : Operators X) (ev : IrEvaluator X) (row : List (Value X)) where
  -- Where neither operand is a column with a collation, a binary operator evaluates as
  -- `eval_binary_op_with_values` on the values of its operands, errors included.
  pub evaluate-with_values :
      (e f : Expr X) (op : BinaryOp)
      → get_collation_for_expr ev e ≡ none
      → get_collation_for_expr ev f ≡ none
      → evaluate O ev (Expr.binary_op e op f) row ≡ (
          evaluate O ev e row >>= λ l.
          evaluate O ev f row >>= λ r. eval_binary_op_with_values O op l r)
  unfolding evaluate
  evaluate-with_values e f op c d =
      rw (c, d)
        (bind-eq (evaluate O ev e row) _ _ _ refl
          (λ l. bind-eq (evaluate O ev f row) _ _ _ refl (λ r. apply-with_values O op l r)))

  -- Where the zone has a value, AT TIME ZONE evaluates as its operand, errors included: the zone is not
  -- used.
  pub evaluate-at_time_zone :
      (e zone : Expr X) {z : Value X}
      → evaluate O ev zone row ≡ ok z
      → evaluate O ev (Expr.at_time_zone e zone) row ≡ evaluate O ev e row
  unfolding evaluate
  evaluate-at_time_zone e zone h = elim (Result-cases (evaluate O ev e row)) [
    | inr (x, f) ↦ rw f refl
    | inl (v, f) ↦ rw (f, h) (at_zone_lem v _)
  ]
