-- ===== src/Evaluator/Conditionals.antt =====
-- `eval_case`, `fn_nullif` and `fn_if` of crates/executor/src/ir_evaluator/mod.rs, each against a
-- searched CASE.
use yacht_sql.Prelude.{
  ◌≡◌, refl, sym, ap, ◌∙◌, Bool, true, false, inl, inr, List, [], ◌∷◌, none, arith, if◌then◌else◌,
  Bool-cases,
}
use yacht_sql.Common.Error.{Result, ok, Result-cases, >>=-eq-ok}
use yacht_sql.Common.Externals.{Externals}
use yacht_sql.Common.Operators.{Operators}
use yacht_sql.Common.Types.{Value, is_null}
use yacht_sql.Evaluator.Comparison.{values_equal, eq_values_with_collation}
use yacht_sql.Evaluator.Functions.{fn_nullif, fn_if, choose}
use yacht_sql.Evaluator.Logic.{invalid}
use yacht_sql.Evaluator.Literals.{eval_literal}
use yacht_sql.Evaluator.Expr.{
  Expr, Exprs, no_exprs, expr_cons, OptionExpr, no_expr, some_expr, WhenClauses, no_clauses,
  when_then, Literal, BinaryOp, ScalarFunction,
}
use yacht_sql.Evaluator.Tests.{IrEvaluator}
use yacht_sql.Evaluator.Membership.{
  eq_values-values_equal, eq_null, evaluate_all_nil, evaluate_all_cons,
}
use yacht_sql.Evaluator.Evaluate.{
  evaluate, evaluate_all, evaluate_else, search_condition, search_value, apply_binary_op,
  apply_function, get_collation_for_expr, is_true,
}

-- WHEN condition becomes WHEN e = condition.
abbrev pub equalities : {X : Externals} → Expr X → WhenClauses X → WhenClauses X
equalities e no_clauses = no_clauses
equalities e (when_then condition result clauses) =
    when_then (Expr.binary_op e BinaryOp.eq condition) result (equalities e clauses)

abbrev pub ConditionsHaveNoCollation : {X : Externals} → IrEvaluator X → WhenClauses X → Type 0
ConditionsHaveNoCollation ev no_clauses = Unit {0}
ConditionsHaveNoCollation ev (when_then condition result clauses) =
    (get_collation_for_expr ev condition ≡ none) × ConditionsHaveNoCollation ev clauses

module _ {X : Externals} where
  ok-if :
      (b : Bool) (x y : Value X)
      → ◌≡◌ {A = Result (Value X)} (ok (if b then x else y)) (if b then ok x else ok y)
  ok-if true x y = refl
  ok-if false x y = refl

  -- IF chooses as a condition does, where it does not refuse its first argument.
  choose-is_true :
      (c a b : Value X) {v : Value X}
      → choose c a b ≡ ok v
      → (if is_true c then ok a else ok b) ≡ ok v
  unfolding choose invalid
  choose-is_true Value.null a b h = h
  choose-is_true (Value.bool true) a b h = h
  choose-is_true (Value.bool false) a b h = h
  choose-is_true _ a b h = ground arith

module _ {X : Externals} (O : Operators X) where
  values_equal_null_left : (l r : Value X) → is_null l ≡ true → values_equal O l r ≡ false
  unfolding values_equal is_null
  values_equal_null_left Value.null r h = refl
  values_equal_null_left _ r h = ground arith

  values_equal_null_right : (l r : Value X) → is_null r ≡ true → values_equal O l r ≡ false
  unfolding values_equal is_null
  values_equal_null_right Value.null Value.null h = refl
  values_equal_null_right _ _ h = ground arith

  eq_null_left :
      (l r : Value X) → is_null l ≡ true → eq_values_with_collation O l r none ≡ ok Value.null
  unfolding eq_values_with_collation is_null
  eq_null_left Value.null r h = refl
  eq_null_left _ r h = ground arith

  -- As a condition `=` is `values_equal`.
  eq-is_true :
      (l r : Value X)
      → (u : Value X) × (eq_values_with_collation O l r none ≡ ok u)
        × (is_true u ≡ values_equal O l r)
  eq-is_true l r = elim (Bool-cases (is_null l)) [
    | inl m ↦ (Value.null, eq_null_left l r m, sym (values_equal_null_left l r m))
    | inr m ↦ elim (Bool-cases (is_null r)) [
      | inl n ↦ (Value.null, eq_null O l r n, sym (values_equal_null_right l r n))
      | inr n ↦ (Value.bool (values_equal O l r), eq_values-values_equal O l r m n, refl)
    ]
  ]

module _ {X : Externals} (O : Operators X) (ev : IrEvaluator X) (row : List (Value X)) where
  search_value-equalities :
      (e : Expr X) (v : Value X) (clauses : WhenClauses X) (otherwise : Result (Value X))
      → get_collation_for_expr ev e ≡ none
      → ConditionsHaveNoCollation ev clauses
      → evaluate O ev e row ≡ ok v
      → search_value O ev v clauses row otherwise
        ≡ search_condition O ev (equalities e clauses) row otherwise
  unfolding evaluate apply_binary_op
  search_value-equalities e v no_clauses otherwise c d h = refl
  search_value-equalities e v (when_then condition result clauses) otherwise c d h =
      elim (Result-cases (evaluate O ev condition row)) [
        | inr (x, f) ↦ rw (h, f) refl
        | inl (w, f) ↦
            let (u, equal, same) = eq-is_true O v w in
            rw (h, f, c, d.0, equal, same)
              (ap (λ more. if values_equal O v w then evaluate O ev result row else more)
                (search_value-equalities e v clauses otherwise c d.1 h))
      ]

  -- CASE e WHEN c … evaluates as CASE WHEN e = c …, errors included, where e has a value and no column
  -- among the operand and the conditions has a collation.
  pub case-equalities :
      (e : Expr X) (clauses : WhenClauses X) (otherwise : OptionExpr X) (v : Value X)
      → get_collation_for_expr ev e ≡ none
      → ConditionsHaveNoCollation ev clauses
      → evaluate O ev e row ≡ ok v
      → evaluate O ev (Expr.case (some_expr e) clauses otherwise) row
        ≡ evaluate O ev (Expr.case no_expr (equalities e clauses) otherwise) row
  unfolding evaluate
  case-equalities e clauses otherwise v c d h =
      rw h (search_value-equalities e v clauses (evaluate_else O ev otherwise row) c d h)

  -- NULLIF(a, b) is CASE WHEN a = b THEN NULL ELSE a END, errors included, where neither is a column
  -- with a collation.
  pub nullif-case :
      (a b : Expr X)
      → get_collation_for_expr ev a ≡ none
      → get_collation_for_expr ev b ≡ none
      → evaluate O ev
          (Expr.scalar_function ScalarFunction.null_if (expr_cons a (expr_cons b no_exprs)))
          row
        ≡ evaluate O ev
            (Expr.case no_expr
              (when_then (Expr.binary_op a BinaryOp.eq b) (Expr.literal Literal.null) no_clauses)
              (some_expr a))
            row
  unfolding evaluate apply_binary_op apply_function fn_nullif
  nullif-case a b c d = elim (Result-cases (evaluate O ev a row)) [
    | inr (x, f) ↦ rw f refl
    | inl (v, f) ↦ rw f (elim (Result-cases (evaluate O ev b row)) [
      | inr (y, g) ↦ rw g refl
      | inl (w, g) ↦
          let (u, equal, same) = eq-is_true O v w in
          rw (g, c, d, equal, same) (unfold eval_literal in ok-if (values_equal O v w) Value.null v)
    ])
  ]

  evaluate_if :
      (c a b : Expr X) (cv av bv : Value X)
      → evaluate O ev c row ≡ ok cv
      → evaluate O ev a row ≡ ok av
      → evaluate O ev b row ≡ ok bv
      → evaluate O ev (Expr.case no_expr (when_then c a no_clauses) (some_expr b)) row
        ≡ (if is_true cv then ok av else ok bv)
  unfolding evaluate
  evaluate_if c a b cv av bv at_c at_a at_b = rw (at_c, at_a, at_b) refl

  evaluate_function :
      (f : ScalarFunction) (args : Exprs X) {v : Value X}
      → evaluate O ev (Expr.scalar_function f args) row ≡ ok v
      → (vs : List (Value X)) × (evaluate_all O ev args row ≡ ok vs)
        × (apply_function O f vs ≡ ok v)
  unfolding evaluate
  evaluate_function f args h = >>=-eq-ok (evaluate_all O ev args row) _ h

  -- Where IF(c, a, b) has a value, CASE WHEN c THEN a ELSE b END has the same.
  pub if-case :
      (c a b : Expr X) {v : Value X}
      → evaluate O ev
          (Expr.scalar_function ScalarFunction.if_function
            (expr_cons c (expr_cons a (expr_cons b no_exprs))))
          row
        ≡ ok v
      → evaluate O ev (Expr.case no_expr (when_then c a no_clauses) (some_expr b)) row ≡ ok v
  if-case c a b h =
      let (vs, args, chosen) = evaluate_function ScalarFunction.if_function _ h in
      let (cv, more, at_c, others, same) = evaluate_all_cons O ev row c _ args in
      let (av, last, at_a, final, same') = evaluate_all_cons O ev row a _ others in
      let (bv, none_left, at_b, stop, same'') = evaluate_all_cons O ev row b _ final in
      let values : vs ≡ cv ∷ av ∷ bv ∷ [] =
        same
        ∙ ap (◌∷◌ cv)
            (same' ∙ ap (◌∷◌ av) (same'' ∙ ap (◌∷◌ bv) (evaluate_all_nil O ev row stop))) in
      evaluate_if c a b cv av bv at_c at_a at_b
      ∙ choose-is_true cv av bv (
          unfold fn_if apply_function in
          sym (ap (apply_function O ScalarFunction.if_function) values) ∙ chosen)
