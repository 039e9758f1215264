-- ===== src/Evaluator/Negation.antt =====
-- The negated forms of IS NULL, IS DISTINCT FROM, IN, IN UNNEST and BETWEEN in
-- crates/executor/src/ir_evaluator/mod.rs.
use yacht_sql.Prelude.{◌≡◌, refl, sym, Bool, true, false, inl, inr, List, arith, Bool-cases, ◌||◌}
use yacht_sql.Common.Error.{ok, ◌>>=◌, Result-cases}
use yacht_sql.Common.Externals.{Externals}
use yacht_sql.Common.Operators.{Operators}
use yacht_sql.Common.Types.{Value, Values, nil, cons, is_null}
use yacht_sql.Evaluator.Comparison.{compare_values, is_ge, is_le}
use yacht_sql.Evaluator.Logic.{not_value}
use yacht_sql.Evaluator.Expr.{Expr, Exprs, no_exprs, expr_cons, UnaryOp}
use yacht_sql.Evaluator.Tests.{IrEvaluator, in_values, in_unnest_values, between_values, both}
use yacht_sql.Evaluator.Evaluate.{evaluate, search_list, apply_unary_op}

module _ {X : Externals} where
  both-not : (g l : Value X) → not_value (both false g l) ≡ ok (both true g l)
  unfolding not_value
  both-not (Value.bool g) (Value.bool l) = refl
  both-not _ _ = ground arith

module _ {X : Externals} (O : Operators X) where
  in_values-not :
      (v : Value X) (vs : Values X) (has_null : Bool)
      → not_value (in_values O v vs false has_null) ≡ ok (in_values O v vs true has_null)
  unfolding in_values not_value
  in_values-not v nil has_null = ground arith
  in_values-not v (cons w vs) has_null =
      ground (arith, in_values-not v vs true, in_values-not v vs has_null)

  in_unnest_values-not :
      (v a : Value X) → (in_unnest_values O v a false >>= not_value) ≡ in_unnest_values O v a true
  unfolding in_unnest_values not_value
  in_unnest_values-not v (Value.array vs) = ground (arith, in_values-not v vs false)
  in_unnest_values-not v _ = ground arith

  between_values-not :
      (v l h : Value X) → (between_values O v l h false >>= not_value) ≡ between_values O v l h true
  unfolding between_values
  between_values-not v l h = elim (Bool-cases (is_null v || (is_null l || is_null h))) [
    | inl e ↦ rw e (unfold not_value in refl)
    | inr e ↦ rw e (elim (Result-cases (compare_values O v l is_ge)) [
      | inr (x, f) ↦ rw f refl
      | inl (g, f) ↦ rw f (elim (Result-cases (compare_values O v h is_le)) [
        | inr (y, k) ↦ rw k refl
        | inl (le, k) ↦ rw k (both-not g le)
      ])
    ])
  ]

module _ {X : Externals} (O : Operators X) (ev : IrEvaluator X) (row : List (Value X)) where
  search_list-not :
      (v : Value X) (items : Exprs X) (has_null : Bool)
      → (search_list O ev v items row false has_null >>= not_value)
        ≡ search_list O ev v items row true has_null
  unfolding evaluate not_value
  search_list-not v no_exprs true = refl
  search_list-not v no_exprs false = refl
  search_list-not v (expr_cons e es) has_null = elim (Result-cases (evaluate O ev e row)) [
    | inr (x, f) ↦ rw f refl
    | inl (w, f) ↦ rw f (ground (arith, search_list-not v es true, search_list-not v es has_null))
  ]

  is_null-not :
      (e : Expr X)
      → evaluate O ev (Expr.is_null e true) row
        ≡ evaluate O ev (Expr.unary_op UnaryOp.not (Expr.is_null e false)) row
  unfolding evaluate apply_unary_op not_value
  is_null-not e = elim (Result-cases (evaluate O ev e row)) [
    | inr (x, h) ↦ rw h refl
    | inl (v, h) ↦ rw h refl
  ]

  distinct-not :
      (e f : Expr X)
      → evaluate O ev (Expr.is_distinct_from e f true) row
        ≡ evaluate O ev (Expr.unary_op UnaryOp.not (Expr.is_distinct_from e f false)) row
  unfolding evaluate apply_unary_op not_value
  distinct-not e f = elim (Result-cases (evaluate O ev e row)) [
    | inr (x, h) ↦ rw h refl
    | inl (v, h) ↦ rw h (elim (Result-cases (evaluate O ev f row)) [
      | inr (y, k) ↦ rw k refl
      | inl (w, k) ↦ rw k refl
    ])
  ]

  in_list-not :
      (e : Expr X) (items : Exprs X)
      → evaluate O ev (Expr.in_list e items true) row
        ≡ evaluate O ev (Expr.unary_op UnaryOp.not (Expr.in_list e items false)) row
  unfolding evaluate apply_unary_op
  in_list-not e items = elim (Result-cases (evaluate O ev e row)) [
    | inr (x, h) ↦ rw h refl
    | inl (v, h) ↦ rw h (elim (Bool-cases (is_null v)) [
      | inl n ↦ rw n (unfold not_value in refl)
      | inr n ↦ rw n (sym (search_list-not v items false))
    ])
  ]

  in_unnest-not :
      (e f : Expr X)
      → evaluate O ev (Expr.in_unnest e f true) row
        ≡ evaluate O ev (Expr.unary_op UnaryOp.not (Expr.in_unnest e f false)) row
  unfolding evaluate apply_unary_op
  in_unnest-not e f = elim (Result-cases (evaluate O ev e row)) [
    | inr (x, h) ↦ rw h refl
    | inl (v, h) ↦ rw h (elim (Result-cases (evaluate O ev f row)) [
      | inr (y, k) ↦ rw k refl
      | inl (w, k) ↦ rw k (sym (in_unnest_values-not O v w))
    ])
  ]

  between-not :
      (e f g : Expr X)
      → evaluate O ev (Expr.between e f g true) row
        ≡ evaluate O ev (Expr.unary_op UnaryOp.not (Expr.between e f g false)) row
  unfolding evaluate apply_unary_op
  between-not e f g = elim (Result-cases (evaluate O ev e row)) [
    | inr (x, h) ↦ rw h refl
    | inl (v, h) ↦ rw h (elim (Result-cases (evaluate O ev f row)) [
      | inr (y, k) ↦ rw k refl
      | inl (w, k) ↦ rw k (elim (Result-cases (evaluate O ev g row)) [
        | inr (z, m) ↦ rw m refl
        | inl (u, m) ↦ rw m (sym (between_values-not O v w u))
      ])
    ])
  ]

  -- The negated form of IS NULL, IS DISTINCT FROM, IN, IN UNNEST and BETWEEN evaluates as NOT of the
  -- plain form, errors included.
  pub evaluate-negated :
      (e f g : Expr X) (items : Exprs X)
      → (evaluate O ev (Expr.is_null e true) row
          ≡ evaluate O ev (Expr.unary_op UnaryOp.not (Expr.is_null e false)) row)
        × (evaluate O ev (Expr.is_distinct_from e f true) row
            ≡ evaluate O ev (Expr.unary_op UnaryOp.not (Expr.is_distinct_from e f false)) row)
        × (evaluate O ev (Expr.in_list e items true) row
            ≡ evaluate O ev (Expr.unary_op UnaryOp.not (Expr.in_list e items false)) row)
        × (evaluate O ev (Expr.in_unnest e f true) row
            ≡ evaluate O ev (Expr.unary_op UnaryOp.not (Expr.in_unnest e f false)) row)
        × (evaluate O ev (Expr.between e f g true) row
            ≡ evaluate O ev (Expr.unary_op UnaryOp.not (Expr.between e f g false)) row)
  evaluate-negated e f g items =
      (is_null-not e, distinct-not e f, in_list-not e items, in_unnest-not e f, between-not e f g)
