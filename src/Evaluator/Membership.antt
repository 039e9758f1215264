-- ===== src/Evaluator/Membership.antt =====
-- `eval_in_list` and `eval_in_unnest` of crates/executor/src/ir_evaluator/mod.rs against a
-- disjunction of equalities, and against one another.
use yacht_sql.Prelude.{
  ◌≡◌, refl, sym, ap, ◌∙◌, Bool, true, false, not, inl, inr, List, [], ◌∷◌, Option, none, some,
  arith, if◌then◌else◌, Bool-cases,
}
use yacht_sql.Common.Error.{ok, >>=-eq-ok}
use yacht_sql.Common.Externals.{Externals}
use yacht_sql.Common.Operators.{Operators}
use yacht_sql.Evaluator.Kleene.{stronger, truth, evaluate-or}
use yacht_sql.Common.Types.{DataType, Value, is_null}
use yacht_sql.Evaluator.Comparison.{values_equal, eq_values_with_collation}
use yacht_sql.Evaluator.Expr.{Expr, Exprs, no_exprs, expr_cons, Literal, BinaryOp}
use yacht_sql.Evaluator.Literals.{eval_literal}
use yacht_sql.Evaluator.Tests.{IrEvaluator, in_values, in_unnest_values}
use yacht_sql.Evaluator.Evaluate.{
  apply_binary_op, evaluate, evaluate_all, search_list, to_values, get_collation_for_expr,
}

module _ {X : Externals} (O : Operators X) where
  -- `=` on two values that are not null is `values_equal`.
  pub eq_values-values_equal :
      (l r : Value X)
      → is_null l ≡ false
      → is_null r ≡ false
      → eq_values_with_collation O l r none ≡ ok (Value.bool (values_equal O l r))
  unfolding eq_values_with_collation values_equal is_null
  eq_values-values_equal Value.null r h k = ground arith
  eq_values-values_equal _ _ h k = ground arith

module _ {X : Externals} (O : Operators X) where
  pub eq_null :
      (l r : Value X) → is_null r ≡ true → eq_values_with_collation O l r none ≡ ok Value.null
  unfolding eq_values_with_collation is_null
  eq_null Value.null r h = ground arith
  eq_null _ _ h = ground arith

module _ {X : Externals} (O : Operators X) (ev : IrEvaluator X) (row : List (Value X)) where
  -- One round of the loop, for an item that has a value.
  search_list_cons :
      (v w : Value X) (e : Expr X) (es : Exprs X) (negated has_null : Bool)
      → evaluate O ev e row ≡ ok w
      → search_list O ev v (expr_cons e es) row negated has_null ≡ (
          if is_null w
          then search_list O ev v es row negated true
          else if values_equal O v w
          then ok (Value.bool (not negated))
          else search_list O ev v es row negated has_null)
  unfolding evaluate
  search_list_cons v w e es negated has_null h = rw h refl

  search_list_nil :
      (v : Value X) (negated has_null : Bool)
      → search_list O ev v no_exprs row negated has_null
        ≡ (if has_null then ok Value.null else ok (Value.bool negated))
  unfolding evaluate
  search_list_nil v negated has_null = refl

  pub evaluate_all_nil : {vs : List (Value X)} → evaluate_all O ev no_exprs row ≡ ok vs → vs ≡ []
  unfolding evaluate
  evaluate_all_nil h = cc

  pub evaluate_all_cons :
      (e : Expr X) (es : Exprs X) {vs : List (Value X)}
      → evaluate_all O ev (expr_cons e es) row ≡ ok vs
      → (w : Value X) × (ws : List (Value X)) × (evaluate O ev e row ≡ ok w)
        × (evaluate_all O ev es row ≡ ok ws)
        × (vs ≡ w ∷ ws)
  unfolding evaluate
  evaluate_all_cons e es h =
      let (w, value, rest) = >>=-eq-ok (evaluate O ev e row) _ h in
      let (ws, values, same) = >>=-eq-ok (evaluate_all O ev es row) _ rest in
      (w, ws, value, values, cc)

  -- What the loop finds in a list whose items have values.
  search_list-in_values :
      (v : Value X) (items : Exprs X) (vs : List (Value X)) (negated has_null : Bool)
      → evaluate_all O ev items row ≡ ok vs
      → search_list O ev v items row negated has_null
        ≡ ok (in_values O v (to_values vs) negated has_null)
  unfolding in_values to_values
  search_list-in_values v no_exprs vs negated has_null h =
      rw (evaluate_all_nil h, search_list_nil v negated has_null) (ground arith)
  search_list-in_values v (expr_cons e es) vs negated has_null h =
      let (w, ws, value, values, same) = evaluate_all_cons e es h in
      rw (same, search_list_cons v w e es negated has_null value)
        (ground (
          arith,
          search_list-in_values v es ws negated true values,
          search_list-in_values v es ws negated has_null values,
        ))

  -- `e IN (items)` is `e IN UNNEST([items])`, negated or not, where the operand and the items have
  -- values.
  pub in_list-in_unnest :
      (e : Expr X) (items : Exprs X) (t : Option DataType) (negated : Bool) (v : Value X)
      (vs : List (Value X))
      → evaluate O ev e row ≡ ok v
      → evaluate_all O ev items row ≡ ok vs
      → evaluate O ev (Expr.in_list e items negated) row
        ≡ evaluate O ev (Expr.in_unnest e (Expr.array items t) negated) row
  unfolding evaluate in_unnest_values
  in_list-in_unnest e items t negated v vs h k =
      rw (h, k, search_list-in_values v items vs negated false k) (ground arith)

-- e = item OR … OR FALSE
abbrev pub disjunction : {X : Externals} → Expr X → Exprs X → Expr X
disjunction e no_exprs = Expr.literal (Literal.bool false)
disjunction e (expr_cons item items) =
    Expr.binary_op (Expr.binary_op e BinaryOp.eq item) BinaryOp.or (disjunction e items)

-- The truth value of an equality, and of a disjunction of equalities.
abbrev equality : {X : Externals} → Operators X → Value X → Value X → Option Bool
equality O v w = if is_null w then none else some (values_equal O v w)

abbrev any_equal : {X : Externals} → Operators X → Value X → List (Value X) → Option Bool
any_equal O v [] = some false
any_equal O v (w ∷ ws) = stronger (equality O v w) (any_equal O v ws)

abbrev pub HaveNoCollation : {X : Externals} → IrEvaluator X → Exprs X → Type 0
HaveNoCollation ev no_exprs = Unit {0}
HaveNoCollation ev (expr_cons e es) = (get_collation_for_expr ev e ≡ none) × HaveNoCollation ev es

stronger-false : (a : Option Bool) → stronger (some false) a ≡ a
stronger-false none = refl
stronger-false (some true) = refl
stronger-false (some false) = refl

module _ {X : Externals} where
  in_values_step :
      (is_null_item same has_null : Bool) (rest : Option Bool)
      → ◌≡◌ {A = Value X}
          (if is_null_item
            then truth (stronger none rest)
            else if same
            then Value.bool true
            else truth (stronger (if has_null then none else some false) rest))
          (truth (
            stronger
              (if has_null then none else some false)
              (stronger (if is_null_item then none else some same) rest)))
  in_values_step n q h none = ground arith
  in_values_step n q h (some true) = ground arith
  in_values_step n q h (some false) = ground arith

module _ {X : Externals} (O : Operators X) where
  in_values-any_equal :
      (v : Value X) (vs : List (Value X)) (has_null : Bool)
      → in_values O v (to_values vs) false has_null
        ≡ truth (stronger (if has_null then none else some false) (any_equal O v vs))
  unfolding in_values to_values
  in_values-any_equal v [] true = refl
  in_values-any_equal v [] false = refl
  in_values-any_equal v (w ∷ ws) has_null =
      rw (in_values-any_equal v ws true, in_values-any_equal v ws has_null)
        (in_values_step (is_null w) (values_equal O v w) has_null (any_equal O v ws))

module _ {X : Externals} (O : Operators X) (ev : IrEvaluator X) (row : List (Value X)) where
  evaluate-eq :
      (e item : Expr X) (v w : Value X)
      → get_collation_for_expr ev e ≡ none
      → get_collation_for_expr ev item ≡ none
      → is_null v ≡ false
      → evaluate O ev e row ≡ ok v
      → evaluate O ev item row ≡ ok w
      → evaluate O ev (Expr.binary_op e BinaryOp.eq item) row ≡ ok (truth (equality O v w))
  unfolding evaluate apply_binary_op
  evaluate-eq e item v w c d n h k =
      rw (h, k, c, d)
        (elim (Bool-cases (is_null w)) [
          | inl m ↦ rw m (eq_null O v w m)
          | inr m ↦ rw m (eq_values-values_equal O v w n m)
        ])

  evaluate-disjunction :
      (e : Expr X) (items : Exprs X) (v : Value X) (vs : List (Value X))
      → get_collation_for_expr ev e ≡ none
      → HaveNoCollation ev items
      → is_null v ≡ false
      → evaluate O ev e row ≡ ok v
      → evaluate_all O ev items row ≡ ok vs
      → evaluate O ev (disjunction e items) row ≡ ok (truth (any_equal O v vs))
  evaluate-disjunction e no_exprs v vs c d n h k =
      rw (evaluate_all_nil O ev row k) (unfold evaluate eval_literal in refl)
  evaluate-disjunction e (expr_cons item items) v vs c d n h k =
      let (w, ws, value, values, same) = evaluate_all_cons O ev row item items k in
      rw same (
        evaluate-or O ev row (Expr.binary_op e BinaryOp.eq item) (disjunction e items)
          (equality O v w) (any_equal O v ws) (evaluate-eq e item v w c d.0 n h value)
          (evaluate-disjunction e items v ws c d.1 n h values))

  -- `e IN (items)` is `e = item OR …`, where the operand is not null, the items have values, and no
  -- column among them has a collation.
  pub in_list-disjunction :
      (e : Expr X) (items : Exprs X) (v : Value X) (vs : List (Value X))
      → get_collation_for_expr ev e ≡ none
      → HaveNoCollation ev items
      → is_null v ≡ false
      → evaluate O ev e row ≡ ok v
      → evaluate_all O ev items row ≡ ok vs
      → evaluate O ev (Expr.in_list e items false) row ≡ evaluate O ev (disjunction e items) row
  in_list-disjunction e items v vs c d n h k =
      unfold evaluate in
      (rw (h, n) (search_list-in_values O ev row v items vs false false k))
      ∙ ap ok (in_values-any_equal O v vs false ∙ ap truth (stronger-false (any_equal O v vs)))
      ∙ sym (evaluate-disjunction e items v vs c d n h k)
