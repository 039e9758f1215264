-- ===== src/Evaluator/Ranges.antt =====
-- `eval_between` of crates/executor/src/ir_evaluator/mod.rs against two comparisons.
use yacht_sql.Prelude.{◌≡◌, ◌≢◌, refl, Bool, true, false, List, none, inl, inr, ◌⊎◌, arith}
use Prim.Native.Nat.{Ordering}
use yacht_sql.Common.Error.{Result, ok, err, ◌>>=◌}
use yacht_sql.Common.Externals.{Externals}
use yacht_sql.Common.Operators.{Operators}
use yacht_sql.Common.Types.{Value, is_null}
use yacht_sql.Evaluator.Arithmetic.{cannot}
use yacht_sql.Evaluator.Comparison.{compare_values, is_ge, is_le}
use yacht_sql.Evaluator.Logic.{and_values}
use yacht_sql.Evaluator.Expr.{Expr, BinaryOp}
use yacht_sql.Evaluator.Tests.{IrEvaluator, between_values, both}
use yacht_sql.Evaluator.Evaluate.{evaluate, apply_binary_op}

module _ {X : Externals} where
  abbrev IsVerdict : Result (Value X) → Type 0
  IsVerdict (err e) = Unit {0}
  IsVerdict (ok (Value.bool b)) = Unit {0}
  IsVerdict (ok _) = ⊥

  both-and :
      (l h : Result (Value X))
      → IsVerdict l
      → IsVerdict h
      → (l >>= λ g. h >>= λ k. ok (both false g k)) ≡ (l >>= λ g. h >>= λ k. and_values g k)
  unfolding and_values
  both-and (err e) h p q = refl
  both-and (ok (Value.bool true)) (err e) p q = refl
  both-and (ok (Value.bool false)) (err e) p q = refl
  both-and (ok (Value.bool true)) (ok (Value.bool true)) p q = refl
  both-and (ok (Value.bool true)) (ok (Value.bool false)) p q = refl
  both-and (ok (Value.bool false)) (ok (Value.bool b)) p q = refl
  both-and _ _ p q = ground arith

module _ {X : Externals} (O : Operators X) where
  -- Two values that are not null compare to a Boolean, or not at all, where every decimal has a
  -- floating point value.
  compare_values-IsVerdict :
      ((d : X.Decimal) → X.decimal_to_f64 d ≢ none)
      → (l r : Value X) (test : Ordering → Bool) → is_null l ≡ false
      → is_null r ≡ false
      → IsVerdict (compare_values O l r test)
  unfolding compare_values is_null cannot
  compare_values-IsVerdict known (Value.numeric a) (Value.float64 b) test h k =
      ground (arith, known a)
  compare_values-IsVerdict known (Value.float64 a) (Value.numeric b) test h k =
      ground (arith, known b)
  compare_values-IsVerdict known _ _ test h k = ground arith

  compare_null :
      (v : Value X) (test : Ordering → Bool) → compare_values O v Value.null test ≡ ok Value.null
  unfolding compare_values
  compare_null Value.null test = refl
  compare_null _ test = ground arith

module _ {X : Externals} (O : Operators X) (ev : IrEvaluator X) (row : List (Value X)) where
  -- `e BETWEEN low AND high` is `e >= low AND e <= high` where none of the three is null and every
  -- decimal has a floating point value; if the values cannot be compared, both are the same error.
  pub between-and :
      ((d : X.Decimal) → X.decimal_to_f64 d ≢ none)
      → (e low high : Expr X) (v l h : Value X) → evaluate O ev e row ≡ ok v
      → evaluate O ev low row ≡ ok l
      → evaluate O ev high row ≡ ok h
      → is_null v ≡ false
      → is_null l ≡ false
      → is_null h ≡ false
      → evaluate O ev (Expr.between e low high false) row
        ≡ evaluate O ev
            (Expr.binary_op
              (Expr.binary_op e BinaryOp.gt_eq low)
              BinaryOp.and
              (Expr.binary_op e BinaryOp.lt_eq high))
            row
  unfolding evaluate apply_binary_op between_values
  between-and known e low high v l h a b c p q r =
      rw (a, b, c, p, q, r)
        (both-and (compare_values O v l is_ge) (compare_values O v h is_le)
          (compare_values-IsVerdict O known v l is_ge p q)
          (compare_values-IsVerdict O known v h is_le p r))

  -- Where one bound is null and the value is on the wrong side of the other one, BETWEEN is null,
  -- although the conjunction of the two comparisons is FALSE.
  pub between_null_bound :
      (e low high : Expr X) (v l h : Value X)
      → evaluate O ev e row ≡ ok v
      → evaluate O ev low row ≡ ok l
      → evaluate O ev high row ≡ ok h
      → is_null v ≡ false
      → ((l ≡ Value.null) × (compare_values O v h is_le ≡ ok (Value.bool false)))
        ⊎ ((h ≡ Value.null) × (compare_values O v l is_ge ≡ ok (Value.bool false)))
      → (evaluate O ev (Expr.between e low high false) row ≡ ok Value.null)
        × (evaluate O ev
              (Expr.binary_op
                (Expr.binary_op e BinaryOp.gt_eq low)
                BinaryOp.and
                (Expr.binary_op e BinaryOp.lt_eq high))
              row
            ≡ ok (Value.bool false))
  unfolding evaluate apply_binary_op between_values
  between_null_bound e low high v l h a b c p (inl (n, d)) = (
    rw (a, b, c, p, n) (unfold is_null in refl),
    rw (a, b, c, n, compare_null O v is_ge, d) (unfold and_values in refl),
  )
  between_null_bound e low high v l h a b c p (inr (n, d)) = (
    rw (a, b, c, p, n) (unfold is_null in ground arith),
    rw (a, b, c, n, compare_null O v is_le, d) (unfold and_values in refl),
  )
