-- ===== src/Evaluator/Kleene.antt =====
-- `and_values`, `or_values` and NOT of crates/executor/src/ir_evaluator/mod.rs against the logic of
-- three truth values.
use yacht_sql.Prelude.{
  ℕ, ◌≡◌, refl, Bool, true, false, not, Option, none, some, arith, leb, if◌then◌else◌, List, ap,
  sym, ◌∙◌,
}
use yacht_sql.Common.Error.{ok}
use yacht_sql.Common.Externals.{Externals}
use yacht_sql.Common.Operators.{Operators}
use yacht_sql.Common.Types.{Value}
use yacht_sql.Evaluator.Logic.{and_values, or_values, not_value}
use yacht_sql.Evaluator.Expr.{Expr, BinaryOp, UnaryOp}
use yacht_sql.Evaluator.Tests.{IrEvaluator}
use yacht_sql.Evaluator.Evaluate.{evaluate, apply_unary_op, apply_binary_op}

-- Unknown lies between false and true.
abbrev pub rank : Option Bool → ℕ
rank (some false) = 0
rank none = 1
rank (some true) = 2

abbrev pub weaker : Option Bool → Option Bool → Option Bool
weaker a b = if leb (rank a) (rank b) then a else b

abbrev pub stronger : Option Bool → Option Bool → Option Bool
stronger a b = if leb (rank a) (rank b) then b else a

abbrev pub opposite : Option Bool → Option Bool
opposite none = none
opposite (some b) = some (not b)

opposite-weaker : (a b : Option Bool) → opposite (weaker a b) ≡ stronger (opposite a) (opposite b)
opposite-weaker none none = refl
opposite-weaker none (some true) = refl
opposite-weaker none (some false) = refl
opposite-weaker (some true) none = refl
opposite-weaker (some false) none = refl
opposite-weaker (some true) (some true) = refl
opposite-weaker (some true) (some false) = refl
opposite-weaker (some false) (some true) = refl
opposite-weaker (some false) (some false) = refl

module _ {X : Externals} where
  abbrev pub truth : Option Bool → Value X
  truth none = Value.null
  truth (some b) = Value.bool b

  -- On truth values AND is the minimum, OR the maximum and NOT the reversal of the order in which
  -- unknown lies between false and true.
  pub kleene :
      (a b : Option Bool)
      → (and_values (truth a) (truth b) ≡ ok (truth (weaker a b)))
        × (or_values (truth a) (truth b) ≡ ok (truth (stronger a b)))
        × (not_value (truth a) ≡ ok (truth (opposite a)))
  unfolding and_values or_values not_value
  kleene none none = ground arith
  kleene none (some true) = ground arith
  kleene none (some false) = ground arith
  kleene (some true) none = ground arith
  kleene (some false) none = ground arith
  kleene (some true) (some true) = ground arith
  kleene (some true) (some false) = ground arith
  kleene (some false) (some true) = ground arith
  kleene (some false) (some false) = ground arith

module _ {X : Externals} (O : Operators X) (ev : IrEvaluator X) (row : List (Value X)) where
  pub evaluate-not :
      (e : Expr X) (a : Option Bool)
      → evaluate O ev e row ≡ ok (truth a)
      → evaluate O ev (Expr.unary_op UnaryOp.not e) row ≡ ok (truth (opposite a))
  unfolding evaluate apply_unary_op
  evaluate-not e a h = rw h (kleene a a).2

  pub evaluate-and :
      (e f : Expr X) (a b : Option Bool)
      → evaluate O ev e row ≡ ok (truth a)
      → evaluate O ev f row ≡ ok (truth b)
      → evaluate O ev (Expr.binary_op e BinaryOp.and f) row ≡ ok (truth (weaker a b))
  unfolding evaluate apply_binary_op
  evaluate-and e f a b h k = rw (h, k) (kleene a b).0

  pub evaluate-or :
      (e f : Expr X) (a b : Option Bool)
      → evaluate O ev e row ≡ ok (truth a)
      → evaluate O ev f row ≡ ok (truth b)
      → evaluate O ev (Expr.binary_op e BinaryOp.or f) row ≡ ok (truth (stronger a b))
  unfolding evaluate apply_binary_op
  evaluate-or e f a b h k = rw (h, k) (kleene a b).1

  -- NOT (e AND f) evaluates as (NOT e) OR (NOT f) where e and f have truth values.
  pub de_morgan :
      (e f : Expr X) (a b : Option Bool)
      → evaluate O ev e row ≡ ok (truth a)
      → evaluate O ev f row ≡ ok (truth b)
      → evaluate O ev (Expr.unary_op UnaryOp.not (Expr.binary_op e BinaryOp.and f)) row
        ≡ evaluate O ev
            (Expr.binary_op (Expr.unary_op UnaryOp.not e) BinaryOp.or (Expr.unary_op UnaryOp.not f))
            row
  de_morgan e f a b h k =
      evaluate-not (Expr.binary_op e BinaryOp.and f) (weaker a b) (evaluate-and e f a b h k)
      ∙ ap (λ c. ok (truth c)) (opposite-weaker a b)
      ∙ sym (
          evaluate-or (Expr.unary_op UnaryOp.not e) (Expr.unary_op UnaryOp.not f) (opposite a)
            (opposite b) (evaluate-not e a h) (evaluate-not f b k))
