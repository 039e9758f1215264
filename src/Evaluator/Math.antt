-- ===== src/Evaluator/Math.antt =====
-- `fn_safe_add`, `fn_safe_subtract`, `fn_safe_multiply`, `fn_safe_negate`, `fn_safe_divide`,
-- `fn_greatest` and `fn_least` of crates/executor/src/ir_evaluator/functions/math.rs.
use yacht_sql.Prelude.{ℕ, Bool, false, ◌||◌, List, [], ◌∷◌, Option, none, some, ◌==◌, if◌then◌else◌}
use yacht_sql.Prelude.Text.{Text, codes}
use yacht_sql.Common.Error.{Result, ok}
use yacht_sql.Common.Externals.{Externals}
use yacht_sql.Common.Operators.{Operators}
use yacht_sql.Common.Signed.{checked_add, checked_sub, checked_mul, checked_neg}
use yacht_sql.Common.Types.{Value, is_null}
use yacht_sql.Common.ValueEquality.{value_cmp}
use yacht_sql.Evaluator.Comparison.{is_lt, is_gt}
use yacht_sql.Evaluator.Logic.{invalid}

module _ {X : Externals} where
  -- option.map(Value::Int64).unwrap_or(Value::Null)
  abbrev pub int_or_null : Option ℕ → Value X
  int_or_null none = Value.null
  int_or_null (some n) = Value.int64 n

  unfoldable pub any_null : List (Value X) → Bool
  unfolding is_null
  any_null [] = false
  any_null (v ∷ vs) = is_null v || any_null vs

module _ {X : Externals} (O : Operators X) where
  abbrev finite_or_null : X.F64 → Value X
  finite_or_null f = if O.f64_is_finite f then Value.float64 f else Value.null

  -- Two integers, two floats, or an error; the three functions differ in the operations.
  unfoldable pub safely :
      (ℕ → ℕ → Option ℕ) → (X.F64 → X.F64 → X.F64) → Text → Value X → Value X → Result (Value X)
  unfolding invalid
  safely f g message Value.null _ = ok Value.null
  safely f g message _ Value.null = ok Value.null
  safely f g message (Value.int64 a) (Value.int64 b) = ok (int_or_null (f a b))
  safely f g message (Value.float64 a) (Value.float64 b) = ok (finite_or_null (g a b))
  safely f g message _ _ = invalid message

  unfoldable pub fn_safe_add : List (Value X) → Result (Value X)
  unfolding safely invalid
  fn_safe_add (a ∷ b ∷ more) =
      safely checked_add X.f64_add (codes "SAFE_ADD requires numeric arguments") a b
  fn_safe_add _ = invalid (codes "SAFE_ADD requires 2 arguments")

  unfoldable pub fn_safe_subtract : List (Value X) → Result (Value X)
  unfolding safely invalid
  fn_safe_subtract (a ∷ b ∷ more) =
      safely checked_sub O.f64_sub (codes "SAFE_SUBTRACT requires numeric arguments") a b
  fn_safe_subtract _ = invalid (codes "SAFE_SUBTRACT requires 2 arguments")

  unfoldable pub fn_safe_multiply : List (Value X) → Result (Value X)
  unfolding safely invalid
  fn_safe_multiply (a ∷ b ∷ more) =
      safely checked_mul O.f64_mul (codes "SAFE_MULTIPLY requires numeric arguments") a b
  fn_safe_multiply _ = invalid (codes "SAFE_MULTIPLY requires 2 arguments")

  unfoldable pub fn_safe_negate : List (Value X) → Result (Value X)
  unfolding invalid
  fn_safe_negate (Value.null ∷ more) = ok Value.null
  fn_safe_negate (Value.int64 n ∷ more) = ok (int_or_null (checked_neg n))
  fn_safe_negate (Value.float64 f ∷ more) = ok (Value.float64 (O.f64_neg f))
  fn_safe_negate _ = invalid (codes "SAFE_NEGATE requires numeric argument")

  abbrev float_quotient : X.F64 → X.F64 → Value X
  float_quotient a b = if O.f64_eq b X.f64_zero then Value.null else Value.float64 (O.f64_div a b)

  abbrev integer_divisor : X.F64 → ℕ → Value X
  integer_divisor a b =
      if b == 0 then Value.null else Value.float64 (O.f64_div a (X.f64_from_i64 b))

  -- The branches of `fn_safe_divide` behind the test of its number of arguments.
  unfoldable pub safe_quotient : Value X → Value X → Result (Value X)
  unfolding invalid
  safe_quotient Value.null _ = ok Value.null
  safe_quotient _ Value.null = ok Value.null
  safe_quotient (Value.int64 a) (Value.int64 b) = ok (integer_divisor (X.f64_from_i64 a) b)
  safe_quotient (Value.float64 a) (Value.float64 b) = ok (float_quotient a b)
  safe_quotient (Value.int64 a) (Value.float64 b) = ok (float_quotient (X.f64_from_i64 a) b)
  safe_quotient (Value.float64 a) (Value.int64 b) = ok (integer_divisor a b)
  safe_quotient _ _ = invalid (codes "SAFE_DIVIDE requires numeric arguments")

  unfoldable pub fn_safe_divide : List (Value X) → Result (Value X)
  unfolding safe_quotient invalid
  fn_safe_divide (a ∷ b ∷ more) = safe_quotient a b
  fn_safe_divide _ = invalid (codes "SAFE_DIVIDE requires 2 arguments")

  -- The loop of `fn_greatest`, with the greatest argument so far.
  unfoldable pub greatest_from : Value X → List (Value X) → Value X
  greatest_from m [] = m
  greatest_from m (v ∷ args) = greatest_from (if is_gt (value_cmp O v m) then v else m) args

  unfoldable pub greatest : List (Value X) → Value X
  unfolding greatest_from
  greatest [] = Value.null
  greatest (v ∷ args) = greatest_from v args

  unfoldable pub fn_greatest : List (Value X) → Result (Value X)
  unfolding any_null greatest
  fn_greatest args = if any_null args then ok Value.null else ok (greatest args)

  -- The loop of `fn_least`.
  unfoldable pub least_from : Value X → List (Value X) → Value X
  least_from m [] = m
  least_from m (v ∷ args) = least_from (if is_lt (value_cmp O v m) then v else m) args

  unfoldable pub least : List (Value X) → Value X
  unfolding least_from
  least [] = Value.null
  least (v ∷ args) = least_from v args

  unfoldable pub fn_least : List (Value X) → Result (Value X)
  unfolding any_null least
  fn_least args = if any_null args then ok Value.null else ok (least args)
