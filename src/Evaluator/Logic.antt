-- ===== src/Evaluator/Logic.antt =====
-- `and_values`, `or_values`, `concat_values`, the operators on bits, and the unary operators of
-- crates/executor/src/ir_evaluator/mod.rs.
use yacht_sql.Prelude.{ℕ, true, false, not, ◌++◌}
use yacht_sql.Prelude.Text.{Text, codes}
use yacht_sql.Common.Error.{Result, ok, err, invalid_query}
use yacht_sql.Common.Externals.{Externals}
use yacht_sql.Common.Operators.{Operators}
use yacht_sql.Common.Signed.{wrapping_neg, signed_not, signed_and, signed_or, signed_xor, shl, shr}
use yacht_sql.Common.Types.{Value, Values, nil, cons}

module _ {X : Externals} where
  unfoldable pub invalid : Text → Result (Value X)
  invalid message = err (invalid_query message)

  unfoldable pub and_values : Value X → Value X → Result (Value X)
  unfolding invalid
  and_values (Value.bool false) _ = ok (Value.bool false)
  and_values _ (Value.bool false) = ok (Value.bool false)
  and_values (Value.bool true) (Value.bool true) = ok (Value.bool true)
  and_values (Value.bool true) Value.null = ok Value.null
  and_values Value.null (Value.bool true) = ok Value.null
  and_values Value.null Value.null = ok Value.null
  and_values _ _ = invalid (codes "AND requires boolean operands")

  unfoldable pub or_values : Value X → Value X → Result (Value X)
  unfolding invalid
  or_values (Value.bool true) _ = ok (Value.bool true)
  or_values _ (Value.bool true) = ok (Value.bool true)
  or_values (Value.bool false) (Value.bool false) = ok (Value.bool false)
  or_values (Value.bool false) Value.null = ok Value.null
  or_values Value.null (Value.bool false) = ok Value.null
  or_values Value.null Value.null = ok Value.null
  or_values _ _ = invalid (codes "OR requires boolean operands")

  unfoldable pub append_values : Values X → Values X → Values X
  append_values nil ws = ws
  append_values (cons v vs) ws = cons v (append_values vs ws)

  unfoldable pub concat_values : Value X → Value X → Result (Value X)
  unfolding append_values invalid
  concat_values Value.null _ = ok Value.null
  concat_values _ Value.null = ok Value.null
  concat_values (Value.string a) (Value.string b) = ok (Value.string (a ++ b))
  concat_values (Value.array a) (Value.array b) = ok (Value.array (append_values a b))
  concat_values _ _ = invalid (codes "Concat requires string or array operands")

  -- The operators on bits differ in the function and in the message.
  unfoldable pub on_integers : (ℕ → ℕ → ℕ) → Text → Value X → Value X → Result (Value X)
  unfolding invalid
  on_integers f message Value.null _ = ok Value.null
  on_integers f message _ Value.null = ok Value.null
  on_integers f message (Value.int64 a) (Value.int64 b) = ok (Value.int64 (f a b))
  on_integers f message _ _ = invalid message

  unfoldable pub bitwise_and : Value X → Value X → Result (Value X)
  unfolding on_integers
  bitwise_and = on_integers signed_and (codes "Bitwise AND requires integer operands")

  unfoldable pub bitwise_or : Value X → Value X → Result (Value X)
  unfolding on_integers
  bitwise_or = on_integers signed_or (codes "Bitwise OR requires integer operands")

  unfoldable pub bitwise_xor : Value X → Value X → Result (Value X)
  unfolding on_integers
  bitwise_xor = on_integers signed_xor (codes "Bitwise XOR requires integer operands")

  unfoldable pub shift_left : Value X → Value X → Result (Value X)
  unfolding on_integers
  shift_left = on_integers shl (codes "Shift left requires integer operands")

  unfoldable pub shift_right : Value X → Value X → Result (Value X)
  unfolding on_integers
  shift_right = on_integers shr (codes "Shift right requires integer operands")

  -- The branches of `eval_unary_op`.
  unfoldable pub not_value : Value X → Result (Value X)
  unfolding invalid
  not_value Value.null = ok Value.null
  not_value (Value.bool b) = ok (Value.bool (not b))
  not_value _ = invalid (codes "NOT requires boolean operand")

  unfoldable pub bitwise_not_value : Value X → Result (Value X)
  unfolding invalid
  bitwise_not_value Value.null = ok Value.null
  bitwise_not_value (Value.int64 n) = ok (Value.int64 (signed_not n))
  bitwise_not_value _ = invalid (codes "Bitwise NOT requires integer operand")

module _ {X : Externals} (O : Operators X) where
  unfoldable pub minus_value : Value X → Result (Value X)
  unfolding invalid
  minus_value Value.null = ok Value.null
  minus_value (Value.int64 n) = ok (Value.int64 (wrapping_neg n))
  minus_value (Value.float64 f) = ok (Value.float64 (O.f64_neg f))
  minus_value (Value.numeric d) = ok (Value.numeric (O.decimal_neg d))
  minus_value _ = invalid (codes "Unary minus requires numeric operand")
