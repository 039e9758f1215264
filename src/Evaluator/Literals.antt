-- ===== src/Evaluator/Literals.antt =====
-- `eval_literal` of crates/executor/src/ir_evaluator/mod.rs.
use yacht_sql.Prelude.{ℕ}
use yacht_sql.Prelude.Text.{codes}
use yacht_sql.Common.Error.{Result, ok, ◌>>=◌}
use yacht_sql.Common.Externals.{Externals}
use yacht_sql.Common.Operators.{Operators}
use yacht_sql.Common.Signed.{signed_div, signed_rem, wrapping_mul, wrapping_add_32, truncate_32}
use yacht_sql.Common.Types.{Value, Values, nil, cons, ValueFields, no_values, named}
use yacht_sql.Evaluator.Intervals.{ok_or_invalid}
use yacht_sql.Evaluator.Expr.{
  Literal, Literals, no_literals, literal_cons, LiteralFields, no_literal_fields, literal_field,
}

-- (micros / 1_000_000) and ((micros % 1_000_000) * 1000) as u32
unfoldable pub whole_seconds : ℕ → ℕ
unfolding signed_div
whole_seconds micros = signed_div micros 1000000

unfoldable pub left_nanos : ℕ → ℕ
unfolding signed_rem wrapping_mul
left_nanos micros = truncate_32 (wrapping_mul (signed_rem micros 1000000) 1000)

module _ {X : Externals} (O : Operators X) where
  unfoldable mutual
    unfolding whole_seconds left_nanos

    pub eval_literal : Literal X → Result (Value X)
    eval_literal Literal.null = ok Value.null
    eval_literal (Literal.bool b) = ok (Value.bool b)
    eval_literal (Literal.int64 n) = ok (Value.int64 n)
    eval_literal (Literal.float64 f) = ok (Value.float64 f)
    eval_literal (Literal.numeric d) = ok (Value.numeric d)
    eval_literal (Literal.string s) = ok (Value.string s)
    eval_literal (Literal.bytes b) = ok (Value.bytes b)
    eval_literal (Literal.date days) =
        ok_or_invalid (codes "Invalid date")
          (O.date_from_num_days_from_ce (wrapping_add_32 days 719163))
        >>= λ d. ok (Value.date d)
    eval_literal (Literal.time micros) =
        ok_or_invalid (codes "Invalid time") (
          O.time_from_num_seconds_from_midnight (truncate_32 (whole_seconds micros))
            (left_nanos micros))
        >>= λ t. ok (Value.time t)
    eval_literal (Literal.timestamp micros) =
        ok_or_invalid (codes "Invalid timestamp") (O.timestamp_from_micros micros) >>= λ t.
        ok (Value.timestamp t)
    eval_literal (Literal.datetime micros) =
        ok_or_invalid (codes "Invalid datetime")
          (O.datetime_from_timestamp (whole_seconds micros) (left_nanos micros))
        >>= λ t. ok (Value.date_time t)
    eval_literal (Literal.interval months days nanos) =
        ok (Value.interval (record { months = months; days = days; nanos = nanos }))
    eval_literal (Literal.array elements) = eval_literals elements >>= λ vs. ok (Value.array vs)
    eval_literal (Literal.struct fields) = eval_literal_fields fields >>= λ fs. ok (Value.struct fs)
    eval_literal (Literal.json j) = ok (Value.json j)
    eval_literal (Literal.big_numeric d) = ok (Value.big_numeric d)

    pub eval_literals : Literals X → Result (Values X)
    eval_literals no_literals = ok nil
    eval_literals (literal_cons l ls) =
        eval_literal l >>= λ v. eval_literals ls >>= λ vs. ok (cons v vs)

    pub eval_literal_fields : LiteralFields X → Result (ValueFields X)
    eval_literal_fields no_literal_fields = ok no_values
    eval_literal_fields (literal_field name l ls) =
        eval_literal l >>= λ v. eval_literal_fields ls >>= λ fs. ok (named name v fs)
