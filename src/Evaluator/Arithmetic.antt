-- ===== src/Evaluator/Arithmetic.antt =====
-- `add_values`, `sub_values`, `mul_values`, `div_values` and `mod_values` of
-- crates/executor/src/ir_evaluator/mod.rs.
use yacht_sql.Prelude.{ℕ, Bool, false, Option, none, some, ◌++◌, ◌==◌, if◌then◌else◌}
use yacht_sql.Prelude.Text.{Text, codes}
use yacht_sql.Common.Error.{Result, ok, err, invalid_query, ◌>>=◌}
use yacht_sql.Common.Externals.{Externals}
use yacht_sql.Common.Operators.{Operators}
use yacht_sql.Common.Int64.{parse_i64}
use yacht_sql.Common.Debug.{debug}
use yacht_sql.Common.Signed.{
  wrapping_add, wrapping_sub, wrapping_mul, signed_rem, wrapping_add_32, wrapping_sub_32,
  wrapping_mul_32, truncate_32,
}
use yacht_sql.Common.Types.{Value, IntervalValue}
use yacht_sql.Evaluator.Intervals.{add_interval_to_date, add_interval_to_datetime, negate_interval}

unfoldable pub add_intervals : IntervalValue → IntervalValue → IntervalValue
unfolding wrapping_add
add_intervals a b = record {
  months = wrapping_add_32 a.months b.months;
  days = wrapping_add_32 a.days b.days;
  nanos = wrapping_add a.nanos b.nanos;
}

unfoldable pub sub_intervals : IntervalValue → IntervalValue → IntervalValue
unfolding wrapping_sub
sub_intervals a b = record {
  months = wrapping_sub_32 a.months b.months;
  days = wrapping_sub_32 a.days b.days;
  nanos = wrapping_sub a.nanos b.nanos;
}

-- An interval n times: n is cut to 32 bits for the months and the days.
unfoldable pub scale_interval : IntervalValue → ℕ → IntervalValue
unfolding wrapping_mul
scale_interval v n = record {
  months = wrapping_mul_32 v.months (truncate_32 n);
  days = wrapping_mul_32 v.days (truncate_32 n);
  nanos = wrapping_mul v.nanos n;
}

unfoldable pub by_zero : {X : Externals} → Result (Value X)
by_zero = err (invalid_query (codes "Division by zero"))

module _ {X : Externals} where
  -- Err(Error::InvalidQuery(format!("<before>{:?}<between>{:?}", a, b)))
  unfoldable pub cannot : Text → Value X → Text → Value X → Result (Value X)
  cannot before a between b = err (invalid_query (before ++ (debug a ++ (between ++ debug b))))

module _ {X : Externals} (O : Operators X) where
  unfoldable pub add_values : Value X → Value X → Result (Value X)
  unfolding add_intervals
  add_values Value.null _ = ok Value.null
  add_values _ Value.null = ok Value.null
  add_values (Value.int64 a) (Value.int64 b) = ok (Value.int64 (wrapping_add a b))
  add_values (Value.float64 a) (Value.float64 b) = ok (Value.float64 (X.f64_add a b))
  add_values (Value.int64 a) (Value.float64 b) = ok (Value.float64 (X.f64_add (X.f64_from_i64 a) b))
  add_values (Value.float64 a) (Value.int64 b) = ok (Value.float64 (X.f64_add a (X.f64_from_i64 b)))
  add_values (Value.numeric a) (Value.numeric b) = ok (Value.numeric (O.decimal_add a b))
  add_values (Value.string a) (Value.string b) = ok (Value.string (a ++ b))
  add_values (Value.date d) (Value.interval v) =
      add_interval_to_date O d v >>= λ d'. ok (Value.date d')
  add_values (Value.interval v) (Value.date d) =
      add_interval_to_date O d v >>= λ d'. ok (Value.date d')
  add_values (Value.date_time t) (Value.interval v) =
      add_interval_to_datetime O t v >>= λ t'. ok (Value.date_time t')
  add_values (Value.interval v) (Value.date_time t) =
      add_interval_to_datetime O t v >>= λ t'. ok (Value.date_time t')
  add_values (Value.timestamp t) (Value.interval v) =
      add_interval_to_datetime O (O.naive_utc t) v >>= λ t'. ok (Value.timestamp (O.and_utc t'))
  add_values (Value.interval v) (Value.timestamp t) =
      add_interval_to_datetime O (O.naive_utc t) v >>= λ t'. ok (Value.timestamp (O.and_utc t'))
  add_values (Value.interval a) (Value.interval b) = ok (Value.interval (add_intervals a b))
  add_values left right = cannot (codes "Cannot add ") left (codes " and ") right

  -- With a parsed number, and the error without one.
  abbrev with_number : Option X.F64 → (X.F64 → X.F64) → Result (Value X) → Result (Value X)
  with_number none f refused = refused
  with_number (some a) f refused = ok (Value.float64 (f a))

  -- With two parsed numbers.
  abbrev with_numbers :
      Option X.F64 → Option X.F64 → (X.F64 → X.F64 → X.F64) → Result (Value X) → Result (Value X)
  with_numbers (some a) (some b) f refused = ok (Value.float64 (f a b))
  with_numbers _ _ f refused = refused

  abbrev cannot_sub : Value X → Value X → Result (Value X)
  cannot_sub left right = cannot (codes "Cannot subtract ") right (codes " from ") left

  -- An integer where the text is one, and otherwise a floating point number.
  abbrev with_integer :
      Option ℕ → (ℕ → ℕ) → Option X.F64 → (X.F64 → X.F64) → Result (Value X) → Result (Value X)
  with_integer (some n) f number g refused = ok (Value.int64 (f n))
  with_integer none f number g refused = with_number number g refused

  unfoldable pub sub_values : Value X → Value X → Result (Value X)
  unfolding sub_intervals negate_interval
  sub_values Value.null _ = ok Value.null
  sub_values _ Value.null = ok Value.null
  sub_values (Value.int64 a) (Value.int64 b) = ok (Value.int64 (wrapping_sub a b))
  sub_values (Value.float64 a) (Value.float64 b) = ok (Value.float64 (O.f64_sub a b))
  sub_values (Value.int64 a) (Value.float64 b) = ok (Value.float64 (O.f64_sub (X.f64_from_i64 a) b))
  sub_values (Value.float64 a) (Value.int64 b) = ok (Value.float64 (O.f64_sub a (X.f64_from_i64 b)))
  sub_values (Value.numeric a) (Value.numeric b) = ok (Value.numeric (O.decimal_sub a b))
  sub_values (Value.date d) (Value.interval v) =
      add_interval_to_date O d (negate_interval v) >>= λ d'. ok (Value.date d')
  sub_values (Value.date_time t) (Value.interval v) =
      add_interval_to_datetime O t (negate_interval v) >>= λ t'. ok (Value.date_time t')
  sub_values (Value.timestamp t) (Value.interval v) =
      add_interval_to_datetime O (O.naive_utc t) (negate_interval v) >>= λ t'.
      ok (Value.timestamp (O.and_utc t'))
  sub_values (Value.interval a) (Value.interval b) = ok (Value.interval (sub_intervals a b))
  sub_values (Value.float64 a) (Value.string s) =
      with_number (O.f64_parse s) (λ b. O.f64_sub a b)
        (cannot_sub (Value.float64 a) (Value.string s))
  sub_values (Value.string s) (Value.float64 b) =
      with_number (O.f64_parse s) (λ a. O.f64_sub a b)
        (cannot_sub (Value.string s) (Value.float64 b))
  sub_values (Value.int64 a) (Value.string s) =
      with_integer (parse_i64 s) (λ b. wrapping_sub a b) (O.f64_parse s)
        (λ b. O.f64_sub (X.f64_from_i64 a) b) (cannot_sub (Value.int64 a) (Value.string s))
  sub_values (Value.string s) (Value.int64 b) =
      with_integer (parse_i64 s) (λ a. wrapping_sub a b) (O.f64_parse s)
        (λ a. O.f64_sub a (X.f64_from_i64 b)) (cannot_sub (Value.string s) (Value.int64 b))
  sub_values (Value.string s) (Value.string t) =
      with_numbers (O.f64_parse s) (O.f64_parse t) O.f64_sub
        (cannot_sub (Value.string s) (Value.string t))
  sub_values left right = cannot_sub left right

  abbrev cannot_mul : Value X → Value X → Result (Value X)
  cannot_mul left right = cannot (codes "Cannot multiply ") left (codes " and ") right

  unfoldable pub mul_values : Value X → Value X → Result (Value X)
  unfolding scale_interval
  mul_values Value.null _ = ok Value.null
  mul_values _ Value.null = ok Value.null
  mul_values (Value.int64 a) (Value.int64 b) = ok (Value.int64 (wrapping_mul a b))
  mul_values (Value.float64 a) (Value.float64 b) = ok (Value.float64 (O.f64_mul a b))
  mul_values (Value.int64 a) (Value.float64 b) = ok (Value.float64 (O.f64_mul (X.f64_from_i64 a) b))
  mul_values (Value.float64 a) (Value.int64 b) = ok (Value.float64 (O.f64_mul a (X.f64_from_i64 b)))
  mul_values (Value.numeric a) (Value.numeric b) = ok (Value.numeric (O.decimal_mul a b))
  mul_values (Value.interval v) (Value.int64 n) = ok (Value.interval (scale_interval v n))
  mul_values (Value.int64 n) (Value.interval v) = ok (Value.interval (scale_interval v n))
  mul_values (Value.string s) (Value.string t) =
      with_numbers (O.f64_parse s) (O.f64_parse t) O.f64_mul
        (cannot_mul (Value.string s) (Value.string t))
  mul_values (Value.string s) (Value.int64 b) =
      with_number (O.f64_parse s) (λ a. O.f64_mul a (X.f64_from_i64 b))
        (cannot_mul (Value.string s) (Value.int64 b))
  mul_values (Value.int64 a) (Value.string s) =
      with_number (O.f64_parse s) (λ b. O.f64_mul (X.f64_from_i64 a) b)
        (cannot_mul (Value.int64 a) (Value.string s))
  mul_values (Value.string s) (Value.float64 b) =
      with_number (O.f64_parse s) (λ a. O.f64_mul a b)
        (cannot_mul (Value.string s) (Value.float64 b))
  mul_values (Value.float64 a) (Value.string s) =
      with_number (O.f64_parse s) (λ b. O.f64_mul a b)
        (cannot_mul (Value.float64 a) (Value.string s))
  mul_values left right = cannot_mul left right

  abbrev cannot_div : Value X → Value X → Result (Value X)
  cannot_div left right = cannot (codes "Cannot divide ") left (codes " by ") right

  -- a / b, where b is not zero
  abbrev quotient : X.F64 → X.F64 → Result (Value X)
  quotient a b = if O.f64_eq b X.f64_zero then by_zero else ok (Value.float64 (O.f64_div a b))

  -- The quotient with a parsed divisor.
  abbrev parsed_divisor : X.F64 → Option X.F64 → Result (Value X) → Result (Value X)
  parsed_divisor a none refused = refused
  parsed_divisor a (some b) refused = quotient a b

  -- The quotient with both numbers parsed.
  abbrev parsed_quotient : Option X.F64 → Option X.F64 → Result (Value X) → Result (Value X)
  parsed_quotient (some a) (some b) refused = quotient a b
  parsed_quotient _ _ refused = refused

  -- The divisor is the integer or the floating point number zero.
  unfoldable pub is_zero_divisor : Value X → Bool
  is_zero_divisor (Value.int64 b) = b == 0
  is_zero_divisor (Value.float64 b) = O.f64_eq b X.f64_zero
  is_zero_divisor _ = false

  -- `div_values` behind its tests for null and for such a divisor.
  unfoldable pub div_nonzero : Value X → Value X → Result (Value X)
  unfolding by_zero
  div_nonzero (Value.int64 a) (Value.int64 b) =
      ok (Value.float64 (O.f64_div (X.f64_from_i64 a) (X.f64_from_i64 b)))
  div_nonzero (Value.float64 a) (Value.float64 b) = ok (Value.float64 (O.f64_div a b))
  div_nonzero (Value.int64 a) (Value.float64 b) =
      ok (Value.float64 (O.f64_div (X.f64_from_i64 a) b))
  div_nonzero (Value.float64 a) (Value.int64 b) =
      ok (Value.float64 (O.f64_div a (X.f64_from_i64 b)))
  div_nonzero (Value.numeric a) (Value.numeric b) =
      if O.decimal_is_zero b then by_zero else ok (Value.numeric (O.decimal_div a b))
  div_nonzero (Value.int64 a) (Value.string s) =
      parsed_divisor (X.f64_from_i64 a) (O.f64_parse s)
        (cannot_div (Value.int64 a) (Value.string s))
  div_nonzero (Value.string s) (Value.int64 b) =
      with_number (O.f64_parse s) (λ a. O.f64_div a (X.f64_from_i64 b))
        (cannot_div (Value.string s) (Value.int64 b))
  div_nonzero (Value.float64 a) (Value.string s) =
      parsed_divisor a (O.f64_parse s) (cannot_div (Value.float64 a) (Value.string s))
  div_nonzero (Value.string s) (Value.float64 b) =
      with_number (O.f64_parse s) (λ a. O.f64_div a b)
        (cannot_div (Value.string s) (Value.float64 b))
  div_nonzero (Value.string s) (Value.string t) =
      parsed_quotient (O.f64_parse s) (O.f64_parse t) (cannot_div (Value.string s) (Value.string t))
  div_nonzero left right = cannot_div left right

  unfoldable pub div_values : Value X → Value X → Result (Value X)
  unfolding is_zero_divisor div_nonzero by_zero
  div_values Value.null _ = ok Value.null
  div_values _ Value.null = ok Value.null
  div_values left right = if is_zero_divisor right then by_zero else div_nonzero left right

  abbrev modulo_by_zero : Result (Value X)
  modulo_by_zero = err (invalid_query (codes "Modulo by zero"))

  abbrev is_int_zero : Value X → Bool
  is_int_zero (Value.int64 b) = b == 0
  is_int_zero _ = false

  -- `mod_values` behind its tests for null and for the integer zero.
  unfoldable pub mod_nonzero : Value X → Value X → Result (Value X)
  mod_nonzero (Value.int64 a) (Value.int64 b) = ok (Value.int64 (signed_rem a b))
  mod_nonzero (Value.float64 a) (Value.float64 b) = ok (Value.float64 (O.f64_rem a b))
  mod_nonzero (Value.numeric a) (Value.numeric b) =
      if O.decimal_is_zero b then modulo_by_zero else ok (Value.numeric (O.decimal_rem a b))
  mod_nonzero left right = cannot (codes "Cannot compute modulo of ") left (codes " and ") right

  unfoldable pub mod_values : Value X → Value X → Result (Value X)
  unfolding mod_nonzero
  mod_values Value.null _ = ok Value.null
  mod_values _ Value.null = ok Value.null
  mod_values left right = if is_int_zero right then modulo_by_zero else mod_nonzero left right
