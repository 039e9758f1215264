-- ===== src/Evaluator/Comparison.antt =====
-- `values_equal`, `eq_values_with_collation`, `neq_values_with_collation` and `compare_values` of
-- crates/executor/src/ir_evaluator/mod.rs.
use Prim.Native.Nat.{Ordering}
use yacht_sql.Prelude.{ℕ, Bool, true, false, not, Option, none, some, if◌then◌else◌}
use yacht_sql.Prelude.Text.{Text, codes, text_eq, to_lowercase}
use yacht_sql.Common.Error.{Result, ok}
use yacht_sql.Common.Externals.{Externals}
use yacht_sql.Common.Operators.{Operators}
use yacht_sql.Common.Signed.{signed_cmp, wrapping_add, wrapping_mul, extend_32}
use yacht_sql.Common.Types.{Value, IntervalValue}
use yacht_sql.Common.ValueEquality.{value_eq, text_cmp, bool_cmp}
use yacht_sql.Evaluator.Arithmetic.{cannot}

-- ord.is_lt(), is_le(), is_gt(), is_ge() and reverse()
abbrev pub is_lt : Ordering → Bool
is_lt Ordering.lt = true
is_lt _ = false

abbrev pub is_le : Ordering → Bool
is_le Ordering.gt = false
is_le _ = true

abbrev pub is_gt : Ordering → Bool
is_gt Ordering.gt = true
is_gt _ = false

abbrev pub is_ge : Ordering → Bool
is_ge Ordering.lt = false
is_ge _ = true

abbrev pub reverse : Ordering → Ordering
reverse Ordering.lt = Ordering.gt
reverse Ordering.eq = Ordering.eq
reverse Ordering.gt = Ordering.lt

-- ord.unwrap_or(Ordering::Equal)
abbrev pub or_equal : Option Ordering → Ordering
or_equal none = Ordering.eq
or_equal (some o) = o

-- The nanoseconds of an interval, with months of 30 days.
unfoldable pub total_nanos : IntervalValue → ℕ
unfolding wrapping_add wrapping_mul
total_nanos v =
    wrapping_add (wrapping_add v.nanos (wrapping_mul (extend_32 v.days) 86400000000000))
      (wrapping_mul (wrapping_mul (extend_32 v.months) 30) 86400000000000)

-- matches!(collation, Some("und:ci"))
unfoldable pub is_case_insensitive : Option Text → Bool
unfolding text_eq
is_case_insensitive none = false
is_case_insensitive (some c) = text_eq c (codes "und:ci")

module _ {X : Externals} (O : Operators X) where
  -- (a - b).abs()
  abbrev pub distance : X.F64 → X.F64 → X.F64
  distance a b = O.f64_abs (O.f64_sub a b)

  unfoldable pub values_equal : Value X → Value X → Bool
  values_equal Value.null _ = false
  values_equal _ Value.null = false
  values_equal (Value.int64 a) (Value.float64 b) =
      O.f64_lt (distance (X.f64_from_i64 a) b) O.f64_epsilon
  values_equal (Value.float64 a) (Value.int64 b) =
      O.f64_lt (distance a (X.f64_from_i64 b)) O.f64_epsilon
  values_equal left right = value_eq O left right

  unfoldable pub eq_values_with_collation : Value X → Value X → Option Text → Result (Value X)
  unfolding is_case_insensitive
  eq_values_with_collation Value.null _ collation = ok Value.null
  eq_values_with_collation _ Value.null collation = ok Value.null
  eq_values_with_collation (Value.int64 a) (Value.float64 b) collation =
      ok (Value.bool (O.f64_lt (distance (X.f64_from_i64 a) b) O.f64_epsilon))
  eq_values_with_collation (Value.float64 a) (Value.int64 b) collation =
      ok (Value.bool (O.f64_lt (distance a (X.f64_from_i64 b)) O.f64_epsilon))
  eq_values_with_collation (Value.string a) (Value.string b) collation =
      if is_case_insensitive collation
      then ok (Value.bool (text_eq (to_lowercase a) (to_lowercase b)))
      else ok (Value.bool (value_eq O (Value.string a) (Value.string b)))
  eq_values_with_collation left right collation = ok (Value.bool (value_eq O left right))

  unfoldable pub eq_values : Value X → Value X → Result (Value X)
  unfolding eq_values_with_collation
  eq_values left right = eq_values_with_collation left right none

  unfoldable pub neq_values_with_collation : Value X → Value X → Option Text → Result (Value X)
  unfolding is_case_insensitive
  neq_values_with_collation Value.null _ collation = ok Value.null
  neq_values_with_collation _ Value.null collation = ok Value.null
  neq_values_with_collation (Value.int64 a) (Value.float64 b) collation =
      ok (Value.bool (O.f64_ge (distance (X.f64_from_i64 a) b) O.f64_epsilon))
  neq_values_with_collation (Value.float64 a) (Value.int64 b) collation =
      ok (Value.bool (O.f64_ge (distance a (X.f64_from_i64 b)) O.f64_epsilon))
  neq_values_with_collation (Value.string a) (Value.string b) collation =
      if is_case_insensitive collation
      then ok (Value.bool (not (text_eq (to_lowercase a) (to_lowercase b))))
      else ok (Value.bool (not (value_eq O (Value.string a) (Value.string b))))
  neq_values_with_collation left right collation = ok (Value.bool (not (value_eq O left right)))

  unfoldable pub neq_values : Value X → Value X → Result (Value X)
  unfolding neq_values_with_collation
  neq_values left right = neq_values_with_collation left right none

  -- The test of a decimal that has a floating point value, and null for one that has none.
  abbrev pub if_float : Option X.F64 → (X.F64 → Bool) → Result (Value X)
  if_float none test = ok Value.null
  if_float (some a) test = ok (Value.bool (test a))

  unfoldable pub compare_values : Value X → Value X → (Ordering → Bool) → Result (Value X)
  unfolding signed_cmp text_cmp bool_cmp total_nanos
  compare_values Value.null _ cmp = ok Value.null
  compare_values _ Value.null cmp = ok Value.null
  compare_values (Value.int64 a) (Value.int64 b) cmp = ok (Value.bool (cmp (signed_cmp a b)))
  compare_values (Value.float64 a) (Value.float64 b) cmp = ok (Value.bool (cmp (O.ordered_cmp a b)))
  compare_values (Value.int64 a) (Value.float64 b) cmp =
      ok (Value.bool (cmp (or_equal (O.f64_partial_cmp (X.f64_from_i64 a) b))))
  compare_values (Value.float64 a) (Value.int64 b) cmp =
      ok (Value.bool (cmp (or_equal (O.f64_partial_cmp a (X.f64_from_i64 b)))))
  compare_values (Value.string a) (Value.string b) cmp = ok (Value.bool (cmp (text_cmp a b)))
  compare_values (Value.bytes a) (Value.bytes b) cmp = ok (Value.bool (cmp (text_cmp a b)))
  compare_values (Value.date a) (Value.date b) cmp = ok (Value.bool (cmp (O.date_cmp a b)))
  compare_values (Value.time a) (Value.time b) cmp = ok (Value.bool (cmp (O.time_cmp a b)))
  compare_values (Value.date_time a) (Value.date_time b) cmp =
      ok (Value.bool (cmp (O.datetime_cmp a b)))
  compare_values (Value.timestamp a) (Value.timestamp b) cmp =
      ok (Value.bool (cmp (O.timestamp_cmp a b)))
  compare_values (Value.numeric a) (Value.numeric b) cmp = ok (Value.bool (cmp (O.decimal_cmp a b)))
  compare_values (Value.numeric a) (Value.int64 b) cmp =
      ok (Value.bool (cmp (O.decimal_cmp a (X.decimal_from_i64 b))))
  compare_values (Value.int64 a) (Value.numeric b) cmp =
      ok (Value.bool (cmp (O.decimal_cmp (X.decimal_from_i64 a) b)))
  compare_values (Value.numeric a) (Value.float64 b) cmp =
      if_float (X.decimal_to_f64 a) (λ f. cmp (or_equal (O.f64_partial_cmp f b)))
  compare_values (Value.float64 a) (Value.numeric b) cmp =
      if_float (X.decimal_to_f64 b) (λ f. cmp (or_equal (O.f64_partial_cmp a f)))
  compare_values (Value.bool a) (Value.bool b) cmp = ok (Value.bool (cmp (bool_cmp a b)))
  compare_values (Value.interval a) (Value.interval b) cmp =
      ok (Value.bool (cmp (signed_cmp (total_nanos a) (total_nanos b))))
  compare_values left right cmp = cannot (codes "Cannot compare ") left (codes " with ") right
