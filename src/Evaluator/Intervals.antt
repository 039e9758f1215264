-- ===== src/Evaluator/Intervals.antt =====
-- `add_interval_to_date`, `add_interval_to_datetime` and `negate_interval` of
-- crates/executor/src/ir_evaluator/helpers.rs.
use yacht_sql.Prelude.{ℕ, Option, none, some, ltb, ◌==◌, if◌then◌else◌}
use yacht_sql.Prelude.Text.{Text, codes}
use yacht_sql.Common.Error.{Result, ok, err, invalid_query, ◌>>=◌}
use yacht_sql.Common.Externals.{Externals}
use yacht_sql.Common.Operators.{Operators}
use yacht_sql.Common.Signed.{wrapping_neg, wrapping_neg_32, extend_32}
use yacht_sql.Common.Types.{IntervalValue}

-- option.ok_or_else(|| Error::InvalidQuery(message))
abbrev pub ok_or_invalid {ℓ} : {A : Type ℓ} → Text → Option A → Result A
ok_or_invalid message none = err (invalid_query message)
ok_or_invalid message (some a) = ok a

unfoldable pub negate_interval : IntervalValue → IntervalValue
unfolding wrapping_neg
negate_interval v = record {
  months = wrapping_neg_32 v.months;
  days = wrapping_neg_32 v.days;
  nanos = wrapping_neg v.nanos;
}

module _ {X : Externals} (O : Operators X) where
  -- The months forwards or, for a negative number, backwards.
  unfoldable pub shift_date : X.NaiveDate → ℕ → Result X.NaiveDate
  shift_date date months =
      if months == 0
      then ok date
      else if ltb months 0x80000000
      then ok_or_invalid (codes "Date overflow") (O.date_checked_add_months date months)
      else ok_or_invalid (codes "Date overflow")
          (O.date_checked_sub_months date (wrapping_neg_32 months))

  unfoldable pub add_interval_to_date : X.NaiveDate → IntervalValue → Result X.NaiveDate
  unfolding shift_date
  add_interval_to_date date v = shift_date date v.months >>= λ date'.
      ok (if v.days == 0 then date' else O.date_add_days date' (extend_32 v.days))

  unfoldable pub shift_datetime : X.NaiveDateTime → ℕ → Result X.NaiveDateTime
  shift_datetime dt months =
      if months == 0
      then ok dt
      else if ltb months 0x80000000
      then ok_or_invalid (codes "DateTime overflow") (O.datetime_checked_add_months dt months)
      else ok_or_invalid (codes "DateTime overflow")
          (O.datetime_checked_sub_months dt (wrapping_neg_32 months))

  abbrev add_days : X.NaiveDateTime → ℕ → X.NaiveDateTime
  add_days dt days = if days == 0 then dt else O.datetime_add_days dt (extend_32 days)

  abbrev add_nanos : X.NaiveDateTime → ℕ → X.NaiveDateTime
  add_nanos dt nanos = if nanos == 0 then dt else O.datetime_add_nanoseconds dt nanos

  unfoldable pub add_interval_to_datetime : X.NaiveDateTime → IntervalValue → Result X.NaiveDateTime
  unfolding shift_datetime
  add_interval_to_datetime dt v =
      shift_datetime dt v.months >>= λ dt'. ok (add_nanos (add_days dt' v.days) v.nanos)
