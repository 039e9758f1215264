-- ===== src/Common/Operators.antt =====
-- What the operators on values take from elsewhere, on the types of `Externals`: arithmetic and order
-- of floating point numbers, of rust_decimal, and of the dates and times of chrono.
use Prim.Native.Nat.{Ordering}
use yacht_sql.Prelude.{ℕ, Bool, Option}
use yacht_sql.Prelude.Text.{Text}
use yacht_sql.Common.Externals.{Externals}

pub record Operators (X : Externals) : Type 0 where
  -- f64: the operators, `abs`, EPSILON, `<`, `>=`, `==`, partial_cmp, is_finite and parse
  pub f64_sub : X.F64 → X.F64 → X.F64
  pub f64_mul : X.F64 → X.F64 → X.F64
  pub f64_div : X.F64 → X.F64 → X.F64
  pub f64_rem : X.F64 → X.F64 → X.F64
  pub f64_neg : X.F64 → X.F64
  pub f64_abs : X.F64 → X.F64
  pub f64_epsilon : X.F64
  pub f64_lt : X.F64 → X.F64 → Bool
  pub f64_ge : X.F64 → X.F64 → Bool
  pub f64_eq : X.F64 → X.F64 → Bool
  pub f64_partial_cmp : X.F64 → X.F64 → Option Ordering
  pub f64_is_finite : X.F64 → Bool
  pub f64_parse : Text → Option X.F64
  -- OrderedFloat, in whose order all numbers are comparable
  pub ordered_cmp : X.F64 → X.F64 → Ordering
  pub ordered_eq : X.F64 → X.F64 → Bool
  -- Decimal
  pub decimal_add : X.Decimal → X.Decimal → X.Decimal
  pub decimal_sub : X.Decimal → X.Decimal → X.Decimal
  pub decimal_mul : X.Decimal → X.Decimal → X.Decimal
  pub decimal_div : X.Decimal → X.Decimal → X.Decimal
  pub decimal_rem : X.Decimal → X.Decimal → X.Decimal
  pub decimal_neg : X.Decimal → X.Decimal
  pub decimal_is_zero : X.Decimal → Bool
  pub decimal_cmp : X.Decimal → X.Decimal → Ordering
  pub decimal_eq : X.Decimal → X.Decimal → Bool
  -- chrono: order, months forwards and backwards, days and nanoseconds, UTC
  pub date_cmp : X.NaiveDate → X.NaiveDate → Ordering
  pub date_eq : X.NaiveDate → X.NaiveDate → Bool
  pub time_cmp : X.NaiveTime → X.NaiveTime → Ordering
  pub time_eq : X.NaiveTime → X.NaiveTime → Bool
  pub datetime_cmp : X.NaiveDateTime → X.NaiveDateTime → Ordering
  pub datetime_eq : X.NaiveDateTime → X.NaiveDateTime → Bool
  pub timestamp_cmp : X.DateTimeUtc → X.DateTimeUtc → Ordering
  pub timestamp_eq : X.DateTimeUtc → X.DateTimeUtc → Bool
  pub date_checked_add_months : X.NaiveDate → ℕ → Option X.NaiveDate
  pub date_checked_sub_months : X.NaiveDate → ℕ → Option X.NaiveDate
  pub date_add_days : X.NaiveDate → ℕ → X.NaiveDate
  pub datetime_checked_add_months : X.NaiveDateTime → ℕ → Option X.NaiveDateTime
  pub datetime_checked_sub_months : X.NaiveDateTime → ℕ → Option X.NaiveDateTime
  pub datetime_add_days : X.NaiveDateTime → ℕ → X.NaiveDateTime
  pub datetime_add_nanoseconds : X.NaiveDateTime → ℕ → X.NaiveDateTime
  pub naive_utc : X.DateTimeUtc → X.NaiveDateTime
  pub and_utc : X.NaiveDateTime → X.DateTimeUtc
  -- chrono: from_num_days_from_ce_opt, from_num_seconds_from_midnight_opt, from_timestamp_micros,
  -- and from_timestamp in UTC
  pub date_from_num_days_from_ce : ℕ → Option X.NaiveDate
  pub time_from_num_seconds_from_midnight : ℕ → ℕ → Option X.NaiveTime
  pub timestamp_from_micros : ℕ → Option X.DateTimeUtc
  pub datetime_from_timestamp : ℕ → ℕ → Option X.NaiveDateTime
  -- serde_json::Value
  pub json_eq : X.Json → X.Json → Bool
