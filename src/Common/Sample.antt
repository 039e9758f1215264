-- ===== src/Common/Sample.antt =====
-- Concrete externals for tests: numbers stand for the foreign values.
use Prim.Native.Nat.{compare}
use yacht_sql.Prelude.{ℕ, ◌+◌, ◌-◌, ◌*◌, ◌/◌, ◌%◌, true, [], ◌∷◌, none, some, ltb, leb, ◌==◌}
use yacht_sql.Prelude.Text.{Text, text_eq}
use yacht_sql.Common.Externals.{Externals}
use yacht_sql.Common.Operators.{Operators}

abbrev pub sample_externals : Externals
sample_externals = record {
  F64 = ℕ;
  Decimal = ℕ;
  NaiveDate = ℕ;
  NaiveTime = ℕ;
  NaiveDateTime = ℕ;
  DateTimeUtc = ℕ;
  Json = Text;
  f64_zero = 0;
  f64_add = ◌+◌;
  f64_as_i64 = λ v. v;
  f64_from_i64 = λ v. v;
  f64_to_text = λ v. v ∷ [];
  decimal_zero = 0;
  decimal_from_i64 = λ v. v;
  decimal_from_f64_retain = λ v. some v;
  decimal_to_f64 = λ v. some v;
  decimal_try_from_f64 = λ v. some v;
  decimal_to_text = λ v. v ∷ [];
  date_epoch = 0;
  time_midnight = 0;
  datetime_epoch = 0;
  timestamp_epoch = 0;
  date_to_text = λ v. v ∷ [];
  time_to_text = λ v. v ∷ [];
  datetime_to_text = λ v. v ∷ [];
  timestamp_to_rfc3339 = λ v. v ∷ [];
  timestamp_format = λ v. v ∷ [];
  json_null = [];
  json_string = λ s. s;
  json_from_str = λ s. none;
  json_to_text = λ s. s;
  hex_encode = λ bs. bs;
  from_utf8_lossy = λ bs. bs;
}

-- Numbers in the place of floats, decimals, dates and times.
abbrev pub sample_operators : Operators sample_externals
sample_operators = record {
  f64_sub = λ a b. (a - b) + (b - a);
  f64_mul = ◌*◌;
  f64_div = ◌/◌;
  f64_rem = ◌%◌;
  f64_neg = λ a. a;
  f64_abs = λ a. a;
  f64_epsilon = 1;
  f64_lt = ltb;
  f64_ge = λ a b. leb b a;
  f64_eq = ◌==◌;
  f64_partial_cmp = λ a b. some (compare a b);
  f64_is_finite = λ a. true;
  f64_parse = λ s. none;
  ordered_cmp = compare;
  ordered_eq = ◌==◌;
  decimal_add = ◌+◌;
  decimal_sub = ◌-◌;
  decimal_mul = ◌*◌;
  decimal_div = ◌/◌;
  decimal_rem = ◌%◌;
  decimal_neg = λ a. a;
  decimal_is_zero = λ a. a == 0;
  decimal_cmp = compare;
  decimal_eq = ◌==◌;
  date_cmp = compare;
  date_eq = ◌==◌;
  time_cmp = compare;
  time_eq = ◌==◌;
  datetime_cmp = compare;
  datetime_eq = ◌==◌;
  timestamp_cmp = compare;
  timestamp_eq = ◌==◌;
  date_checked_add_months = λ d n. some (d + n * 30);
  date_checked_sub_months = λ d n. some (d - n * 30);
  date_add_days = ◌+◌;
  datetime_checked_add_months = λ d n. some (d + n * 30);
  datetime_checked_sub_months = λ d n. some (d - n * 30);
  datetime_add_days = ◌+◌;
  datetime_add_nanoseconds = λ d n. d;
  naive_utc = λ t. t;
  and_utc = λ t. t;
  date_from_num_days_from_ce = λ n. some n;
  time_from_num_seconds_from_midnight = λ s n. some s;
  timestamp_from_micros = λ n. some n;
  datetime_from_timestamp = λ s n. some s;
  json_eq = text_eq;
}
