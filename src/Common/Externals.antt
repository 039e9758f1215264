-- ===== src/Common/Externals.antt =====
-- What the value and column code takes from elsewhere: the types of rust_decimal, chrono and
-- serde_json, floating point numbers, and how these are converted and displayed.
use yacht_sql.Prelude.{ℕ, List, Option}
use yacht_sql.Prelude.Text.{Text}

-- An i64 is the 64-bit pattern that stands for it, a byte is a number.
pub record Externals : Type 1 where
  pub F64 : Type 0
  pub Decimal : Type 0
  pub NaiveDate : Type 0
  pub NaiveTime : Type 0
  pub NaiveDateTime : Type 0
  pub DateTimeUtc : Type 0
  pub Json : Type 0
  -- 0.0, `+`, `v as i64`, `v as f64` and `to_string`
  pub f64_zero : F64
  pub f64_add : F64 → F64 → F64
  pub f64_as_i64 : F64 → ℕ
  pub f64_from_i64 : ℕ → F64
  pub f64_to_text : F64 → Text
  -- Decimal::ZERO, From<i64>, from_f64_retain, to_f64, TryFrom<f64> and to_string
  pub decimal_zero : Decimal
  pub decimal_from_i64 : ℕ → Decimal
  pub decimal_from_f64_retain : F64 → Option Decimal
  pub decimal_to_f64 : Decimal → Option F64
  pub decimal_try_from_f64 : F64 → Option Decimal
  pub decimal_to_text : Decimal → Text
  -- 1970-01-01, 00:00:00, and the epoch in its two forms
  pub date_epoch : NaiveDate
  pub time_midnight : NaiveTime
  pub datetime_epoch : NaiveDateTime
  pub timestamp_epoch : DateTimeUtc
  pub date_to_text : NaiveDate → Text
  pub time_to_text : NaiveTime → Text
  pub datetime_to_text : NaiveDateTime → Text
  pub timestamp_to_rfc3339 : DateTimeUtc → Text
  pub timestamp_format : DateTimeUtc → Text
  -- serde_json::Value::{Null, String}, from_str and to_string
  pub json_null : Json
  pub json_string : Text → Json
  pub json_from_str : Text → Option Json
  pub json_to_text : Json → Text
  -- hex::encode and String::from_utf8_lossy
  pub hex_encode : List ℕ → Text
  pub from_utf8_lossy : List ℕ → Text
