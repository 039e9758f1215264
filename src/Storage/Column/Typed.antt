-- ===== src/Storage/Column/Typed.antt =====
-- The values that `set` of column.rs takes.
use yacht_sql.Prelude.{ℕ, ◌≡◌, refl, Bool, List}
use yacht_sql.Prelude.Text.{Text}
use yacht_sql.Common.Error.{ok}
use yacht_sql.Common.Externals.{Externals}
use yacht_sql.Common.Types.{
  DataType, StructFields, IntervalValue, Value, Values, ValueFields, RangeValue,
}
use yacht_sql.Storage.Cells.{Cells}
use yacht_sql.Storage.Column.{Column}
use yacht_sql.Storage.Column.Exact.{
  set, bool_exact, int64_exact, float64_exact, numeric_exact, string_exact, bytes_exact, date_exact,
  time_exact, date_time_exact, timestamp_exact, json_exact, array_exact, struct_exact,
  geography_exact, interval_exact, range_exact,
}

-- The value is null or has the type of the column.
pub data HasColumnType {X : Externals} : Column X → Value X → Type 0 where
  null : (col : Column X) → HasColumnType col Value.null
  bool : (c : Cells Bool) (v : Bool) → HasColumnType (Column.bool c) (Value.bool v)
  int64 : (c : Cells ℕ) (v : ℕ) → HasColumnType (Column.int64 c) (Value.int64 v)
  float64 : (c : Cells X.F64) (v : X.F64) → HasColumnType (Column.float64 c) (Value.float64 v)
  numeric :
      (c : Cells X.Decimal) (v : X.Decimal) → HasColumnType (Column.numeric c) (Value.numeric v)
  string : (c : Cells Text) (v : Text) → HasColumnType (Column.string c) (Value.string v)
  bytes : (c : Cells (List ℕ)) (v : List ℕ) → HasColumnType (Column.bytes c) (Value.bytes v)
  date : (c : Cells X.NaiveDate) (v : X.NaiveDate) → HasColumnType (Column.date c) (Value.date v)
  time : (c : Cells X.NaiveTime) (v : X.NaiveTime) → HasColumnType (Column.time c) (Value.time v)
  date_time :
      (c : Cells X.NaiveDateTime) (v : X.NaiveDateTime)
      → HasColumnType (Column.date_time c) (Value.date_time v)
  timestamp :
      (c : Cells X.DateTimeUtc) (v : X.DateTimeUtc)
      → HasColumnType (Column.timestamp c) (Value.timestamp v)
  json : (c : Cells X.Json) (v : X.Json) → HasColumnType (Column.json c) (Value.json v)
  array :
      (c : Cells (Values X)) (t : DataType) (v : Values X)
      → HasColumnType (Column.array c t) (Value.array v)
  struct :
      (c : Cells (ValueFields X)) (t : StructFields) (v : ValueFields X)
      → HasColumnType (Column.struct c t) (Value.struct v)
  geography : (c : Cells Text) (v : Text) → HasColumnType (Column.geography c) (Value.geography v)
  interval :
      (c : Cells IntervalValue) (v : IntervalValue)
      → HasColumnType (Column.interval c) (Value.interval v)
  range :
      (c : Cells (RangeValue X)) (t : DataType) (v : RangeValue X)
      → HasColumnType (Column.range c t) (Value.range v)

module _ {X : Externals} where
  set-null : (col : Column X) (i : ℕ) → (set col i Value.null).1 ≡ ok tt
  unfolding set bool_exact int64_exact float64_exact numeric_exact string_exact bytes_exact
      date_exact time_exact date_time_exact timestamp_exact json_exact array_exact struct_exact
      geography_exact interval_exact range_exact
  set-null (Column.bool c) i = refl
  set-null _ i = refl

  -- `set` takes such a value.
  pub set-HasColumnType :
      {col : Column X} {v : Value X} (i : ℕ) → HasColumnType col v → (set col i v).1 ≡ ok tt
  unfolding set bool_exact int64_exact float64_exact numeric_exact string_exact bytes_exact
      date_exact time_exact date_time_exact timestamp_exact json_exact array_exact struct_exact
      geography_exact interval_exact range_exact
  set-HasColumnType i (null col) = set-null col i
  set-HasColumnType i (bool c v) = refl
  set-HasColumnType i _ = refl
