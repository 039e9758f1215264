-- ===== src/Storage/Column/Exact.antt =====
-- `set` of column.rs, for an index in range.
use yacht_sql.Prelude.{ℕ, Bool, true, false, ◌++◌, List, [], Option, none, some}
use yacht_sql.Prelude.Text.{Text, codes}
use yacht_sql.Common.Error.{Error, Result, ok, err, type_mismatch}
use yacht_sql.Common.Externals.{Externals}
use yacht_sql.Common.Types.{
  IntervalValue, Value, Values, nil, ValueFields, no_values, RangeValue, empty_range,
}
use yacht_sql.Common.Debug.{debug_type}
use yacht_sql.Common.Types
use yacht_sql.Storage.Column
use yacht_sql.Storage.Cells
use yacht_sql.Storage.Cells.{Cells}
use yacht_sql.Storage.Column.{Column}
use yacht_sql.Storage.Column.Entries.{zero_interval}

module _ {X : Externals} where
  -- `set` takes a null or a value of the column's own variant, and stores it as it is.
  unfoldable pub bool_exact : Value X → Option (Bool × Bool)
  bool_exact Value.null = some (false, true)
  bool_exact (Value.bool v) = some (v, false)
  bool_exact _ = none

  unfoldable pub int64_exact : Value X → Option (ℕ × Bool)
  int64_exact Value.null = some (0, true)
  int64_exact (Value.int64 v) = some (v, false)
  int64_exact _ = none

  unfoldable pub float64_exact : Value X → Option (X.F64 × Bool)
  float64_exact Value.null = some (X.f64_zero, true)
  float64_exact (Value.float64 v) = some (v, false)
  float64_exact _ = none

  unfoldable pub numeric_exact : Value X → Option (X.Decimal × Bool)
  numeric_exact Value.null = some (X.decimal_zero, true)
  numeric_exact (Value.numeric v) = some (v, false)
  numeric_exact _ = none

  unfoldable pub string_exact : Value X → Option (Text × Bool)
  string_exact Value.null = some ([], true)
  string_exact (Value.string v) = some (v, false)
  string_exact _ = none

  unfoldable pub bytes_exact : Value X → Option ((List ℕ) × Bool)
  bytes_exact Value.null = some ([], true)
  bytes_exact (Value.bytes v) = some (v, false)
  bytes_exact _ = none

  unfoldable pub date_exact : Value X → Option (X.NaiveDate × Bool)
  date_exact Value.null = some (X.date_epoch, true)
  date_exact (Value.date v) = some (v, false)
  date_exact _ = none

  unfoldable pub time_exact : Value X → Option (X.NaiveTime × Bool)
  time_exact Value.null = some (X.time_midnight, true)
  time_exact (Value.time v) = some (v, false)
  time_exact _ = none

  unfoldable pub date_time_exact : Value X → Option (X.NaiveDateTime × Bool)
  date_time_exact Value.null = some (X.datetime_epoch, true)
  date_time_exact (Value.date_time v) = some (v, false)
  date_time_exact _ = none

  unfoldable pub timestamp_exact : Value X → Option (X.DateTimeUtc × Bool)
  timestamp_exact Value.null = some (X.timestamp_epoch, true)
  timestamp_exact (Value.timestamp v) = some (v, false)
  timestamp_exact _ = none

  unfoldable pub json_exact : Value X → Option (X.Json × Bool)
  json_exact Value.null = some (X.json_null, true)
  json_exact (Value.json v) = some (v, false)
  json_exact _ = none

  unfoldable pub array_exact : Value X → Option ((Values X) × Bool)
  array_exact Value.null = some (nil, true)
  array_exact (Value.array v) = some (v, false)
  array_exact _ = none

  unfoldable pub struct_exact : Value X → Option ((ValueFields X) × Bool)
  struct_exact Value.null = some (no_values, true)
  struct_exact (Value.struct v) = some (v, false)
  struct_exact _ = none

  unfoldable pub geography_exact : Value X → Option (Text × Bool)
  geography_exact Value.null = some ([], true)
  geography_exact (Value.geography v) = some (v, false)
  geography_exact _ = none

  unfoldable pub interval_exact : Value X → Option (IntervalValue × Bool)
  interval_exact Value.null = some (zero_interval, true)
  interval_exact (Value.interval v) = some (v, false)
  interval_exact _ = none

  unfoldable pub range_exact : Value X → Option ((RangeValue X) × Bool)
  range_exact Value.null = some (empty_range, true)
  range_exact (Value.range v) = some (v, false)
  range_exact _ = none

  abbrev pub cannot_set : Value X → Column X → Error
  cannot_set v col = type_mismatch (
      codes "Cannot set "
      ++ (debug_type (Types.data_type v)
          ++ (codes " in column of type " ++ debug_type (Column.data_type col))))

  -- The end of an arm of `set`: the cells that it leaves, or the error.
  abbrev pub set_entry :
      {A : Type 0}
      → (Cells A → Column X)
      → Cells A
      → ℕ
      → Option (A × Bool)
      → Error
      → Column X × Result (Unit {0})
  set_entry col c i none e = (col c, err e)
  set_entry col c i (some entry) e = (col (Cells.set c i entry), ok tt)

  unfoldable pub set : Column X → ℕ → Value X → Column X × Result (Unit {0})
  unfolding Cells.set bool_exact int64_exact float64_exact numeric_exact string_exact bytes_exact
      date_exact time_exact date_time_exact timestamp_exact json_exact array_exact struct_exact
      geography_exact interval_exact range_exact
  set (Column.bool c) i v = set_entry Column.bool c i (bool_exact v) (cannot_set v (Column.bool c))
  set (Column.int64 c) i v =
      set_entry Column.int64 c i (int64_exact v) (cannot_set v (Column.int64 c))
  set (Column.float64 c) i v =
      set_entry Column.float64 c i (float64_exact v) (cannot_set v (Column.float64 c))
  set (Column.numeric c) i v =
      set_entry Column.numeric c i (numeric_exact v) (cannot_set v (Column.numeric c))
  set (Column.string c) i v =
      set_entry Column.string c i (string_exact v) (cannot_set v (Column.string c))
  set (Column.bytes c) i v =
      set_entry Column.bytes c i (bytes_exact v) (cannot_set v (Column.bytes c))
  set (Column.date c) i v = set_entry Column.date c i (date_exact v) (cannot_set v (Column.date c))
  set (Column.time c) i v = set_entry Column.time c i (time_exact v) (cannot_set v (Column.time c))
  set (Column.date_time c) i v =
      set_entry Column.date_time c i (date_time_exact v) (cannot_set v (Column.date_time c))
  set (Column.timestamp c) i v =
      set_entry Column.timestamp c i (timestamp_exact v) (cannot_set v (Column.timestamp c))
  set (Column.json c) i v = set_entry Column.json c i (json_exact v) (cannot_set v (Column.json c))
  set (Column.array c t) i v =
      set_entry (λ d. Column.array d t) c i (array_exact v) (cannot_set v (Column.array c t))
  set (Column.struct c t) i v =
      set_entry (λ d. Column.struct d t) c i (struct_exact v) (cannot_set v (Column.struct c t))
  set (Column.geography c) i v =
      set_entry Column.geography c i (geography_exact v) (cannot_set v (Column.geography c))
  set (Column.interval c) i v =
      set_entry Column.interval c i (interval_exact v) (cannot_set v (Column.interval c))
  set (Column.range c t) i v =
      set_entry (λ d. Column.range d t) c i (range_exact v) (cannot_set v (Column.range c t))
