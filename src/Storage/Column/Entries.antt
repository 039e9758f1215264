-- ===== src/Storage/Column/Entries.antt =====
-- `push` of column.rs. An entry is what a value becomes in a column of one variant: the
-- datum and the null flag that the arm of the match writes, or none where no arm takes the value.
use yacht_sql.Prelude.{ℕ, Bool, true, false, not, ◌++◌, ◌||◌, List, [], Option, none, some, ◌==◌}
use yacht_sql.Prelude.Text.{Text, codes, text_eq, to_uppercase}
use yacht_sql.Common.Error.{Error, Result, ok, err, type_mismatch}
use yacht_sql.Common.Externals.{Externals}
use yacht_sql.Common.Int64.{parse_i64, show_i64}
use yacht_sql.Common.Types
use yacht_sql.Storage.Column
use yacht_sql.Common.Debug.{debug_type, show_bool, debug, debug_values, debug_pairs}
use yacht_sql.Common.Types.{
  StructFields, IntervalValue, Value, Values, nil, ValueFields, no_values, RangeValue, empty_range,
}
use yacht_sql.Storage.Cells
use yacht_sql.Storage.Cells.{Cells}
use yacht_sql.Storage.Column.{Column}
use yacht_sql.Storage.Column.Coercion.{coerce_struct_value}

-- Option::unwrap_or
abbrev pub get_or {ℓ} : {A : Type ℓ} → A → Option A → A
get_or d none = d
get_or d (some v) = v

-- matches!(v.to_uppercase().as_str(), "TRUE" | "1" | "YES")
unfoldable pub is_true_text : Text → Bool
unfolding text_eq to_uppercase
is_true_text v =
    let u = to_uppercase v in
    text_eq u (codes "TRUE") || text_eq u (codes "1") || text_eq u (codes "YES")

abbrev pub zero_interval : IntervalValue
zero_interval = record { months = 0; days = 0; nanos = 0 }

module _ {X : Externals} where
  -- format!("{:?}", fields) of a vector of pairs, and format!("{:?}", arr) of a vector of values
  unfoldable pub debug_struct : ValueFields X → Text
  unfolding debug_pairs
  debug_struct fs = codes "[" ++ (debug_pairs fs ++ codes "]")

  unfoldable pub debug_array : Values X → Text
  unfolding debug
  debug_array vs = codes "[" ++ (debug_values vs ++ codes "]")

  unfoldable pub bool_entry : Value X → Option (Bool × Bool)
  unfolding is_true_text
  bool_entry Value.null = some (false, true)
  bool_entry Value.default = some (false, true)
  bool_entry (Value.bool v) = some (v, false)
  bool_entry (Value.string v) = some (is_true_text v, false)
  bool_entry (Value.int64 v) = some (not (v == 0), false)
  bool_entry _ = none

  unfoldable pub int64_entry : Value X → Option (ℕ × Bool)
  unfolding parse_i64
  int64_entry Value.null = some (0, true)
  int64_entry Value.default = some (0, true)
  int64_entry (Value.int64 v) = some (v, false)
  int64_entry (Value.float64 v) = some (X.f64_as_i64 v, false)
  int64_entry (Value.string v) = some (get_or 0 (parse_i64 v), false)
  int64_entry _ = none

  unfoldable pub float64_entry : Value X → Option (X.F64 × Bool)
  float64_entry Value.null = some (X.f64_zero, true)
  float64_entry Value.default = some (X.f64_zero, true)
  float64_entry (Value.float64 v) = some (v, false)
  float64_entry (Value.int64 v) = some (X.f64_from_i64 v, false)
  float64_entry (Value.numeric v) = some (get_or X.f64_zero (X.decimal_to_f64 v), false)
  float64_entry _ = none

  unfoldable pub numeric_entry : Value X → Option (X.Decimal × Bool)
  numeric_entry Value.null = some (X.decimal_zero, true)
  numeric_entry Value.default = some (X.decimal_zero, true)
  numeric_entry (Value.numeric v) = some (v, false)
  numeric_entry (Value.float64 v) =
      some (get_or X.decimal_zero (X.decimal_from_f64_retain v), false)
  numeric_entry (Value.int64 v) = some (X.decimal_from_i64 v, false)
  numeric_entry _ = none

  unfoldable pub string_entry : Value X → Option (Text × Bool)
  unfolding show_i64 show_bool debug_struct debug_array
  string_entry Value.null = some ([], true)
  string_entry Value.default = some ([], true)
  string_entry (Value.string v) = some (v, false)
  string_entry (Value.int64 v) = some (show_i64 v, false)
  string_entry (Value.float64 v) = some (X.f64_to_text v, false)
  string_entry (Value.date v) = some (X.date_to_text v, false)
  string_entry (Value.date_time v) = some (X.datetime_to_text v, false)
  string_entry (Value.timestamp v) = some (X.timestamp_to_rfc3339 v, false)
  string_entry (Value.time v) = some (X.time_to_text v, false)
  string_entry (Value.bool v) = some (show_bool v, false)
  string_entry (Value.struct fs) = some (debug_struct fs, false)
  string_entry (Value.array vs) = some (debug_array vs, false)
  string_entry (Value.numeric v) = some (X.decimal_to_text v, false)
  string_entry (Value.bytes v) = some (X.from_utf8_lossy v, false)
  string_entry _ = none

  unfoldable pub bytes_entry : Value X → Option ((List ℕ) × Bool)
  bytes_entry Value.null = some ([], true)
  bytes_entry Value.default = some ([], true)
  bytes_entry (Value.bytes v) = some (v, false)
  bytes_entry _ = none

  unfoldable pub date_entry : Value X → Option (X.NaiveDate × Bool)
  date_entry Value.null = some (X.date_epoch, true)
  date_entry Value.default = some (X.date_epoch, true)
  date_entry (Value.date v) = some (v, false)
  date_entry _ = none

  unfoldable pub time_entry : Value X → Option (X.NaiveTime × Bool)
  time_entry Value.null = some (X.time_midnight, true)
  time_entry Value.default = some (X.time_midnight, true)
  time_entry (Value.time v) = some (v, false)
  time_entry _ = none

  unfoldable pub date_time_entry : Value X → Option (X.NaiveDateTime × Bool)
  date_time_entry Value.null = some (X.datetime_epoch, true)
  date_time_entry Value.default = some (X.datetime_epoch, true)
  date_time_entry (Value.date_time v) = some (v, false)
  date_time_entry _ = none

  unfoldable pub timestamp_entry : Value X → Option (X.DateTimeUtc × Bool)
  timestamp_entry Value.null = some (X.timestamp_epoch, true)
  timestamp_entry Value.default = some (X.timestamp_epoch, true)
  timestamp_entry (Value.timestamp v) = some (v, false)
  timestamp_entry _ = none

  unfoldable pub json_entry : Value X → Option (X.Json × Bool)
  json_entry Value.null = some (X.json_null, true)
  json_entry Value.default = some (X.json_null, true)
  json_entry (Value.json v) = some (v, false)
  json_entry (Value.string v) = some (get_or (X.json_string v) (X.json_from_str v), false)
  json_entry _ = none

  unfoldable pub array_entry : Value X → Option ((Values X) × Bool)
  array_entry Value.null = some (nil, true)
  array_entry Value.default = some (nil, true)
  array_entry (Value.array v) = some (v, false)
  array_entry _ = none

  unfoldable pub struct_entry : StructFields → Value X → Option ((ValueFields X) × Bool)
  unfolding coerce_struct_value
  struct_entry ts Value.null = some (no_values, true)
  struct_entry ts Value.default = some (no_values, true)
  struct_entry ts (Value.struct fs) = some (coerce_struct_value fs ts, false)
  struct_entry ts _ = none

  unfoldable pub geography_entry : Value X → Option (Text × Bool)
  geography_entry Value.null = some ([], true)
  geography_entry Value.default = some ([], true)
  geography_entry (Value.geography v) = some (v, false)
  geography_entry _ = none

  unfoldable pub interval_entry : Value X → Option (IntervalValue × Bool)
  interval_entry Value.null = some (zero_interval, true)
  interval_entry Value.default = some (zero_interval, true)
  interval_entry (Value.interval v) = some (v, false)
  interval_entry _ = none

  unfoldable pub range_entry : Value X → Option ((RangeValue X) × Bool)
  range_entry Value.null = some (empty_range, true)
  range_entry Value.default = some (empty_range, true)
  range_entry (Value.range v) = some (v, false)
  range_entry _ = none

  abbrev pub cannot_push : Value X → Column X → Error
  cannot_push v col = type_mismatch (
      codes "Cannot push "
      ++ (debug_type (Types.data_type v)
          ++ (codes " to column of type " ++ debug_type (Column.data_type col))))

  -- The end of an arm of `push`: the cells that it leaves under the column's variant, or the error.
  abbrev pub push_entry :
      {A : Type 0}
      → (Cells A → Column X)
      → Cells A
      → Option (A × Bool)
      → Error
      → Column X × Result (Unit {0})
  push_entry col c none e = (col c, err e)
  push_entry col c (some entry) e = (col (Cells.push c entry), ok tt)

  unfoldable pub push : Column X → Value X → Column X × Result (Unit {0})
  unfolding Cells.push bool_entry int64_entry float64_entry numeric_entry string_entry bytes_entry
      date_entry time_entry date_time_entry timestamp_entry json_entry array_entry struct_entry
      geography_entry interval_entry range_entry
  push (Column.bool c) v = push_entry Column.bool c (bool_entry v) (cannot_push v (Column.bool c))
  push (Column.int64 c) v =
      push_entry Column.int64 c (int64_entry v) (cannot_push v (Column.int64 c))
  push (Column.float64 c) v =
      push_entry Column.float64 c (float64_entry v) (cannot_push v (Column.float64 c))
  push (Column.numeric c) v =
      push_entry Column.numeric c (numeric_entry v) (cannot_push v (Column.numeric c))
  push (Column.string c) v =
      push_entry Column.string c (string_entry v) (cannot_push v (Column.string c))
  push (Column.bytes c) v =
      push_entry Column.bytes c (bytes_entry v) (cannot_push v (Column.bytes c))
  push (Column.date c) v = push_entry Column.date c (date_entry v) (cannot_push v (Column.date c))
  push (Column.time c) v = push_entry Column.time c (time_entry v) (cannot_push v (Column.time c))
  push (Column.date_time c) v =
      push_entry Column.date_time c (date_time_entry v) (cannot_push v (Column.date_time c))
  push (Column.timestamp c) v =
      push_entry Column.timestamp c (timestamp_entry v) (cannot_push v (Column.timestamp c))
  push (Column.json c) v = push_entry Column.json c (json_entry v) (cannot_push v (Column.json c))
  push (Column.array c t) v =
      push_entry (λ d. Column.array d t) c (array_entry v) (cannot_push v (Column.array c t))
  push (Column.struct c t) v =
      push_entry (λ d. Column.struct d t) c (struct_entry t v) (cannot_push v (Column.struct c t))
  push (Column.geography c) v =
      push_entry Column.geography c (geography_entry v) (cannot_push v (Column.geography c))
  push (Column.interval c) v =
      push_entry Column.interval c (interval_entry v) (cannot_push v (Column.interval c))
  push (Column.range c t) v =
      push_entry (λ d. Column.range d t) c (range_entry v) (cannot_push v (Column.range c t))
