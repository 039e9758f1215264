-- ===== src/Storage/Column.antt =====
-- `Column` of crates/storage/src/column.rs: a typed vector with a null bitmap.
pub mod Coercion
pub mod Entries
pub mod Exact
pub mod Typed
pub mod Rows
pub mod Push
pub mod Update
pub mod Removal
pub mod Operations
pub mod Agreement
pub mod Sum
pub mod Examples
use yacht_sql.Prelude.{
  ℕ, ◌-◌, Bool, true, false, ◌++◌, ◌||◌, List, [], Option, none, some, length, leb, ◌==◌,
  if◌then◌else◌,
}
use yacht_sql.Prelude.Text.{Text, codes}
use yacht_sql.Common.Int64.{show_i64}
use yacht_sql.Common.Error.{Error, Result, ok, err, type_mismatch, invalid_query}
use yacht_sql.Common.Externals.{Externals}
use yacht_sql.Common.Types.{
  DataType, StructFields, IntervalValue, Value, Values, ValueFields, RangeValue,
}
use yacht_sql.Storage.Bitmap
use yacht_sql.Storage.Cells
use yacht_sql.Storage.Cells.{Cells}

-- The field types of a struct column, a vector of pairs, are `StructFields`.
pub data Column (X : Externals) : Type 0 where
  bool : Cells Bool → Column X
  int64 : Cells ℕ → Column X
  float64 : Cells X.F64 → Column X
  numeric : Cells X.Decimal → Column X
  string : Cells Text → Column X
  bytes : Cells (List ℕ) → Column X
  date : Cells X.NaiveDate → Column X
  time : Cells X.NaiveTime → Column X
  date_time : Cells X.NaiveDateTime → Column X
  timestamp : Cells X.DateTimeUtc → Column X
  json : Cells X.Json → Column X
  array : Cells (Values X) → DataType → Column X
  struct : Cells (ValueFields X) → StructFields → Column X
  geography : Cells Text → Column X
  interval : Cells IntervalValue → Column X
  range : Cells (RangeValue X) → DataType → Column X

module _ (X : Externals) where
  unfoldable pub new : DataType → Column X
  unfolding Cells.new
  new DataType.bool = Column.bool Cells.new
  new DataType.int64 = Column.int64 Cells.new
  new DataType.float64 = Column.float64 Cells.new
  new (DataType.numeric p) = Column.numeric Cells.new
  new DataType.big_numeric = Column.numeric Cells.new
  new DataType.string = Column.string Cells.new
  new DataType.unknown = Column.string Cells.new
  new DataType.bytes = Column.bytes Cells.new
  new DataType.date = Column.date Cells.new
  new DataType.time = Column.time Cells.new
  new DataType.date_time = Column.date_time Cells.new
  new DataType.timestamp = Column.timestamp Cells.new
  new DataType.json = Column.json Cells.new
  new (DataType.array t) = Column.array Cells.new t
  new (DataType.struct t) = Column.struct Cells.new t
  new DataType.geography = Column.geography Cells.new
  new DataType.interval = Column.interval Cells.new
  new (DataType.range t) = Column.range Cells.new t

module _ {X : Externals} where
  unfoldable pub len : Column X → ℕ
  len (Column.bool c) = length c.values
  len (Column.int64 c) = length c.values
  len (Column.float64 c) = length c.values
  len (Column.numeric c) = length c.values
  len (Column.string c) = length c.values
  len (Column.bytes c) = length c.values
  len (Column.date c) = length c.values
  len (Column.time c) = length c.values
  len (Column.date_time c) = length c.values
  len (Column.timestamp c) = length c.values
  len (Column.json c) = length c.values
  len (Column.array c t) = length c.values
  len (Column.struct c t) = length c.values
  len (Column.geography c) = length c.values
  len (Column.interval c) = length c.values
  len (Column.range c t) = length c.values

  unfoldable pub is_empty : Column X → Bool
  unfolding len
  is_empty col = len col == 0

  unfoldable pub data_type : Column X → DataType
  data_type (Column.bool c) = DataType.bool
  data_type (Column.int64 c) = DataType.int64
  data_type (Column.float64 c) = DataType.float64
  data_type (Column.numeric c) = DataType.numeric none
  data_type (Column.string c) = DataType.string
  data_type (Column.bytes c) = DataType.bytes
  data_type (Column.date c) = DataType.date
  data_type (Column.time c) = DataType.time
  data_type (Column.date_time c) = DataType.date_time
  data_type (Column.timestamp c) = DataType.timestamp
  data_type (Column.json c) = DataType.json
  data_type (Column.array c t) = DataType.array t
  data_type (Column.struct c t) = DataType.struct t
  data_type (Column.geography c) = DataType.geography
  data_type (Column.interval c) = DataType.interval
  data_type (Column.range c t) = DataType.range t

  -- The bitmap of any variant.
  unfoldable pub nulls : Column X → Bitmap.NullBitmap
  nulls (Column.bool c) = c.nulls
  nulls (Column.int64 c) = c.nulls
  nulls (Column.float64 c) = c.nulls
  nulls (Column.numeric c) = c.nulls
  nulls (Column.string c) = c.nulls
  nulls (Column.bytes c) = c.nulls
  nulls (Column.date c) = c.nulls
  nulls (Column.time c) = c.nulls
  nulls (Column.date_time c) = c.nulls
  nulls (Column.timestamp c) = c.nulls
  nulls (Column.json c) = c.nulls
  nulls (Column.array c t) = c.nulls
  nulls (Column.struct c t) = c.nulls
  nulls (Column.geography c) = c.nulls
  nulls (Column.interval c) = c.nulls
  nulls (Column.range c t) = c.nulls

  unfoldable pub count_null : Column X → ℕ
  unfolding nulls Bitmap.count_null
  count_null col = Bitmap.count_null (nulls col)

  unfoldable pub count_valid : Column X → ℕ
  unfolding len count_null
  count_valid col = len col - count_null col

  unfoldable pub is_null : Column X → ℕ → Bool
  unfolding nulls Bitmap.is_null
  is_null col index = Bitmap.is_null (nulls col) index

  -- The datum of a row that is there and not null, as a value.
  abbrev pub to_value {ℓ} : {A : Type ℓ} → (A → Value X) → Option A → Value X
  to_value f none = Value.null
  to_value f (some v) = f v

  unfoldable pub get_value : Column X → ℕ → Value X
  unfolding Cells.read
  get_value (Column.bool c) i = to_value Value.bool (Cells.read c i)
  get_value (Column.int64 c) i = to_value Value.int64 (Cells.read c i)
  get_value (Column.float64 c) i = to_value Value.float64 (Cells.read c i)
  get_value (Column.numeric c) i = to_value Value.numeric (Cells.read c i)
  get_value (Column.string c) i = to_value Value.string (Cells.read c i)
  get_value (Column.bytes c) i = to_value Value.bytes (Cells.read c i)
  get_value (Column.date c) i = to_value Value.date (Cells.read c i)
  get_value (Column.time c) i = to_value Value.time (Cells.read c i)
  get_value (Column.date_time c) i = to_value Value.date_time (Cells.read c i)
  get_value (Column.timestamp c) i = to_value Value.timestamp (Cells.read c i)
  get_value (Column.json c) i = to_value Value.json (Cells.read c i)
  get_value (Column.array c t) i = to_value Value.array (Cells.read c i)
  get_value (Column.struct c t) i = to_value Value.struct (Cells.read c i)
  get_value (Column.geography c) i = to_value Value.geography (Cells.read c i)
  get_value (Column.interval c) i = to_value Value.interval (Cells.read c i)
  get_value (Column.range c t) i = to_value Value.range (Cells.read c i)

  unfoldable pub get : Column X → ℕ → Result (Value X)
  unfolding len is_null get_value
  get col index =
      if leb (len col) index
      then err (
          invalid_query (
            codes "Column index "
            ++ (show_i64 index
                ++ (codes " out of bounds (len: " ++ (show_i64 (len col) ++ codes ")")))))
      else if is_null col index
      then ok Value.null
      else ok (get_value col index)

  unfoldable pub remove : Column X → ℕ → Column X
  unfolding Cells.remove
  remove (Column.bool c) i = Column.bool (Cells.remove c i)
  remove (Column.int64 c) i = Column.int64 (Cells.remove c i)
  remove (Column.float64 c) i = Column.float64 (Cells.remove c i)
  remove (Column.numeric c) i = Column.numeric (Cells.remove c i)
  remove (Column.string c) i = Column.string (Cells.remove c i)
  remove (Column.bytes c) i = Column.bytes (Cells.remove c i)
  remove (Column.date c) i = Column.date (Cells.remove c i)
  remove (Column.time c) i = Column.time (Cells.remove c i)
  remove (Column.date_time c) i = Column.date_time (Cells.remove c i)
  remove (Column.timestamp c) i = Column.timestamp (Cells.remove c i)
  remove (Column.json c) i = Column.json (Cells.remove c i)
  remove (Column.array c t) i = Column.array (Cells.remove c i) t
  remove (Column.struct c t) i = Column.struct (Cells.remove c i) t
  remove (Column.geography c) i = Column.geography (Cells.remove c i)
  remove (Column.interval c) i = Column.interval (Cells.remove c i)
  remove (Column.range c t) i = Column.range (Cells.remove c i) t

  unfoldable pub clear : Column X → Column X
  unfolding Cells.clear
  clear (Column.bool c) = Column.bool (Cells.clear c)
  clear (Column.int64 c) = Column.int64 (Cells.clear c)
  clear (Column.float64 c) = Column.float64 (Cells.clear c)
  clear (Column.numeric c) = Column.numeric (Cells.clear c)
  clear (Column.string c) = Column.string (Cells.clear c)
  clear (Column.bytes c) = Column.bytes (Cells.clear c)
  clear (Column.date c) = Column.date (Cells.clear c)
  clear (Column.time c) = Column.time (Cells.clear c)
  clear (Column.date_time c) = Column.date_time (Cells.clear c)
  clear (Column.timestamp c) = Column.timestamp (Cells.clear c)
  clear (Column.json c) = Column.json (Cells.clear c)
  clear (Column.array c t) = Column.array (Cells.clear c) t
  clear (Column.struct c t) = Column.struct (Cells.clear c) t
  clear (Column.geography c) = Column.geography (Cells.clear c)
  clear (Column.interval c) = Column.interval (Cells.clear c)
  clear (Column.range c t) = Column.range (Cells.clear c) t
