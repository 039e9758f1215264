-- ===== src/Common/Types.antt =====
-- `DataType` and `Value` of crates/common/src/types/mod.rs.
use yacht_sql.Prelude.{ℕ, Bool, true, false, List, ◌++◌, Option, none}
use yacht_sql.Prelude.Text.{Text, codes}
use yacht_sql.Common.Externals.{Externals}

mutual
  pub data DataType : Type 0 where
    unknown bool int64 float64 big_numeric string bytes date date_time time : DataType
    timestamp geography json interval : DataType
    numeric : Option (ℕ × ℕ) → DataType
    struct : StructFields → DataType
    array range : DataType → DataType

  -- Vec<StructField>
  pub data StructFields : Type 0 where
    no_fields : StructFields
    field : Text → DataType → StructFields → StructFields

-- `DataType::to_bq_type`
unfoldable pub to_bq_type : DataType → Text
to_bq_type DataType.unknown = codes "STRING"
to_bq_type DataType.bool = codes "BOOLEAN"
to_bq_type DataType.int64 = codes "INT64"
to_bq_type DataType.float64 = codes "FLOAT64"
to_bq_type (DataType.numeric p) = codes "NUMERIC"
to_bq_type DataType.big_numeric = codes "BIGNUMERIC"
to_bq_type DataType.string = codes "STRING"
to_bq_type DataType.bytes = codes "BYTES"
to_bq_type DataType.date = codes "DATE"
to_bq_type DataType.date_time = codes "DATETIME"
to_bq_type DataType.time = codes "TIME"
to_bq_type DataType.timestamp = codes "TIMESTAMP"
to_bq_type DataType.geography = codes "GEOGRAPHY"
to_bq_type DataType.json = codes "JSON"
to_bq_type (DataType.struct fs) = codes "STRUCT"
to_bq_type (DataType.array inner) = codes "ARRAY<" ++ (to_bq_type inner ++ codes ">")
to_bq_type DataType.interval = codes "INTERVAL"
to_bq_type (DataType.range inner) = codes "STRING"

-- months and days are i32 patterns, nanos an i64 pattern.
pub record IntervalValue : Type 0 where
  pub months : ℕ
  pub days : ℕ
  pub nanos : ℕ

mutual
  pub data Value (X : Externals) : Type 0 where
    null default : Value X
    bool : Bool → Value X
    int64 : ℕ → Value X
    float64 : X.F64 → Value X
    numeric big_numeric : X.Decimal → Value X
    string geography : Text → Value X
    bytes : List ℕ → Value X
    date : X.NaiveDate → Value X
    time : X.NaiveTime → Value X
    date_time : X.NaiveDateTime → Value X
    timestamp : X.DateTimeUtc → Value X
    json : X.Json → Value X
    array : Values X → Value X
    struct : ValueFields X → Value X
    interval : IntervalValue → Value X
    range : RangeValue X → Value X

  -- Vec<Value>
  pub data Values (X : Externals) : Type 0 where
    nil : Values X
    cons : Value X → Values X → Values X

  -- Vec<(String, Value)>
  pub data ValueFields (X : Externals) : Type 0 where
    no_values : ValueFields X
    named : Text → Value X → ValueFields X → ValueFields X

  -- `RangeValue`, with its start and its end
  pub data RangeValue (X : Externals) : Type 0 where
    range_value : Bound X → Bound X → RangeValue X

  -- Option<Box<Value>>
  pub data Bound (X : Externals) : Type 0 where
    unbounded : Bound X
    bound : Value X → Bound X

-- RangeValue::new(None, None)
abbrev pub empty_range : {X : Externals} → RangeValue X
empty_range = range_value unbounded unbounded

module _ {X : Externals} where
  unfoldable mutual
    -- `Value::data_type`
    pub data_type : Value X → DataType
    data_type Value.null = DataType.unknown
    data_type Value.default = DataType.unknown
    data_type (Value.bool v) = DataType.bool
    data_type (Value.int64 v) = DataType.int64
    data_type (Value.float64 v) = DataType.float64
    data_type (Value.numeric v) = DataType.numeric none
    data_type (Value.big_numeric v) = DataType.big_numeric
    data_type (Value.string v) = DataType.string
    data_type (Value.geography v) = DataType.geography
    data_type (Value.bytes v) = DataType.bytes
    data_type (Value.date v) = DataType.date
    data_type (Value.time v) = DataType.time
    data_type (Value.date_time v) = DataType.date_time
    data_type (Value.timestamp v) = DataType.timestamp
    data_type (Value.json v) = DataType.json
    data_type (Value.array vs) = DataType.array (first_type vs)
    data_type (Value.struct fs) = DataType.struct (field_types fs)
    data_type (Value.interval v) = DataType.interval
    data_type (Value.range r) = DataType.range (element_type r)

    pub first_type : Values X → DataType
    first_type nil = DataType.unknown
    first_type (cons v vs) = data_type v

    pub field_types : ValueFields X → StructFields
    field_types no_values = no_fields
    field_types (named name v fs) = field name (data_type v) (field_types fs)

    -- `RangeValue::element_type`
    pub element_type : RangeValue X → DataType
    element_type (range_value (bound v) end) = data_type v
    element_type (range_value unbounded end) = bound_type end

    pub bound_type : Bound X → DataType
    bound_type unbounded = DataType.unknown
    bound_type (bound v) = data_type v

  -- `Value::is_null`
  unfoldable pub is_null : Value X → Bool
  is_null Value.null = true
  is_null _ = false
