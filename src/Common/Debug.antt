-- ===== src/Common/Debug.antt =====
-- `impl Debug for Value` of crates/common/src/types/mod.rs, by which a struct or an array is stored
-- in a string column.
use yacht_sql.Prelude.{
  ℕ, Bool, true, false, [], ◌∷◌, ◌++◌, ◌||◌, ◌==◌, ◌+◌, ◌-◌, ◌/◌, ◌%◌, ltb, Option, none, some, ◌≡◌,
  refl, if◌then◌else◌,
}
use yacht_sql.Prelude.Text.{Text, codes}
use yacht_sql.Common.Externals.{Externals}
use yacht_sql.Common.Int64.{show_i32, show_i64}
use yacht_sql.Common.Types.{
  Value, Values, nil, cons, ValueFields, no_values, named, RangeValue, range_value, Bound,
  unbounded, bound, IntervalValue, DataType, StructFields, no_fields, field,
}

-- `{}` of a bool
unfoldable pub show_bool : Bool → Text
show_bool true = codes "true"
show_bool false = codes "false"

-- before, the text, after
abbrev pub wrap : Text → Text → Text → Text
wrap before s after = before ++ (s ++ after)

unfoldable pub debug_interval : IntervalValue → Text
unfolding show_i32 show_i64
debug_interval v =
    codes "INTERVAL "
    ++ (show_i32 v.months
        ++ (codes " months "
            ++ (show_i32 v.days ++ (codes " days " ++ (show_i64 v.nanos ++ codes " nanos")))))

module _ {X : Externals} where
  unfoldable mutual
    unfolding show_bool show_i64 debug_interval

    pub debug : Value X → Text
    debug Value.null = codes "NULL"
    debug (Value.bool v) = show_bool v
    debug (Value.int64 v) = show_i64 v
    debug (Value.float64 v) = X.f64_to_text v
    debug (Value.numeric v) = X.decimal_to_text v
    debug (Value.big_numeric v) = X.decimal_to_text v
    debug (Value.string v) = wrap (codes "'") v (codes "'")
    debug (Value.bytes v) = wrap (codes "b'") (X.hex_encode v) (codes "'")
    debug (Value.date v) = wrap (codes "DATE '") (X.date_to_text v) (codes "'")
    debug (Value.time v) = wrap (codes "TIME '") (X.time_to_text v) (codes "'")
    debug (Value.date_time v) = wrap (codes "DATETIME '") (X.datetime_to_text v) (codes "'")
    debug (Value.timestamp v) = wrap (codes "TIMESTAMP '") (X.timestamp_format v) (codes "'")
    debug (Value.json v) = wrap (codes "JSON '") (X.json_to_text v) (codes "'")
    debug (Value.array vs) = wrap (codes "[") (debug_values vs) (codes "]")
    debug (Value.struct fs) = wrap (codes "STRUCT(") (debug_fields fs) (codes ")")
    debug (Value.geography v) = wrap (codes "GEOGRAPHY '") v (codes "'")
    debug (Value.interval v) = debug_interval v
    debug (Value.range r) = wrap (codes "RANGE(") (debug_range r) (codes ")")
    debug Value.default = codes "DEFAULT"

    -- the elements, with ", " between them
    pub debug_values : Values X → Text
    debug_values nil = []
    debug_values (cons v vs) = debug v ++ debug_more_values vs

    pub debug_more_values : Values X → Text
    debug_more_values nil = []
    debug_more_values (cons v vs) = codes ", " ++ (debug v ++ debug_more_values vs)

    pub debug_fields : ValueFields X → Text
    debug_fields no_values = []
    debug_fields (named name v fs) = name ++ (codes ": " ++ (debug v ++ debug_more_fields fs))

    pub debug_more_fields : ValueFields X → Text
    debug_more_fields no_values = []
    debug_more_fields (named name v fs) =
        codes ", " ++ (name ++ (codes ": " ++ (debug v ++ debug_more_fields fs)))

    pub debug_range : RangeValue X → Text
    debug_range (range_value s e) = debug_bound s ++ (codes ", " ++ debug_bound e)

    pub debug_bound : Bound X → Text
    debug_bound unbounded = codes "NULL"
    debug_bound (bound v) = debug v

-- A hexadecimal digit.
abbrev hex_digit : ℕ → ℕ
hex_digit d = if ltb d 10 then b'0' + d else b'a' + (d - 10)

-- `\u{…}` of an ASCII control character
abbrev escape_control : ℕ → Text
escape_control c =
    codes "\\u{"
    ++ ((if ltb c 16 then [] else hex_digit (c / 16) ∷ []) ++ (hex_digit (c % 16) ∷ codes "}"))

-- One character of a string between quotes, as `{:?}` escapes it; of characters behind ASCII none is
-- escaped here.
abbrev escape : ℕ → Text
escape c =
    if c == b'"' || c == 92
    then 92 ∷ c ∷ []
    else if c == 10
    then codes "\\n"
    else if c == 13
    then codes "\\r"
    else if c == 9
    then codes "\\t"
    else if c == 0
    then codes "\\0"
    else if ltb c 32 || c == 127
    then escape_control c
    else c ∷ []

escape_all : Text → Text
escape_all [] = []
escape_all (c ∷ s) = escape c ++ escape_all s

unfoldable pub debug_text : Text → Text
unfolding escape_all
debug_text s = b'"' ∷ (escape_all s ++ b'"' ∷ [])

module _ {X : Externals} where
  abbrev debug_pair : Text → Value X → Text
  debug_pair name v = wrap (codes "(") (debug_text name ++ (codes ", " ++ debug v)) (codes ")")

  -- `{:?}` of a vector of pairs: the pairs in parentheses, with ", " between them
  unfoldable pub debug_pairs : ValueFields X → Text
  unfolding debug debug_text
  debug_pairs no_values = []
  debug_pairs (named name v no_values) = debug_pair name v
  debug_pairs (named name v (named n w fs)) =
      debug_pair name v ++ (codes ", " ++ debug_pairs (named n w fs))

-- derive(Debug) of `DataType` and of `StructField`
abbrev debug_precision : Option (ℕ × ℕ) → Text
debug_precision none = codes "None"
debug_precision (some (p, s)) =
    wrap (codes "Some((") (show_i64 p ++ (codes ", " ++ show_i64 s)) (codes "))")

unfoldable mutual
  unfolding show_i64 debug_text

  pub debug_type : DataType → Text
  debug_type DataType.unknown = codes "Unknown"
  debug_type DataType.bool = codes "Bool"
  debug_type DataType.int64 = codes "Int64"
  debug_type DataType.float64 = codes "Float64"
  debug_type (DataType.numeric p) = wrap (codes "Numeric(") (debug_precision p) (codes ")")
  debug_type DataType.big_numeric = codes "BigNumeric"
  debug_type DataType.string = codes "String"
  debug_type DataType.bytes = codes "Bytes"
  debug_type DataType.date = codes "Date"
  debug_type DataType.date_time = codes "DateTime"
  debug_type DataType.time = codes "Time"
  debug_type DataType.timestamp = codes "Timestamp"
  debug_type DataType.geography = codes "Geography"
  debug_type DataType.json = codes "Json"
  debug_type (DataType.struct no_fields) = codes "Struct([])"
  debug_type (DataType.struct (field n t fs)) =
      wrap (codes "Struct([")
        (wrap (codes "StructField { name: ")
            (debug_text n ++ (codes ", data_type: " ++ debug_type t)) (codes " }")
          ++ debug_more_types fs)
        (codes "])")
  debug_type (DataType.array t) = wrap (codes "Array(") (debug_type t) (codes ")")
  debug_type DataType.interval = codes "Interval"
  debug_type (DataType.range t) = wrap (codes "Range(") (debug_type t) (codes ")")

  pub debug_more_types : StructFields → Text
  debug_more_types no_fields = []
  debug_more_types (field n t fs) =
      codes ", "
      ++ (wrap (codes "StructField { name: ")
            (debug_text n ++ (codes ", data_type: " ++ debug_type t)) (codes " }")
          ++ debug_more_types fs)

type_examples :
    (debug_type (DataType.struct (field (codes "a") (DataType.numeric (some (38, 9))) no_fields))
      ≡ codes "Struct([StructField { name: \"a\", data_type: Numeric(Some((38, 9))) }])")
    × (debug_text (codes "a\"\n") ≡ codes "\"a\\\"\\n\"")
unfolding debug_type debug_text
type_examples = (refl, refl)
