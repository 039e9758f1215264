-- ===== src/Storage/Table/Examples.antt =====
-- Tests of the tables, and instances of their theorems.
use yacht_sql.Prelude.{
  false, some, true, map, ◌≡◌, refl, List, [], ◌∷◌, ◌++◌, arith, length, remove_at, set as list_set,
}
use yacht_sql.Prelude.Text.{codes, text_eq}
use yacht_sql.Common.Error.{Error, ok, err, type_mismatch}
use yacht_sql.Common.Debug.{debug_type}
use yacht_sql.Common.Types
use yacht_sql.Storage.Schema.Validation.{IsDistinct, names}
use yacht_sql.Prelude.Assoc.{text_mem, contains_key}
use yacht_sql.Storage.Table.Alter.{add_column, push_copies}
use yacht_sql.Storage.Table.Errors.{rows-push_row_error}
use yacht_sql.Common.Types.{DataType, Value}
use yacht_sql.Common.Sample.{sample_externals}
use yacht_sql.Prelude.Tabulate.{tabulate}
use yacht_sql.Storage.Bitmap.Flags.{flags}
use yacht_sql.Storage.Column
use yacht_sql.Storage.Column.{Column}
use yacht_sql.Storage.Column.Entries
use yacht_sql.Storage.Column.Examples.{one, one-IsValid, one-IsClean}
use yacht_sql.Storage.Column.Rows.{values}
use yacht_sql.Storage.IndexMap.{IndexMap, entry_list}
use yacht_sql.Storage.Schema.{FieldMode, Schema, Field, new_field}
use yacht_sql.Storage.Table.{Table, column_list, new, collect}
use yacht_sql.Storage.Table.Build.{IsFullWidth, from_values-rows}
use yacht_sql.Storage.Table.Rows.{stored_row, HasColumnTypes}
use yacht_sql.Storage.Column.Typed
use yacht_sql.Prelude.Assoc
use yacht_sql.Storage.Table.RowOps.{
  from_values, push_rows, push_row, update_row, remove_row, to_records, push_values,
}
use yacht_sql.Storage.Table.Rectangular.{
  IsRectangular, IsCleanTable, rows, rows-push_row, rows-update_row, rows-remove_row,
}

abbrev columns_map : IndexMap (Column sample_externals)
columns_map = entry_list (Column sample_externals)

abbrev sample_schema : Schema sample_externals
sample_schema = record {
  fields =
      new_field (codes "id") DataType.int64 FieldMode.required
      ∷ new_field (codes "size") DataType.int64 FieldMode.nullable
      ∷ [];
}

-- Two columns of integers with one row.
abbrev sample : Table sample_externals columns_map
sample = record {
  schema = sample_schema;
  columns = (codes "id", one) ∷ (codes "size", one) ∷ [];
  row_count = 1;
}

one_row : length (values one) ≡ 1
unfolding values Entries.push Column.new flags tabulate
one_row = refl

sample-IsRectangular : IsRectangular sample
sample-IsRectangular = ((one-IsValid, one_row), ((one-IsValid, one_row), tt))

sample-IsCleanTable : IsCleanTable sample
sample-IsCleanTable = (one-IsClean, (one-IsClean, tt))

abbrev new_row : List (Value sample_externals)
new_row = Value.string (codes "12") ∷ Value.null ∷ []

abbrev other_row : List (Value sample_externals)
other_row = Value.int64 9 ∷ Value.null ∷ []

takes_row : (push_row new_row sample).1 ≡ ok tt
unfolding push_row push_values Entries.push Column.new
takes_row = refl

typed_update : HasColumnTypes (column_list sample) other_row
unfolding Entries.push Column.new
typed_update = (Typed.int64 _ 9, (Typed.null _, tt))

rows-push_row_example :
    IsRectangular (push_row new_row sample).0
    × IsCleanTable (push_row new_row sample).0
    × (rows (push_row new_row sample).0
        ≡ rows sample ++ stored_row (column_list sample) new_row ∷ [])
rows-push_row_example =
    rows-push_row new_row sample sample-IsRectangular sample-IsCleanTable refl takes_row

rows-update_row_example :
    ((update_row 0 other_row sample).1 ≡ ok tt)
    × IsRectangular (update_row 0 other_row sample).0
    × (rows (update_row 0 other_row sample).0 ≡ list_set (rows sample) 0 other_row)
rows-update_row_example =
    rows-update_row 0 other_row sample sample-IsRectangular (omega arith) typed_update

rows-remove_row_example :
    IsRectangular (remove_row 0 sample) × (rows (remove_row 0 sample) ≡ remove_at (rows sample) 0)
rows-remove_row_example = rows-remove_row 0 sample sample-IsRectangular (omega arith)

abbrev script : List (List (Value sample_externals))
script = new_row ∷ other_row ∷ []

abbrev built : Table sample_externals columns_map
built = (push_row other_row (push_row new_row (new sample_schema)).0).0

builds : from_values sample_schema script ≡ ok built
unfolding from_values push_rows push_row push_values Entries.push Column.new new collect new_field
    text_eq Assoc.insert
builds = refl

script-IsFullWidth : IsFullWidth (column_list (new {I = columns_map} sample_schema)) script
unfolding new collect Assoc.insert new_field text_eq
script-IsFullWidth = (refl, (refl, tt))

from_values-rows_example :
    IsRectangular built
    × (to_records built
        ≡ ok (map (stored_row (column_list (new {I = columns_map} sample_schema))) script))
from_values-rows_example = from_values-rows sample_schema script built script-IsFullWidth builds

-- The second column refuses its value, when the first has taken its own.
abbrev bad_row : List (Value sample_externals)
bad_row = Value.int64 1 ∷ Value.bool true ∷ []

abbrev refusal : Error
refusal = type_mismatch (codes "Cannot push Bool to column of type Int64")

refuses_row : (push_row bad_row sample).1 ≡ err refusal
unfolding push_row push_values Entries.push Column.new debug_type Column.data_type Types.data_type
refuses_row = refl

ragged : map Column.len (column_list (push_row bad_row sample).0) ≡ 2 ∷ 1 ∷ []
unfolding push_row push_values Entries.push Column.new Column.len
ragged = refl

rows-push_row_error_example :
    ((push_row bad_row sample).0.schema ≡ sample.schema)
    × ((push_row bad_row sample).0.row_count ≡ 1)
    × (rows (push_row bad_row sample).0 ≡ rows sample)
rows-push_row_error_example =
    rows-push_row_error bad_row sample refusal sample-IsRectangular sample-IsCleanTable refuses_row

abbrev swapped_schema : Schema sample_externals
swapped_schema = record {
  fields =
      new_field (codes "count") DataType.int64 FieldMode.nullable
      ∷ new_field (codes "key") DataType.int64 FieldMode.required
      ∷ [];
}

swapped-IsDistinct : IsDistinct (names swapped_schema.fields)
unfolding new_field text_mem text_eq
swapped-IsDistinct = (refl, (refl, tt))

abbrev new_field_price : Field sample_externals
new_field_price = new_field (codes "price") DataType.int64 FieldMode.nullable

adds : (add_column new_field_price (some (Value.string (codes "5"))) sample).1 ≡ ok tt
unfolding add_column push_copies Entries.push Column.new new_field
adds = refl

free_name : contains_key (columns_map.entries sample.columns) new_field_price.name ≡ false
unfolding contains_key Assoc.get new_field text_eq
free_name = refl

-- The table that a refused row has left ragged.
abbrev uneven : Table sample_externals columns_map
uneven = (push_row bad_row sample).0
