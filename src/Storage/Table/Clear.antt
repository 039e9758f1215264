-- ===== src/Storage/Table/Clear.antt =====
-- `clear` of table/core.rs, on any table.
use yacht_sql.Prelude.{◌≡◌, ◌∙◌, ◌%◌, refl, ap, List, [], ◌∷◌, map, length, length-map, All}
use yacht_sql.Common.Error.{ok}
use yacht_sql.Common.Externals.{Externals}
use yacht_sql.Prelude.Bits.{test_bit-zero}
use yacht_sql.Storage.Bitmap
use yacht_sql.Storage.Bitmap.Raw.{IsClean, raw_words}
use yacht_sql.Storage.Column
use yacht_sql.Storage.Column.{Column, nulls}
use yacht_sql.Storage.Column.Removal.{clear-IsValid, values-clear}
use yacht_sql.Storage.IndexMap.{IndexMap}
use yacht_sql.Storage.Table.{Table, column_list}
use yacht_sql.Storage.Table.RowOps.{clear, to_records}
use yacht_sql.Storage.Table.Rows.{HasRows, IsCleanColumn}
use yacht_sql.Storage.Table.Rectangular.{
  IsRectangular, IsCleanTable, rows, to_records-rows, assigned,
}

module _ {X : Externals} where
  clear-IsClean : (c : Column X) → IsClean (nulls (Column.clear c))
  unfolding Column.clear nulls Bitmap.clear raw_words
  clear-IsClean (Column.bool c) i h = test_bit-zero (i % 64)
  clear-IsClean _ i h = test_bit-zero (i % 64)

  cleared :
      (cs : List (Column X))
      → All (HasRows 0) (map Column.clear cs) × All IsCleanColumn (map Column.clear cs)
  cleared [] = (tt, tt)
  cleared (c ∷ cs) =
      let rest = cleared cs in
      (((clear-IsValid c, ap length (values-clear c)), rest.0), (clear-IsClean c, rest.1))

module _ {X : Externals} {I : IndexMap (Column X)} where
  -- Whatever the state of a table, `clear` leaves it rectangular, with no null flag behind its rows,
  -- with its schema and as many columns as before, and with no record.
  pub clear-IsRectangular :
      (t : Table X I)
      → IsRectangular (clear t)
        × IsCleanTable (clear t)
        × ((clear t).schema ≡ t.schema)
        × (length (column_list (clear t)) ≡ length (column_list t))
        × (to_records (clear t) ≡ ok [])
  unfolding clear rows
  clear-IsRectangular t =
      let cs = column_list t in
      let width = length-map Column.clear cs in
      let same = assigned I t.columns (map Column.clear cs) width in
      let (valid, clean) = cleared cs in
      (rw same valid, rw same clean, refl, ap length same ∙ width, to_records-rows (clear t))
