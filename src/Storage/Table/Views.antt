-- ===== src/Storage/Table/Views.antt =====
-- `with_schema`, `with_reordered_schema` and `to_query_result` of table/core.rs, which make a table
-- or a result of a table, with `ColumnInfo` and `QueryResult` of crates/common/src/result.rs.
use yacht_sql.Prelude.{ℕ, List, [], ◌∷◌, none, some, get_elem?}
use yacht_sql.Prelude.Text.{Text}
use yacht_sql.Common.Error.{Result, ok, ◌>>=◌}
use yacht_sql.Common.Externals.{Externals}
use yacht_sql.Common.Types.{to_bq_type}
use yacht_sql.Storage.Column.{Column}
use yacht_sql.Storage.Schema.{Schema, Field}
use yacht_sql.Storage.IndexMap.{IndexMap}
use yacht_sql.Storage.Table.{Table, column_list}
use yacht_sql.Storage.Table.RowOps.{Record, to_records}

-- `data_type` is the name of a type.
pub record ColumnInfo : Type 0 where
  pub name : Text
  pub data_type : Text

-- A `Row` is the vector of its values.
pub record QueryResult (X : Externals) : Type 0 where
  pub schema : List ColumnInfo
  pub rows : List (Record X)

module _ {X : Externals} where
  unfoldable pub column_infos : List (Field X) → List ColumnInfo
  unfolding to_bq_type
  column_infos [] = []
  column_infos (f ∷ fs) =
      record { name = f.name; data_type = to_bq_type f.data_type } ∷ column_infos fs

module _ {X : Externals} (I : IndexMap (Column X)) where
  -- for (old_col, new_field) in columns.zip(fields) { new_columns.insert(new_field.name, old_col) }
  unfoldable pub insert_zipped : List (Column X) → List (Field X) → I.Map → I.Map
  insert_zipped [] fs m = m
  insert_zipped (c ∷ cs) [] m = m
  insert_zipped (c ∷ cs) (f ∷ fs) m = insert_zipped cs fs (I.insert m f.name c)

  -- The column at an index, under a name, where there is one.
  unfoldable pub insert_at_index : List (Column X) → Text → ℕ → I.Map → I.Map
  insert_at_index source name i m = elim (get_elem? source i) [
    | none ↦ m
    | some c ↦ I.insert m name c
  ]

  -- The loop over the pairs of a field and an index.
  unfoldable pub insert_picked : List (Column X) → List (Field X) → List ℕ → I.Map → I.Map
  unfolding insert_at_index
  insert_picked source [] is m = m
  insert_picked source (f ∷ fs) [] m = m
  insert_picked source (f ∷ fs) (i ∷ is) m =
      insert_picked source fs is (insert_at_index source f.name i m)

module _ {X : Externals} {I : IndexMap (Column X)} where
  unfoldable pub with_schema : Schema X → Table X I → Table X I
  unfolding insert_zipped
  with_schema new_schema t = record {
    schema = new_schema;
    columns = insert_zipped I (column_list t) new_schema.fields I.empty;
    row_count = t.row_count;
  }

  unfoldable pub with_reordered_schema : Schema X → List ℕ → Table X I → Table X I
  unfolding insert_picked
  with_reordered_schema new_schema column_indices t = record {
    schema = new_schema;
    columns = insert_picked I (column_list t) new_schema.fields column_indices I.empty;
    row_count = t.row_count;
  }

  unfoldable pub to_query_result : Table X I → Result (QueryResult X)
  unfolding column_infos to_records
  to_query_result t = do
    records ← to_records t
    ok (record { schema = column_infos t.schema.fields; rows = records })
