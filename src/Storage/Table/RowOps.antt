-- ===== src/Storage/Table/RowOps.antt =====
-- The operations of table/core.rs on rows.
use yacht_sql.Prelude.{ℕ, zero, suc, ◌+◌, ◌-◌, ◌++◌, List, [], ◌∷◌, map, leb, ltb, if◌then◌else◌}
use yacht_sql.Prelude.Text.{codes}
use yacht_sql.Common.Int64.{show_i64}
use yacht_sql.Common.Error.{Result, ok, err, invalid_query, ◌>>=◌}
use yacht_sql.Common.Externals.{Externals}
use yacht_sql.Common.Types.{Value}
use yacht_sql.Storage.Column
use yacht_sql.Storage.Column.{Column}
use yacht_sql.Storage.Column.Entries
use yacht_sql.Storage.Column.Exact
use yacht_sql.Storage.Schema.{Schema}
use yacht_sql.Storage.IndexMap.{IndexMap}
use yacht_sql.Storage.Table.{Table, column_list, new}

-- A `Record` is the vector of its values.
abbrev pub Record : Externals → Type 0
Record X = List (Value X)

module _ {X : Externals} where
  -- for (col, value) in columns.zip(values) { col.push(value)? }: the columns that are left, and
  -- the result.
  unfoldable pub push_values :
      List (Column X) → List (Value X) → List (Column X) × Result (Unit {0})
  unfolding Entries.push
  push_values [] vs = ([], ok tt)
  push_values (c ∷ cs) [] = (c ∷ cs, ok tt)
  push_values (c ∷ cs) (v ∷ vs) =
      let (c', r) = Entries.push c v in
      let (cs', rest) = push_values cs vs in
      elim r [ err e ↦ (c' ∷ cs, err e) | ok u ↦ (c' ∷ cs', rest) ]

  -- for (col, value) in columns.zip(values) { col.set(index, value)? }
  unfoldable pub set_values :
      ℕ → List (Column X) → List (Value X) → List (Column X) × Result (Unit {0})
  unfolding Exact.set
  set_values i [] vs = ([], ok tt)
  set_values i (c ∷ cs) [] = (c ∷ cs, ok tt)
  set_values i (c ∷ cs) (v ∷ vs) =
      let (c', r) = Exact.set c i v in
      let (cs', rest) = set_values i cs vs in
      elim r [ err e ↦ (c' ∷ cs, err e) | ok u ↦ (c' ∷ cs', rest) ]

  abbrev pub row_at : List (Column X) → ℕ → Record X
  row_at cs i = map (λ c. Column.get_value c i) cs

module _ {X : Externals} {I : IndexMap (Column X)} where
  unfoldable pub push_row : List (Value X) → Table X I → Table X I × Result (Unit {0})
  unfolding push_values
  push_row vs t =
      let (cs, r) = push_values (column_list t) vs in
      let pushed = record t { columns = I.assign t.columns cs } in
      elim r [
        | err e ↦ (pushed, err e)
        | ok u ↦ (record pushed { row_count = t.row_count + 1 }, ok tt)
      ]

  unfoldable pub get_row : ℕ → Table X I → Result (Record X)
  unfolding Column.get_value
  get_row index t =
      if leb t.row_count index
      then err (
          invalid_query (
            codes "Row index "
            ++ (show_i64 index
                ++ (codes " out of bounds (count: " ++ (show_i64 t.row_count ++ codes ")")))))
      else ok (row_at (column_list t) index)

  -- for i in 0..self.row_count { records.push(self.get_row(i)?) }, over the rounds that are left.
  unfoldable pub records_from : ℕ → ℕ → Table X I → Result (List (Record X))
  unfolding get_row
  records_from zero i t = ok []
  records_from (suc rounds) i t =
      let rest = records_from rounds (i + 1) t in do row ← get_row i t; rows ← rest; ok (row ∷ rows)

  unfoldable pub to_records : Table X I → Result (List (Record X))
  unfolding records_from
  to_records t = records_from t.row_count 0 t

  -- for row in values { table.push_row(row)? }
  unfoldable pub push_rows : List (List (Value X)) → Table X I → Result (Table X I)
  unfolding push_row
  push_rows [] t = ok t
  push_rows (row ∷ rows) t =
      let (t', r) = push_row row t in
      let rest = push_rows rows t' in elim r [ err e ↦ err e | ok u ↦ rest ]

  -- `from_values`, and `from_records`, whose records are vectors of values.
  unfoldable pub from_values : Schema X → List (List (Value X)) → Result (Table X I)
  unfolding push_rows new
  from_values schema rows = push_rows rows (new schema)

  unfoldable pub clear : Table X I → Table X I
  unfolding Column.clear
  clear t = record t {
    columns = I.assign t.columns (map Column.clear (column_list t));
    row_count = 0;
  }

  unfoldable pub remove_row : ℕ → Table X I → Table X I
  unfolding Column.remove
  remove_row index t = record t {
    columns = I.assign t.columns (map (λ c. Column.remove c index) (column_list t));
    row_count = if ltb 0 t.row_count then t.row_count - 1 else t.row_count;
  }

  unfoldable pub update_row : ℕ → List (Value X) → Table X I → Table X I × Result (Unit {0})
  unfolding set_values
  update_row index vs t =
      let (cs, r) = set_values index (column_list t) vs in
      (record t { columns = I.assign t.columns cs }, r)
