-- ===== src/Storage/Table/Rectangular.antt =====
-- A table whose columns all have `row_count` rows, and its operations as operations on the list of
-- its rows.
use yacht_sql.Prelude.{
  ℕ, zero, suc, ◌+◌, ◌-◌, ◌<◌, ◌≤◌, ◌≡◌, refl, sym, ap, ap₂, ◌∙◌, subst, List, [], ◌∷◌, ◌++◌, map,
  arith, length, set as list_set, remove_at, All, ltb, ◌==◌, if◌then◌else◌, length-map, lt→leb,
}
use native.Mathlib.Numerals.{add-one}
use yacht_sql.Prelude.Tabulate.{
  tabulate, tabulate_ext, tabulate_snoc, set-tabulate, remove_at-tabulate,
}
use yacht_sql.Prelude.Assoc.{Assoc}
use yacht_sql.Common.Error.{ok}
use yacht_sql.Common.Externals.{Externals}
use yacht_sql.Common.Types.{Value}
use yacht_sql.Storage.Column
use yacht_sql.Storage.Column.{Column}
use yacht_sql.Storage.IndexMap.{IndexMap, values, with_values}
use yacht_sql.Storage.Table.{Table, column_list}
use yacht_sql.Storage.Table.RowOps.{
  Record, push_values, set_values, row_at, push_row, get_row, to_records, records_from, update_row,
  remove_row,
}
use yacht_sql.Storage.Table.Rows.{
  HasRows, HasColumnTypes, set_values-HasColumnTypes, IsCleanColumn, stored_row, push_values_ok,
  set_values_ok, remove_ok,
}

values-with_values :
    {V : Type 0} (es : Assoc V) (vs : List V)
    → length vs ≡ length (values es)
    → values (with_values es vs) ≡ vs
values-with_values [] [] h = refl
values-with_values [] (v ∷ vs) h = absurd (omega arith)
values-with_values ((k, w) ∷ es) [] h = absurd (omega arith)
values-with_values ((k, w) ∷ es) (v ∷ vs) h = ap (◌∷◌ v) (values-with_values es vs (omega arith))

module _ {X : Externals} (I : IndexMap (Column X)) where
  pub assigned :
      (m : I.Map) (cs : List (Column X))
      → length cs ≡ length (values (I.entries m))
      → values (I.entries (I.assign m cs)) ≡ cs
  assigned m cs h = ap values (I.entries-assign m cs) ∙ values-with_values (I.entries m) cs h

module _ {X : Externals} {I : IndexMap (Column X)} where
  -- Every column is valid and has `row_count` rows.
  abbrev pub IsRectangular : Table X I → Type 0
  IsRectangular t = All (HasRows t.row_count) (column_list t)

  -- No column has a null flag behind its last row.
  abbrev pub IsCleanTable : Table X I → Type 0
  IsCleanTable t = All IsCleanColumn (column_list t)

  -- The rows, in order.
  unfoldable pub rows : Table X I → List (Record X)
  unfolding tabulate
  rows t = tabulate t.row_count (row_at (column_list t))

  -- `get_row` reads a row that is there.
  pub get_row_inside :
      (i : ℕ) (t : Table X I) → i < t.row_count → get_row i t ≡ ok (row_at (column_list t) i)
  unfolding get_row
  get_row_inside i t h = rw (lt→leb t.row_count i h)

  records_from-tabulate :
      (rounds i : ℕ) (t : Table X I)
      → i + rounds ≤ t.row_count
      → records_from rounds i t ≡ ok (tabulate rounds (λ j. row_at (column_list t) (i + j)))
  unfolding records_from tabulate
  records_from-tabulate zero i t h = refl
  records_from-tabulate (suc rounds) i t h =
      let cs = column_list t in
      rw (get_row_inside i t (omega arith), records_from-tabulate rounds (i + 1) t (omega arith))
        (ap ok (
          ap₂ ◌∷◌ (ap (row_at cs) (omega arith)) (
            tabulate_ext rounds (λ j. row_at cs (i + 1 + j)) (λ j. row_at cs (i + suc j))
              (λ j l. ap (row_at cs) (omega arith)))))

  -- `to_records` reads every row, in order, and does not fail.
  pub to_records-rows : (t : Table X I) → to_records t ≡ ok (rows t)
  unfolding to_records rows
  to_records-rows t =
      records_from-tabulate t.row_count 0 t (omega arith)
      ∙ ap ok (tabulate_ext t.row_count _ _ (λ j l. ap (row_at (column_list t)) (omega arith)))

  pub push_row_made :
      (vs : List (Value X)) (t : Table X I)
      → (push_row vs t).1 ≡ ok tt
      → ((push_values (column_list t) vs).1 ≡ ok tt)
        × ((push_row vs t).0 ≡ record t {
          columns = I.assign t.columns (push_values (column_list t) vs).0;
          row_count = t.row_count + 1;
        })
  unfolding push_row
  push_row_made vs t r = ground arith

  -- In a rectangular table where no column has a null flag behind its last row, a row of full width
  -- that every column takes is appended, as the columns store it. The table stays rectangular, with
  -- no such flag.
  pub rows-push_row :
      (vs : List (Value X)) (t : Table X I)
      → IsRectangular t
      → IsCleanTable t
      → length vs ≡ length (column_list t)
      → (push_row vs t).1 ≡ ok tt
      → IsRectangular (push_row vs t).0
        × IsCleanTable (push_row vs t).0
        × (rows (push_row vs t).0 ≡ rows t ++ stored_row (column_list t) vs ∷ [])
  unfolding rows
  rows-push_row vs t h k w r =
      let (taken, made) = push_row_made vs t r in
      let cs = column_list t in
      let pushed = push_values_ok t.row_count cs vs h k w taken in
      let same = assigned I t.columns (push_values cs vs).0 pushed.3 in
      rw (made, same)
        (
          rw add-one pushed.0,
          pushed.4,
          ap (λ n. tabulate n (row_at (push_values cs vs).0)) (add-one t.row_count)
              ∙ tabulate_snoc t.row_count (row_at (push_values cs vs).0)
              ∙ ap₂ (λ (l : List (Record X)) (x : Record X). l ++ x ∷ [])
                  (tabulate_ext t.row_count (row_at (push_values cs vs).0) (row_at cs) pushed.1)
                  pushed.2,
        )

  update_row_made :
      (i : ℕ) (vs : List (Value X)) (t : Table X I)
      → (set_values i (column_list t) vs).1 ≡ ok tt
      → ((update_row i vs t).1 ≡ ok tt)
        × ((update_row i vs t).0
            ≡ record t { columns = I.assign t.columns (set_values i (column_list t) vs).0 })
  unfolding update_row
  update_row_made i vs t r = (r, refl)

  -- In a rectangular table, a row with one value for each column, null or of the column's type, is
  -- accepted: it replaces the row at its index, value for value, and the table stays rectangular.
  pub rows-update_row :
      (i : ℕ) (vs : List (Value X)) (t : Table X I)
      → IsRectangular t
      → i < t.row_count
      → HasColumnTypes (column_list t) vs
      → ((update_row i vs t).1 ≡ ok tt)
        × IsRectangular (update_row i vs t).0
        × (rows (update_row i vs t).0 ≡ list_set (rows t) i vs)
  unfolding rows
  rows-update_row i vs t h l w =
      let cs = column_list t in
      let (taken, wide) = set_values-HasColumnTypes i cs vs w in
      let (accepted, made) = update_row_made i vs t taken in
      let written = set_values_ok t.row_count i cs vs l h wide taken in
      let same = assigned I t.columns (set_values i cs vs).0 written.2 in
      rw (made, same)
        (
          accepted,
          written.0,
          tabulate_ext t.row_count (row_at (set_values i cs vs).0)
                (λ j. if i == j then vs else row_at cs j) (λ j _. written.1 j)
              ∙ sym (set-tabulate t.row_count (row_at cs) i vs),
        )

  -- Removing a row that is there from a rectangular table deletes it, keeps the others in order, and
  -- leaves the table rectangular.
  pub rows-remove_row :
      (i : ℕ) (t : Table X I)
      → IsRectangular t
      → i < t.row_count
      → IsRectangular (remove_row i t) × (rows (remove_row i t) ≡ remove_at (rows t) i)
  unfolding rows remove_row
  rows-remove_row i t h l =
      let cs = column_list t in
      let n = t.row_count - 1 in
      let e : t.row_count ≡ suc n = omega arith in
      let removed = remove_ok n i cs (omega arith) (subst (λ k. All (HasRows k) cs) e h) in
      let cs' = map (λ c. Column.remove c i) cs in
      let same = assigned I t.columns cs' (length-map (λ c. Column.remove c i) cs) in
      let count : (if ltb 0 t.row_count then t.row_count - 1 else t.row_count) ≡ n = ground arith in
      rw (same, count)
        (
          removed.0,
          tabulate_ext n (row_at cs') (λ j. if ltb j i then row_at cs j else row_at cs (suc j))
                (λ j _. removed.1 j)
              ∙ sym (remove_at-tabulate n (row_at cs) i (omega arith))
              ∙ ap (λ k. remove_at (tabulate k (row_at cs)) i) (sym e),
        )
