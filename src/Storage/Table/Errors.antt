-- ===== src/Storage/Table/Errors.antt =====
-- What a `push_row` of table/core.rs leaves behind that fails on the way through the columns.
use yacht_sql.Prelude.{
  ℕ, ◌<◌, ◌≡◌, suc, refl, sym, ap, ap₂, subst, List, [], ◌∷◌, ◌⊎◌, inl, inr, arith, length, All,
}
use yacht_sql.Prelude.Tabulate.{tabulate_ext}
use yacht_sql.Common.Error.{Error, err, Result-cases}
use yacht_sql.Common.Externals.{Externals}
use yacht_sql.Common.Types.{Value}
use yacht_sql.Storage.Column.{Column, get_value}
use yacht_sql.Storage.Column.Entries
use yacht_sql.Storage.Column.Push.{push_error}
use yacht_sql.Storage.IndexMap.{IndexMap}
use yacht_sql.Storage.Table.{Table, column_list}
use yacht_sql.Storage.Table.RowOps.{push_values, push_row, row_at}
use yacht_sql.Storage.Table.Rows.{HasRows, IsCleanColumn, push-HasRows}
use yacht_sql.Storage.Table.Rectangular.{IsRectangular, IsCleanTable, rows, assigned}

module _ {X : Externals} where
  -- Taken or refused, a value changes no row that was there.
  get_value-push :
      (n i : ℕ) (c : Column X) (v : Value X)
      → HasRows n c
      → IsCleanColumn c
      → i < n
      → get_value (Entries.push c v).0 i ≡ get_value c i
  get_value-push n i c v h k l = elim (Result-cases (Entries.push c v).1) [
    | inl (u, taken) ↦ (push-HasRows n c v h k taken).1 i l
    | inr (e, refused) ↦ ap (λ d. get_value d i) (push_error c v e refused)
  ]

  push_values_head :
      (c : Column X) (cs : List (Column X)) (v : Value X) (vs : List (Value X))
      → ((push_values (c ∷ cs) (v ∷ vs)).0 ≡ (Entries.push c v).0 ∷ cs)
        ⊎ ((push_values (c ∷ cs) (v ∷ vs)).0 ≡ (Entries.push c v).0 ∷ (push_values cs vs).0)
  unfolding push_values
  push_values_head c cs v vs = elim (Result-cases (Entries.push c v).1) [
    | inl (u, taken) ↦ inr (ground arith)
    | inr (e, refused) ↦ inl (ground arith)
  ]

  abbrev SameRows : ℕ → List (Column X) → List (Column X) → Type 0
  SameRows n cs ds = ((i : ℕ) → i < n → row_at ds i ≡ row_at cs i) × (length ds ≡ length cs)

  push_values_keeps :
      (n : ℕ) (cs : List (Column X)) (vs : List (Value X))
      → All (HasRows n) cs
      → All IsCleanColumn cs
      → SameRows n cs (push_values cs vs).0
  unfolding push_values
  push_values_keeps n [] vs h k = (λ i l. refl, refl)
  push_values_keeps n (c ∷ cs) [] h k = (λ i l. refl, refl)
  push_values_keeps n (c ∷ cs) (v ∷ vs) h k =
      let rest = push_values_keeps n cs vs h.1 k.1 in
      elim (push_values_head c cs v vs) [
        | inl e ↦
            subst (SameRows n (c ∷ cs)) (sym e) (
              λ i l. ap (λ (x : Value X). x ∷ row_at cs i) (get_value-push n i c v h.0 k.0 l),
              refl,
            )
        | inr e ↦
            subst (SameRows n (c ∷ cs)) (sym e)
              (λ i l. ap₂ ◌∷◌ (get_value-push n i c v h.0 k.0 l) (rest.0 i l), ap suc rest.1)
      ]

module _ {X : Externals} {I : IndexMap (Column X)} where
  push_row_failed :
      (vs : List (Value X)) (t : Table X I) (x : Error)
      → (push_row vs t).1 ≡ err x
      → (push_row vs t).0
        ≡ record t { columns = I.assign t.columns (push_values (column_list t) vs).0 }
  unfolding push_row
  push_row_failed vs t x h = ground arith

  -- Where a column of a rectangular table with no null flag behind its rows refuses a value,
  -- `push_row` changes neither the schema nor the row count nor the rows below it.
  pub rows-push_row_error :
      (vs : List (Value X)) (t : Table X I) (x : Error)
      → IsRectangular t
      → IsCleanTable t
      → (push_row vs t).1 ≡ err x
      → ((push_row vs t).0.schema ≡ t.schema)
        × ((push_row vs t).0.row_count ≡ t.row_count)
        × (rows (push_row vs t).0 ≡ rows t)
  unfolding rows
  rows-push_row_error vs t x h k failed =
      let cs = column_list t in
      let (kept, width) = push_values_keeps t.row_count cs vs h k in
      let same = assigned I t.columns (push_values cs vs).0 width in
      rw (push_row_failed vs t x failed, same)
        (refl, refl, tabulate_ext t.row_count (row_at (push_values cs vs).0) (row_at cs) kept)
