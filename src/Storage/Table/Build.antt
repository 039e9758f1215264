-- ===== src/Storage/Table/Build.antt =====
-- `new` and `from_values` of table/core.rs against the rows they are given.
use mathlib.Core.List.{append-nil, append_assoc}
use yacht_sql.Prelude.{
  ◌≡◌, refl, sym, ap, ap₂, ◌∙◌, subst, List, [], ◌∷◌, ◌++◌, map, arith, length, All,
}
use yacht_sql.Prelude.Text.{Text}
use yacht_sql.Prelude.Assoc
use yacht_sql.Prelude.Assoc.{Assoc}
use yacht_sql.Common.Error.{ok}
use yacht_sql.Common.Externals.{Externals}
use yacht_sql.Common.Types.{Value}
use yacht_sql.Storage.Column
use yacht_sql.Storage.Column.{Column}
use yacht_sql.Storage.Column.Rows.{new-IsValid, values-new, new-IsClean}
use yacht_sql.Storage.Column.Push.{stored-push}
use yacht_sql.Storage.Schema.{Schema, Field}
use yacht_sql.Storage.IndexMap.{IndexMap, values}
use yacht_sql.Storage.Table.{Table, column_list, collect, new}
use yacht_sql.Storage.Table.RowOps.{push_values, push_row, push_rows, from_values, to_records}
use yacht_sql.Storage.Table.Rows.{
  HasRows, IsCleanColumn, stored_row, push_values_ok, push_values_cons,
}
use yacht_sql.Storage.Table.Rectangular.{
  IsRectangular, IsCleanTable, rows, rows-push_row, to_records-rows, assigned, push_row_made,
}

module _ {X : Externals} where
  -- A column with no row, as `new` makes it.
  abbrev IsFresh : Column X → Type 0
  IsFresh c = HasRows 0 c × IsCleanColumn c

  values-insert-All :
      (P : Column X → Type 0) (m : Assoc (Column X)) (k : Text) (c : Column X)
      → All P (values m)
      → P c
      → All P (values (Assoc.insert m k c))
  unfolding Assoc.insert
  values-insert-All P [] k c h p = (p, tt)
  values-insert-All P ((j, d) ∷ m) k c h p = ground (arith, values-insert-All P m k c)

  All-split :
      (P Q : Column X → Type 0) (cs : List (Column X))
      → All (λ c. P c × Q c) cs
      → All P cs × All Q cs
  All-split P Q [] h = (tt, tt)
  All-split P Q (c ∷ cs) h = let rest = All-split P Q cs h.1 in ((h.0.0, rest.0), (h.0.1, rest.1))

  -- What columns make of values does not depend on their rows.
  stored_row-push_values :
      (cs : List (Column X)) (vs ys : List (Value X))
      → (push_values cs vs).1 ≡ ok tt
      → stored_row (push_values cs vs).0 ys ≡ stored_row cs ys
  unfolding push_values
  stored_row-push_values [] vs ys r = refl
  stored_row-push_values (c ∷ cs) [] ys r = refl
  stored_row-push_values (c ∷ cs) (v ∷ vs) [] r = rw (push_values_cons c cs v vs r).2 refl
  stored_row-push_values (c ∷ cs) (v ∷ vs) (y ∷ ys) r =
      let (taken, rest, made) = push_values_cons c cs v vs r in
      rw made (ap₂ ◌∷◌ (stored-push c v y) (stored_row-push_values cs vs ys rest))

  map-stored_row :
      (cs cs' : List (Column X)) (rs : List (List (Value X)))
      → ((ys : List (Value X)) → stored_row cs' ys ≡ stored_row cs ys)
      → map (stored_row cs') rs ≡ map (stored_row cs) rs
  map-stored_row cs cs' [] h = refl
  map-stored_row cs cs' (r ∷ rs) h = ap₂ ◌∷◌ (h r) (map-stored_row cs cs' rs h)

  -- Every row has a value for each column.
  abbrev pub IsFullWidth : List (Column X) → List (List (Value X)) → Type 0
  IsFullWidth cs rs = All (λ r. length r ≡ length cs) rs

  IsFullWidth-eq :
      (cs cs' : List (Column X)) (rs : List (List (Value X)))
      → length cs' ≡ length cs
      → IsFullWidth cs rs
      → IsFullWidth cs' rs
  IsFullWidth-eq cs cs' [] e h = tt
  IsFullWidth-eq cs cs' (r ∷ rs) e h = (omega (arith, h.0), IsFullWidth-eq cs cs' rs e h.1)

module _ {X : Externals} (I : IndexMap (Column X)) where
  -- The columns of a new table are fresh.
  collect-IsFresh :
      (fs : List (Field X)) (m : I.Map)
      → All IsFresh (values (I.entries m))
      → All IsFresh (values (I.entries (collect I fs m)))
  unfolding collect
  collect-IsFresh [] m h = h
  collect-IsFresh (f ∷ fs) m h =
      let c = Column.new X f.data_type in
      let fresh : IsFresh c = (
        (new-IsValid X f.data_type, ap length (values-new X f.data_type)),
        new-IsClean X f.data_type,
      ) in
      collect-IsFresh fs (I.insert m f.name c) (
        rw (I.entries-insert m f.name c) (values-insert-All IsFresh (I.entries m) f.name c h fresh))

  -- A new table has valid columns and no record.
  pub new-IsRectangular :
      (schema : Schema X)
      → IsRectangular (new {I = I} schema)
        × IsCleanTable (new {I = I} schema)
        × (to_records (new {I = I} schema) ≡ ok [])
  unfolding new rows
  new-IsRectangular schema =
      let t : Table X I = new schema in
      let fresh = collect-IsFresh schema.fields I.empty (rw (I.entries-empty) tt) in
      let (valid, clean) = All-split (HasRows 0) IsCleanColumn (column_list t) fresh in
      (valid, clean, to_records-rows t)

module _ {X : Externals} {I : IndexMap (Column X)} where
  push_rows_cons :
      (r : List (Value X)) (rs : List (List (Value X))) (t t' : Table X I)
      → push_rows (r ∷ rs) t ≡ ok t'
      → ((push_row r t).1 ≡ ok tt) × (push_rows rs (push_row r t).0 ≡ ok t')
  unfolding push_rows
  push_rows_cons r rs t t' h = ground arith

  column_list-push_row :
      (r : List (Value X)) (t : Table X I)
      → IsRectangular t
      → IsCleanTable t
      → length r ≡ length (column_list t)
      → (push_row r t).1 ≡ ok tt
      → (column_list (push_row r t).0 ≡ (push_values (column_list t) r).0)
        × (length (column_list (push_row r t).0) ≡ length (column_list t))
        × ((push_values (column_list t) r).1 ≡ ok tt)
  column_list-push_row r t h k w s =
      let (taken, made) = push_row_made r t s in
      let pushed = push_values_ok t.row_count (column_list t) r h k w taken in
      let same = assigned I t.columns (push_values (column_list t) r).0 pushed.3 in
      rw made (same, ap length same ∙ pushed.3, taken)

  push_rows_nil : (t t' : Table X I) → push_rows [] t ≡ ok t' → t ≡ t'
  unfolding push_rows
  push_rows_nil t t' h = cc

  push_rows_ok :
      (rs : List (List (Value X))) (t t' : Table X I)
      → IsRectangular t
      → IsCleanTable t
      → IsFullWidth (column_list t) rs
      → push_rows rs t ≡ ok t'
      → IsRectangular t' × (rows t' ≡ rows t ++ map (stored_row (column_list t)) rs)
  push_rows_ok [] t t' h k w e =
      subst (λ u. IsRectangular u × (rows u ≡ rows t ++ [])) (push_rows_nil t t' e)
        (h, sym (append-nil (rows t)))
  push_rows_ok (r ∷ rs) t t' h k w e =
      let (taken, more) = push_rows_cons r rs t t' e in
      let one = rows-push_row r t h k w.0 taken in
      let (columns, width, pushed) = column_list-push_row r t h k w.0 taken in
      let t1 = (push_row r t).0 in
      let rest =
        push_rows_ok rs t1 t' one.0 one.1
          (IsFullWidth-eq (column_list t) (column_list t1) rs width w.1) more in
      let cs = column_list t in
      (
        rest.0,
        rest.1
            ∙ ap₂ ◌++◌ one.2 (
                ap (λ l. map (stored_row l) rs) columns
                ∙ map-stored_row cs (push_values cs r).0 rs
                    (λ ys. stored_row-push_values cs r ys pushed))
            ∙ append_assoc (rows t) (stored_row cs r ∷ []) (map (stored_row cs) rs),
      )

  -- Where `from_values` succeeds on rows of full width, the table is rectangular, and `to_records`
  -- gives the rows back, in order, as the columns store them.
  pub from_values-rows :
      (schema : Schema X) (rs : List (List (Value X))) (t : Table X I)
      → IsFullWidth (column_list (new {I = I} schema)) rs
      → from_values schema rs ≡ ok t
      → IsRectangular t
        × (to_records t ≡ ok (map (stored_row (column_list (new {I = I} schema))) rs))
  unfolding from_values new rows
  from_values-rows schema rs t w e =
      let t0 : Table X I = new schema in
      let (valid, clean, empty) = new-IsRectangular I schema in
      let made = push_rows_ok rs t0 t valid clean w e in (made.0, to_records-rows t ∙ ap ok made.1)
