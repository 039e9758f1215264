-- ===== src/Storage/Table/AddColumn.antt =====
-- `add_column` of table/core.rs as an operation on the rows.
use yacht_sql.Prelude.{
  ℕ, zero, suc, ◌<◌, ◌≡◌, refl, sym, ap, ap₂, ◌∙◌, subst, inl, inr, false, List, [], ◌∷◌, ◌++◌, map,
  Option, arith, length, get_or, replicate, All,
}
use mathlib.Core.List.{append_assoc, append-nil}
use yacht_sql.Prelude.Tabulate.{tabulate_ext}
use yacht_sql.Prelude.Assoc.{contains_key}
use yacht_sql.Common.Error.{ok, Result-cases}
use yacht_sql.Common.Externals.{Externals}
use yacht_sql.Common.Types.{Value}
use yacht_sql.Storage.Bitmap.Raw.{IsClean}
use yacht_sql.Storage.Column
use yacht_sql.Storage.Column.{Column, nulls, get_value}
use yacht_sql.Storage.Column.Entries
use yacht_sql.Storage.Column.Rows.{
  IsValid, values, get_value-values, new-IsValid, values-new, new-IsClean,
}
use yacht_sql.Storage.Column.Push.{stored, stored-push}
use yacht_sql.Storage.Column.Operations.{push_appends}
use yacht_sql.Storage.Schema.{Field}
use yacht_sql.Storage.IndexMap.{IndexMap}
use yacht_sql.Storage.Table.{Table, column_list}
use yacht_sql.Storage.Table.RowOps.{row_at}
use yacht_sql.Storage.Table.Alter.{add_column, push_copies, or_null}
use yacht_sql.Storage.Table.Rows.{HasRows, IsCleanColumn}
use yacht_sql.Storage.Table.Rectangular.{IsRectangular, IsCleanTable, rows}
use yacht_sql.Storage.Table.Projection.{values-insert_new, map-tabulate}

module _ {X : Externals} where
  push_copies_cons :
      (n : ℕ) (v : Value X) (c c' : Column X)
      → push_copies (suc n) v c ≡ ok c'
      → ((Entries.push c v).1 ≡ ok tt) × (push_copies n v (Entries.push c v).0 ≡ ok c')
  unfolding push_copies
  push_copies_cons n v c c' h = ground arith

  push_copies_nil : (v : Value X) (c c' : Column X) → push_copies 0 v c ≡ ok c' → c ≡ c'
  unfolding push_copies
  push_copies_nil v c c' h = cc

  -- The column that copies of one value have been pushed to.
  abbrev Copies : ℕ → Value X → Column X → Column X → Type 0
  Copies n v c c' =
      IsValid c' × IsClean (nulls c') × (values c' ≡ values c ++ replicate n (stored c v))

  push_copies_ok :
      (n : ℕ) (v : Value X) (c c' : Column X)
      → IsValid c
      → IsClean (nulls c)
      → push_copies n v c ≡ ok c'
      → Copies n v c c'
  push_copies_ok zero v c c' w k h =
      subst (Copies 0 v c) (push_copies_nil v c c' h) (w, k, sym (append-nil (values c)))
  push_copies_ok (suc n) v c c' w k h =
      let (taken, more) = push_copies_cons n v c c' h in
      let one = push_appends c v w k taken in
      let rest = push_copies_ok n v (Entries.push c v).0 c' one.0 one.1 more in
      (
        rest.0,
        rest.1,
        rest.2
            ∙ ap₂ ◌++◌ one.2 (ap (replicate n) (stored-push c v v))
            ∙ append_assoc (values c) (stored c v ∷ []) (replicate n (stored c v)),
      )

  length-replicate : (n : ℕ) (v : Value X) → length (replicate n v) ≡ n
  length-replicate zero v = refl
  length-replicate (suc n) v = ap suc (length-replicate n v)

  get_or-replicate : (n i : ℕ) (v z : Value X) → i < n → get_or (replicate n v) i z ≡ v
  get_or-replicate zero i v z h = absurd (omega arith)
  get_or-replicate (suc n) zero v z h = refl
  get_or-replicate (suc n) (suc i) v z h = get_or-replicate n i v z (omega arith)

  All-append :
      (P : Column X → Type 0) (cs : List (Column X)) (c : Column X)
      → All P cs
      → P c
      → All P (cs ++ c ∷ [])
  All-append P [] c h p = (p, tt)
  All-append P (d ∷ cs) c h p = (h.0, All-append P cs c h.1 p)

  row_at-append :
      (cs : List (Column X)) (c : Column X) (i : ℕ)
      → row_at (cs ++ c ∷ []) i ≡ row_at cs i ++ get_value c i ∷ []
  row_at-append [] c i = refl
  row_at-append (d ∷ cs) c i = ap (◌∷◌ (get_value d i)) (row_at-append cs c i)

module _ {X : Externals} {I : IndexMap (Column X)} where
  add_column_made :
      (f : Field X) (default : Option (Value X)) (t : Table X I)
      → (add_column f default t).1 ≡ ok tt
      → (c : Column X) × (push_copies t.row_count (or_null default) (Column.new X f.data_type)
          ≡ ok c)
        × ((add_column f default t).0 ≡ record t {
          columns = I.insert t.columns f.name c;
          schema = record { fields = t.schema.fields ++ f ∷ [] };
        })
  unfolding add_column
  add_column_made f default t h =
      elim (Result-cases (push_copies t.row_count (or_null default) (Column.new X f.data_type))) [
        | inl (c, copied) ↦ (c, copied, ground arith)
        | inr (e, refused) ↦ absurd (ground arith)
      ]

  -- Adding a column of a new name to a rectangular table with no null flag behind its rows, where the
  -- column takes the default, or a null without one: every row is longer by what the column stores of
  -- it. The field stands last in the schema, and the table stays rectangular with no such flag.
  pub rows-add_column :
      (f : Field X) (default : Option (Value X)) (t : Table X I)
      → IsRectangular t
      → IsCleanTable t
      → contains_key (I.entries t.columns) f.name ≡ false
      → (add_column f default t).1 ≡ ok tt
      → IsRectangular (add_column f default t).0
        × IsCleanTable (add_column f default t).0
        × ((add_column f default t).0.schema.fields ≡ t.schema.fields ++ f ∷ [])
        × (rows (add_column f default t).0
            ≡ map (λ r. r ++ stored (Column.new X f.data_type) (or_null default) ∷ []) (rows t))
  unfolding rows
  rows-add_column f default t h k free r =
      let (c, copied, made) = add_column_made f default t r in
      let fresh = Column.new X f.data_type in
      let v = or_null default in
      let copies =
        push_copies_ok t.row_count v fresh c (new-IsValid X f.data_type) (new-IsClean X f.data_type)
          copied in
      let vals : values c ≡ replicate t.row_count (stored fresh v) =
        copies.2
        ∙ ap (λ l. l ++ replicate t.row_count (stored fresh v)) (values-new X f.data_type) in
      let same =
        ap yacht_sql.Storage.IndexMap.values (I.entries-insert t.columns f.name c)
        ∙ values-insert_new (I.entries t.columns) f.name c free in
      rw (made, same)
        (
          All-append (HasRows t.row_count) (column_list t) c h
              (copies.0, ap length vals ∙ length-replicate t.row_count (stored fresh v)),
          All-append IsCleanColumn (column_list t) c k copies.1,
          refl,
          tabulate_ext t.row_count _ _ (λ i l.
                row_at-append (column_list t) c i
                ∙ ap (λ x. row_at (column_list t) i ++ x ∷ [])
                    (get_value-values c i
                      ∙ ap (λ xs. get_or xs i Value.null) vals
                      ∙ get_or-replicate t.row_count i (stored fresh v) Value.null l))
              ∙ sym (
                  map-tabulate t.row_count (λ r. r ++ stored fresh v ∷ [])
                    (row_at (column_list t))),
        )
