-- ===== src/Storage/Table/Alter.antt =====
-- The operations of table/core.rs on columns: dropping, renaming, and changing what the schema says.
use yacht_sql.Prelude.{
  ℕ, zero, suc, ◌+◌, Bool, true, false, not, ◌||◌, List, [], ◌∷◌, ◌++◌, Option, none, some,
  get_elem?, if◌then◌else◌,
}
use yacht_sql.Prelude.Text.{Text, codes, text_eq, to_uppercase}
use yacht_sql.Prelude.Assoc
use yacht_sql.Prelude.Assoc.{Assoc, keys}
use yacht_sql.Common.Debug.{debug, debug_type}
use yacht_sql.Common.Error.{Result, ok, err, invalid_query, unsupported, column_not_found, ◌>>=◌}
use yacht_sql.Common.Externals.{Externals}
use yacht_sql.Common.Types.{DataType, Value}
use yacht_sql.Storage.Bitmap
use yacht_sql.Storage.Cells.{Cells}
use yacht_sql.Storage.Column
use yacht_sql.Storage.Column.{Column}
use yacht_sql.Storage.Column.Entries
use yacht_sql.Storage.Schema.{Field, FieldMode, new_field}
use yacht_sql.Storage.IndexMap.{IndexMap}
use yacht_sql.Storage.Table.{Table}

-- k.to_uppercase() == upper
unfoldable pub same_upper : Text → Text → Bool
unfolding text_eq to_uppercase
same_upper upper k = text_eq (to_uppercase k) upper

-- keys.find(|k| k.to_uppercase() == upper)
unfoldable pub find_key : Text → List Text → Option Text
unfolding same_upper
find_key upper [] = none
find_key upper (k ∷ ks) =
    let rest = find_key upper ks in if same_upper upper k then some k else rest

-- keys.position(|k| k.to_uppercase() == upper), counted from i
unfoldable pub key_position : Text → List Text → ℕ → Option ℕ
unfolding same_upper
key_position upper [] i = none
key_position upper (k ∷ ks) i =
    let rest = key_position upper ks (i + 1) in if same_upper upper k then some i else rest

unfoldable pub types_compatible : DataType → DataType → Bool
types_compatible DataType.string DataType.string = true
types_compatible DataType.int64 DataType.int64 = true
types_compatible DataType.float64 DataType.float64 = true
types_compatible (DataType.numeric p) (DataType.numeric q) = true
types_compatible _ _ = false

abbrev pub mark_null : Bool → ℕ → Bitmap.NullBitmap → Bitmap.NullBitmap
mark_null true i nulls = Bitmap.set_null nulls i
mark_null false i nulls = nulls

module _ {X : Externals} where
  -- fields.filter(|f| f.name.to_uppercase() != upper)
  unfoldable pub without_field : Text → List (Field X) → List (Field X)
  unfolding same_upper
  without_field upper [] = []
  without_field upper (f ∷ fs) =
      let rest = without_field upper fs in if same_upper upper f.name then rest else f ∷ rest

  -- fields.map(|f| if f.name.to_uppercase() == upper { g(f) } else { f.clone() })
  unfoldable pub alter_fields : Text → (Field X → Field X) → List (Field X) → List (Field X)
  unfolding same_upper
  alter_fields upper g [] = []
  alter_fields upper g (f ∷ fs) =
      (if same_upper upper f.name then g f else f) ∷ alter_fields upper g fs

  -- fields.any(|f| f.name.to_uppercase() == upper)
  unfoldable pub has_field : Text → List (Field X) → Bool
  unfolding same_upper
  has_field upper [] = false
  has_field upper (f ∷ fs) = same_upper upper f.name || has_field upper fs

  -- the first field of that name
  unfoldable pub first_field : Text → List (Field X) → Option (Field X)
  unfolding same_upper
  first_field upper [] = none
  first_field upper (f ∷ fs) =
      let rest = first_field upper fs in if same_upper upper f.name then some f else rest

  -- Only the first field of that name changes.
  unfoldable pub alter_first : Text → (Field X → Field X) → List (Field X) → List (Field X)
  unfolding same_upper
  alter_first upper g [] = []
  alter_first upper g (f ∷ fs) =
      let rest = alter_first upper g fs in if same_upper upper f.name then g f ∷ fs else f ∷ rest

  -- One round of `convert_column`: the datum and whether the row is null, or the error.
  unfoldable pub to_numeric : Value X → Result (X.Decimal × Bool)
  to_numeric Value.null = ok (X.decimal_zero, true)
  to_numeric (Value.int64 v) = ok (X.decimal_from_i64 v, false)
  to_numeric (Value.float64 v) =
      ok (Entries.get_or (X.decimal_from_i64 (X.f64_as_i64 v)) (X.decimal_try_from_f64 v), false)
  to_numeric (Value.numeric d) = ok (d, false)
  to_numeric v = err (invalid_query (codes "Cannot convert " ++ (debug v ++ codes " to NUMERIC")))

  -- for i in 0..len, over the rounds that are left
  unfoldable pub convert_from : ℕ → ℕ → Column X → Cells X.Decimal → Result (Cells X.Decimal)
  unfolding Column.get_value to_numeric Bitmap.set_null
  convert_from zero i col acc = ok acc
  convert_from (suc rounds) i col acc = do
    e ← to_numeric (Column.get_value col i)
    convert_from rounds (i + 1) col
        (record { values = acc.values ++ e.0 ∷ []; nulls = mark_null e.1 i acc.nulls })

  unfoldable pub convert_column : Column X → DataType → Result (Column X)
  unfolding convert_from Column.len Bitmap.new_valid
  convert_column col (DataType.numeric p) = do
    cells ←
        convert_from (Column.len col) 0 col
          (record { values = []; nulls = Bitmap.new_valid (Column.len col) })
    ok (Column.numeric cells)
  convert_column col t = err (
      unsupported
        (codes "Data type conversion to " ++ (debug_type t ++ codes " not yet implemented")))

  -- for _ in 0..self.row_count { col.push(default_val.clone())? }
  unfoldable pub push_copies : ℕ → Value X → Column X → Result (Column X)
  unfolding Entries.push
  push_copies zero v col = ok col
  push_copies (suc n) v col =
      let (col', r) = Entries.push col v in
      let rest = push_copies n v col' in elim r [ err e ↦ err e | ok u ↦ rest ]

  abbrev pub or_null : Option (Value X) → Value X
  or_null none = Value.null
  or_null (some v) = v

module _ {X : Externals} (I : IndexMap (Column X)) where
  -- `if let Some(col) = self.columns.shift_remove(&key) { … shift_insert(idx, new_name, col) }`
  unfoldable pub rename_key : ℕ → Text → Text → I.Map → I.Map
  unfolding Assoc.get
  rename_key idx key new_name m = elim (Assoc.get (I.entries m) key) [
    | none ↦ m
    | some col ↦ I.shift_insert (I.shift_remove m key) idx new_name col
  ]

  -- The conversion of the column, where one is needed.
  unfoldable pub convert_key : DataType → Option Text → I.Map → Result I.Map
  unfolding Assoc.get convert_column
  convert_key t none m = ok m
  convert_key t (some key) m = elim (Assoc.get (I.entries m) key) [
    | none ↦ ok m
    | some old ↦ convert_column old t >>= λ col. ok (I.insert m key col)
  ]

module _ {X : Externals} {I : IndexMap (Column X)} where
  abbrev with_fields : List (Field X) → Table X I → Table X I
  with_fields fs t = record t { schema = record { fields = fs } }

  unfoldable pub drop_column : Text → Table X I → Table X I × Result (Unit {0})
  unfolding find_key keys without_field to_uppercase
  drop_column name t =
      let upper = to_uppercase name in
      elim (find_key upper (keys (I.entries t.columns))) [
        | none ↦ (t, err (column_not_found name))
        | some key ↦ (
          with_fields (without_field upper t.schema.fields)
              (record t { columns = I.shift_remove t.columns key }),
          ok tt,
        )
      ]

  unfoldable pub rename_column : Text → Text → Table X I → Table X I × Result (Unit {0})
  unfolding key_position keys alter_fields rename_key new_field to_uppercase
  rename_column old_name new_name t =
      let upper = to_uppercase old_name in
      let ks = keys (I.entries t.columns) in
      elim (key_position upper ks 0) [
        | none ↦ (t, err (column_not_found old_name))
        | some idx ↦ elim (get_elem? ks idx) [
          | none ↦ (t, err (column_not_found old_name))
          | some key ↦ (
            with_fields
                (alter_fields upper (λ f. new_field new_name f.data_type f.mode) t.schema.fields)
                (record t { columns = rename_key I idx key new_name t.columns }),
            ok tt,
          )
        ]
      ]

  -- The shape that the five operations on a field share.
  unfoldable pub alter_column :
      Text → (Field X → Field X) → Table X I → Table X I × Result (Unit {0})
  unfolding has_field alter_fields to_uppercase
  alter_column col_name g t =
      let upper = to_uppercase col_name in
      if not (has_field upper t.schema.fields)
      then (t, err (column_not_found col_name))
      else (with_fields (alter_fields upper g t.schema.fields) t, ok tt)

  unfoldable pub set_column_not_null : Text → Table X I → Table X I × Result (Unit {0})
  unfolding alter_column new_field
  set_column_not_null col_name =
      alter_column col_name (λ f. new_field f.name f.data_type FieldMode.required)

  unfoldable pub set_column_nullable : Text → Table X I → Table X I × Result (Unit {0})
  unfolding alter_column new_field
  set_column_nullable col_name =
      alter_column col_name (λ f. new_field f.name f.data_type FieldMode.nullable)

  unfoldable pub set_column_default : Text → Value X → Table X I → Table X I × Result (Unit {0})
  unfolding alter_column
  set_column_default col_name v = alter_column col_name (λ f. record f { default_value = some v })

  unfoldable pub drop_column_default : Text → Table X I → Table X I × Result (Unit {0})
  unfolding alter_column
  drop_column_default col_name = alter_column col_name (λ f. record f { default_value = none })

  unfoldable pub set_column_collation : Text → Text → Table X I → Table X I × Result (Unit {0})
  unfolding has_field alter_first to_uppercase
  set_column_collation col_name collation t =
      let upper = to_uppercase col_name in
      if not (has_field upper t.schema.fields) then (t, err (column_not_found col_name)) else (
        with_fields
            (alter_first upper (λ f. record f { collation = some collation }) t.schema.fields) t,
        ok tt,
      )

  unfoldable pub set_column_data_type : Text → DataType → Table X I → Table X I × Result (Unit {0})
  unfolding first_field types_compatible find_key keys convert_key alter_fields new_field
      to_uppercase
  set_column_data_type col_name new_type t =
      let upper = to_uppercase col_name in
      elim (first_field upper t.schema.fields) [
        | none ↦ (t, err (column_not_found col_name))
        | some old ↦
            let converted =
              if not (types_compatible old.data_type new_type)
              then convert_key I new_type (find_key upper (keys (I.entries t.columns))) t.columns
              else ok t.columns in
            elim converted [
              | err e ↦ (t, err e)
              | ok columns ↦ (
                with_fields
                    (alter_fields upper (λ f. new_field f.name new_type f.mode) t.schema.fields)
                    (record t { columns = columns }),
                ok tt,
              )
            ]
      ]

  unfoldable pub add_column : Field X → Option (Value X) → Table X I → Table X I × Result (Unit {0})
  unfolding push_copies Column.new
  add_column f default t =
      elim (push_copies t.row_count (or_null default) (Column.new X f.data_type)) [
        | err e ↦ (t, err e)
        | ok col ↦ (
          with_fields (t.schema.fields ++ f ∷ [])
              (record t { columns = I.insert t.columns f.name col }),
          ok tt,
        )
      ]
