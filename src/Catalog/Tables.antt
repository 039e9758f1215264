-- ===== src/Catalog/Tables.antt =====
-- The table operations of catalog.rs.
use mathlib.Core.Option
use yacht_sql.Prelude.{
  Bool, false, not, ◌++◌, ◌||◌, List, [], ◌∷◌, Option, none, some, if◌then◌else◌,
}
use yacht_sql.Prelude.Text.{Text, codes, text_eq, to_uppercase, contains_dot, split_dot, qualified}
use yacht_sql.Prelude.Assoc.{Assoc, get, contains_key, insert, remove}
use yacht_sql.Common.Error.{Error, Result, invalid_query, table_not_found}
use yacht_sql.Catalog.{Payload, Catalog, ColumnDefault, done, fail}
use yacht_sql.Catalog.Schemas.{schema_not_found}

abbrev pub table_already_exists : Text → Error
table_already_exists name = invalid_query (codes "Table already exists: " ++ name)

-- `if parts.len() == 2 { let schema_name = parts[0]; … }`
abbrev pub schema_of_parts : List Text → Option Text
schema_of_parts (schema_name ∷ table ∷ []) = some schema_name
schema_of_parts _ = none

abbrev pub schema_of_key : Text → Text
schema_of_key key = elim (schema_of_parts (split_dot key)) [
  | none ↦ []
  | some schema_name ↦ schema_name
]

-- The loop over the search path.
unfoldable pub resolve_on {ℓ} : {V : Type ℓ} → List Text → Text → Assoc V → Text
unfolding contains_key
resolve_on [] key tables = key
resolve_on (schema ∷ path) key tables =
    let rest = resolve_on path key tables in
    if contains_key tables (qualified schema key) then qualified schema key else rest

module _ {P : Payload} where
  unfoldable pub resolve_table_name : Text → Catalog P → Text
  unfolding to_uppercase contains_dot contains_key resolve_on
  resolve_table_name name c =
      let key = to_uppercase name in
      if contains_dot key || contains_key c.tables key
      then key
      else resolve_on c.search_path key c.tables

  -- The schema of a two-part name is checked against the dropped ones.
  unfoldable pub schema_is_dropped : Text → Catalog P → Bool
  unfolding contains_key split_dot
  schema_is_dropped key c = elim (schema_of_parts (split_dot key)) [
    | none ↦ false
    | some schema_name ↦ contains_key c.dropped_schemas schema_name
  ]

  unfoldable pub insert_table : Text → P.Table → Catalog P → Catalog P × Result (Unit {0})
  unfolding to_uppercase schema_is_dropped split_dot contains_key insert
  insert_table name table c =
      let key = to_uppercase name in
      if schema_is_dropped key c
      then fail c (schema_not_found (schema_of_key key))
      else if contains_key c.tables key
      then fail c (table_already_exists name)
      else done (record c { tables = insert c.tables key table })

  unfoldable pub create_table : Text → P.TableSchema → Catalog P → Catalog P × Result (Unit {0})
  unfolding to_uppercase schema_is_dropped split_dot contains_key insert
  create_table name schema c =
      let key = to_uppercase name in
      if schema_is_dropped key c
      then fail c (schema_not_found (schema_of_key key))
      else if contains_key c.tables key
      then fail c (table_already_exists name)
      else done (record c { tables = insert c.tables key (P.new_table schema) })

  unfoldable pub set_table_defaults : Text → List (ColumnDefault P) → Catalog P → Catalog P
  unfolding to_uppercase insert
  set_table_defaults name defaults c = record c {
    table_defaults = insert c.table_defaults (to_uppercase name) defaults;
  }

  unfoldable pub get_table_defaults : Text → Catalog P → Option (List (ColumnDefault P))
  unfolding resolve_table_name get
  get_table_defaults name c = get c.table_defaults (resolve_table_name name c)

  unfoldable pub find_default : Text → List (ColumnDefault P) → Option P.Expr
  unfolding to_uppercase text_eq
  find_default column_name [] = none
  find_default column_name (d ∷ ds) =
      let rest = find_default column_name ds in
      if text_eq (to_uppercase d.column_name) (to_uppercase column_name)
      then some d.default_expr
      else rest

  unfoldable pub get_column_default : Text → Text → Catalog P → Option P.Expr
  unfolding get_table_defaults find_default
  get_column_default table_name column_name c =
      Option.bind (get_table_defaults table_name c) (find_default column_name)

  unfoldable pub drop_table : Text → Catalog P → Catalog P × Result (Unit {0})
  unfolding resolve_table_name contains_key remove
  drop_table name c =
      let key = resolve_table_name name c in
      if not (contains_key c.tables key)
      then fail c (table_not_found name)
      else done (record c { tables = remove c.tables key })

  unfoldable pub get_table : Text → Catalog P → Option P.Table
  unfolding resolve_table_name get
  get_table name c = get c.tables (resolve_table_name name c)

  -- `get_table_mut` and a write through the reference that it gives.
  unfoldable pub update_table : Text → (P.Table → P.Table) → Catalog P → Catalog P
  unfolding resolve_table_name get insert
  update_table name f c =
      let key = resolve_table_name name c in
      elim (get c.tables key) [
        | none ↦ c
        | some table ↦ record c { tables = insert c.tables key (f table) }
      ]

  unfoldable pub table_exists : Text → Catalog P → Bool
  unfolding resolve_table_name contains_key
  table_exists name c = contains_key c.tables (resolve_table_name name c)

  unfoldable pub rename_table : Text → Text → Catalog P → Catalog P × Result (Unit {0})
  unfolding resolve_table_name to_uppercase contains_key get remove insert
  rename_table old_name new_name c =
      let old_key = resolve_table_name old_name c in
      let new_key = to_uppercase new_name in
      if not (contains_key c.tables old_key)
      then fail c (table_not_found old_name)
      else if contains_key c.tables new_key
      then fail c (table_already_exists new_name)
      else elim (get c.tables old_key) [
        | none ↦ done c
        | some table ↦ done (record c { tables = insert (remove c.tables old_key) new_key table })
      ]

  unfoldable pub replace_table : Text → P.Table → Catalog P → Catalog P × Result (Unit {0})
  unfolding to_uppercase contains_key insert
  replace_table name table c =
      let key = to_uppercase name in
      if not (contains_key c.tables key)
      then fail c (table_not_found name)
      else done (record c { tables = insert c.tables key table })

  unfoldable pub create_or_replace_table : Text → P.Table → Catalog P → Catalog P
  unfolding to_uppercase insert
  create_or_replace_table name table c = record c {
    tables = insert c.tables (to_uppercase name) table;
  }

  -- `CatalogProvider::get_table_schema`
  unfoldable pub get_table_schema : Text → Catalog P → Option P.TableSchema
  unfolding get_table
  get_table_schema name c = Option.map P.table_schema (get_table name c)
