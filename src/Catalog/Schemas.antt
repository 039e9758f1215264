-- ===== src/Catalog/Schemas.antt =====
-- The schema operations of catalog.rs.
use mathlib.Core.Option
use yacht_sql.Prelude.{
  Bool, true, false, not, ◌++◌, ◌&&◌, List, [], ◌∷◌, Option, none, some, if◌then◌else◌,
}
use yacht_sql.Prelude.Text.{Text, codes, to_uppercase, starts_with}
use yacht_sql.Prelude.Assoc.{
  Assoc, get, contains_key, insert, remove, keys, matching, move_keys, insert_all,
}
use yacht_sql.Common.Error.{Error, Result, invalid_query}
use yacht_sql.Catalog.{Payload, Catalog, SchemaMetadata, DroppedSchema, no_metadata, done, fail}

-- The messages, `format!("…: {}", name)`.
abbrev pub schema_already_exists : Text → Error
schema_already_exists name = invalid_query (codes "Schema already exists: " ++ name)

abbrev pub schema_not_found : Text → Error
schema_not_found name = invalid_query (codes "Schema not found: " ++ name)

abbrev pub no_dropped_schema : Text → Error
no_dropped_schema name = invalid_query (codes "No dropped schema found: " ++ name)

abbrev pub schema_not_empty : Text → Error
schema_not_empty name = invalid_query (
    codes "Cannot drop schema '"
    ++ (name ++ codes "' because it contains objects. Use CASCADE to drop all objects."))

-- Vec::is_empty
abbrev pub is_empty {ℓ} : {A : Type ℓ} → List A → Bool
is_empty [] = true
is_empty (x ∷ xs) = false

-- Option::unwrap_or_default at `SchemaMetadata`
abbrev pub unwrap_or_default : Option SchemaMetadata → SchemaMetadata
unwrap_or_default none = no_metadata
unwrap_or_default (some m) = m

-- key.starts_with(format!("{}.", schema))
unfoldable pub in_schema : Text → Text → Bool
unfolding starts_with
in_schema schema key = starts_with key (schema ++ b'.' ∷ [])

-- `if let Some(metadata) = self.schema_metadata.get_mut(&key) { … }`
unfoldable pub alter_metadata :
    Text → Assoc Text → Option SchemaMetadata → Assoc SchemaMetadata → Assoc SchemaMetadata
unfolding insert insert_all
alter_metadata key options none m = m
alter_metadata key options (some meta) m =
    insert m key (record { options = insert_all meta.options options })

-- schemas.map(|s| s.to_uppercase())
unfoldable pub upper_all : List Text → List Text
unfolding to_uppercase
upper_all [] = []
upper_all (s ∷ ss) = to_uppercase s ∷ upper_all ss

module _ {P : Payload} where
  unfoldable pub create_schema_with_options :
      Text → Bool → Assoc Text → Catalog P → Catalog P × Result (Unit {0})
  unfolding contains_key insert remove to_uppercase
  create_schema_with_options name if_not_exists options c =
      let key = to_uppercase name in
      if contains_key c.schemas key
      then (if if_not_exists then done c else fail c (schema_already_exists name))
      else done (record c {
        schemas = insert c.schemas key tt;
        schema_metadata = insert c.schema_metadata key (record { options = options });
        dropped_schemas = remove c.dropped_schemas key;
      })

  unfoldable pub create_schema : Text → Bool → Catalog P → Catalog P × Result (Unit {0})
  unfolding contains_key insert remove to_uppercase
  create_schema name if_not_exists c =
      let key = to_uppercase name in
      if contains_key c.schemas key
      then (if if_not_exists then done c else fail c (schema_already_exists name))
      else done (record c {
        schemas = insert c.schemas key tt;
        schema_metadata = insert c.schema_metadata key no_metadata;
        dropped_schemas = remove c.dropped_schemas key;
      })

  unfoldable pub drop_schema : Text → Bool → Bool → Catalog P → Catalog P × Result (Unit {0})
  unfolding contains_key insert remove get keys matching move_keys in_schema to_uppercase
  drop_schema name if_exists cascade c =
      let key = to_uppercase name in
      if not (contains_key c.schemas key)
      then (if if_exists then done c else fail c (schema_not_found name))
      else let tables_in_schema = matching (in_schema key) (keys c.tables) in
        if not (is_empty tables_in_schema) && not cascade
        then fail c (schema_not_empty name)
        else let (kept, dropped_tables) = move_keys tables_in_schema c.tables [] in
          let metadata = unwrap_or_default (get c.schema_metadata key) in
          done (record c {
            tables = kept;
            schema_metadata = remove c.schema_metadata key;
            schemas = remove c.schemas key;
            dropped_schemas =
                insert c.dropped_schemas key
                  (record { metadata = metadata; tables = dropped_tables });
          })

  -- The two cases of `match dropped`.
  unfoldable pub undrop :
      Text → Bool → Text → Option (DroppedSchema P) → Catalog P → Catalog P × Result (Unit {0})
  unfolding insert insert_all
  undrop name if_not_exists key (some dropped) c = done (record c {
    schemas = insert c.schemas key tt;
    schema_metadata = insert c.schema_metadata key dropped.metadata;
    tables = insert_all c.tables dropped.tables;
  })
  undrop name if_not_exists key none c =
      if if_not_exists then done c else fail c (no_dropped_schema name)

  unfoldable pub undrop_schema : Text → Bool → Catalog P → Catalog P × Result (Unit {0})
  unfolding contains_key get remove undrop to_uppercase
  undrop_schema name if_not_exists c =
      let key = to_uppercase name in
      if contains_key c.schemas key
      then (if if_not_exists then done c else fail c (schema_already_exists name))
      else undrop name if_not_exists key (get c.dropped_schemas key)
          (record c { dropped_schemas = remove c.dropped_schemas key })

  unfoldable pub schema_exists : Text → Catalog P → Bool
  unfolding contains_key to_uppercase
  schema_exists name c = contains_key c.schemas (to_uppercase name)

  unfoldable pub get_schema_option : Text → Text → Catalog P → Option Text
  unfolding get to_uppercase
  get_schema_option schema_name option_key c =
      Option.bind (get c.schema_metadata (to_uppercase schema_name))
        (λ meta. get meta.options option_key)

  unfoldable pub alter_schema_options :
      Text → Assoc Text → Catalog P → Catalog P × Result (Unit {0})
  unfolding contains_key get alter_metadata to_uppercase
  alter_schema_options name options c =
      let key = to_uppercase name in
      if not (contains_key c.schemas key)
      then fail c (schema_not_found name)
      else done (record c {
        schema_metadata = alter_metadata key options (get c.schema_metadata key) c.schema_metadata;
      })

  unfoldable pub set_search_path : List Text → Catalog P → Catalog P
  unfolding upper_all
  set_search_path schemas c = record c { search_path = upper_all schemas }

  unfoldable pub get_search_path : Catalog P → List Text
  get_search_path c = c.search_path
