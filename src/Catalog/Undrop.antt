-- ===== src/Catalog/Undrop.antt =====
-- `drop_schema … CASCADE` and `undrop_schema` of catalog.rs: dropping, and restoring what was dropped.
use yacht_sql.Prelude.{◌≡◌, refl, Bool, true, false, [], Option, none, some, arith}
use yacht_sql.Prelude.Text.{Text, to_uppercase, text_eq_iff, text_eq_refl}
use yacht_sql.Prelude.Assoc
use yacht_sql.Prelude.Assoc.{
  Assoc, get, contains_key, is_some, when, or_else, get-insert, get-remove, get-insert_all,
  get-move_matching_from, get-move_matching_to, keys, matching, move_keys,
}
use yacht_sql.Common.Error.{ok}
use yacht_sql.Catalog.{Payload, Catalog, DroppedSchema, done}
use yacht_sql.Catalog.Schemas.{drop_schema, undrop_schema, undrop, in_schema, unwrap_or_default}
use yacht_sql.Catalog.Consistency.{IsConsistent}

unit_value : (o : Option (Unit {0})) → is_some o ≡ true → o ≡ some tt
unit_value none h = cc
unit_value (some u) h = refl

module _ {P : Payload} where
  -- Two catalogs that answer every lookup alike.
  pub record SameLookups (a b : Catalog P) : Type 0 where
    pub tables : (k : Text) → get a.tables k ≡ get b.tables k
    pub schemas : (k : Text) → get a.schemas k ≡ get b.schemas k
    pub schema_metadata : (k : Text) → get a.schema_metadata k ≡ get b.schema_metadata k
    pub dropped_schemas : (k : Text) → get a.dropped_schemas k ≡ get b.dropped_schemas k
    pub table_defaults : a.table_defaults ≡ b.table_defaults
    pub functions : a.functions ≡ b.functions
    pub procedures : a.procedures ≡ b.procedures
    pub views : a.views ≡ b.views
    pub search_path : a.search_path ≡ b.search_path
    pub transaction_snapshot : a.transaction_snapshot ≡ b.transaction_snapshot

  -- What `drop_schema` keeps of a schema.
  abbrev dropped_value : Text → Catalog P → DroppedSchema P
  dropped_value key c = record {
    metadata = unwrap_or_default (get c.schema_metadata key);
    tables = (move_keys (matching (in_schema key) (keys c.tables)) c.tables []).1;
  }

  abbrev after_drop : Text → Catalog P → Catalog P
  after_drop key c = record c {
    tables = (move_keys (matching (in_schema key) (keys c.tables)) c.tables []).0;
    schema_metadata = Assoc.remove c.schema_metadata key;
    schemas = Assoc.remove c.schemas key;
    dropped_schemas = Assoc.insert c.dropped_schemas key (dropped_value key c);
  }

  -- A cascading drop of a schema that is there succeeds.
  drop_schema_cascade :
      (name : Text) (e : Bool) (c : Catalog P)
      → contains_key c.schemas (to_uppercase name) ≡ true
      → drop_schema name e true c ≡ done (after_drop (to_uppercase name) c)
  unfolding drop_schema
  drop_schema_cascade name e c h = rw h (ground arith)

  abbrev after_undrop : Text → DroppedSchema P → Catalog P → Catalog P
  after_undrop key d c = record c {
    schemas = Assoc.insert c.schemas key tt;
    schema_metadata = Assoc.insert c.schema_metadata key d.metadata;
    tables = Assoc.insert_all c.tables d.tables;
    dropped_schemas = Assoc.remove c.dropped_schemas key;
  }

  undrop_schema_there :
      (name : Text) (e : Bool) (c : Catalog P) (d : DroppedSchema P)
      → contains_key c.schemas (to_uppercase name) ≡ false
      → get c.dropped_schemas (to_uppercase name) ≡ some d
      → undrop_schema name e c ≡ done (after_undrop (to_uppercase name) d c)
  unfolding undrop_schema undrop
  undrop_schema_there name e c d absent there = rw (absent, there, undrop) refl

  gone : (key : Text) (c : Catalog P) → contains_key (after_drop key c).schemas key ≡ false
  unfolding contains_key
  gone key c = ground (arith, get-remove c.schemas key key, text_eq_refl key)

  kept :
      (key : Text) (c : Catalog P)
      → get (after_drop key c).dropped_schemas key ≡ some (dropped_value key c)
  kept key c =
      ground (arith, get-insert c.dropped_schemas key key (dropped_value key c), text_eq_refl key)

  -- The two together give back every lookup.
  drop_undrop_same :
      (key : Text) (c : Catalog P)
      → IsConsistent c
      → contains_key c.schemas key ≡ true
      → SameLookups (after_undrop key (dropped_value key c) (after_drop key c)) c
  unfolding contains_key
  drop_undrop_same key c v h = record {
    tables = λ k. ground (
      arith,
      get-insert_all (after_drop key c).tables (dropped_value key c).tables k,
      get-move_matching_from (in_schema key) c.tables [] k,
      get-move_matching_to (in_schema key) c.tables k,
    );
    schemas = λ k. ground (
      arith,
      get-insert (after_drop key c).schemas key k tt,
      get-remove c.schemas key k,
      text_eq_iff key k,
      unit_value (get c.schemas key) h,
    );
    schema_metadata = λ k. ground (
      arith,
      get-insert (after_drop key c).schema_metadata key k (dropped_value key c).metadata,
      get-remove c.schema_metadata key k,
      text_eq_iff key k,
      v.described key,
    );
    dropped_schemas = λ k. ground (
      arith,
      get-remove (after_drop key c).dropped_schemas key k,
      get-insert c.dropped_schemas key k (dropped_value key c),
      text_eq_iff key k,
      v.disjoint key,
    );
    table_defaults = refl;
    functions = refl;
    procedures = refl;
    views = refl;
    search_path = refl;
    transaction_snapshot = refl;
  }

  -- In a catalog where no schema is both there and dropped, and exactly the schemas that are there
  -- have metadata, dropping a schema that is there with CASCADE and undropping it, by a name that
  -- is the same in upper case, both succeed, and leave a catalog that answers every lookup as
  -- before.
  pub drop_undrop :
      (name name' : Text) (e e' : Bool) (c : Catalog P)
      → IsConsistent c
      → contains_key c.schemas (to_uppercase name) ≡ true
      → to_uppercase name' ≡ to_uppercase name
      → ((drop_schema name e true c).1 ≡ ok tt)
        × ((undrop_schema name' e' (drop_schema name e true c).0).1 ≡ ok tt)
        × SameLookups (undrop_schema name' e' (drop_schema name e true c).0).0 c
  drop_undrop name name' e e' c v h same =
      let key = to_uppercase name in
      let c1 = after_drop key c in
      let dropping = drop_schema_cascade name e c h in
      let restoring =
        undrop_schema_there name' e' c1 (dropped_value key c) (rw same (gone key c))
          (rw same (kept key c)) in
      rw dropping (rw (restoring, same) (refl, refl, drop_undrop_same key c v h))
