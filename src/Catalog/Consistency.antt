-- ===== src/Catalog/Consistency.antt =====
-- The tables of schemas, of their metadata and of dropped schemas in catalog.rs, against one
-- another.
use yacht_sql.Prelude.{
  ◌≡◌, refl, sym, ap, ◌∙◌, Bool, true, List, [], ◌∷◌, Option, none, some, arith, Bool-cases, inl,
  inr, not, ◌&&◌,
}
use yacht_sql.Prelude.Text.{Text, to_uppercase, text_eq_iff}
use yacht_sql.Prelude.Assoc
use yacht_sql.Prelude.Assoc.{Assoc, get, contains_key, is_some, get-insert, get-remove}
use yacht_sql.Catalog.{
  Payload, Catalog, DroppedSchema, SchemaMetadata, TransactionSnapshot, new, no_metadata,
}
use yacht_sql.Catalog.Schemas
use yacht_sql.Catalog.Tables
use yacht_sql.Catalog.Routines
use yacht_sql.Catalog.Transactions
use yacht_sql.Catalog.Steps.{Op, step, run}

-- Changing options adds no key.
contains-alter_metadata :
    (key : Text) (options : Assoc Text) (m : Assoc SchemaMetadata) (o : Option SchemaMetadata)
    (k : Text)
    → get m key ≡ o
    → contains_key (Schemas.alter_metadata key options o m) k ≡ contains_key m k
unfolding Schemas.alter_metadata contains_key
contains-alter_metadata key options m none k h = refl
contains-alter_metadata key options m (some meta) k h = ground (
  arith,
  get-insert m key k (record { options = Assoc.insert_all meta.options options }),
  text_eq_iff key k,
)

module _ {P : Payload} where
  -- A schema is never both there and dropped, and exactly the schemas that are there have metadata.
  pub record IsConsistent (c : Catalog P) : Type 0 where
    pub disjoint : (k : Text) → contains_key c.schemas k ≡ true → get c.dropped_schemas k ≡ none
    pub described : (k : Text) → contains_key c.schema_metadata k ≡ contains_key c.schemas k

  pub new-IsConsistent : IsConsistent (new P)
  unfolding new contains_key get
  new-IsConsistent = record { disjoint = λ k h. refl; described = λ k. refl }

  same_schemas :
      {a b : Catalog P}
      → a.schemas ≡ b.schemas
      → a.schema_metadata ≡ b.schema_metadata
      → a.dropped_schemas ≡ b.dropped_schemas
      → IsConsistent b
      → IsConsistent a
  same_schemas p q r v = record {
    disjoint = λ k h. ap (λ d. get d k) r ∙ v.disjoint k (ap (λ s. contains_key s k) (sym p) ∙ h);
    described =
        λ k. ap (λ s. contains_key s k) q ∙ v.described k ∙ ap (λ s. contains_key s k) (sym p);
  }

  -- The catalog after a schema has come into being.
  created_IsConsistent :
      (c : Catalog P) (key : Text) (meta : SchemaMetadata)
      → IsConsistent c
      → IsConsistent (record c {
        schemas = Assoc.insert c.schemas key tt;
        schema_metadata = Assoc.insert c.schema_metadata key meta;
        dropped_schemas = Assoc.remove c.dropped_schemas key;
      })
  unfolding contains_key
  created_IsConsistent c key meta v = record {
    disjoint = λ k h.
        ground
          (arith, get-insert c.schemas key k tt, get-remove c.dropped_schemas key k, v.disjoint k);
    described = λ k. ground (
      arith,
      get-insert c.schemas key k tt,
      get-insert c.schema_metadata key k meta,
      v.described k,
    );
  }

  create_schema-IsConsistent :
      (name : Text) (e : Bool) (c : Catalog P)
      → IsConsistent c
      → IsConsistent (Schemas.create_schema name e c).0
  unfolding Schemas.create_schema
  create_schema-IsConsistent name e c v =
      elim (Bool-cases (contains_key c.schemas (to_uppercase name))) [
        | inl there ↦ rw there (same_schemas (ground arith) (ground arith) (ground arith) v)
        | inr absent ↦ rw absent (created_IsConsistent c (to_uppercase name) no_metadata v)
      ]

  create_schema_with_options-IsConsistent :
      (name : Text) (e : Bool) (o : Assoc Text) (c : Catalog P)
      → IsConsistent c
      → IsConsistent (Schemas.create_schema_with_options name e o c).0
  unfolding Schemas.create_schema_with_options
  create_schema_with_options-IsConsistent name e o c v =
      elim (Bool-cases (contains_key c.schemas (to_uppercase name))) [
        | inl there ↦ rw there (same_schemas (ground arith) (ground arith) (ground arith) v)
        | inr absent ↦
            rw absent (created_IsConsistent c (to_uppercase name) (record { options = o }) v)
      ]

  -- The catalog after a schema has been dropped.
  dropped_IsConsistent :
      (c : Catalog P) (key : Text) (d : DroppedSchema P) (kept : Assoc P.Table)
      → IsConsistent c
      → IsConsistent (record c {
        tables = kept;
        schema_metadata = Assoc.remove c.schema_metadata key;
        schemas = Assoc.remove c.schemas key;
        dropped_schemas = Assoc.insert c.dropped_schemas key d;
      })
  unfolding contains_key
  dropped_IsConsistent c key d kept v = record {
    disjoint = λ k h.
        ground
          (arith, get-remove c.schemas key k, get-insert c.dropped_schemas key k d, v.disjoint k);
    described = λ k.
        ground
          (arith, get-remove c.schemas key k, get-remove c.schema_metadata key k, v.described k);
  }

  drop_schema-IsConsistent :
      (name : Text) (e x : Bool) (c : Catalog P)
      → IsConsistent c
      → IsConsistent (Schemas.drop_schema name e x c).0
  unfolding Schemas.drop_schema
  drop_schema-IsConsistent name e x c v =
      let key = to_uppercase name in
      let tables_in_schema = Assoc.matching (Schemas.in_schema key) (Assoc.keys c.tables) in
      elim (Bool-cases (contains_key c.schemas key)) [
        | inr absent ↦ rw absent (same_schemas (ground arith) (ground arith) (ground arith) v)
        | inl there ↦
            rw there (elim (Bool-cases (not (Schemas.is_empty tables_in_schema) && not x)) [
              | inl full ↦ rw full v
              | inr free ↦ rw free (dropped_IsConsistent c key _ _ v)
            ])
      ]

  undrop-IsConsistent :
      (name : Text) (e : Bool) (key : Text) (o : Option (DroppedSchema P)) (c : Catalog P)
      → get c.dropped_schemas key ≡ o
      → IsConsistent c
      → IsConsistent
          (Schemas.undrop name e key o
            (record c { dropped_schemas = Assoc.remove c.dropped_schemas key })).0
  unfolding Schemas.undrop
  undrop-IsConsistent name e key (some d) c h v =
      same_schemas refl refl refl (created_IsConsistent c key d.metadata v)
  undrop-IsConsistent name e key none c h v =
      same_schemas (ground arith) (ground arith)
        (ground (arith, Assoc.remove_absent c.dropped_schemas key h)) v

  undrop_schema-IsConsistent :
      (name : Text) (e : Bool) (c : Catalog P)
      → IsConsistent c
      → IsConsistent (Schemas.undrop_schema name e c).0
  unfolding Schemas.undrop_schema
  undrop_schema-IsConsistent name e c v =
      elim (Bool-cases (contains_key c.schemas (to_uppercase name))) [
        | inl there ↦ rw there (same_schemas (ground arith) (ground arith) (ground arith) v)
        | inr absent ↦ rw absent (undrop-IsConsistent name e (to_uppercase name) _ c refl v)
      ]

  alter_schema_options-IsConsistent :
      (name : Text) (o : Assoc Text) (c : Catalog P)
      → IsConsistent c
      → IsConsistent (Schemas.alter_schema_options name o c).0
  unfolding Schemas.alter_schema_options
  alter_schema_options-IsConsistent name o c v =
      let key = to_uppercase name in
      elim (Bool-cases (contains_key c.schemas key)) [
        | inr absent ↦ rw absent v
        | inl there ↦ rw there (record {
          disjoint = v.disjoint;
          described = λ k. contains-alter_metadata key o c.schema_metadata _ k refl ∙ v.described k;
        })
      ]

  restore-IsConsistent :
      (o : Option (TransactionSnapshot P)) (c : Catalog P)
      → IsConsistent c
      → IsConsistent (Transactions.restore o c)
  unfolding Transactions.restore
  restore-IsConsistent none c v = v
  restore-IsConsistent (some s) c v = same_schemas refl refl refl v

  -- Every operation keeps the schema tables in agreement.
  pub step-IsConsistent : (op : Op P) (c : Catalog P) → IsConsistent c → IsConsistent (step op c).0
  unfolding step Schemas.set_search_path Tables.create_table Tables.insert_table
      Tables.set_table_defaults Tables.drop_table Tables.update_table Tables.rename_table
      Tables.replace_table Tables.create_or_replace_table Routines.create_function
      Routines.drop_function Routines.create_procedure Routines.drop_procedure Routines.create_view
      Routines.drop_view Transactions.begin_transaction Transactions.commit Transactions.rollback
  step-IsConsistent (Op.create_schema n e) c v = create_schema-IsConsistent n e c v
  step-IsConsistent (Op.create_schema_with_options n e o) c v =
      create_schema_with_options-IsConsistent n e o c v
  step-IsConsistent (Op.drop_schema n e x) c v = drop_schema-IsConsistent n e x c v
  step-IsConsistent (Op.undrop_schema n e) c v = undrop_schema-IsConsistent n e c v
  step-IsConsistent (Op.alter_schema_options n o) c v = alter_schema_options-IsConsistent n o c v
  step-IsConsistent Op.rollback c v = restore-IsConsistent c.transaction_snapshot c v
  step-IsConsistent _ c v = same_schemas (ground arith) (ground arith) (ground arith) v

  -- Where no schema is both there and dropped, and exactly the schemas that are there have
  -- metadata, this is so after any run of operations as well.
  pub run-IsConsistent :
      (ops : List (Op P)) (c : Catalog P) → IsConsistent c → IsConsistent (run ops c)
  unfolding run
  run-IsConsistent [] c v = v
  run-IsConsistent (op ∷ ops) c v = run-IsConsistent ops (step op c).0 (step-IsConsistent op c v)
