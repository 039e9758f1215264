-- ===== src/Catalog/Atomicity.antt =====
-- The operations of catalog.rs where they fail.
use yacht_sql.Prelude.{◌≡◌, refl, ap, ◌∙◌, Bool, inl, inr, Option, none, some, arith, Bool-cases}
use yacht_sql.Prelude.Text.{Text, to_uppercase}
use yacht_sql.Prelude.Assoc.{get, contains_key, remove, remove_absent}
use yacht_sql.Common.Error.{Error, err}
use yacht_sql.Catalog.{Payload, Catalog, DroppedSchema}
use yacht_sql.Catalog.Schemas
use yacht_sql.Catalog.Tables
use yacht_sql.Catalog.Routines
use yacht_sql.Catalog.Steps.{Op, step}

module _ {P : Payload} where
  -- `undrop_schema` fails behind its first test only where there is nothing to restore.
  undrop_error_none :
      (name : Text) (e : Bool) (key : Text) (o : Option (DroppedSchema P)) (c : Catalog P)
      (x : Error)
      → (Schemas.undrop name e key o c).1 ≡ err x
      → (o ≡ none) × ((Schemas.undrop name e key o c).0 ≡ c)
  unfolding Schemas.undrop
  undrop_error_none name e key (some d) c x h = cc
  undrop_error_none name e key none c x h = (refl, ground arith)

  undrop_error :
      (name : Text) (e : Bool) (c : Catalog P) (x : Error)
      → (Schemas.undrop_schema name e c).1 ≡ err x
      → (Schemas.undrop_schema name e c).0 ≡ c
  unfolding Schemas.undrop_schema
  undrop_error name e c x h = elim (Bool-cases (contains_key c.schemas (to_uppercase name))) [
    | inl there ↦ ground (arith, there)
    | inr absent ↦
        let key = to_uppercase name in
        let c' = record c { dropped_schemas = remove c.dropped_schemas key } in
        let (nothing, same) =
          undrop_error_none name e key (get c.dropped_schemas key) c' x (rw absent at h) in
        rw absent (
          same
          ∙ ap (λ d. record c { dropped_schemas = d })
              (remove_absent c.dropped_schemas key nothing))
  ]

  drop_view_error :
      (name : Text) (e : Bool) (c : Catalog P) (x : Error)
      → (Routines.drop_view name e c).1 ≡ err x
      → (Routines.drop_view name e c).0 ≡ c
  unfolding Routines.drop_view contains_key
  drop_view_error name e c x h = ground (
    arith,
    ap (λ v. record c { views = v }) (remove_absent c.views (to_uppercase name) (ground arith)),
  )

  -- An operation that returns an error has changed nothing.
  pub step_error_atomic :
      (op : Op P) (c : Catalog P) (x : Error) → (step op c).1 ≡ err x → (step op c).0 ≡ c
  unfolding step Schemas.create_schema Schemas.create_schema_with_options Schemas.drop_schema
      Schemas.alter_schema_options Tables.create_table Tables.insert_table Tables.drop_table
      Tables.rename_table Tables.replace_table Routines.create_function Routines.drop_function
      Routines.create_procedure Routines.drop_procedure Routines.create_view
  step_error_atomic (Op.create_schema n e) c x h = ground arith
  step_error_atomic (Op.undrop_schema n e) c x h = undrop_error n e c x h
  step_error_atomic (Op.drop_view n e) c x h = drop_view_error n e c x h
  step_error_atomic _ c x h = ground arith
