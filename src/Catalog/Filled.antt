-- ===== src/Catalog/Filled.antt =====
-- The catalog of catalog.rs over the tables and schemas of the storage crate.
use yacht_sql.Prelude.{◌≡◌, refl, [], some}
use yacht_sql.Prelude.Text.{Text}
use yacht_sql.Common.Error.{ok}
use yacht_sql.Common.Externals.{Externals}
use yacht_sql.Storage.Column.{Column}
use yacht_sql.Storage.Schema.{Schema}
use yacht_sql.Storage.IndexMap.{IndexMap}
use yacht_sql.Storage.Table.{Table, new}
use yacht_sql.Storage.Table.RowOps.{to_records}
use yacht_sql.Storage.Table.Rectangular.{IsRectangular, IsCleanTable}
use yacht_sql.Storage.Table.Build.{new-IsRectangular}
use yacht_sql.Catalog.{Payload, Catalog}
use yacht_sql.Catalog.Tables.{create_table, get_table}
use yacht_sql.Catalog.Lookup.{get_table-create_table}

-- The types of the plan crate, which the catalog only stores.
pub record PlanTypes : Type 1 where
  pub Expr : Type 0
  pub DataType : Type 0
  pub FunctionArg : Type 0
  pub FunctionBody : Type 0
  pub ProcedureArg : Type 0
  pub LogicalPlan : Type 0

pub schema-new_table :
    {X : Externals} (I : IndexMap (Column X)) (s : Schema X) → (new {I = I} s).schema ≡ s
unfolding new
schema-new_table I s = refl

abbrev pub storage : (X : Externals) → IndexMap (Column X) → PlanTypes → Payload
storage X I L = record {
  Table = Table X I;
  TableSchema = Schema X;
  Expr = L.Expr;
  DataType = L.DataType;
  FunctionArg = L.FunctionArg;
  FunctionBody = L.FunctionBody;
  ProcedureArg = L.ProcedureArg;
  LogicalPlan = L.LogicalPlan;
  new_table = new;
  table_schema = λ t. t.schema;
  schema-new = schema-new_table I;
}

module _ (X : Externals) (I : IndexMap (Column X)) (L : PlanTypes) where
  -- After `create_table` has succeeded, `get_table` finds a table with the given schema under the
  -- name, and it is rectangular, with no null flag behind its rows, and has no records.
  pub created_table_empty :
      (name : Text) (schema : Schema X) (c : Catalog (storage X I L))
      → (create_table name schema c).1 ≡ ok tt
      → (t : Table X I) × (get_table name (create_table name schema c).0 ≡ some t)
        × (t.schema ≡ schema)
        × IsRectangular t
        × IsCleanTable t
        × (to_records t ≡ ok [])
  created_table_empty name schema c h =
      let made = get_table-create_table name schema c h in
      let (valid, clean, none) = new-IsRectangular I schema in
      (new schema, made.0, schema-new_table I schema, valid, clean, none)
