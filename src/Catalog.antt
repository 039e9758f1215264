-- ===== src/Catalog.antt =====
-- The in-memory catalog of crates/executor/src/catalog.rs: its state, over the types of the storage
-- and plan crates that it keeps and never looks into.
pub mod Transactions
pub mod Schemas
pub mod Tables
pub mod Routines
pub mod Steps
pub mod Atomicity
pub mod Snapshot
pub mod Consistency
pub mod Undrop
pub mod Lookup
pub mod Changes
pub mod Filled
mod Examples
use yacht_sql.Prelude.{◌≡◌, Bool, List, [], Option, none, some}
use yacht_sql.Prelude.Text.{Text}
use yacht_sql.Prelude.Assoc.{Assoc}
use yacht_sql.Common.Error.{Error, Result, ok, err}

-- What the catalog uses of the tables, the schemas and the plans.
pub record Payload : Type 1 where
  pub Table : Type 0
  pub TableSchema : Type 0
  pub Expr : Type 0
  pub DataType : Type 0
  pub FunctionArg : Type 0
  pub FunctionBody : Type 0
  pub ProcedureArg : Type 0
  pub LogicalPlan : Type 0
  -- Table::new(schema) and table.schema()
  pub new_table : TableSchema → Table
  pub table_schema : Table → TableSchema
  pub schema-new : (s : TableSchema) → table_schema (new_table s) ≡ s

pub record UserFunction (P : Payload) : Type 0 where
  pub name : Text
  pub parameters : List P.FunctionArg
  pub return_type : P.DataType
  pub body : P.FunctionBody
  pub is_temporary : Bool
  pub is_aggregate : Bool

pub record UserProcedure (P : Payload) : Type 0 where
  pub name : Text
  pub parameters : List P.ProcedureArg
  pub body : List P.LogicalPlan

pub record ViewDef : Type 0 where
  pub query : Text
  pub column_aliases : List Text

pub record SchemaMetadata : Type 0 where
  pub options : Assoc Text

-- SchemaMetadata::default()
abbrev pub no_metadata : SchemaMetadata
no_metadata = record { options = [] }

pub record ColumnDefault (P : Payload) : Type 0 where
  pub column_name : Text
  pub default_expr : P.Expr

pub record TransactionSnapshot (P : Payload) : Type 0 where
  pub tables : Assoc P.Table

pub record DroppedSchema (P : Payload) : Type 0 where
  pub metadata : SchemaMetadata
  pub tables : Assoc P.Table

-- The hash set `schemas` is a map to the unit type.
pub record Catalog (P : Payload) : Type 0 where
  pub tables : Assoc P.Table
  pub table_defaults : Assoc (List (ColumnDefault P))
  pub functions : Assoc (UserFunction P)
  pub procedures : Assoc (UserProcedure P)
  pub views : Assoc ViewDef
  pub schemas : Assoc (Unit {0})
  pub schema_metadata : Assoc SchemaMetadata
  pub search_path : List Text
  pub dropped_schemas : Assoc (DroppedSchema P)
  pub transaction_snapshot : Option (TransactionSnapshot P)

module _ (P : Payload) where
  unfoldable pub new : Catalog P
  new = record {
    tables = [];
    table_defaults = [];
    functions = [];
    procedures = [];
    views = [];
    schemas = [];
    schema_metadata = [];
    search_path = [];
    dropped_schemas = [];
    transaction_snapshot = none;
  }

module _ {P : Payload} where
  -- A method that returns `Result<()>` gives the catalog that it leaves and its result.
  abbrev pub done : Catalog P → Catalog P × Result (Unit {0})
  done c = (c, ok tt)

  abbrev pub fail : Catalog P → Error → Catalog P × Result (Unit {0})
  fail c e = (c, err e)
