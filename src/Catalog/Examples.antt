-- ===== src/Catalog/Examples.antt =====
-- Tests of the catalog, and instances of its theorems.
use yacht_sql.Prelude.{ℕ, ◌≡◌, refl, true, false, List, [], ◌∷◌, none, some}
use yacht_sql.Prelude.Text.{codes, to_uppercase, text_eq, contains_dot}
use yacht_sql.Prelude.Assoc
use yacht_sql.Prelude.Assoc.{get, contains_key}
use yacht_sql.Common.Error.{ok, err}
use yacht_sql.Catalog.{Payload, Catalog, new}
use yacht_sql.Catalog.Transactions.{begin_transaction, rollback}
use yacht_sql.Catalog.Schemas.{
  create_schema, drop_schema, undrop_schema, schema_not_empty, set_search_path, upper_all,
}
use yacht_sql.Catalog.Tables.{
  resolve_table_name, resolve_on, get_table, create_table, drop_table, rename_table,
  get_table_defaults, schema_is_dropped, set_table_defaults,
}
use yacht_sql.Catalog.Steps.{Op, step, run}
use yacht_sql.Catalog.Atomicity.{step_error_atomic}
use yacht_sql.Catalog.Consistency.{IsConsistent, new-IsConsistent, run-IsConsistent}
use yacht_sql.Catalog.Snapshot.{rollback_restores}
use yacht_sql.Catalog.Undrop.{SameLookups, drop_undrop}
use yacht_sql.Catalog.Lookup.{first_found, candidates, get_table-first_found}
use yacht_sql.Catalog.Changes.{defaults_survive_drop}
use yacht_sql.Catalog.Filled.{PlanTypes, storage}
use yacht_sql.Common.Sample.{sample_externals}
use yacht_sql.Common.Types.{DataType}
use yacht_sql.Storage.Column.{Column}
use yacht_sql.Storage.IndexMap.{entry_list}
use yacht_sql.Storage.Schema.{Schema, FieldMode, new_field}

-- Numbers stand for schemas, and a table is its schema.
abbrev numbers : Payload
numbers = record {
  Table = ℕ;
  TableSchema = ℕ;
  Expr = ℕ;
  DataType = ℕ;
  FunctionArg = ℕ;
  FunctionBody = ℕ;
  ProcedureArg = ℕ;
  LogicalPlan = ℕ;
  new_table = λ s. s;
  table_schema = λ t. t;
  schema-new = λ s. refl;
}

abbrev script : List (Op numbers)
script =
    Op.create_schema (codes "Sales") false
    ∷ Op.create_table (codes "sales.orders") 7
    ∷ Op.create_table (codes "users") 8
    ∷ Op.set_search_path (codes "sales" ∷ [])
    ∷ Op.set_table_defaults (codes "users")
        (record { column_name = codes "id"; default_expr = 1 } ∷ [])
    ∷ []

abbrev sample : Catalog numbers
sample = run script (new numbers)

sample-IsConsistent : IsConsistent sample
sample-IsConsistent = run-IsConsistent script (new numbers) new-IsConsistent

on_search_path : get_table (codes "orders") sample ≡ some 7
unfolding get_table run step create_schema create_table set_search_path new upper_all to_uppercase
    resolve_table_name resolve_on get contains_key schema_is_dropped contains_dot Assoc.insert
    set_table_defaults text_eq
on_search_path = refl

has_users : contains_key sample.tables (to_uppercase (codes "users")) ≡ true
unfolding run step create_schema create_table set_search_path new schema_is_dropped
    set_table_defaults text_eq
has_users = refl

has_sales : contains_key sample.schemas (to_uppercase (codes "sales")) ≡ true
unfolding run step create_schema create_table set_search_path new schema_is_dropped
    set_table_defaults text_eq
has_sales = refl

has_user_key : get_table (codes "Users") sample ≡ some 8
unfolding get_table run step create_schema create_table set_search_path new upper_all to_uppercase
    resolve_table_name resolve_on get contains_key schema_is_dropped contains_dot Assoc.insert
    set_table_defaults text_eq
has_user_key = refl

renames : (rename_table (codes "orders") (codes "old_orders") sample).1 ≡ ok tt
unfolding rename_table run step create_schema create_table set_search_path new schema_is_dropped
    set_table_defaults text_eq
renames = refl

creates : (create_table (codes "people") 9 sample).1 ≡ ok tt
unfolding run step create_schema create_table set_search_path new schema_is_dropped
    set_table_defaults text_eq
creates = refl

creates_again : (create_table (codes "users") 9 (drop_table (codes "users") sample).0).1 ≡ ok tt
unfolding run step create_schema create_table set_search_path new schema_is_dropped
    set_table_defaults drop_table text_eq
creates_again = refl

refuses_drop :
    (step (Op.drop_schema (codes "sales") false false) sample).1
    ≡ err (schema_not_empty (codes "sales"))
unfolding run step create_schema create_table set_search_path new schema_is_dropped
    set_table_defaults drop_schema text_eq
refuses_drop = refl

step_error_atomic_example : (step (Op.drop_schema (codes "sales") false false) sample).0 ≡ sample
step_error_atomic_example =
    step_error_atomic (Op.drop_schema (codes "sales") false false) sample
      (schema_not_empty (codes "sales")) refuses_drop

run-IsConsistent_example : IsConsistent (run script (new numbers))
run-IsConsistent_example = run-IsConsistent script (new numbers) new-IsConsistent

same_name : to_uppercase (codes "Sales") ≡ to_uppercase (codes "sales")
unfolding to_uppercase
same_name = refl

drop_undrop_example :
    ((drop_schema (codes "sales") false true sample).1 ≡ ok tt)
    × ((undrop_schema (codes "Sales") false (drop_schema (codes "sales") false true sample).0).1
        ≡ ok tt)
    × SameLookups
        (undrop_schema (codes "Sales") false (drop_schema (codes "sales") false true sample).0).0
        sample
drop_undrop_example =
    drop_undrop (codes "sales") (codes "Sales") false false sample sample-IsConsistent has_sales
      same_name

rollback_restores_example :
    rollback (run (Op.drop_table (codes "users") ∷ []) (begin_transaction sample))
    ≡ record (run (Op.drop_table (codes "users") ∷ []) (begin_transaction sample)) {
      tables = sample.tables;
      transaction_snapshot = none;
    }
rollback_restores_example = rollback_restores (Op.drop_table (codes "users") ∷ []) sample (tt, tt)

get_table-first_found_example :
    get_table (codes "orders") sample
    ≡ first_found (candidates (codes "orders") sample.search_path) sample.tables
get_table-first_found_example = get_table-first_found (codes "orders") sample

defaults_survive_drop_example :
    get_table_defaults
      (codes "users")
      (create_table (codes "users") 9 (drop_table (codes "users") sample).0).0
    ≡ get_table_defaults (codes "users") sample
defaults_survive_drop_example =
    defaults_survive_drop (codes "users") 9 sample has_users creates_again

-- A catalog over tables, with numbers for the types of the plans.
abbrev plan_numbers : PlanTypes
plan_numbers = record {
  Expr = ℕ;
  DataType = ℕ;
  FunctionArg = ℕ;
  FunctionBody = ℕ;
  ProcedureArg = ℕ;
  LogicalPlan = ℕ;
}

abbrev stored_tables : Payload
stored_tables = storage sample_externals (entry_list (Column sample_externals)) plan_numbers

abbrev users : Schema sample_externals
users = record { fields = new_field (codes "id") DataType.int64 FieldMode.required ∷ [] }

creates_users : (create_table (codes "users") users (new stored_tables)).1 ≡ ok tt
unfolding create_table new schema_is_dropped text_eq
creates_users = refl
