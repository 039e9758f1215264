-- ===== src/Relational/PlanSchema.antt =====
-- `PlanSchema` and `PlanField` of crates/ir/src/schema.rs, `JoinType` of crates/ir/src/plan, and
-- `plan_schema_to_schema` of crates/executor/src/executor/mod.rs.
use yacht_sql.Prelude.{ℕ, ◌+◌, Bool, List, [], ◌∷◌, ◌++◌, Option, none, some, ltb, if◌then◌else◌}
use yacht_sql.Prelude.Text.{Text}
use yacht_sql.Prelude.Assoc
use yacht_sql.Prelude.Assoc.{Assoc}
use yacht_sql.Common.Externals.{Externals}
use yacht_sql.Common.Int64.{show_i64}
use yacht_sql.Common.Types.{DataType}
use yacht_sql.Storage.Schema.{Schema, Field, FieldMode, new_field}

pub record PlanField : Type 0 where
  pub name : Text
  pub data_type : DataType
  pub nullable : Bool
  pub table : Option Text

pub record PlanSchema : Type 0 where
  pub fields : List PlanField

-- How often the name has occurred.
abbrev pub count_of : Option ℕ → ℕ
count_of none = 0
count_of (some n) = n

-- The name itself, or with the count behind it, if it has occurred.
unfoldable pub storage_name : Text → ℕ → Text
unfolding show_i64
storage_name name count = if ltb 0 count then name ++ b'_' ∷ show_i64 count else name

module _ {X : Externals} where
  unfoldable pub storage_field : PlanField → Text → Field X
  unfolding new_field
  storage_field f name =
      record (new_field name f.data_type
        (if f.nullable then FieldMode.nullable else FieldMode.required)) { source_table = f.table }

  -- The loop over the fields, with the counts of the names so far.
  unfoldable pub storage_fields : Assoc ℕ → List PlanField → List (Field X)
  unfolding storage_field storage_name Assoc.get Assoc.insert
  storage_fields counts [] = []
  storage_fields counts (f ∷ fs) =
      let count = count_of (Assoc.get counts f.name) in
      storage_field f (storage_name f.name count)
      ∷ storage_fields (Assoc.insert counts f.name (count + 1)) fs

  unfoldable pub plan_schema_to_schema : PlanSchema → Schema X
  unfolding storage_fields
  plan_schema_to_schema s = record { fields = storage_fields [] s.fields }

pub data JoinType : Type 0 where
  inner left right full cross : JoinType
