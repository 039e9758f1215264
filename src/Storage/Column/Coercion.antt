-- ===== src/Storage/Column/Coercion.antt =====
-- `coerce_struct_value` and `coerce_value_for_type` of column.rs: a struct takes the field names of
-- the column.
use yacht_sql.Prelude.{ℕ, suc, ◌++◌}
use yacht_sql.Prelude.Text.{codes}
use yacht_sql.Common.Externals.{Externals}
use yacht_sql.Common.Int64.{show_i64}
use yacht_sql.Common.Types.{
  DataType, StructFields, no_fields, field, Value, Values, nil, cons, ValueFields, no_values, named,
}

module _ {X : Externals} where
  unfoldable mutual
    unfolding show_i64

    pub coerce_value_for_type : Value X → DataType → Value X
    coerce_value_for_type (Value.struct fs) (DataType.struct ts) =
        Value.struct (coerce_fields 0 fs ts)
    coerce_value_for_type (Value.array vs) (DataType.array t) = Value.array (coerce_values vs t)
    coerce_value_for_type v _ = v

    pub coerce_values : Values X → DataType → Values X
    coerce_values nil t = nil
    coerce_values (cons v vs) t = cons (coerce_value_for_type v t) (coerce_values vs t)

    -- The fields from position i on; a field with no target is named by its position.
    pub coerce_fields : ℕ → ValueFields X → StructFields → ValueFields X
    coerce_fields i no_values ts = no_values
    coerce_fields i (named old v fs) no_fields =
        named (codes "_field" ++ show_i64 i) v (coerce_fields (suc i) fs no_fields)
    coerce_fields i (named old v fs) (field name t ts) =
        named name (coerce_value_for_type v t) (coerce_fields (suc i) fs ts)

  unfoldable pub coerce_struct_value : ValueFields X → StructFields → ValueFields X
  unfolding coerce_value_for_type
  coerce_struct_value fs ts = coerce_fields 0 fs ts
