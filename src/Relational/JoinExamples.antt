-- ===== src/Relational/JoinExamples.antt =====
-- Tests of the joins, and instances of their theorems.
use yacht_sql.Prelude.{ℕ, ◌≡◌, refl, true, false, List, [], ◌∷◌, none, some, All, length}
use yacht_sql.Prelude.Text.{codes}
use yacht_sql.Prelude.Assoc
use yacht_sql.Prelude.Bits.{test_bit, or_bit}
use yacht_sql.Common.Error.{Result, ok, err}
use yacht_sql.Common.Sample.{sample_externals, sample_operators}
use yacht_sql.Common.Types.{Value, DataType}
use yacht_sql.Storage.Column
use yacht_sql.Storage.Column.{Column}
use yacht_sql.Storage.IndexMap.{IndexMap, entry_list}
use yacht_sql.Storage.Schema.{Schema, FieldMode, new_field}
use yacht_sql.Storage.Table.{Table, new}
use yacht_sql.Storage.Table.RowOps.{Record, push_row, push_rows, get_row, to_records}
use yacht_sql.Storage.Table.Rectangular.{rows}
use yacht_sql.Evaluator.Expr.{Expr, BinaryOp}
use yacht_sql.Evaluator.Evaluate.{evaluate, apply_binary_op, get_collation_for_expr}
use yacht_sql.Evaluator.Tests.{eval_column}
use yacht_sql.Evaluator.Comparison.{eq_values_with_collation}
use yacht_sql.Common.ValueEquality.{value_eq}
use yacht_sql.Relational.Loops.{pushed}
use yacht_sql.Relational.PlanSchema.{PlanField, PlanSchema, JoinType, plan_schema_to_schema}
use yacht_sql.Relational.Sort.{plain}
use yacht_sql.Relational.Join.{
  matches, null_row, combine_records, combine_schemas, execute_nested_loop_join,
}
use yacht_sql.Relational.Joined.{HasVerdict, joined_rows}
use yacht_sql.Relational.NestedLoops.{joint, execute_nested_loop_join-joined_rows}
use yacht_sql.Relational.HashJoin.{execute_hash_join, key_values}
use yacht_sql.Relational.HashTable.{int64, null}
use yacht_sql.Relational.HashIndex.{HasPlainKeys}
use yacht_sql.Relational.KeyColumns.{HasPlainAt}
use yacht_sql.Relational.SameJoin.{execute_hash_join-execute_nested_loop_join}
use yacht_sql.Relational.HashJoined.{equal_rows, execute_hash_join-equal_rows}

abbrev join_map : IndexMap (Column sample_externals)
join_map = entry_list (Column sample_externals)

abbrev key_schema : Schema sample_externals
key_schema = record { fields = new_field (codes "n") DataType.int64 FieldMode.nullable ∷ [] }

abbrev key_row : ℕ → Record sample_externals
key_row n = Value.int64 n ∷ []

abbrev null_key : Record sample_externals
null_key = Value.null ∷ []

-- The rows 5 and NULL.
abbrev left_table : Table sample_externals join_map
left_table = (push_row null_key (push_row (key_row 5) (new key_schema)).0).0

-- The rows 3 and 5.
abbrev right_table : Table sample_externals join_map
right_table = (push_row (key_row 5) (push_row (key_row 3) (new key_schema)).0).0

abbrev pair_field : PlanField
pair_field = record { name = codes "n"; data_type = DataType.int64; nullable = true; table = none }

abbrev pairs : PlanSchema
pairs = record { fields = pair_field ∷ pair_field ∷ [] }

abbrev key_column : ℕ → Expr sample_externals
key_column i = Expr.column none (codes "n") (some i)

abbrev same_n : Expr sample_externals
same_n = Expr.binary_op (key_column 0) BinaryOp.eq (key_column 1)

abbrev made : Result (Table sample_externals join_map) → List (Record sample_externals)
made (err e) = []
made (ok t) = rows t

abbrev bits : ℕ → ℕ
bits f = f

join_tests :
    (made (
        execute_nested_loop_join sample_operators left_table right_table JoinType.full
          (some same_n)
          pairs)
      ≡ (Value.int64 5 ∷ Value.int64 5 ∷ [])
        ∷ (Value.null ∷ Value.null ∷ [])
        ∷ (Value.null ∷ Value.int64 3 ∷ [])
        ∷ [])
    × (made (
          execute_nested_loop_join sample_operators left_table right_table JoinType.right
            (some same_n)
            pairs)
        ≡ (Value.null ∷ Value.int64 3 ∷ []) ∷ (Value.int64 5 ∷ Value.int64 5 ∷ []) ∷ [])
    × (made (
          execute_hash_join sample_operators bits left_table right_table
            (key_column 0 ∷ [])
            (key_column 0 ∷ [])
            pairs)
        ≡ (Value.int64 5 ∷ Value.int64 5 ∷ []) ∷ [])
unfolding execute_nested_loop_join execute_hash_join rows push_row new new_field Column.get_value
    evaluate eval_column apply_binary_op eq_values_with_collation value_eq plan_schema_to_schema
    pushed get_row to_records push_rows test_bit or_bit Assoc.insert Assoc.get
join_tests = (refl, refl, refl)

verdicts :
    All
      (λ l.
        All
          (λ r.
            HasVerdict sample_operators
              (joint sample_operators left_table right_table)
              (some same_n)
              (combine_records l r))
          (rows right_table))
      (rows left_table)
unfolding rows push_row new new_field Column.get_value Assoc.insert test_bit or_bit matches evaluate
    eval_column apply_binary_op eq_values_with_collation value_eq combine_records
verdicts = (((false, refl), ((true, refl), tt)), (((false, refl), ((false, refl), tt)), tt))

execute_nested_loop_join-joined_rows_example :
    execute_nested_loop_join sample_operators left_table right_table JoinType.full
      (some same_n)
      pairs
    ≡ push_rows
        (joined_rows sample_operators
          (joint sample_operators left_table right_table)
          (some same_n)
          JoinType.full
          (null_row left_table.schema)
          (null_row right_table.schema)
          (rows left_table)
          (rows right_table))
        (new (plan_schema_to_schema pairs))
execute_nested_loop_join-joined_rows_example =
    execute_nested_loop_join-joined_rows sample_operators left_table right_table JoinType.full
      (some same_n) pairs verdicts

left_keys_plain :
    All
      (HasPlainKeys sample_operators (plain left_table.schema) (key_column 0 ∷ []))
      (rows left_table)
unfolding rows push_row new new_field Column.get_value Assoc.insert test_bit or_bit evaluate
    eval_column key_values
left_keys_plain =
    ((Value.int64 5 ∷ [], refl, (int64 5, tt)), ((Value.null ∷ [], refl, (null, tt)), tt))

right_keys_plain :
    All
      (HasPlainKeys sample_operators (plain right_table.schema) (key_column 0 ∷ []))
      (rows right_table)
unfolding rows push_row new new_field Column.get_value Assoc.insert test_bit or_bit evaluate
    eval_column key_values
right_keys_plain =
    ((Value.int64 3 ∷ [], refl, (int64 3, tt)), ((Value.int64 5 ∷ [], refl, (int64 5, tt)), tt))

execute_hash_join-equal_rows_example :
    execute_hash_join sample_operators bits left_table right_table
      (key_column 0 ∷ [])
      (key_column 0 ∷ [])
      pairs
    ≡ push_rows
        (equal_rows sample_operators
          (plain left_table.schema)
          (plain right_table.schema)
          (key_column 0 ∷ [])
          (key_column 0 ∷ [])
          (rows left_table)
          (rows right_table))
        (new (plan_schema_to_schema pairs))
execute_hash_join-equal_rows_example =
    execute_hash_join-equal_rows sample_operators bits left_table right_table (key_column 0 ∷ [])
      (key_column 0 ∷ []) pairs left_keys_plain right_keys_plain

no_collations :
    (get_collation_for_expr (joint sample_operators left_table right_table) (key_column 0) ≡ none)
    × (get_collation_for_expr (joint sample_operators left_table right_table) (key_column 1) ≡ none)
unfolding get_collation_for_expr combine_schemas push_row new new_field Assoc.insert
no_collations = (refl, refl)

left_values : All (λ l. (length l ≡ 1) × HasPlainAt sample_operators 0 l) (rows left_table)
unfolding rows push_row new new_field Column.get_value Assoc.insert test_bit or_bit
left_values = ((refl, (Value.int64 5, refl, int64 5)), ((refl, (Value.null, refl, null)), tt))

right_values : All (HasPlainAt sample_operators 0) (rows right_table)
unfolding rows push_row new new_field Column.get_value Assoc.insert test_bit or_bit
right_values = ((Value.int64 3, refl, int64 3), ((Value.int64 5, refl, int64 5), tt))

execute_hash_join-execute_nested_loop_join_example :
    execute_hash_join sample_operators bits left_table right_table
      (key_column 0 ∷ [])
      (key_column 0 ∷ [])
      pairs
    ≡ execute_nested_loop_join sample_operators left_table right_table JoinType.inner
        (some same_n)
        pairs
execute_hash_join-execute_nested_loop_join_example =
    execute_hash_join-execute_nested_loop_join sample_operators bits left_table right_table none
      none (codes "n") (codes "n") 0 0 1 pairs no_collations.0 no_collations.1 left_values
      right_values
