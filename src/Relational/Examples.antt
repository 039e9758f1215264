-- ===== src/Relational/Examples.antt =====
-- Tests of the operators, and instances of their theorems.
use yacht_sql.Prelude.{
  ℕ, ◌+◌, ◌-◌, min, ◌≡◌, refl, true, false, List, [], ◌∷◌, ◌++◌, map, none, some, All, arith, take,
  drop, length,
}
use yacht_sql.Prelude.Text.{Text, codes}
use yacht_sql.Prelude.Assoc
use yacht_sql.Prelude.Assoc.{text_mem}
use yacht_sql.Prelude.Bits.{test_bit, or_bit}
use yacht_sql.Common.Error.{Result, ok, err}
use yacht_sql.Common.Sample.{sample_externals, sample_operators}
use yacht_sql.Common.Types.{Value, DataType}
use yacht_sql.Storage.Column
use yacht_sql.Storage.Column.{Column}
use yacht_sql.Storage.IndexMap.{IndexMap, entry_list}
use yacht_sql.Storage.Schema.{Schema, FieldMode, new_field}
use yacht_sql.Storage.Schema.Validation.{IsDistinct, names}
use yacht_sql.Storage.Table.{Table, new}
use yacht_sql.Storage.Table.RowOps.{Record, push_row, push_rows, get_row, to_records}
use yacht_sql.Storage.Table.Rectangular.{rows}
use yacht_sql.Evaluator.Expr.{Expr, Literal, BinaryOp, UnaryOp}
use yacht_sql.Evaluator.Evaluate.{evaluate, apply_binary_op}
use yacht_sql.Evaluator.Tests.{IrEvaluator, eval_column}
use yacht_sql.Evaluator.Comparison.{compare_values}
use yacht_sql.Evaluator.Literals.{eval_literal}
use yacht_sql.Common.Debug.{debug}
use yacht_sql.Relational.Loops.{pushed}
use yacht_sql.Relational.PlanSchema.{PlanField, PlanSchema, plan_schema_to_schema}
use yacht_sql.Relational.StorageNames.{plan_names, plan_schema_to_schema-clash}
use yacht_sql.Relational.Limit.{execute_limit}
use yacht_sql.Relational.Limited.{execute_limit-rows, execute_limit-offset_alone}
use yacht_sql.Relational.Distinct.{
  value_key, value_key_eq, keys_eq, row_to_key, texts_eq, execute_distinct, execute_union,
  execute_intersect, execute_except,
}
use yacht_sql.Relational.Bags.{Sublist, occurrences}
use yacht_sql.Relational.SetOps
use yacht_sql.Relational.SetOps.{
  all_rows, execute_distinct-rows, execute_union-all, execute_union-rows, execute_intersect-rows,
  execute_except-rows,
}
use yacht_sql.Relational.Sort.{SortExpr, execute_sort, plain}
use yacht_sql.Relational.Sorted.{IsSorted, ranks, with_rank, HasIntKeys, execute_sort-rows}
use yacht_sql.Relational.Filter.{
  matching_rows, matching_rows-partition, execute_filter, execute_filter-rows, session_evaluator,
}

abbrev sample_map : IndexMap (Column sample_externals)
sample_map = entry_list (Column sample_externals)

abbrev one_column : Schema sample_externals
one_column = record { fields = new_field (codes "n") DataType.int64 FieldMode.nullable ∷ [] }

abbrev number : ℕ → Record sample_externals
number n = Value.int64 n ∷ []

abbrev empty_table : Table sample_externals sample_map
empty_table = new one_column

-- The rows 5, NULL, 3 and 5.
abbrev sample_table : Table sample_externals sample_map
sample_table =
    (push_row (number 5)
      (push_row (number 3) (push_row (Value.null ∷ []) (push_row (number 5) empty_table).0).0).0).0

sample_rows_lem : rows sample_table ≡ number 5 ∷ (Value.null ∷ []) ∷ number 3 ∷ number 5 ∷ []
unfolding rows push_row new new_field Column.get_value Assoc.insert test_bit or_bit
sample_rows_lem = refl

abbrev n_column : Expr sample_externals
n_column = Expr.column none (codes "n") (some 0)

-- n < 4
abbrev below_four : Expr sample_externals
below_four = Expr.binary_op n_column BinaryOp.lt (Expr.literal (Literal.int64 4))

abbrev by_n : List (SortExpr sample_externals)
by_n = record { expr = n_column; asc = true; nulls_first = false } ∷ []

abbrev plan_n : PlanSchema
plan_n = record {
  fields =
      record { name = codes "n"; data_type = DataType.int64; nullable = true; table = none } ∷ [];
}

abbrev plan_field : Text → PlanField
plan_field name = record { name = name; data_type = DataType.int64; nullable = true; table = none }

abbrev evaluator : IrEvaluator sample_externals
evaluator = session_evaluator one_column [] []

values_below_four :
    (evaluate sample_operators evaluator below_four (number 5) ≡ ok (Value.bool false))
    × (evaluate sample_operators evaluator below_four (Value.null ∷ []) ≡ ok Value.null)
    × (evaluate sample_operators evaluator below_four (number 3) ≡ ok (Value.bool true))
unfolding evaluate eval_literal eval_column apply_binary_op compare_values
values_below_four = (refl, refl, refl)

schema_lem : sample_table.schema ≡ one_column
unfolding push_row new Assoc.insert new_field
schema_lem = refl

abbrev rows_of : Result (Table sample_externals sample_map) → List (Record sample_externals)
rows_of (err e) = []
rows_of (ok t) = rows t

plan_n_unique : IsDistinct (plan_names plan_n.fields)
unfolding text_mem
plan_n_unique = (refl, tt)

operator_tests :
    (rows_of (execute_limit (some 2) (some 1) sample_table) ≡ (Value.null ∷ []) ∷ number 3 ∷ [])
    × (rows_of (execute_sort sample_operators by_n sample_table)
        ≡ number 3 ∷ number 5 ∷ number 5 ∷ (Value.null ∷ []) ∷ [])
    × (rows_of (execute_distinct (λ f. f) sample_table)
        ≡ number 5 ∷ (Value.null ∷ []) ∷ number 3 ∷ [])
    × (rows_of (execute_except sample_table (push_row (number 5) empty_table).0 true plan_n)
        ≡ (Value.null ∷ []) ∷ number 3 ∷ number 5 ∷ [])
    × (rows_of (execute_filter sample_operators [] [] below_four sample_table) ≡ number 3 ∷ [])
unfolding execute_limit execute_sort execute_distinct execute_except execute_filter rows push_row
    new new_field Column.get_value evaluate eval_literal eval_column apply_binary_op compare_values
    plan_schema_to_schema pushed debug get_row to_records push_rows test_bit or_bit Assoc.insert
operator_tests = (refl, refl, refl, refl, refl)

plan_schema_to_schema-clash_example :
    names
      (plan_schema_to_schema {X = sample_externals} (record {
        fields = plan_field (codes "n") ∷ plan_field (codes "n") ∷ plan_field (codes "n_1") ∷ [];
      })).fields
    ≡ codes "n" ∷ (codes "n" ++ codes "_1") ∷ (codes "n" ++ codes "_1") ∷ []
plan_schema_to_schema-clash_example =
    plan_schema_to_schema-clash sample_externals (plan_field (codes "n")) (plan_field (codes "n"))
      (plan_field (codes "n_1")) (codes "n") refl refl refl

execute_limit-rows_example :
    execute_limit (some 2) (some 1) sample_table
    ≡ push_rows (take 2 (drop 1 (rows sample_table))) (new sample_table.schema)
execute_limit-rows_example = execute_limit-rows (some 2) (some 1) sample_table (omega arith)

execute_limit-offset_alone_example :
    execute_limit none (some 1) sample_table ≡ ok (new sample_table.schema)
execute_limit-offset_alone_example =
    execute_limit-offset_alone 1 sample_table (omega arith) (omega arith)

execute_distinct-rows_example :
    (kept : List (Record sample_externals)) × (execute_distinct (λ f. f) sample_table
      ≡ push_rows kept (new sample_table.schema))
    × SetOps.IsDistinct (map (value_key (λ f. f))) (keys_eq value_key_eq) kept (rows sample_table)
execute_distinct-rows_example = execute_distinct-rows (λ f. f) sample_table

execute_union-rows_example :
    (kept : List (Record sample_externals)) × (execute_union
        (sample_table ∷ sample_table ∷ [])
        false
        plan_n
      ≡ push_rows kept (new (plan_schema_to_schema plan_n)))
    × SetOps.IsDistinct row_to_key texts_eq kept (all_rows (sample_table ∷ sample_table ∷ []))
execute_union-rows_example = execute_union-rows (sample_table ∷ sample_table ∷ []) plan_n

execute_intersect-rows_example :
    (kept : List (Record sample_externals)) × (execute_intersect sample_table sample_table true
        plan_n
      ≡ push_rows kept (new (plan_schema_to_schema plan_n)))
    × Sublist kept (rows sample_table)
    × ((k : List Text)
        → occurrences row_to_key texts_eq k kept
          ≡ min
              (occurrences row_to_key texts_eq k (rows sample_table))
              (occurrences row_to_key texts_eq k (rows sample_table)))
execute_intersect-rows_example = execute_intersect-rows sample_table sample_table true plan_n

execute_except-rows_example :
    (kept : List (Record sample_externals)) × (execute_except sample_table empty_table true plan_n
      ≡ push_rows kept (new (plan_schema_to_schema plan_n)))
    × Sublist kept (rows sample_table)
    × ((k : List Text)
        → occurrences row_to_key texts_eq k kept
          ≡ occurrences row_to_key texts_eq k (rows sample_table)
            - occurrences row_to_key texts_eq k (rows empty_table))
execute_except-rows_example = execute_except-rows sample_table empty_table true plan_n

int_keys : All (HasIntKeys sample_operators (plain sample_table.schema) by_n) (rows sample_table)
unfolding rows push_row new new_field Column.get_value evaluate eval_column Assoc.insert test_bit
    or_bit
int_keys = ((tt, tt), ((tt, tt), ((tt, tt), ((tt, tt), tt))))

execute_sort-rows_example :
    (sorted : List (Record sample_externals)) × (execute_sort sample_operators by_n sample_table
      ≡ push_rows sorted (new sample_table.schema))
    × IsSorted (ranks sample_operators (plain sample_table.schema) by_n) sorted
    × ((k : List ℕ)
        → with_rank (ranks sample_operators (plain sample_table.schema) by_n) k sorted
          ≡ with_rank
              (ranks sample_operators (plain sample_table.schema) by_n)
              k
              (rows sample_table))
execute_sort-rows_example = execute_sort-rows sample_operators by_n sample_table int_keys

abbrev sample_list : List (Record sample_externals)
sample_list = number 5 ∷ (Value.null ∷ []) ∷ number 3 ∷ []

matching_rows-partition_example :
    length (matching_rows sample_operators evaluator below_four sample_list)
      + length (
          matching_rows sample_operators evaluator
            (Expr.unary_op UnaryOp.not below_four)
            sample_list)
      + length
          (matching_rows sample_operators evaluator (Expr.is_null below_four false) sample_list)
    ≡ length sample_list
matching_rows-partition_example =
    matching_rows-partition sample_operators evaluator below_four sample_list (
      (some false, values_below_four.0),
      ((none, values_below_four.1), ((some true, values_below_four.2), tt)),
    )

filter_values :
    All
      (λ r.
        (v : Value sample_externals) × (evaluate sample_operators
            (session_evaluator sample_table.schema [] [])
            below_four
            r
          ≡ ok v))
      (rows sample_table)
unfolding rows push_row new new_field Column.get_value Assoc.insert test_bit or_bit
filter_values = (
  (Value.bool false, values_below_four.0),
  (
    (Value.null, values_below_four.1),
    ((Value.bool true, values_below_four.2), ((Value.bool false, values_below_four.0), tt)),
  ),
)

execute_filter-rows_example :
    execute_filter sample_operators [] [] below_four sample_table
    ≡ push_rows
        (matching_rows sample_operators
          (session_evaluator sample_table.schema [] [])
          below_four
          (rows sample_table))
        (new sample_table.schema)
execute_filter-rows_example =
    execute_filter-rows sample_operators [] [] below_four sample_table filter_values
