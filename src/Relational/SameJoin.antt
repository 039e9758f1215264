-- ===== src/Relational/SameJoin.antt =====
-- The two inner joins of crates/executor/src/executor/join.rs: the hash join and the nested loops, for
-- one key that is a column on either side.
use yacht_sql.Prelude.{ℕ, ◌+◌, ◌≡◌, sym, ap, ◌∙◌, [], ◌∷◌, Option, none, some, All, length}
use yacht_sql.Prelude.Text.{Text}
use yacht_sql.Common.Externals.{Externals}
use yacht_sql.Common.Operators.{Operators}
use yacht_sql.Storage.Column.{Column}
use yacht_sql.Storage.IndexMap.{IndexMap}
use yacht_sql.Storage.Table.{Table, new}
use yacht_sql.Storage.Table.RowOps.{push_rows}
use yacht_sql.Storage.Table.Rectangular.{rows}
use yacht_sql.Evaluator.Expr.{Expr}
use yacht_sql.Evaluator.Comparison.{values_equal}
use yacht_sql.Evaluator.Evaluate.{get_collation_for_expr}
use yacht_sql.Relational.PlanSchema.{PlanSchema, JoinType, plan_schema_to_schema}
use yacht_sql.Relational.Sort.{plain}
use yacht_sql.Relational.Join.{execute_nested_loop_join}
use yacht_sql.Relational.Joined.{joined_rows}
use yacht_sql.Relational.NestedLoops.{joint, execute_nested_loop_join-joined_rows}
use yacht_sql.Relational.HashJoin.{execute_hash_join}
use yacht_sql.Relational.HashJoined.{execute_hash_join-equal_rows}
use yacht_sql.Relational.KeyColumns.{
  HasPlainAt, equality, matches-equality, plain_key, inner_rows-equal_rows,
}
use yacht_sql.Relational.FullJoin.{All-map}

module _ {X : Externals} {I : IndexMap (Column X)} (O : Operators X) (to_bits : X.F64 → ℕ)
    (left right : Table X I) (left_table right_table : Option Text) (left_name right_name : Text)
    (i j n : ℕ) where
  -- The condition of the nested loops.
  abbrev pub equal_columns : Expr X
  equal_columns = equality O (joint O left right) left_table right_table left_name right_name i j n

  -- Where the left rows have one width, the key columns are in every row a null, an integer or a
  -- string, and neither has a collation, the hash join gives what the nested loops give for the
  -- condition that the columns are equal.
  pub execute_hash_join-execute_nested_loop_join :
      (schema : PlanSchema)
      → get_collation_for_expr (joint O left right) (Expr.column left_table left_name (some i))
        ≡ none
      → get_collation_for_expr
          (joint O left right)
          (Expr.column right_table right_name (some (n + j)))
        ≡ none
      → All (λ l. (length l ≡ n) × HasPlainAt O i l) (rows left)
      → All (HasPlainAt O j) (rows right)
      → execute_hash_join O to_bits left right
          (Expr.column left_table left_name (some i) ∷ [])
          (Expr.column right_table right_name (some j) ∷ [])
          schema
        ≡ execute_nested_loop_join O left right JoinType.inner (some equal_columns) schema
  unfolding joined_rows
  execute_hash_join-execute_nested_loop_join schema c d h k =
      execute_hash_join-equal_rows O to_bits left right
        (Expr.column left_table left_name (some i) ∷ [])
        (Expr.column right_table right_name (some j) ∷ []) schema
        (All-map (rows left) (λ l p. plain_key O (plain left.schema) left_table left_name i l p.1)
          h)
        (All-map (rows right) (λ r p. plain_key O (plain right.schema) right_table right_name j r p)
          k)
      ∙ ap (λ rs. push_rows rs (new (plan_schema_to_schema schema)))
          (sym (
            inner_rows-equal_rows O (joint O left right) (plain left.schema) (plain right.schema)
              left_table right_table left_name right_name i j n (rows left) (rows right) c d h k))
      ∙ sym (
          execute_nested_loop_join-joined_rows O left right JoinType.inner (some equal_columns)
            schema
            (All-map (rows left)
              (λ l p.
                All-map (rows right)
                  (λ r q. (
                    values_equal O p.1.0 q.0,
                    matches-equality O (joint O left right) left_table right_table left_name
                        right_name i j n l r c d p.0 p.1 q,
                  ))
                  k)
              h))
