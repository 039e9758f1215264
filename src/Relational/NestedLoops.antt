-- ===== src/Relational/NestedLoops.antt =====
-- `execute_nested_loop_join` and `execute_cross_join` of crates/executor/src/executor/join.rs against
-- the rows of a join.
use yacht_sql.Prelude.{◌≡◌, refl, sym, ◌∙◌, List, [], ◌∷◌, Option, All, map}
use yacht_sql.Common.Error.{ok}
use yacht_sql.Common.Externals.{Externals}
use yacht_sql.Common.Operators.{Operators}
use yacht_sql.Storage.Column.{Column}
use yacht_sql.Storage.IndexMap.{IndexMap}
use yacht_sql.Storage.Table.{Table, new}
use yacht_sql.Storage.Table.RowOps.{Record, push_rows}
use yacht_sql.Storage.Table.Rectangular.{rows, to_records-rows}
use yacht_sql.Evaluator.Expr.{Expr}
use yacht_sql.Evaluator.Tests.{IrEvaluator}
use yacht_sql.Relational.PlanSchema.{PlanSchema, JoinType, plan_schema_to_schema}
use yacht_sql.Relational.Sort.{plain}
use yacht_sql.Relational.Join.{
  combine_records, combine_schemas, cross_join_inner, null_row, execute_cross_join,
  execute_nested_loop_join,
}
use yacht_sql.Relational.Joined.{HasVerdict, all_pairs, joined_rows}
use yacht_sql.Relational.Joining.{
  bind_ok, push_append, push_combined-push_rows, inner_join-push_rows, left_join-push_rows,
  right_join-push_rows,
}
use yacht_sql.Relational.FullJoin.{All-swap, full_join-push_rows}

module _ {X : Externals} {I : IndexMap (Column X)} where
  cross_join_inner-push_rows :
      (ls : List (Record X)) (right t : Table X I)
      → cross_join_inner ls right t ≡ push_rows (all_pairs ls (rows right)) t
  unfolding cross_join_inner all_pairs
  cross_join_inner-push_rows [] right t = unfold push_rows in refl
  cross_join_inner-push_rows (l ∷ ls) right t =
      let pairs = map (combine_records l) (rows right) in
      rw (to_records-rows right, push_combined-push_rows l (rows right) t)
        (push_append pairs (all_pairs ls (rows right)) t (cross_join_inner ls right) ok
            (λ u. cross_join_inner-push_rows ls right u ∙ sym (bind_ok _))
          ∙ bind_ok _)

  -- CROSS JOIN makes its result of each left row with each right row, in their order.
  pub execute_cross_join-all_pairs :
      (left right : Table X I) (schema : PlanSchema)
      → execute_cross_join left right schema
        ≡ push_rows (all_pairs (rows left) (rows right)) (new (plan_schema_to_schema schema))
  unfolding execute_cross_join
  execute_cross_join-all_pairs left right schema =
      rw (to_records-rows left)
        (cross_join_inner-push_rows (rows left) right (new (plan_schema_to_schema schema)))

module _ {X : Externals} {I : IndexMap (Column X)} (O : Operators X) where
  -- The evaluator of the condition.
  abbrev pub joint : Table X I → Table X I → IrEvaluator X
  joint left right = plain (combine_schemas left.schema right.schema)

  -- Where the condition evaluates on each left row combined with each right row, a join makes its
  -- result of the combined rows of which the condition is true, in the order of the left rows, and of
  -- the right rows for RIGHT. In LEFT and FULL a left row without a match stands with nulls, in RIGHT
  -- a right row; in FULL the right rows without a match come last. CROSS takes all combined rows.
  pub execute_nested_loop_join-joined_rows :
      (left right : Table X I) (kind : JoinType) (condition : Option (Expr X)) (schema : PlanSchema)
      → All
          (λ l.
            All (λ r. HasVerdict O (joint left right) condition (combine_records l r)) (rows right))
          (rows left)
      → execute_nested_loop_join O left right kind condition schema
        ≡ push_rows
            (joined_rows O
              (joint left right)
              condition
              kind
              (null_row left.schema)
              (null_row right.schema)
              (rows left)
              (rows right))
            (new (plan_schema_to_schema schema))
  unfolding execute_nested_loop_join joined_rows
  execute_nested_loop_join-joined_rows l_table r_table JoinType.inner condition schema h =
      rw (to_records-rows l_table)
        (inner_join-push_rows O (joint l_table r_table) condition (rows l_table) r_table _ h)
  execute_nested_loop_join-joined_rows l_table r_table JoinType.left condition schema h =
      rw (to_records-rows l_table) (
        left_join-push_rows O (joint l_table r_table) condition (null_row r_table.schema)
          (rows l_table) r_table _ h)
  execute_nested_loop_join-joined_rows l_table r_table JoinType.right condition schema h =
      rw (to_records-rows r_table) (
        right_join-push_rows O (joint l_table r_table) condition (null_row l_table.schema)
          (rows r_table) l_table _
          (All-swap (λ l r. HasVerdict O (joint l_table r_table) condition (combine_records l r))
            (rows l_table) (rows r_table) h))
  execute_nested_loop_join-joined_rows l_table r_table JoinType.full condition schema h =
      full_join-push_rows O (joint l_table r_table) condition l_table r_table _ h
  execute_nested_loop_join-joined_rows l_table r_table JoinType.cross condition schema h =
      rw (to_records-rows l_table) (cross_join_inner-push_rows (rows l_table) r_table _)
