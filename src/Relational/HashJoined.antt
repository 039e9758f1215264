-- ===== src/Relational/HashJoined.antt =====
-- `hash_inner_join` of crates/executor/src/executor/join.rs against the rows with equal keys.
use yacht_sql.Prelude.{ℕ, ◌≡◌, refl, sym, ◌∙◌, inl, inr, List, [], ◌∷◌, ◌++◌, All, map, Bool-cases}
use yacht_sql.Common.Error.{ok}
use yacht_sql.Common.Externals.{Externals}
use yacht_sql.Common.Operators.{Operators}
use yacht_sql.Common.Types.{Value}
use yacht_sql.Storage.Column.{Column}
use yacht_sql.Storage.IndexMap.{IndexMap}
use yacht_sql.Storage.Table.{Table, new}
use yacht_sql.Storage.Table.RowOps.{Record, push_rows}
use yacht_sql.Storage.Table.Rectangular.{rows, to_records-rows}
use yacht_sql.Evaluator.Expr.{Expr}
use yacht_sql.Evaluator.Tests.{IrEvaluator}
use yacht_sql.Relational.PlanSchema.{PlanSchema, plan_schema_to_schema}
use yacht_sql.Relational.Sort.{plain}
use yacht_sql.Relational.Join.{combine_records}
use yacht_sql.Relational.Joining.{bind_ok, push_append, push_combined-push_rows}
use yacht_sql.Relational.HashJoin.{
  same_key, has_null, probe_table, hash_inner_join, execute_hash_join,
}
use yacht_sql.Relational.HashIndex.{
  HasPlainKeys, keys_of, with_keys, with_keys_null, Indexes, build_table-Indexes,
}

module _ {X : Externals} (O : Operators X) (left_ev right_ev : IrEvaluator X)
    (left_keys right_keys : List (Expr X)) where
  -- Each left row with each right row of matching keys.
  unfoldable pub equal_rows : List (Record X) → List (Record X) → List (Record X)
  equal_rows [] rs = []
  equal_rows (l ∷ ls) rs =
      map (combine_records l) (with_keys O right_ev right_keys (keys_of O left_ev left_keys l) rs)
      ++ equal_rows ls rs

  pub equal_rows_cons :
      (l : Record X) (ls rs : List (Record X)) (h : HasPlainKeys O left_ev left_keys l)
      → equal_rows (l ∷ ls) rs
        ≡ map (combine_records l) (with_keys O right_ev right_keys h.0 rs) ++ equal_rows ls rs
  unfolding equal_rows keys_of
  equal_rows_cons l ls rs h = rw h.1 refl

module _ {X : Externals} {I : IndexMap (Column X)} (O : Operators X) (to_bits : X.F64 → ℕ)
    (left_ev right_ev : IrEvaluator X) (left_keys right_keys : List (Expr X)) where
  probe_table-push_rows :
      (ls rs : List (Record X)) (table : List (List (Value X) × List (Record X))) (t : Table X I)
      → All (HasPlainKeys O left_ev left_keys) ls
      → All (HasPlainKeys O right_ev right_keys) rs
      → Indexes O to_bits right_ev right_keys rs [] table
      → probe_table O left_ev (same_key O to_bits) left_keys ls table t
        ≡ push_rows (equal_rows O left_ev right_ev left_keys right_keys ls rs) t
  unfolding probe_table
  probe_table-push_rows [] rs table t h k found = unfold push_rows equal_rows in refl
  probe_table-push_rows (l ∷ ls) rs table t h k found =
      let (j, value, plain_j) = h.0 in
      let others = equal_rows O left_ev right_ev left_keys right_keys ls rs in
      let next = probe_table O left_ev (same_key O to_bits) left_keys ls table in
      rw (equal_rows_cons O left_ev right_ev left_keys right_keys l ls rs h.0, value)
        (elim (Bool-cases (has_null j)) [
          | inl e ↦
              rw (e, with_keys_null O to_bits right_ev right_keys j rs plain_j e k)
                (probe_table-push_rows ls rs table t h.1 k found)
          | inr e ↦
              rw
                (
                  e,
                  found j plain_j e,
                  push_combined-push_rows l (with_keys O right_ev right_keys j rs) t,
                )
                (push_append (map (combine_records l) (with_keys O right_ev right_keys j rs)) others
                    t next ok
                    (λ u. probe_table-push_rows ls rs table u h.1 k found ∙ sym (bind_ok _))
                  ∙ bind_ok _)
        ])

module _ {X : Externals} {I : IndexMap (Column X)} (O : Operators X) (to_bits : X.F64 → ℕ) where
  -- Where the keys of all rows evaluate to integers, strings and nulls, the hash join makes its result
  -- of each left row combined with each right row whose keys are equal to its keys one by one, as by
  -- `=`, in the order of nested loops; a key with a null is equal to none.
  pub execute_hash_join-equal_rows :
      (left right : Table X I) (left_keys right_keys : List (Expr X)) (schema : PlanSchema)
      → All (HasPlainKeys O (plain left.schema) left_keys) (rows left)
      → All (HasPlainKeys O (plain right.schema) right_keys) (rows right)
      → execute_hash_join O to_bits left right left_keys right_keys schema
        ≡ push_rows
            (equal_rows O
              (plain left.schema)
              (plain right.schema)
              left_keys
              right_keys
              (rows left)
              (rows right))
            (new (plan_schema_to_schema schema))
  unfolding execute_hash_join hash_inner_join
  execute_hash_join-equal_rows left right left_keys right_keys schema h k =
      let (table, built, found) =
        build_table-Indexes O to_bits (plain right.schema) right_keys (rows right) [] k tt in
      rw (to_records-rows right, built, to_records-rows left)
        (probe_table-push_rows O to_bits (plain left.schema) (plain right.schema) left_keys
          right_keys (rows left) (rows right) table (new (plan_schema_to_schema schema)) h k found)
