-- ===== src/Relational/Join.antt =====
-- `execute_nested_loop_join` and `execute_cross_join` of crates/executor/src/executor/join.rs, on the
-- tables of their inputs.
use yacht_sql.Prelude.{
  Bool, true, false, List, [], ◌∷◌, ◌++◌, Option, none, some, replicate, length, if◌then◌else◌,
}
use yacht_sql.Common.Error.{Result, ok, ◌>>=◌}
use yacht_sql.Common.Externals.{Externals}
use yacht_sql.Common.Operators.{Operators}
use yacht_sql.Common.Types.{Value}
use yacht_sql.Storage.Column.{Column}
use yacht_sql.Storage.IndexMap.{IndexMap}
use yacht_sql.Storage.Schema.{Schema, Field, add_field, field_count}
use yacht_sql.Storage.Table.{Table, new}
use yacht_sql.Storage.Table.RowOps.{Record, to_records}
use yacht_sql.Evaluator.Expr.{Expr}
use yacht_sql.Evaluator.Tests.{IrEvaluator}
use yacht_sql.Evaluator.Evaluate.{evaluate, is_true}
use yacht_sql.Relational.Loops.{pushed}
use yacht_sql.Relational.PlanSchema.{PlanSchema, JoinType, plan_schema_to_schema}
use yacht_sql.Relational.Sort.{plain}

module _ {X : Externals} where
  -- The loops of `combine_schemas`.
  unfoldable pub add_fields : List (Field X) → Schema X → Schema X
  unfolding add_field
  add_fields [] s = s
  add_fields (f ∷ fs) s = add_fields fs (add_field f s)

  unfoldable pub combine_schemas : Schema X → Schema X → Schema X
  unfolding add_fields
  combine_schemas l r = add_fields r.fields (add_fields l.fields (record { fields = [] }))

  unfoldable pub combine_records : Record X → Record X → Record X
  combine_records l r = l ++ r

  -- (0..field_count).map(|_| Value::Null).collect()
  unfoldable pub null_row : Schema X → Record X
  unfolding field_count
  null_row s = replicate (field_count s) Value.null

  -- The rows that have not matched, among rows with their flags.
  unfoldable pub unmatched : List (Record X) → List Bool → List (Record X)
  unmatched (r ∷ rs) (f ∷ fs) = let rest = unmatched rs fs in if f then rest else r ∷ rest
  unmatched _ _ = []

module _ {X : Externals} (O : Operators X) (ev : IrEvaluator X) where
  -- Whether the condition holds of a combined record; a missing one does.
  unfoldable pub matches : Option (Expr X) → Record X → Result Bool
  matches none row = ok true
  matches (some expr) row = evaluate O ev expr row >>= λ v. ok (is_true v)

module _ {X : Externals} {I : IndexMap (Column X)} where
  -- The last loop of the full join, over the right records that have not matched.
  unfoldable pub full_right : Record X → List (Record X) → Table X I → Result (Table X I)
  full_right nulls [] t = ok t
  full_right nulls (r ∷ rs) t = pushed (nulls ++ r) t >>= λ t'. full_right nulls rs t'

module _ {X : Externals} {I : IndexMap (Column X)} (O : Operators X) (ev : IrEvaluator X)
    (condition : Option (Expr X)) where
  -- The inner loop of the joins over the records of one side, each combined with the record of the
  -- other side: `had_match`, and the result so far.
  unfoldable pub push_matches :
      (Record X → Record X) → Bool → List (Record X) → Table X I → Result (Bool × Table X I)
  unfolding matches
  push_matches combine had [] t = ok (had, t)
  push_matches combine had (r ∷ rs) t = matches O ev condition (combine r) >>= λ b.
      let skipped = push_matches combine had rs t in
      let taken = pushed (combine r) t >>= λ t'. push_matches combine true rs t' in
      if b then taken else skipped

  unfoldable pub inner_join : List (Record X) → Table X I → Table X I → Result (Table X I)
  unfolding push_matches combine_records
  inner_join [] right t = ok t
  inner_join (l ∷ ls) right t = to_records right >>= λ rs.
      push_matches (combine_records l) false rs t >>= λ st. inner_join ls right (st.1)

  -- A record without a match is pushed with nulls for the other side.
  unfoldable pub left_join : Record X → List (Record X) → Table X I → Table X I → Result (Table X I)
  unfolding push_matches combine_records
  left_join nulls [] right t = ok t
  left_join nulls (l ∷ ls) right t = to_records right >>= λ rs.
      push_matches (combine_records l) false rs t >>= λ st.
      let matched = left_join nulls ls right (st.1) in
      let alone = pushed (l ++ nulls) (st.1) >>= λ t'. left_join nulls ls right t' in
      if st.0 then matched else alone

  unfoldable pub right_join :
      Record X → List (Record X) → Table X I → Table X I → Result (Table X I)
  unfolding push_matches combine_records
  right_join nulls [] left t = ok t
  right_join nulls (r ∷ rs) left t = to_records left >>= λ ls.
      push_matches (λ l. combine_records l r) false ls t >>= λ st.
      let matched = right_join nulls rs left (st.1) in
      let alone = pushed (nulls ++ r) (st.1) >>= λ t'. right_join nulls rs left t' in
      if st.0 then matched else alone

  -- The inner loop of the full join, with the flags of the right records that have matched.
  unfoldable pub push_marking :
      Record X
      → Bool
      → List (Record X)
      → List Bool
      → Table X I
      → Result (Bool × (List Bool × Table X I))
  unfolding matches combine_records
  push_marking l had (r ∷ rs) (f ∷ fs) t = matches O ev condition (combine_records l r) >>= λ b.
      let skipped = push_marking l had rs fs t in
      let taken = pushed (combine_records l r) t >>= λ t'. push_marking l true rs fs t' in
      (if b then taken else skipped) >>= λ st. ok (st.0, ((if b then true else f) ∷ st.1.0, st.1.1))
  push_marking l had _ fs t = ok (had, (fs, t))

  unfoldable pub full_left :
      Record X
      → List (Record X)
      → List (Record X)
      → List Bool
      → Table X I
      → Result (List Bool × Table X I)
  unfolding push_marking
  full_left nulls [] rs flags t = ok (flags, t)
  full_left nulls (l ∷ ls) rs flags t = push_marking l false rs flags t >>= λ st.
      let matched = full_left nulls ls rs (st.1.0) (st.1.1) in
      let alone = pushed (l ++ nulls) (st.1.1) >>= λ t'. full_left nulls ls rs (st.1.0) t' in
      if st.0 then matched else alone

  unfoldable pub full_join : Table X I → Table X I → Table X I → Result (Table X I)
  unfolding full_left full_right unmatched null_row
  full_join left right t = to_records left >>= λ ls. to_records right >>= λ rs.
      full_left (null_row right.schema) ls rs (replicate (length rs) false) t >>= λ st.
      full_right (null_row left.schema) (unmatched rs (st.0)) (st.1)

module _ {X : Externals} {I : IndexMap (Column X)} where
  unfoldable pub push_combined : Record X → List (Record X) → Table X I → Result (Table X I)
  unfolding combine_records
  push_combined l [] t = ok t
  push_combined l (r ∷ rs) t = pushed (combine_records l r) t >>= λ t'. push_combined l rs t'

  unfoldable pub cross_join_inner : List (Record X) → Table X I → Table X I → Result (Table X I)
  unfolding push_combined
  cross_join_inner [] right t = ok t
  cross_join_inner (l ∷ ls) right t =
      to_records right >>= λ rs. push_combined l rs t >>= λ t'. cross_join_inner ls right t'

  unfoldable pub execute_cross_join : Table X I → Table X I → PlanSchema → Result (Table X I)
  unfolding cross_join_inner
  execute_cross_join left right schema =
      to_records left >>= λ ls. cross_join_inner ls right (new (plan_schema_to_schema schema))

module _ {X : Externals} {I : IndexMap (Column X)} (O : Operators X) where
  unfoldable pub execute_nested_loop_join :
      Table X I → Table X I → JoinType → Option (Expr X) → PlanSchema → Result (Table X I)
  unfolding inner_join left_join right_join full_join cross_join_inner combine_schemas null_row
  execute_nested_loop_join left right kind condition schema =
      let result = new (plan_schema_to_schema schema) in
      let ev = plain (combine_schemas left.schema right.schema) in
      elim kind [
        | JoinType.inner ↦ to_records left >>= λ ls. inner_join O ev condition ls right result
        | JoinType.left ↦ to_records left >>= λ ls.
            left_join O ev condition (null_row right.schema) ls right result
        | JoinType.right ↦ to_records right >>= λ rs.
            right_join O ev condition (null_row left.schema) rs left result
        | JoinType.full ↦ full_join O ev condition left right result
        | JoinType.cross ↦ to_records left >>= λ ls. cross_join_inner ls right result
      ]
