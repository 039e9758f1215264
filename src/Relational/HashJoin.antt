-- ===== src/Relational/HashJoin.antt =====
-- `execute_hash_join` of crates/executor/src/executor/join.rs with `HashKey`, for inner joins, the only
-- ones that it takes.
use yacht_sql.Prelude.{
  ℕ, ◌+◌, Bool, true, false, ◌&&◌, ◌||◌, List, [], ◌∷◌, ◌++◌, ◌==◌, if◌then◌else◌,
}
use yacht_sql.Prelude.Text.{text_eq}
use yacht_sql.Common.Error.{Result, ok, ◌>>=◌}
use yacht_sql.Common.Externals.{Externals}
use yacht_sql.Common.Operators.{Operators}
use yacht_sql.Common.Types.{Value, Values, nil, cons, ValueFields, no_values, named, is_null}
use yacht_sql.Common.ValueEquality.{value_eq, bool_eq, interval_eq}
use yacht_sql.Storage.Column.{Column}
use yacht_sql.Storage.IndexMap.{IndexMap}
use yacht_sql.Storage.Table.{Table, new}
use yacht_sql.Storage.Table.RowOps.{Record, to_records}
use yacht_sql.Evaluator.Expr.{Expr}
use yacht_sql.Evaluator.Tests.{IrEvaluator}
use yacht_sql.Evaluator.Evaluate.{evaluate}
use yacht_sql.Relational.PlanSchema.{PlanSchema, plan_schema_to_schema}
use yacht_sql.Relational.Sort.{plain}
use yacht_sql.Relational.Join.{push_combined}

module _ {X : Externals} where
  unfoldable count_values : Values X → ℕ
  count_values nil = 0
  count_values (cons v vs) = count_values vs + 1

  unfoldable count_fields : ValueFields X → ℕ
  count_fields no_values = 0
  count_fields (named n v fs) = count_fields fs + 1

module _ {X : Externals} (O : Operators X) (to_bits : X.F64 → ℕ) where
  -- The values give the hasher the same input. Inputs that differ are taken to have different hashes.
  unfoldable pub same_hash : Value X → Value X → Bool
  unfolding text_eq bool_eq interval_eq count_values count_fields
  same_hash Value.null Value.null = true
  same_hash (Value.bool a) (Value.bool b) = bool_eq a b
  same_hash (Value.int64 a) (Value.int64 b) = a == b
  same_hash (Value.float64 a) (Value.float64 b) = to_bits a == to_bits b
  same_hash (Value.string a) (Value.string b) = text_eq a b
  same_hash (Value.bytes a) (Value.bytes b) = text_eq a b
  same_hash (Value.date a) (Value.date b) = O.date_eq a b
  same_hash (Value.date_time a) (Value.date_time b) = O.datetime_eq a b
  same_hash (Value.time a) (Value.time b) = O.time_eq a b
  same_hash (Value.timestamp a) (Value.timestamp b) = O.timestamp_eq a b
  same_hash (Value.interval a) (Value.interval b) = interval_eq a b
  same_hash (Value.numeric a) (Value.numeric b) =
      text_eq (X.decimal_to_text a) (X.decimal_to_text b)
  same_hash (Value.array a) (Value.array b) = count_values a == count_values b
  same_hash (Value.struct a) (Value.struct b) = count_fields a == count_fields b
  same_hash (Value.json a) (Value.json b) = text_eq (X.json_to_text a) (X.json_to_text b)
  same_hash (Value.geography a) (Value.geography b) = true
  same_hash (Value.range a) (Value.range b) = true
  same_hash (Value.big_numeric a) (Value.big_numeric b) =
      text_eq (X.decimal_to_text a) (X.decimal_to_text b)
  same_hash Value.default Value.default = true
  same_hash _ _ = false

  -- The hash map takes the keys for the same: equal, with the same hash.
  unfoldable pub same_key : List (Value X) → List (Value X) → Bool
  unfolding same_hash value_eq
  same_key [] [] = true
  same_key (v ∷ vs) (w ∷ ws) = same_hash v w && value_eq O v w && same_key vs ws
  same_key _ _ = false

-- The hash map, for keys of a type with an equality.
module _ {K R : Type 0} (same : K → K → Bool) where
  -- hash_table.entry(key).or_default().push(record)
  unfoldable pub add_to : K → R → List (K × List R) → List (K × List R)
  add_to k r [] = (k, r ∷ []) ∷ []
  add_to k r ((j, rs) ∷ table) =
      let rest = add_to k r table in if same k j then (j, rs ++ r ∷ []) ∷ table else (j, rs) ∷ rest

  -- The records under a key, none where it has no entry.
  unfoldable pub rows_in : K → List (K × List R) → List R
  rows_in k [] = []
  rows_in k ((j, rs) ∷ table) = let rest = rows_in k table in if same k j then rs else rest

module _ {X : Externals} where
  -- key_values.iter().any(|v| matches!(v, Value::Null))
  unfoldable pub has_null : List (Value X) → Bool
  unfolding is_null
  has_null [] = false
  has_null (v ∷ vs) = is_null v || has_null vs

module _ {X : Externals} (O : Operators X) (ev : IrEvaluator X) where
  unfoldable pub key_values : List (Expr X) → Record X → Result (List (Value X))
  key_values [] row = ok []
  key_values (e ∷ es) row = evaluate O ev e row >>= λ v. key_values es row >>= λ vs. ok (v ∷ vs)

  -- The loop over the right records.
  unfoldable pub build_table :
      (List (Value X) → List (Value X) → Bool)
      → List (Expr X)
      → List (Record X)
      → List (List (Value X) × List (Record X))
      → Result (List (List (Value X) × List (Record X)))
  unfolding key_values has_null add_to
  build_table same keys [] table = ok table
  build_table same keys (r ∷ rs) table = key_values keys r >>= λ k.
      build_table same keys rs (if has_null k then table else add_to same k r table)

module _ {X : Externals} {I : IndexMap (Column X)} (O : Operators X) (ev : IrEvaluator X) where
  -- The loop over the left records.
  unfoldable pub probe_table :
      (List (Value X) → List (Value X) → Bool)
      → List (Expr X)
      → List (Record X)
      → List (List (Value X) × List (Record X))
      → Table X I
      → Result (Table X I)
  unfolding key_values has_null rows_in push_combined
  probe_table same keys [] table t = ok t
  probe_table same keys (l ∷ ls) table t = key_values O ev keys l >>= λ k.
      let skipped = probe_table same keys ls table t in
      let found =
        push_combined l (rows_in same k table) t >>= λ t'. probe_table same keys ls table t' in
      if has_null k then skipped else found

module _ {X : Externals} {I : IndexMap (Column X)} (O : Operators X) (to_bits : X.F64 → ℕ) where
  unfoldable pub hash_inner_join :
      Table X I → Table X I → List (Expr X) → List (Expr X) → Table X I → Result (Table X I)
  unfolding build_table probe_table same_key
  hash_inner_join left right left_keys right_keys result = to_records right >>= λ rs.
      build_table O (plain right.schema) (same_key O to_bits) right_keys rs [] >>= λ table.
      to_records left >>= λ ls.
      probe_table O (plain left.schema) (same_key O to_bits) left_keys ls table result

  unfoldable pub execute_hash_join :
      Table X I → Table X I → List (Expr X) → List (Expr X) → PlanSchema → Result (Table X I)
  unfolding hash_inner_join
  execute_hash_join left right left_keys right_keys schema =
      hash_inner_join left right left_keys right_keys (new (plan_schema_to_schema schema))
