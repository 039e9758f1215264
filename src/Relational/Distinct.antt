-- ===== src/Relational/Distinct.antt =====
-- `execute_distinct` of crates/executor/src/executor/distinct.rs with `ValueKey`, and
-- `execute_union`, `execute_intersect` and `execute_except` of set_ops.rs with `row_to_key`, on the
-- tables of their inputs.
use yacht_sql.Prelude.{
  ℕ, ◌+◌, ◌-◌, Bool, true, false, not, ◌&&◌, ◌||◌, List, [], ◌∷◌, map, ◌==◌, ltb, if◌then◌else◌,
}
use yacht_sql.Prelude.Text.{Text, text_eq}
use yacht_sql.Common.Debug.{debug}
use yacht_sql.Common.Error.{Result, ok, err, ◌>>=◌}
use yacht_sql.Common.Externals.{Externals}
use yacht_sql.Common.Types.{Value}
use yacht_sql.Common.ValueEquality.{bool_eq}
use yacht_sql.Storage.Column.{Column}
use yacht_sql.Storage.IndexMap.{IndexMap}
use yacht_sql.Storage.Table.{Table, new}
use yacht_sql.Storage.Table.RowOps.{Record, push_rows, to_records}
use yacht_sql.Relational.Loops.{pushed}
use yacht_sql.Relational.PlanSchema.{PlanSchema, plan_schema_to_schema}

pub data ValueKey : Type 0 where
  null : ValueKey
  bool : Bool → ValueKey
  int64 float64 : ℕ → ValueKey
  string bytes other : Text → ValueKey

unfoldable pub value_key_eq : ValueKey → ValueKey → Bool
unfolding text_eq bool_eq
value_key_eq ValueKey.null ValueKey.null = true
value_key_eq (ValueKey.bool a) (ValueKey.bool b) = bool_eq a b
value_key_eq (ValueKey.int64 a) (ValueKey.int64 b) = a == b
value_key_eq (ValueKey.float64 a) (ValueKey.float64 b) = a == b
value_key_eq (ValueKey.string a) (ValueKey.string b) = text_eq a b
value_key_eq (ValueKey.bytes a) (ValueKey.bytes b) = text_eq a b
value_key_eq (other a) (other b) = text_eq a b
value_key_eq _ _ = false

-- `to_bits` of a floating point number is a parameter.
module _ {X : Externals} (to_bits : X.F64 → ℕ) where
  unfoldable pub value_key : Value X → ValueKey
  value_key Value.null = ValueKey.null
  value_key (Value.bool b) = ValueKey.bool b
  value_key (Value.int64 n) = ValueKey.int64 n
  value_key (Value.float64 f) = ValueKey.float64 (to_bits f)
  value_key (Value.string s) = ValueKey.string s
  value_key (Value.bytes b) = ValueKey.bytes b
  value_key v = other (debug v)

-- `==` of two vectors of keys.
module _ {K : Type 0} (key_eq : K → K → Bool) where
  unfoldable pub keys_eq : List K → List K → Bool
  keys_eq [] [] = true
  keys_eq (j ∷ js) (k ∷ ks) = key_eq j k && keys_eq js ks
  keys_eq _ _ = false

unfoldable pub row_to_key : {X : Externals} → Record X → List Text
row_to_key row = map debug row

-- The sets and the counts of the loops, for keys of a type with an equality.
module _ {K : Type 0} (same : K → K → Bool) where
  -- seen.contains(&key)
  unfoldable pub seen_before : K → List K → Bool
  seen_before k [] = false
  seen_before k (j ∷ js) = same k j || seen_before k js

  -- *right_counts.entry(key).or_insert(0) += 1
  unfoldable pub increment : K → List (K × ℕ) → List (K × ℕ)
  increment k [] = (k, 1) ∷ []
  increment k ((j, n) ∷ counts) =
      let rest = increment k counts in if same k j then (j, n + 1) ∷ counts else (j, n) ∷ rest

  -- *right_counts.get_mut(&key)? -= 1
  unfoldable pub decrement : K → List (K × ℕ) → List (K × ℕ)
  decrement k [] = []
  decrement k ((j, n) ∷ counts) =
      let rest = decrement k counts in if same k j then (j, n - 1) ∷ counts else (j, n) ∷ rest

  -- The count of a key, and 0 where it has none.
  unfoldable pub count_in : K → List (K × ℕ) → ℕ
  count_in k [] = 0
  count_in k ((j, n) ∷ counts) = let rest = count_in k counts in if same k j then n else rest

module _ {X : Externals} {K : Type 0} (key : Record X → K) (same : K → K → Bool) where
  -- The counts of the keys of the records.
  unfoldable pub count_keys : List (Record X) → List (K × ℕ) → List (K × ℕ)
  unfolding increment
  count_keys [] counts = counts
  count_keys (r ∷ rs) counts = count_keys rs (increment same (key r) counts)

module _ {X : Externals} {I : IndexMap (Column X)} {K : Type 0} (key : Record X → K)
    (same : K → K → Bool) where
  -- The loop over the records of one input: the keys seen, and the result so far.
  unfoldable pub push_unseen :
      (K → Bool) → List K → List (Record X) → Table X I → Result (List K × Table X I)
  unfolding seen_before
  push_unseen keep seen [] t = ok (seen, t)
  push_unseen keep seen (r ∷ rs) t =
      let skipped = push_unseen keep seen rs t in
      let taken = pushed r t >>= λ t'. push_unseen keep (key r ∷ seen) rs t' in
      if keep (key r) && not (seen_before same (key r) seen) then taken else skipped

  -- The loop of INTERSECT ALL: a record is pushed if its key has a count left.
  unfoldable pub push_counted : List (K × ℕ) → List (Record X) → Table X I → Result (Table X I)
  unfolding decrement count_in
  push_counted counts [] t = ok t
  push_counted counts (r ∷ rs) t =
      let skipped = push_counted counts rs t in
      let taken = pushed r t >>= λ t'. push_counted (decrement same (key r) counts) rs t' in
      if ltb 0 (count_in same (key r) counts) then taken else skipped

  -- The loop of EXCEPT ALL: a record is pushed if its key has no count left.
  unfoldable pub push_uncounted : List (K × ℕ) → List (Record X) → Table X I → Result (Table X I)
  unfolding decrement count_in
  push_uncounted counts [] t = ok t
  push_uncounted counts (r ∷ rs) t =
      let skipped = push_uncounted (decrement same (key r) counts) rs t in
      let taken = pushed r t >>= λ t'. push_uncounted counts rs t' in
      if ltb 0 (count_in same (key r) counts) then skipped else taken

-- `==` of the keys of set operations.
abbrev pub texts_eq : List Text → List Text → Bool
texts_eq = keys_eq text_eq

abbrev pub result_table :
    {X : Externals} {I : IndexMap (Column X)} {K : Type 0}
    → Result (List K × Table X I)
    → Result (Table X I)
result_table (err e) = err e
result_table (ok (seen, t)) = ok t

module _ {X : Externals} {I : IndexMap (Column X)} where
  unfoldable pub execute_distinct : (X.F64 → ℕ) → Table X I → Result (Table X I)
  unfolding push_unseen keys_eq value_key value_key_eq
  execute_distinct to_bits input = to_records input >>= λ rs. result_table (
      push_unseen (map (value_key to_bits)) (keys_eq value_key_eq) (λ k. true) [] rs
        (new input.schema))

  -- for input in inputs { for record in rows { … } }
  unfoldable pub union_all : List (Table X I) → Table X I → Result (Table X I)
  union_all [] t = ok t
  union_all (input ∷ inputs) t =
      to_records input >>= λ rs. push_rows rs t >>= λ t'. union_all inputs t'

  unfoldable pub union_distinct :
      List (Table X I) → List (List Text) → Table X I → Result (Table X I)
  unfolding push_unseen row_to_key keys_eq
  union_distinct [] seen t = ok t
  union_distinct (input ∷ inputs) seen t = to_records input >>= λ rs.
      push_unseen row_to_key texts_eq (λ k. true) seen rs t >>= λ st.
      union_distinct inputs (st.0) (st.1)

  unfoldable pub execute_union : List (Table X I) → Bool → PlanSchema → Result (Table X I)
  unfolding union_all union_distinct
  execute_union inputs true schema = union_all inputs (new (plan_schema_to_schema schema))
  execute_union inputs false schema = union_distinct inputs [] (new (plan_schema_to_schema schema))

  unfoldable pub execute_intersect : Table X I → Table X I → Bool → PlanSchema → Result (Table X I)
  unfolding push_unseen push_counted count_keys row_to_key keys_eq
  execute_intersect left right true schema = to_records right >>= λ rs. to_records left >>= λ ls.
      push_counted row_to_key texts_eq (count_keys row_to_key texts_eq rs []) ls
        (new (plan_schema_to_schema schema))
  execute_intersect left right false schema = to_records right >>= λ rs. to_records left >>= λ ls.
      result_table (
        push_unseen row_to_key texts_eq (λ k. seen_before texts_eq k (map row_to_key rs)) [] ls
          (new (plan_schema_to_schema schema)))

  unfoldable pub execute_except : Table X I → Table X I → Bool → PlanSchema → Result (Table X I)
  unfolding push_unseen push_uncounted count_keys row_to_key keys_eq
  execute_except left right true schema = to_records right >>= λ rs. to_records left >>= λ ls.
      push_uncounted row_to_key texts_eq (count_keys row_to_key texts_eq rs []) ls
        (new (plan_schema_to_schema schema))
  execute_except left right false schema = to_records right >>= λ rs. to_records left >>= λ ls.
      result_table (
        push_unseen row_to_key texts_eq (λ k. not (seen_before texts_eq k (map row_to_key rs))) []
          ls (new (plan_schema_to_schema schema)))
