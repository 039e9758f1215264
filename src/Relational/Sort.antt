-- ===== src/Relational/Sort.antt =====
-- `execute_sort` of crates/executor/src/executor/sort.rs on the table of its input, with
-- `compare_values`, and the stable `sort_by` of the standard library as insertion from the right.
use Prim.Native.Nat.{Ordering}
use yacht_sql.Prelude.{Bool, List, [], ◌∷◌, none, if◌then◌else◌}
use yacht_sql.Common.Error.{Result, ok, err, ◌>>=◌}
use yacht_sql.Common.Externals.{Externals}
use yacht_sql.Common.Operators.{Operators}
use yacht_sql.Common.Signed.{signed_cmp}
use yacht_sql.Common.Types.{Value, is_null}
use yacht_sql.Common.ValueEquality.{text_cmp, bool_cmp}
use yacht_sql.Storage.Column.{Column}
use yacht_sql.Storage.IndexMap.{IndexMap}
use yacht_sql.Storage.Schema.{Schema}
use yacht_sql.Storage.Table.{Table, new}
use yacht_sql.Storage.Table.RowOps.{Record, push_rows, to_records}
use yacht_sql.Evaluator.Comparison.{reverse, or_equal}
use yacht_sql.Evaluator.Expr.{Expr}
use yacht_sql.Evaluator.Tests.{IrEvaluator}
use yacht_sql.Evaluator.Evaluate.{evaluate}

pub record SortExpr (X : Externals) : Type 0 where
  pub expr : Expr X
  pub asc : Bool
  pub nulls_first : Bool

-- A stable sort: of two elements of which neither is greater, the first stays first.
module _ {ℓ} {A : Type ℓ} (cmp : A → A → Ordering) where
  unfoldable pub insert : A → List A → List A
  insert x [] = x ∷ []
  insert x (y ∷ ys) =
      let later = insert x ys in
      elim (cmp x y) [
        | Ordering.gt ↦ y ∷ later
        | Ordering.eq ↦ x ∷ y ∷ ys
        | Ordering.lt ↦ x ∷ y ∷ ys
      ]

  unfoldable pub sort_by : List A → List A
  unfolding insert
  sort_by [] = []
  sort_by (x ∷ xs) = insert x (sort_by xs)

module _ {X : Externals} (O : Operators X) where
  unfoldable pub compare_sort_values : Value X → Value X → Ordering
  unfolding signed_cmp text_cmp bool_cmp
  compare_sort_values Value.null Value.null = Ordering.eq
  compare_sort_values Value.null _ = Ordering.gt
  compare_sort_values _ Value.null = Ordering.lt
  compare_sort_values (Value.int64 a) (Value.int64 b) = signed_cmp a b
  compare_sort_values (Value.float64 a) (Value.float64 b) = O.ordered_cmp a b
  compare_sort_values (Value.int64 a) (Value.float64 b) =
      or_equal (O.f64_partial_cmp (X.f64_from_i64 a) b)
  compare_sort_values (Value.float64 a) (Value.int64 b) =
      or_equal (O.f64_partial_cmp a (X.f64_from_i64 b))
  compare_sort_values (Value.string a) (Value.string b) = text_cmp a b
  compare_sort_values (Value.date a) (Value.date b) = O.date_cmp a b
  compare_sort_values (Value.timestamp a) (Value.timestamp b) = O.timestamp_cmp a b
  compare_sort_values (Value.date_time a) (Value.date_time b) = O.datetime_cmp a b
  compare_sort_values (Value.time a) (Value.time b) = O.time_cmp a b
  compare_sort_values (Value.numeric a) (Value.numeric b) = O.decimal_cmp a b
  compare_sort_values (Value.bool a) (Value.bool b) = bool_cmp a b
  compare_sort_values (Value.bytes a) (Value.bytes b) = text_cmp a b
  compare_sort_values _ _ = Ordering.eq

  -- One round of the comparison: its result, where the two values differ for this key.
  unfoldable pub compare_keys : Bool → Bool → Value X → Value X → Ordering
  unfolding compare_sort_values is_null
  compare_keys asc nulls_first a b =
      if is_null a
      then if is_null b then Ordering.eq else if nulls_first then Ordering.lt else Ordering.gt
      else if is_null b
      then if nulls_first then Ordering.gt else Ordering.lt
      else if asc
      then compare_sort_values a b
      else reverse (compare_sort_values a b)

-- evaluator.evaluate(expr, record).unwrap_or(Value::Null)
abbrev pub or_null : {X : Externals} → Result (Value X) → Value X
or_null (err e) = Value.null
or_null (ok v) = v

module _ {X : Externals} (O : Operators X) (ev : IrEvaluator X) where
  -- The closure of `sort_by`: the first key that differs decides.
  unfoldable pub compare_rows : List (SortExpr X) → Record X → Record X → Ordering
  unfolding compare_keys
  compare_rows [] a b = Ordering.eq
  compare_rows (e ∷ es) a b =
      let later = compare_rows es a b in
      elim (compare_keys O e.asc e.nulls_first (or_null (evaluate O ev e.expr a))
        (or_null (evaluate O ev e.expr b))) [
          | Ordering.lt ↦ Ordering.lt
          | Ordering.eq ↦ later
          | Ordering.gt ↦ Ordering.gt
        ]

-- IrEvaluator::new(schema)
abbrev pub plain : {X : Externals} → Schema X → IrEvaluator X
plain schema = record { schema = schema; variables = none; system_variables = none }

module _ {X : Externals} {I : IndexMap (Column X)} (O : Operators X) where
  unfoldable pub execute_sort : List (SortExpr X) → Table X I → Result (Table X I)
  unfolding sort_by compare_rows
  execute_sort exprs input = to_records input >>= λ rs.
      push_rows (sort_by (compare_rows O (plain input.schema) exprs) rs) (new input.schema)
