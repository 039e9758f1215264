-- ===== src/Relational/Filter.antt =====
-- `execute_filter` of crates/executor/src/executor/filter/mod.rs, for a predicate without a subquery,
-- on the table of its input.
use yacht_sql.Prelude.{
  ℕ, suc, ◌+◌, ◌≡◌, refl, sym, ◌∙◌, Bool, true, false, inl, inr, List, [], ◌∷◌, Option, none, some,
  arith, All, length, if◌then◌else◌, Bool-cases,
}
use yacht_sql.Prelude.Assoc.{Assoc}
use yacht_sql.Common.Error.{Result, ok, ◌>>=◌}
use yacht_sql.Common.Externals.{Externals}
use yacht_sql.Common.Operators.{Operators}
use yacht_sql.Common.Types.{Value, is_null}
use yacht_sql.Storage.Column.{Column}
use yacht_sql.Storage.IndexMap.{IndexMap}
use yacht_sql.Storage.Schema.{Schema}
use yacht_sql.Storage.Table.{Table, new}
use yacht_sql.Storage.Table.RowOps.{Record, push_rows, to_records}
use yacht_sql.Storage.Table.Rectangular.{rows, to_records-rows}
use yacht_sql.Evaluator.Expr.{Expr, UnaryOp}
use yacht_sql.Evaluator.Kleene.{truth, evaluate-not, opposite}
use yacht_sql.Evaluator.Tests.{IrEvaluator}
use yacht_sql.Evaluator.Evaluate.{evaluate, is_true}
use yacht_sql.Relational.Loops.{pushed, push_rows_step, bind_ext}
use yacht_sql.Relational.Sort.{or_null}

module _ {X : Externals} {I : IndexMap (Column X)} (O : Operators X) (ev : IrEvaluator X) where
  -- The loop over the records.
  unfoldable pub push_matching : Expr X → List (Record X) → Table X I → Result (Table X I)
  push_matching predicate [] t = ok t
  push_matching predicate (r ∷ rs) t = evaluate O ev predicate r >>= λ v.
      let skipped = push_matching predicate rs t in
      let taken = pushed r t >>= λ t'. push_matching predicate rs t' in
      if is_true v then taken else skipped

-- The evaluator of a query: the schema of the input, and the variables of the session.
abbrev pub session_evaluator :
    {X : Externals} → Schema X → Assoc (Value X) → Assoc (Value X) → IrEvaluator X
session_evaluator schema variables system = record {
  schema = schema;
  variables = some variables;
  system_variables = some system;
}

module _ {X : Externals} {I : IndexMap (Column X)} (O : Operators X)
    (variables system : Assoc (Value X)) where
  unfoldable pub execute_filter : Expr X → Table X I → Result (Table X I)
  unfolding push_matching
  execute_filter predicate input = to_records input >>= λ rs.
      push_matching O (session_evaluator input.schema variables system) predicate rs
        (new input.schema)

abbrev is_none : Option Bool → Bool
is_none none = true
is_none (some b) = false

module _ {X : Externals} where
  -- A truth value counts once among the three.
  counted_once :
      (b : Option Bool) (r : Record X) (ps qs ns : List (Record X)) (n : ℕ)
      → length ps + length qs + length ns ≡ n
      → length (if is_true {X = X} (truth b) then r ∷ ps else ps)
          + length (if is_true {X = X} (truth (opposite b)) then r ∷ qs else qs)
          + length (if is_true {X = X} (truth (some (is_none b))) then r ∷ ns else ns)
        ≡ suc n
  counted_once none r ps qs ns n h = omega (arith, h)
  counted_once (some true) r ps qs ns n h = omega (arith, h)
  counted_once (some false) r ps qs ns n h = omega (arith, h)

module _ {X : Externals} (O : Operators X) (ev : IrEvaluator X) where
  -- The rows for which the predicate is TRUE.
  unfoldable pub matching_rows : Expr X → List (Record X) → List (Record X)
  matching_rows predicate [] = []
  matching_rows predicate (r ∷ rs) =
      let rest = matching_rows predicate rs in
      if is_true (or_null (evaluate O ev predicate r)) then r ∷ rest else rest

  -- The predicate is TRUE, FALSE or NULL.
  abbrev pub HasTruth : Expr X → Record X → Type 0
  HasTruth predicate r = (b : Option Bool) × (evaluate O ev predicate r ≡ ok (truth b))

  matching_rows_cons :
      (predicate : Expr X) (r : Record X) (rs : List (Record X)) (v : Value X)
      → evaluate O ev predicate r ≡ ok v
      → matching_rows predicate (r ∷ rs)
        ≡ (if is_true v then r ∷ matching_rows predicate rs else matching_rows predicate rs)
  unfolding matching_rows
  matching_rows_cons predicate r rs v h = rw h refl

  evaluate-is_null :
      (predicate : Expr X) (r : Record X) (b : Option Bool)
      → evaluate O ev predicate r ≡ ok (truth b)
      → evaluate O ev (Expr.is_null predicate false) r ≡ ok (truth (some (is_none b)))
  unfolding evaluate is_null
  evaluate-is_null predicate r none h = rw h refl
  evaluate-is_null predicate r (some b) h = rw h refl

  -- Each row for which the predicate has a truth value matches exactly one of the predicate, its
  -- negation and the predicate IS NULL.
  pub matching_rows-partition :
      (predicate : Expr X) (rs : List (Record X))
      → All (HasTruth predicate) rs
      → length (matching_rows predicate rs)
          + length (matching_rows (Expr.unary_op UnaryOp.not predicate) rs)
          + length (matching_rows (Expr.is_null predicate false) rs)
        ≡ length rs
  matching_rows-partition predicate [] h = unfold matching_rows in omega arith
  matching_rows-partition predicate (r ∷ rs) h =
      let (b, value) = h.0 in
      rw
        (
          matching_rows_cons predicate r rs (truth b) value,
          matching_rows_cons (Expr.unary_op UnaryOp.not predicate) r rs (truth (opposite b))
              (evaluate-not O ev r predicate b value),
          matching_rows_cons (Expr.is_null predicate false) r rs (truth (some (is_none b)))
              (evaluate-is_null predicate r b value),
        )
        (counted_once b r (matching_rows predicate rs)
          (matching_rows (Expr.unary_op UnaryOp.not predicate) rs)
          (matching_rows (Expr.is_null predicate false) rs) (length rs)
          (matching_rows-partition predicate rs h.1))

module _ {X : Externals} {I : IndexMap (Column X)} (O : Operators X) (ev : IrEvaluator X) where
  push_matching-push_rows :
      (predicate : Expr X) (rs : List (Record X)) (t : Table X I)
      → All (λ r. (v : Value X) × (evaluate O ev predicate r ≡ ok v)) rs
      → push_matching O ev predicate rs t ≡ push_rows (matching_rows O ev predicate rs) t
  unfolding push_matching
  push_matching-push_rows predicate [] t h = unfold matching_rows push_rows in refl
  push_matching-push_rows predicate (r ∷ rs) t h =
      let (v, value) = h.0 in
      rw (matching_rows_cons O ev predicate r rs v value, value)
        (elim (Bool-cases (is_true v)) [
          | inr e ↦ rw e (push_matching-push_rows predicate rs t h.1)
          | inl e ↦ rw e (
              bind_ext (pushed r t) (push_matching O ev predicate rs)
                (push_rows (matching_rows O ev predicate rs))
                (λ u. push_matching-push_rows predicate rs u h.1)
              ∙ sym (push_rows_step r (matching_rows O ev predicate rs) t))
        ])

module _ {X : Externals} {I : IndexMap (Column X)} (O : Operators X)
    (variables system : Assoc (Value X)) where
  -- Where the predicate evaluates on every row, WHERE makes its result of the rows for which it is TRUE,
  -- in their order.
  pub execute_filter-rows :
      (predicate : Expr X) (t : Table X I)
      → All
          (λ r.
            (v : Value X) × (evaluate O (session_evaluator t.schema variables system) predicate r
              ≡ ok v))
          (rows t)
      → execute_filter O variables system predicate t
        ≡ push_rows
            (matching_rows O (session_evaluator t.schema variables system) predicate (rows t))
            (new t.schema)
  unfolding execute_filter
  execute_filter-rows predicate t h = rw (to_records-rows t) (
      push_matching-push_rows O (session_evaluator t.schema variables system) predicate (rows t)
        (new t.schema) h)
