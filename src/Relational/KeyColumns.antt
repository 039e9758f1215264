-- ===== src/Relational/KeyColumns.antt =====
-- Keys of the joins of crates/executor/src/executor/join.rs that are one column on either side.
use yacht_sql.Prelude.{
  ℕ, zero, suc, ◌+◌, ◌≡◌, refl, ap, ◌∙◌, inl, inr, List, [], ◌∷◌, ◌++◌, Option, none, some, All,
  map, get_elem?, length, arith, Bool-cases,
}
use yacht_sql.Prelude.Text.{Text}
use yacht_sql.Common.Error.{ok}
use yacht_sql.Common.Externals.{Externals}
use yacht_sql.Common.Operators.{Operators}
use yacht_sql.Common.Types.{Value}
use yacht_sql.Storage.Table.RowOps.{Record}
use yacht_sql.Evaluator.Expr.{Expr, BinaryOp}
use yacht_sql.Evaluator.Tests.{IrEvaluator, eval_column, value_at}
use yacht_sql.Evaluator.Comparison.{values_equal, eq_values_with_collation}
use yacht_sql.Evaluator.Evaluate.{evaluate, apply_binary_op, get_collation_for_expr, is_true}
use yacht_sql.Relational.Join.{matches, combine_records}
use yacht_sql.Relational.Joined.{matching, matching_cons, inner_rows}
use yacht_sql.Relational.HashJoin.{key_values}
use yacht_sql.Relational.HashTable.{IsPlain, null, int64, string, match_keys}
use yacht_sql.Relational.HashIndex.{HasPlainKeys, with_keys, with_keys_cons}
use yacht_sql.Relational.HashJoined.{equal_rows, equal_rows_cons}

module _ {A : Type 0} where
  get_elem?-append_left :
      (xs ys : List A) (i : ℕ) (v : A) → get_elem? xs i ≡ some v → get_elem? (xs ++ ys) i ≡ some v
  get_elem?-append_left [] ys i v h = cc
  get_elem?-append_left (x ∷ xs) ys zero v h = h
  get_elem?-append_left (x ∷ xs) ys (suc i) v h = get_elem?-append_left xs ys i v h

  get_elem?-append_right :
      (xs ys : List A) (j m : ℕ) → m ≡ length xs + j → get_elem? (xs ++ ys) m ≡ get_elem? ys j
  get_elem?-append_right [] ys j m h = let e : m ≡ j = omega (arith, h) in ap (get_elem? ys) e
  get_elem?-append_right (x ∷ xs) ys j zero h = ground (arith, h)
  get_elem?-append_right (x ∷ xs) ys j (suc m) h =
      get_elem?-append_right xs ys j m (omega (arith, h))

module _ {X : Externals} (O : Operators X) where
  -- The row has a null, an integer or a string at the index.
  abbrev pub HasPlainAt : ℕ → Record X → Type 0
  HasPlainAt i r = (v : Value X) × (get_elem? r i ≡ some v) × IsPlain v

  pub evaluate-column :
      (ev : IrEvaluator X) (table : Option Text) (name : Text) (i : ℕ) (row : Record X)
      (v : Value X)
      → get_elem? row i ≡ some v
      → evaluate O ev (Expr.column table name (some i)) row ≡ ok v
  unfolding evaluate eval_column value_at
  evaluate-column ev table name i row v h = rw h refl

  -- `=` on plain values.
  equal_plain :
      {v w : Value X}
      → IsPlain v
      → IsPlain w
      → (u : Value X) × (eq_values_with_collation O v w none ≡ ok u)
        × (is_true u ≡ values_equal O v w)
  unfolding eq_values_with_collation values_equal
  equal_plain null q = (Value.null, refl, refl)
  equal_plain (int64 n) null = (Value.null, refl, refl)
  equal_plain (int64 n) (int64 m) = (Value.bool _, refl, refl)
  equal_plain (int64 n) (string s) = (Value.bool _, refl, refl)
  equal_plain (string s) null = (Value.null, refl, refl)
  equal_plain (string s) (int64 m) = (Value.bool _, refl, refl)
  equal_plain (string s) (string u) = (Value.bool _, refl, refl)

-- The key columns: table, name and index on either side, and the width of the left rows.
module _ {X : Externals} (O : Operators X) (ev : IrEvaluator X)
    (left_table right_table : Option Text) (left_name right_name : Text) (i j n : ℕ) where
  abbrev pub left_column : Expr X
  left_column = Expr.column left_table left_name (some i)

  -- The right column in a combined row.
  abbrev pub right_column : Expr X
  right_column = Expr.column right_table right_name (some (n + j))

  abbrev pub equality : Expr X
  equality = Expr.binary_op left_column BinaryOp.eq right_column

  pub matches-equality :
      (l r : Record X)
      → get_collation_for_expr ev left_column ≡ none
      → get_collation_for_expr ev right_column ≡ none
      → length l ≡ n
      → (a : HasPlainAt O i l) (b : HasPlainAt O j r)
      → matches O ev (some equality) (combine_records l r) ≡ ok (values_equal O a.0 b.0)
  unfolding matches evaluate apply_binary_op combine_records
  matches-equality l r c d width (v, at_i, p) (w, at_j, q) =
      let (u, is_u, truth) = equal_plain O p q in
      let left_value =
        evaluate-column O ev left_table left_name i (l ++ r) v
          (get_elem?-append_left l r i v at_i) in
      let right_value =
        evaluate-column O ev right_table right_name (n + j) (l ++ r) w
          (get_elem?-append_right l r j (n + j) (omega (arith, width)) ∙ at_j) in
      rw (left_value, right_value, c, d, is_u, truth) refl

module _ {X : Externals} (O : Operators X) (side : IrEvaluator X) where
  key_values-column :
      (table : Option Text) (name : Text) (index : ℕ) (r : Record X) (v : Value X)
      → get_elem? r index ≡ some v
      → key_values O side (Expr.column table name (some index) ∷ []) r ≡ ok (v ∷ [])
  unfolding key_values
  key_values-column table name index r v at_index =
      rw (evaluate-column O side table name index r v at_index) refl

  pub plain_key :
      (table : Option Text) (name : Text) (index : ℕ) (r : Record X)
      → HasPlainAt O index r
      → HasPlainKeys O side (Expr.column table name (some index) ∷ []) r
  plain_key table name index r (v, at_index, p) =
      (v ∷ [], key_values-column table name index r v at_index, (p, tt))

module _ {X : Externals} (O : Operators X) (ev side : IrEvaluator X)
    (left_table right_table : Option Text) (left_name right_name : Text) (i j n : ℕ) where
  -- One column as the keys of a side.
  abbrev pub key : Option Text → Text → ℕ → List (Expr X)
  key table name index = Expr.column table name (some index) ∷ []

  abbrev condition : Option (Expr X)
  condition = some (equality O ev left_table right_table left_name right_name i j n)

  matching-with_keys :
      (l : Record X) (rs : List (Record X))
      → get_collation_for_expr ev
          (left_column O ev left_table right_table left_name right_name i j n)
        ≡ none
      → get_collation_for_expr ev
          (right_column O ev left_table right_table left_name right_name i j n)
        ≡ none
      → length l ≡ n
      → (a : HasPlainAt O i l) → All (HasPlainAt O j) rs
      → matching O ev condition (combine_records l) rs
        ≡ map (combine_records l) (with_keys O side (key right_table right_name j) (a.0 ∷ []) rs)
  unfolding match_keys
  matching-with_keys l [] c d width a h = unfold matching with_keys in refl
  matching-with_keys l (r ∷ rs) c d width a h =
      let verdict =
        matches-equality O ev left_table right_table left_name right_name i j n l r c d width a
          h.0 in
      let (w, at_j, q) = h.0 in
      rw
        (
          matching_cons O ev condition (combine_records l) r rs _ verdict,
          with_keys_cons O side (key right_table right_name j) (a.0 ∷ []) r rs
              (w ∷ [], key_values-column O side right_table right_name j r w at_j, (q, tt)),
          matching-with_keys l rs c d width a h.1,
        )
        (elim (Bool-cases (values_equal O a.0 w)) [ inl e ↦ rw e refl | inr e ↦ rw e refl ])

module _ {X : Externals} (O : Operators X) (ev left_ev right_ev : IrEvaluator X)
    (left_table right_table : Option Text) (left_name right_name : Text) (i j n : ℕ) where
  pub inner_rows-equal_rows :
      (ls rs : List (Record X))
      → get_collation_for_expr ev (Expr.column left_table left_name (some i)) ≡ none
      → get_collation_for_expr ev (Expr.column right_table right_name (some (n + j))) ≡ none
      → All (λ l. (length l ≡ n) × HasPlainAt O i l) ls
      → All (HasPlainAt O j) rs
      → inner_rows O ev
          (some (equality O ev left_table right_table left_name right_name i j n))
          ls
          rs
        ≡ equal_rows O left_ev right_ev
            (Expr.column left_table left_name (some i) ∷ [])
            (Expr.column right_table right_name (some j) ∷ [])
            ls
            rs
  unfolding inner_rows
  inner_rows-equal_rows [] rs c d h k = unfold equal_rows in refl
  inner_rows-equal_rows (l ∷ ls) rs c d h k =
      let (width, (v, at_i, p)) = h.0 in
      rw
        (
          matching-with_keys O ev right_ev left_table right_table left_name right_name i j n l rs c
              d width (v, at_i, p) k,
          equal_rows_cons O left_ev right_ev (Expr.column left_table left_name (some i) ∷ [])
              (Expr.column right_table right_name (some j) ∷ []) l ls rs
              (v ∷ [], key_values-column O left_ev left_table left_name i l v at_i, (p, tt)),
          inner_rows-equal_rows ls rs c d h.1 k,
        )
        refl
