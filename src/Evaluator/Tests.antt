-- ===== src/Evaluator/Tests.antt =====
-- The tests on values in `eval_is_distinct_from`, `eval_in_unnest` and `eval_between`, and the look-up
-- of a column, a variable and a collation (crates/executor/src/ir_evaluator/mod.rs).
use yacht_sql.Prelude.{
  ℕ, Bool, true, false, not, ◌&&◌, ◌||◌, List, [], ◌∷◌, ◌++◌, Option, none, some, get_elem?,
  if◌then◌else◌,
}
use yacht_sql.Prelude.Text.{Text, codes, text_eq, to_uppercase, to_lowercase, starts_with}
use yacht_sql.Prelude.Assoc
use yacht_sql.Prelude.Assoc.{Assoc, or_else}
use yacht_sql.Common.Error.{Error, Result, ok, err, invalid_query, column_not_found, ◌>>=◌}
use yacht_sql.Common.Externals.{Externals}
use yacht_sql.Common.Operators.{Operators}
use yacht_sql.Common.Types.{Value, Values, nil, cons, ValueFields, no_values, named, is_null}
use yacht_sql.Storage.Schema.{Schema, Field, field_index_qualified}
use yacht_sql.Evaluator.Comparison.{values_equal, compare_values, is_ge, is_le}
use yacht_sql.Evaluator.Logic.{invalid}

-- User functions are not modelled.
pub record IrEvaluator (X : Externals) : Type 0 where
  pub schema : Schema X
  pub variables : Option (Assoc (Value X))
  pub system_variables : Option (Assoc (Value X))

-- option.ok_or(error)
abbrev pub ok_or_error {ℓ} : {A : Type ℓ} → Error → Option A → Result A
ok_or_error e none = err e
ok_or_error e (some a) = ok a

abbrev pub negate_if : Bool → Bool → Bool
negate_if negated b = if negated then not b else b

-- The field is of the column's table, where both have one.
abbrev same_source : Option Text → Option Text → Bool
same_source (some prefix) (some source) = text_eq (to_uppercase prefix) (to_uppercase source)
same_source _ _ = true

module _ {X : Externals} where
  -- The first field of the name, in any case.
  unfoldable pub struct_field : Text → ValueFields X → Option (Value X)
  unfolding text_eq
  struct_field lower no_values = none
  struct_field lower (named n v fs) =
      let rest = struct_field lower fs in if text_eq (to_lowercase n) lower then some v else rest

  abbrev field_of : Text → Option (Value X) → Option (Value X)
  field_of name (some (Value.struct fs)) = struct_field (to_lowercase name) fs
  field_of name _ = none

  abbrev field_of_table : Option Text → Text → Assoc (Value X) → Option (Value X)
  field_of_table none name vars = none
  field_of_table (some table) name vars = field_of name (Assoc.get vars (to_uppercase table))

  -- A variable of the name, or a field of the variable of the table's name.
  unfoldable pub variable_for : Option (Assoc (Value X)) → Option Text → Text → Option (Value X)
  unfolding struct_field
  variable_for none table name = none
  variable_for (some vars) table name =
      or_else (Assoc.get vars (to_uppercase name)) (field_of_table table name vars)

  -- The value at an index that may be missing or out of range.
  unfoldable pub value_at : Option ℕ → List (Value X) → Option (Value X)
  value_at none values = none
  value_at (some i) values = get_elem? values i

  unfoldable pub eval_column :
      IrEvaluator X → Option Text → Text → Option ℕ → List (Value X) → Result (Value X)
  unfolding value_at variable_for
  eval_column ev table name index values = ok_or_error (column_not_found name) (
      or_else (value_at index values) (
        or_else (variable_for ev.variables table name)
          (value_at (field_index_qualified name table ev.schema) values)))

  -- The collation of the first such field.
  unfoldable pub collation_of : Option Text → Text → List (Field X) → Option Text
  unfolding text_eq
  collation_of table name [] = none
  collation_of table name (f ∷ fs) =
      let rest = collation_of table name fs in
      if text_eq (to_uppercase f.name) (to_uppercase name) && same_source table f.source_table
      then f.collation
      else rest

  abbrev get_in : Option (Assoc (Value X)) → Text → Option (Value X)
  get_in none k = none
  get_in (some vars) k = Assoc.get vars k

  -- The value of a variable, for `Expr::Variable`.
  unfoldable pub eval_variable : IrEvaluator X → Text → Result (Value X)
  unfolding starts_with
  eval_variable ev name =
      if starts_with name (codes "@@")
      then ok_or_error (invalid_query (codes "System variable '" ++ (name ++ codes "' not found")))
          (get_in ev.system_variables name)
      else ok_or_error (invalid_query (codes "Variable '" ++ (name ++ codes "' not in scope")))
          (get_in ev.variables (to_uppercase name))

  -- The last match of `eval_between`.
  abbrev pub both : Bool → Value X → Value X → Value X
  both negated (Value.bool g) (Value.bool l) = Value.bool (negate_if negated (g && l))
  both negated _ _ = Value.null

  -- The match of `eval_at_time_zone`.
  unfoldable pub at_zone : Value X → Value X → Result (Value X)
  at_zone (Value.timestamp ts) (Value.string zone) = ok (Value.timestamp ts)
  at_zone (Value.date_time dt) (Value.string zone) = ok (Value.date_time dt)
  at_zone v zone = ok v

module _ {X : Externals} (O : Operators X) where
  unfoldable pub is_distinct : Value X → Value X → Bool
  unfolding is_null
  is_distinct left right =
      if is_null left && is_null right
      then false
      else if is_null left || is_null right
      then true
      else not (values_equal O left right)

  -- The loop of `eval_in_unnest` over the elements.
  unfoldable pub in_values : Value X → Values X → Bool → Bool → Value X
  unfolding is_null
  in_values val nil negated has_null = if has_null then Value.null else Value.bool negated
  in_values val (cons v vs) negated has_null =
      let after_null = in_values val vs negated true in
      let more = in_values val vs negated has_null in
      if is_null v
      then after_null
      else if values_equal O val v
      then Value.bool (not negated)
      else more

  unfoldable pub in_unnest_values : Value X → Value X → Bool → Result (Value X)
  unfolding in_values is_null invalid
  in_unnest_values val (Value.array elements) negated =
      ok (if is_null val then Value.null else in_values val elements negated false)
  in_unnest_values val Value.null negated = ok Value.null
  in_unnest_values val _ negated = invalid (codes "IN UNNEST requires array argument")

  -- `eval_between` behind the evaluation of its operands.
  unfoldable pub between_values : Value X → Value X → Value X → Bool → Result (Value X)
  unfolding is_null
  between_values val low high negated =
      if is_null val || (is_null low || is_null high)
      then ok Value.null
      else compare_values O val low is_ge >>= λ ge_low.
          compare_values O val high is_le >>= λ le_high. ok (both negated ge_low le_high)
