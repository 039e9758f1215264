-- ===== src/Evaluator/Functions.antt =====
-- `fn_coalesce`, `fn_ifnull`, `fn_nullif` and `fn_if` of crates/executor/src/ir_evaluator/mod.rs.
use yacht_sql.Prelude.{true, false, List, [], ◌∷◌, if◌then◌else◌}
use yacht_sql.Prelude.Text.{codes}
use yacht_sql.Common.Error.{Result, ok}
use yacht_sql.Common.Externals.{Externals}
use yacht_sql.Common.Operators.{Operators}
use yacht_sql.Common.Types.{Value, is_null}
use yacht_sql.Evaluator.Comparison.{values_equal}
use yacht_sql.Evaluator.Logic.{invalid}

module _ {X : Externals} where
  unfoldable pub fn_coalesce : List (Value X) → Result (Value X)
  unfolding is_null
  fn_coalesce [] = ok Value.null
  fn_coalesce (v ∷ args) = let rest = fn_coalesce args in if is_null v then rest else ok v

  unfoldable pub fn_ifnull : List (Value X) → Result (Value X)
  unfolding is_null invalid
  fn_ifnull (a ∷ b ∷ more) = ok (if is_null a then b else a)
  fn_ifnull _ = invalid (codes "IFNULL requires 2 arguments")

  -- The branches of `fn_if` behind the test of its number of arguments.
  unfoldable pub choose : Value X → Value X → Value X → Result (Value X)
  unfolding invalid
  choose (Value.bool true) yes_value no_value = ok yes_value
  choose (Value.bool false) yes_value no_value = ok no_value
  choose Value.null yes_value no_value = ok no_value
  choose _ yes_value no_value = invalid (codes "IF requires boolean condition")

  unfoldable pub fn_if : List (Value X) → Result (Value X)
  unfolding choose invalid
  fn_if (a ∷ b ∷ c ∷ more) = choose a b c
  fn_if _ = invalid (codes "IF requires 3 arguments")

module _ {X : Externals} (O : Operators X) where
  unfoldable pub fn_nullif : List (Value X) → Result (Value X)
  unfolding values_equal invalid
  fn_nullif (a ∷ b ∷ more) = ok (if values_equal O a b then Value.null else a)
  fn_nullif _ = invalid (codes "NULLIF requires 2 arguments")
