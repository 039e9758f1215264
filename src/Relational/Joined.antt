-- ===== src/Relational/Joined.antt =====
-- The rows that a join of crates/executor/src/executor/join.rs makes, as lists.
use yacht_sql.Prelude.{
  ◌≡◌, refl, ap, Bool, true, false, ◌||◌, List, [], ◌∷◌, ◌++◌, Option, replicate, length, map,
  arith, if◌then◌else◌, suc,
}
use yacht_sql.Common.Error.{Result, ok, err}
use yacht_sql.Common.Externals.{Externals}
use yacht_sql.Common.Operators.{Operators}
use yacht_sql.Storage.Table.RowOps.{Record}
use yacht_sql.Evaluator.Expr.{Expr}
use yacht_sql.Evaluator.Tests.{IrEvaluator}
use yacht_sql.Relational.Join.{matches, combine_records, unmatched}
use yacht_sql.Relational.PlanSchema.{JoinType}

module _ {ℓ} {A : Type ℓ} where
  abbrev pub nonempty : List A → Bool
  nonempty [] = false
  nonempty (x ∷ xs) = true

  -- The matching rows, or one row for none.
  abbrev pub or_alone : List A → A → List A
  or_alone [] a = a ∷ []
  or_alone (x ∷ xs) a = x ∷ xs

module _ {X : Externals} where
  -- Each left row with each right row.
  unfoldable pub all_pairs : List (Record X) → List (Record X) → List (Record X)
  all_pairs [] rs = []
  all_pairs (l ∷ ls) rs = map (combine_records l) rs ++ all_pairs ls rs

module _ {X : Externals} (O : Operators X) (ev : IrEvaluator X) (condition : Option (Expr X)) where
  -- The condition has a value on the row.
  abbrev pub HasVerdict : Record X → Type 0
  HasVerdict row = (b : Bool) × (matches O ev condition row ≡ ok b)

  abbrev pub is_ok_true : Result Bool → Bool
  is_ok_true (ok b) = b
  is_ok_true (err e) = false

  -- The condition is true of the row.
  unfoldable pub holds : Record X → Bool
  holds row = is_ok_true (matches O ev condition row)

  -- The combined rows of which the condition is true.
  unfoldable pub matching : (Record X → Record X) → List (Record X) → List (Record X)
  unfolding holds
  matching combine [] = []
  matching combine (r ∷ rs) =
      let rest = matching combine rs in if holds (combine r) then combine r ∷ rest else rest

  pub matching_cons :
      (combine : Record X → Record X) (r : Record X) (rs : List (Record X)) (b : Bool)
      → matches O ev condition (combine r) ≡ ok b
      → matching combine (r ∷ rs)
        ≡ (if b then combine r ∷ matching combine rs else matching combine rs)
  unfolding matching holds
  matching_cons combine r rs b h = rw h refl

  -- For each row of one side the matching rows, one after the other.
  unfoldable pub inner_rows : List (Record X) → List (Record X) → List (Record X)
  inner_rows [] rs = []
  inner_rows (l ∷ ls) rs = matching (combine_records l) rs ++ inner_rows ls rs

  -- For each row of one side the matching rows, or the row alone.
  unfoldable pub outer_rows :
      (Record X → Record X → Record X)
      → (Record X → Record X)
      → List (Record X)
      → List (Record X)
      → List (Record X)
  outer_rows combine alone [] is = []
  outer_rows combine alone (o ∷ os) is =
      or_alone (matching (combine o) is) (alone o) ++ outer_rows combine alone os is

  -- The rows of the right side that match no row of the left side.
  unfoldable pub lonely : List (Record X) → List (Record X) → List (Record X)
  lonely ls [] = []
  lonely ls (r ∷ rs) =
      let rest = lonely ls rs in
      if nonempty (matching (λ l. combine_records l r) ls) then rest else r ∷ rest

  -- The flags of the right rows behind the rounds for one left row, and for all.
  unfoldable pub marks : Record X → List (Record X) → List Bool → List Bool
  marks l (r ∷ rs) (f ∷ fs) = (if holds (combine_records l r) then true else f) ∷ marks l rs fs
  marks l _ fs = fs

  unfoldable pub all_marks : List (Record X) → List (Record X) → List Bool → List Bool
  all_marks [] rs fs = fs
  all_marks (l ∷ ls) rs fs = all_marks ls rs (marks l rs fs)

  all_marks_cons :
      (ls : List (Record X)) (r : Record X) (rs : List (Record X)) (f : Bool) (fs : List Bool)
      → all_marks ls (r ∷ rs) (f ∷ fs)
        ≡ (f || nonempty (matching (λ l. combine_records l r) ls)) ∷ all_marks ls rs fs
  unfolding all_marks marks matching
  all_marks_cons [] r rs f fs = ground arith
  all_marks_cons (l ∷ ls) r rs f fs =
      ground (
        arith,
        all_marks_cons ls r rs f (marks l rs fs),
        all_marks_cons ls r rs true (marks l rs fs),
      )

  pub unmatched-all_marks :
      (ls rs : List (Record X))
      → unmatched rs (all_marks ls rs (replicate (length rs) false)) ≡ lonely ls rs
  unfolding unmatched lonely
  unmatched-all_marks ls [] = refl
  unmatched-all_marks ls (r ∷ rs) =
      rw (all_marks_cons ls r rs false (replicate (length rs) false), unmatched-all_marks ls rs)
        refl

  pub length-marks :
      (l : Record X) (rs : List (Record X)) (fs : List Bool) → length (marks l rs fs) ≡ length fs
  unfolding marks
  length-marks l [] fs = refl
  length-marks l (r ∷ rs) [] = refl
  length-marks l (r ∷ rs) (f ∷ fs) = ap suc (length-marks l rs fs)

  -- The rows of a join, with the rows of nulls for either side.
  unfoldable pub joined_rows :
      JoinType → Record X → Record X → List (Record X) → List (Record X) → List (Record X)
  joined_rows JoinType.inner no_left no_right ls rs = inner_rows ls rs
  joined_rows JoinType.left no_left no_right ls rs =
      outer_rows combine_records (λ l. l ++ no_right) ls rs
  joined_rows JoinType.right no_left no_right ls rs =
      outer_rows (λ r l. combine_records l r) (λ r. no_left ++ r) rs ls
  joined_rows JoinType.full no_left no_right ls rs =
      outer_rows combine_records (λ l. l ++ no_right) ls rs
      ++ map (λ r. no_left ++ r) (lonely ls rs)
  joined_rows JoinType.cross no_left no_right ls rs = all_pairs ls rs
