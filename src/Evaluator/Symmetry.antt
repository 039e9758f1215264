-- ===== src/Evaluator/Symmetry.antt =====
-- The operands of the comparisons in crates/executor/src/ir_evaluator/mod.rs, swapped, and
-- inequality against equality.
use Prim.Native.Nat.{Ordering, compare}
use yacht_sql.Prelude.{
  ℕ, ◌≡◌, refl, ap, ◌∙◌, Bool, true, false, not, List, [], ◌∷◌, Option, none, some, arith,
}
use yacht_sql.Prelude.Text.{Text}
use yacht_sql.Common.Error.{Result, ok, err}
use yacht_sql.Common.Externals.{Externals}
use yacht_sql.Common.Operators.{Operators}
use yacht_sql.Common.Signed.{signed_cmp, offset}
use yacht_sql.Common.Types.{Value}
use yacht_sql.Common.ValueEquality.{text_cmp, bool_cmp}
use yacht_sql.Evaluator.Arithmetic.{cannot}
use yacht_sql.Evaluator.Comparison.{
  compare_values, eq_values_with_collation, neq_values_with_collation, reverse, or_equal,
  total_nanos, if_float, distance,
}

pub compare-swap : (a b : ℕ) → compare b a ≡ reverse (compare a b)
compare-swap a b = ground arith

signed_cmp-swap : (a b : ℕ) → signed_cmp b a ≡ reverse (signed_cmp a b)
unfolding signed_cmp
signed_cmp-swap a b = compare-swap (offset a) (offset b)

text_cmp-swap : (s t : List ℕ) → text_cmp t s ≡ reverse (text_cmp s t)
unfolding text_cmp
text_cmp-swap [] [] = refl
text_cmp-swap [] (d ∷ t) = refl
text_cmp-swap (c ∷ s) [] = refl
text_cmp-swap (c ∷ s) (d ∷ t) = ground (arith, text_cmp-swap s t)

bool_cmp-swap : (a b : Bool) → bool_cmp b a ≡ reverse (bool_cmp a b)
unfolding bool_cmp
bool_cmp-swap true true = refl
bool_cmp-swap true false = refl
bool_cmp-swap false true = refl
bool_cmp-swap false false = refl

-- Swapping the operands of the foreign orders reverses the result, and leaves unordered numbers
-- unordered.
pub record OrderLaws {X : Externals} (O : Operators X) : Type 0 where
  pub ordered_cmp-swap : (a b : X.F64) → O.ordered_cmp b a ≡ reverse (O.ordered_cmp a b)
  pub partial_cmp-swap :
      (a b : X.F64) → or_equal (O.f64_partial_cmp b a) ≡ reverse (or_equal (O.f64_partial_cmp a b))
  pub decimal_cmp-swap : (a b : X.Decimal) → O.decimal_cmp b a ≡ reverse (O.decimal_cmp a b)
  pub date_cmp-swap : (a b : X.NaiveDate) → O.date_cmp b a ≡ reverse (O.date_cmp a b)
  pub time_cmp-swap : (a b : X.NaiveTime) → O.time_cmp b a ≡ reverse (O.time_cmp a b)
  pub datetime_cmp-swap :
      (a b : X.NaiveDateTime) → O.datetime_cmp b a ≡ reverse (O.datetime_cmp a b)
  pub timestamp_cmp-swap :
      (a b : X.DateTimeUtc) → O.timestamp_cmp b a ≡ reverse (O.timestamp_cmp a b)

twice : (o : Ordering) → reverse (reverse o) ≡ o
twice Ordering.lt = refl
twice Ordering.eq = refl
twice Ordering.gt = refl

-- The test of the swapped operands.
abbrev pub swapped : (Ordering → Bool) → Ordering → Bool
swapped test o = test (reverse o)

module _ {X : Externals} (O : Operators X) (laws : OrderLaws O) where
  flip :
      (test : Ordering → Bool) (o p : Ordering)
      → p ≡ reverse o
      → ◌≡◌ {A = Result (Value X)} (ok (Value.bool (swapped test p))) (ok (Value.bool (test o)))
  flip test o p e =
      ap (λ q. ok (Value.bool (swapped test q))) e ∙ ap (λ q. ok (Value.bool (test q))) (twice o)

  if_float-flip :
      (d : Option X.F64) (there back : X.F64 → Ordering)
      → ((f : X.F64) → back f ≡ reverse (there f))
      → (test : Ordering → Bool)
      → if_float O d (λ f. swapped test (back f)) ≡ if_float O d (λ f. test (there f))
  if_float-flip none there back e test = refl
  if_float-flip (some f) there back e test = flip test (there f) (back f) (e f)

  -- Where a comparison has a value, it has the same with its operands swapped and its test reversed:
  -- `a < b` is `b > a`, and `a <= b` is `b >= a`.
  pub compare_values-swap :
      (l r : Value X) (test : Ordering → Bool) {v : Value X}
      → compare_values O l r test ≡ ok v
      → compare_values O r l (swapped test) ≡ ok v
  unfolding compare_values cannot
  compare_values-swap (Value.int64 a) (Value.int64 b) test h =
      flip test (signed_cmp a b) (signed_cmp b a) (signed_cmp-swap a b) ∙ h
  compare_values-swap (Value.float64 a) (Value.float64 b) test h =
      flip test (O.ordered_cmp a b) (O.ordered_cmp b a) (laws.ordered_cmp-swap a b) ∙ h
  compare_values-swap (Value.string a) (Value.string b) test h =
      flip test (text_cmp a b) (text_cmp b a) (text_cmp-swap a b) ∙ h
  compare_values-swap (Value.bytes a) (Value.bytes b) test h =
      flip test (text_cmp a b) (text_cmp b a) (text_cmp-swap a b) ∙ h
  compare_values-swap (Value.date a) (Value.date b) test h =
      flip test (O.date_cmp a b) (O.date_cmp b a) (laws.date_cmp-swap a b) ∙ h
  compare_values-swap (Value.time a) (Value.time b) test h =
      flip test (O.time_cmp a b) (O.time_cmp b a) (laws.time_cmp-swap a b) ∙ h
  compare_values-swap (Value.date_time a) (Value.date_time b) test h =
      flip test (O.datetime_cmp a b) (O.datetime_cmp b a) (laws.datetime_cmp-swap a b) ∙ h
  compare_values-swap (Value.timestamp a) (Value.timestamp b) test h =
      flip test (O.timestamp_cmp a b) (O.timestamp_cmp b a) (laws.timestamp_cmp-swap a b) ∙ h
  compare_values-swap (Value.numeric a) (Value.numeric b) test h =
      flip test (O.decimal_cmp a b) (O.decimal_cmp b a) (laws.decimal_cmp-swap a b) ∙ h
  compare_values-swap (Value.bool a) (Value.bool b) test h =
      flip test (bool_cmp a b) (bool_cmp b a) (bool_cmp-swap a b) ∙ h
  compare_values-swap (Value.interval a) (Value.interval b) test h =
      flip test (signed_cmp (total_nanos a) (total_nanos b))
        (signed_cmp (total_nanos b) (total_nanos a))
        (signed_cmp-swap (total_nanos a) (total_nanos b))
      ∙ h
  compare_values-swap (Value.int64 a) (Value.numeric b) test h =
      flip test (O.decimal_cmp (X.decimal_from_i64 a) (b))
        (O.decimal_cmp (b) (X.decimal_from_i64 a))
        (laws.decimal_cmp-swap (X.decimal_from_i64 a) (b))
      ∙ h
  compare_values-swap (Value.numeric a) (Value.int64 b) test h =
      flip test (O.decimal_cmp (a) (X.decimal_from_i64 b))
        (O.decimal_cmp (X.decimal_from_i64 b) (a))
        (laws.decimal_cmp-swap (a) (X.decimal_from_i64 b))
      ∙ h
  compare_values-swap (Value.int64 a) (Value.float64 b) test h =
      flip test (or_equal (O.f64_partial_cmp (X.f64_from_i64 a) (b)))
        (or_equal (O.f64_partial_cmp (b) (X.f64_from_i64 a)))
        (laws.partial_cmp-swap (X.f64_from_i64 a) (b))
      ∙ h
  compare_values-swap (Value.float64 a) (Value.int64 b) test h =
      flip test (or_equal (O.f64_partial_cmp (a) (X.f64_from_i64 b)))
        (or_equal (O.f64_partial_cmp (X.f64_from_i64 b) (a)))
        (laws.partial_cmp-swap (a) (X.f64_from_i64 b))
      ∙ h
  compare_values-swap (Value.numeric a) (Value.float64 b) test h =
      if_float-flip (X.decimal_to_f64 a) (λ f. or_equal (O.f64_partial_cmp f b))
        (λ f. or_equal (O.f64_partial_cmp b f)) (λ f. laws.partial_cmp-swap f b) test
      ∙ h
  compare_values-swap (Value.float64 a) (Value.numeric b) test h =
      if_float-flip (X.decimal_to_f64 b) (λ f. or_equal (O.f64_partial_cmp a f))
        (λ f. or_equal (O.f64_partial_cmp f a)) (λ f. laws.partial_cmp-swap a f) test
      ∙ h
  compare_values-swap _ _ test h = ground arith

abbrev pub negated : {X : Externals} → Value X → Value X
negated (Value.bool b) = Value.bool (not b)
negated v = v

module _ {X : Externals} (O : Operators X) where
  -- `>=` is the negation of `<`, as it is for all numbers but NaN.
  abbrev pub IsOrdered : X.F64 → Type 0
  IsOrdered d = O.f64_ge d O.f64_epsilon ≡ not (O.f64_lt d O.f64_epsilon)

  -- Where an integer is compared with a float, their distance is ordered.
  abbrev pub IsComparable : Value X → Value X → Type 0
  IsComparable (Value.int64 a) (Value.float64 b) = IsOrdered (distance O (X.f64_from_i64 a) b)
  IsComparable (Value.float64 a) (Value.int64 b) = IsOrdered (distance O a (X.f64_from_i64 b))
  IsComparable _ _ = Unit {0}

  abbrev pub map_ok : (Value X → Value X) → Result (Value X) → Result (Value X)
  map_ok f (err e) = err e
  map_ok f (ok v) = ok (f v)

  -- Under every collation `<>` is the negation of `=`, and null where that is null; where an integer is
  -- compared with a float, their distance must be ordered.
  pub neq-eq :
      (l r : Value X) (collation : Option Text)
      → IsComparable l r
      → neq_values_with_collation O l r collation
        ≡ map_ok negated (eq_values_with_collation O l r collation)
  unfolding neq_values_with_collation eq_values_with_collation
  neq-eq (Value.int64 a) (Value.float64 b) collation h = ap (λ c. ok (Value.bool c)) h
  neq-eq (Value.float64 a) (Value.int64 b) collation h = ap (λ c. ok (Value.bool c)) h
  neq-eq (Value.string a) (Value.string b) collation h = ground arith
  neq-eq _ _ collation h = ground arith
