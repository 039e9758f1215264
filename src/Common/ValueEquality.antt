-- ===== src/Common/ValueEquality.antt =====
-- The derived `PartialEq` of `Value`, `IntervalValue` and `RangeValue`, the order of strings, bytes
-- and Booleans, and `Ord for Value` (crates/common/src/types/mod.rs).
use Prim.Native.Nat.{compare, Ordering}
use yacht_sql.Prelude.{ℕ, Bool, true, false, ◌&&◌, List, [], ◌∷◌, ◌==◌}
use yacht_sql.Prelude.Text.{text_eq}
use yacht_sql.Common.Externals.{Externals}
use yacht_sql.Common.Operators.{Operators}
use yacht_sql.Common.Signed.{signed_cmp}
use yacht_sql.Common.Types.{
  Value, Values, nil, cons, ValueFields, no_values, named, RangeValue, range_value, Bound,
  unbounded, bound, IntervalValue,
}

-- The order of strings by code points, and of byte vectors.
unfoldable pub text_cmp : List ℕ → List ℕ → Ordering
text_cmp [] [] = Ordering.eq
text_cmp [] (d ∷ t) = Ordering.lt
text_cmp (c ∷ s) [] = Ordering.gt
text_cmp (c ∷ s) (d ∷ t) = elim (compare c d) [
  | Ordering.lt ↦ Ordering.lt
  | Ordering.eq ↦ text_cmp s t
  | Ordering.gt ↦ Ordering.gt
]

-- false is below true.
unfoldable pub bool_cmp : Bool → Bool → Ordering
bool_cmp false true = Ordering.lt
bool_cmp true false = Ordering.gt
bool_cmp _ _ = Ordering.eq

unfoldable pub bool_eq : Bool → Bool → Bool
bool_eq true true = true
bool_eq false false = true
bool_eq _ _ = false

unfoldable pub interval_eq : IntervalValue → IntervalValue → Bool
interval_eq a b = (a.months == b.months) && ((a.days == b.days) && (a.nanos == b.nanos))

module _ {X : Externals} (O : Operators X) where
  unfoldable mutual
    unfolding text_eq bool_eq interval_eq

    pub value_eq : Value X → Value X → Bool
    value_eq Value.null Value.null = true
    value_eq Value.default Value.default = true
    value_eq (Value.bool a) (Value.bool b) = bool_eq a b
    value_eq (Value.int64 a) (Value.int64 b) = a == b
    value_eq (Value.float64 a) (Value.float64 b) = O.ordered_eq a b
    value_eq (Value.numeric a) (Value.numeric b) = O.decimal_eq a b
    value_eq (Value.big_numeric a) (Value.big_numeric b) = O.decimal_eq a b
    value_eq (Value.string a) (Value.string b) = text_eq a b
    value_eq (Value.geography a) (Value.geography b) = text_eq a b
    value_eq (Value.bytes a) (Value.bytes b) = text_eq a b
    value_eq (Value.date a) (Value.date b) = O.date_eq a b
    value_eq (Value.time a) (Value.time b) = O.time_eq a b
    value_eq (Value.date_time a) (Value.date_time b) = O.datetime_eq a b
    value_eq (Value.timestamp a) (Value.timestamp b) = O.timestamp_eq a b
    value_eq (Value.json a) (Value.json b) = O.json_eq a b
    value_eq (Value.array a) (Value.array b) = values_eq a b
    value_eq (Value.struct a) (Value.struct b) = value_fields_eq a b
    value_eq (Value.interval a) (Value.interval b) = interval_eq a b
    value_eq (Value.range a) (Value.range b) = range_eq a b
    value_eq _ _ = false

    pub values_eq : Values X → Values X → Bool
    values_eq nil nil = true
    values_eq (cons v vs) (cons w ws) = value_eq v w && values_eq vs ws
    values_eq _ _ = false

    pub value_fields_eq : ValueFields X → ValueFields X → Bool
    value_fields_eq no_values no_values = true
    value_fields_eq (named n v fs) (named m w gs) =
        text_eq n m && (value_eq v w && value_fields_eq fs gs)
    value_fields_eq _ _ = false

    pub range_eq : RangeValue X → RangeValue X → Bool
    range_eq (range_value s e) (range_value t f) = bound_eq s t && bound_eq e f

    pub bound_eq : Bound X → Bound X → Bool
    bound_eq unbounded unbounded = true
    bound_eq (bound v) (bound w) = value_eq v w
    bound_eq _ _ = false

  -- `Ord for Value`: nulls last, and kinds that are not listed are equal to all others.
  unfoldable pub value_cmp : Value X → Value X → Ordering
  unfolding text_cmp bool_cmp signed_cmp
  value_cmp Value.null Value.null = Ordering.eq
  value_cmp Value.null _ = Ordering.gt
  value_cmp _ Value.null = Ordering.lt
  value_cmp (Value.bool a) (Value.bool b) = bool_cmp a b
  value_cmp (Value.int64 a) (Value.int64 b) = signed_cmp a b
  value_cmp (Value.float64 a) (Value.float64 b) = O.ordered_cmp a b
  value_cmp (Value.int64 a) (Value.float64 b) = O.ordered_cmp (X.f64_from_i64 a) b
  value_cmp (Value.float64 a) (Value.int64 b) = O.ordered_cmp a (X.f64_from_i64 b)
  value_cmp (Value.numeric a) (Value.numeric b) = O.decimal_cmp a b
  value_cmp (Value.string a) (Value.string b) = text_cmp a b
  value_cmp (Value.bytes a) (Value.bytes b) = text_cmp a b
  value_cmp (Value.date a) (Value.date b) = O.date_cmp a b
  value_cmp (Value.time a) (Value.time b) = O.time_cmp a b
  value_cmp (Value.date_time a) (Value.date_time b) = O.datetime_cmp a b
  value_cmp (Value.timestamp a) (Value.timestamp b) = O.timestamp_cmp a b
  value_cmp _ _ = Ordering.eq
