-- ===== src/Evaluator/Bounds.antt =====
-- The integers of `add_values`, `sub_values`, `fn_safe_add` and `fn_greatest` (crates/executor/src/
-- ir_evaluator) with the integers that their patterns stand for.
use yacht_sql.Prelude.{
  ℕ, ◌+◌, ◌≤◌, ◌<◌, ◌≡◌, ◌⊎◌, refl, ap, true, false, inl, inr, List, [], ◌∷◌, map, none, some,
  arith, Bool-cases, ltb, leb, All,
}
use yacht_sql.Common.Error.{ok}
use yacht_sql.Common.Externals.{Externals}
use yacht_sql.Common.Operators.{Operators}
use yacht_sql.Common.Signed.{offset, wrapping_add, checked_add, signed_cmp}
use yacht_sql.Common.Types.{Value}
use yacht_sql.Common.ValueEquality.{value_cmp}
use yacht_sql.Evaluator.Arithmetic.{add_values}
use yacht_sql.Evaluator.Comparison.{is_gt}
use yacht_sql.Evaluator.Math.{fn_safe_add, fn_greatest, any_null, greatest_from, int_or_null}

-- An integer x has the offset x + 2 ^ 63, so the sum of two is an i64 in this range.
abbrev pub AddFits : ℕ → ℕ → Type 0
AddFits a b =
    (0x8000000000000000 ≤ offset a + offset b)
    × (offset a + offset b < 0x8000000000000000 + 0x10000000000000000)

wrapping_add-exact :
    (a b : ℕ)
    → a < 0x10000000000000000
    → b < 0x10000000000000000
    → AddFits a b
    → offset (wrapping_add a b) + 0x8000000000000000 ≡ offset a + offset b
unfolding wrapping_add
wrapping_add-exact a b h k f = omega arith

checked_add-fits : (a b : ℕ) → AddFits a b → checked_add a b ≡ some (wrapping_add a b)
unfolding checked_add
checked_add-fits a b f = ground arith

checked_add-overflow : (a b : ℕ) → (AddFits a b → ⊥) → checked_add a b ≡ none
unfolding checked_add
checked_add-overflow a b f = elim (Bool-cases (leb 0x8000000000000000 (offset a + offset b))) [
  | inl e ↦
      elim (Bool-cases (ltb (offset a + offset b) (0x8000000000000000 + 0x10000000000000000))) [
        | inl k ↦ absurd (f (ground arith, ground arith))
        | inr k ↦ ground arith
      ]
  | inr e ↦ ground arith
]

abbrev pub Occurs : ℕ → List ℕ → Type 0
Occurs m [] = ⊥
Occurs m (n ∷ ns) = (m ≡ n) ⊎ Occurs m ns

-- One of the integers, and none of them is greater.
abbrev pub IsGreatest : ℕ → List ℕ → Type 0
IsGreatest m ns = Occurs m ns × All (λ n. offset n ≤ offset m) ns

signed_cmp_gt :
    (n m k : ℕ) → is_gt (signed_cmp n m) ≡ true → offset n ≤ offset k → offset m ≤ offset k
unfolding signed_cmp
signed_cmp_gt n m k h l = ground arith

signed_cmp_le :
    (n m k : ℕ) → is_gt (signed_cmp n m) ≡ false → offset m ≤ offset k → offset n ≤ offset k
unfolding signed_cmp
signed_cmp_le n m k h l = ground arith

skip : (k m n : ℕ) (ns : List ℕ) → Occurs k (m ∷ ns) → Occurs k (m ∷ n ∷ ns)
skip k m n ns (inl e) = inl e
skip k m n ns (inr o) = inr (inr o)

module _ {X : Externals} (O : Operators X) where
  -- For two i64 values: where their sum is an i64, `+` gives it and SAFE_ADD gives the same; where it
  -- is not, SAFE_ADD is null.
  pub add-safe_add :
      (a b : ℕ)
      → a < 0x10000000000000000
      → b < 0x10000000000000000
      → (AddFits a b
          → (sum : ℕ) × (add_values O (Value.int64 a) (Value.int64 b) ≡ ok (Value.int64 sum))
            × (fn_safe_add O (Value.int64 a ∷ Value.int64 b ∷ []) ≡ ok (Value.int64 sum))
            × (offset sum + 0x8000000000000000 ≡ offset a + offset b))
        × ((AddFits a b → ⊥) → fn_safe_add O (Value.int64 a ∷ Value.int64 b ∷ []) ≡ ok Value.null)
  unfolding add_values fn_safe_add
  add-safe_add a b h k = (
    λ f. (
      wrapping_add a b,
      refl,
      ap (λ o. ok (int_or_null o)) (checked_add-fits a b f),
      wrapping_add-exact a b h k f,
    ),
    λ f. ap (λ o. ok (int_or_null o)) (checked_add-overflow a b f),
  )

  abbrev pub ints : List ℕ → List (Value X)
  ints ns = map Value.int64 ns

  any_null-ints : (ns : List ℕ) → any_null (ints ns) ≡ false
  unfolding any_null
  any_null-ints [] = refl
  any_null-ints (n ∷ ns) = any_null-ints ns

  -- The loop of GREATEST from an integer over integers.
  greatest_from-ints :
      (m : ℕ) (ns : List ℕ)
      → (k : ℕ) × (greatest_from O (Value.int64 m) (ints ns) ≡ Value.int64 k)
        × IsGreatest k (m ∷ ns)
  unfolding greatest_from value_cmp
  greatest_from-ints m [] = (m, refl, (inl refl, (omega arith, tt)))
  greatest_from-ints m (n ∷ ns) = elim (Bool-cases (is_gt (signed_cmp n m))) [
    | inl e ↦
        let (k, found, (occurs, (above, all))) = greatest_from-ints n ns in
        (k, rw (greatest_from, e) found, (inr occurs, (signed_cmp_gt n m k e above, (above, all))))
    | inr e ↦
        let (k, found, (occurs, (above, all))) = greatest_from-ints m ns in
        (
          k,
          rw (greatest_from, e) found,
          (skip k m n ns occurs, (above, (signed_cmp_le n m k e above, all))),
        )
  ]

  -- GREATEST of one or more integers does not fail: it is one of them, and none of them is greater as
  -- an i64.
  pub fn_greatest-ints :
      (n : ℕ) (ns : List ℕ)
      → (m : ℕ) × (fn_greatest O (ints (n ∷ ns)) ≡ ok (Value.int64 m)) × IsGreatest m (n ∷ ns)
  unfolding fn_greatest
  fn_greatest-ints n ns =
      let (m, found, greatest_one) = greatest_from-ints n ns in
      (m, rw (any_null-ints (n ∷ ns)) (ap ok found), greatest_one)
