-- ===== src/Storage/Column/Sum/Loops.antt =====
-- The loops of `Column::sum` over a word and over the remainder, against adding values one by
-- one.
use yacht_sql.Prelude.{
  ℕ, zero, suc, ◌+◌, ◌-◌, ◌^◌, ◌<◌, ◌≤◌, ◌≡◌, refl, sym, ap, ◌∙◌, Bool, true, List, [], ◌∷◌, ◌++◌,
  arith, length, get_or, inl, inr, Bool-cases, ◌==◌, ==_iff,
}
use yacht_sql.Prelude.Bits.{
  test_bit, test_bit-zero, test-ones, count_ones, count_ones-eq-count_below, count_below-le,
}
use yacht_sql.Prelude.Words.{
  trailing_zeros, clear_lowest, clear_lowest-fits, count_ones-clear_lowest, at_ones, at_ones_step,
  at_ones-zero, at_ones-complement, unflagged, unflagged_ext, unflagged_none, unflagged_all,
}
use yacht_sql.Storage.Bitmap.{u64_max}
use yacht_sql.Storage.Column.Sum.{
  Sum, wrapping_add, sum_from, masked_loop, add_chunk, remainder_loop, add_remainder,
}

-- Adding values one by one.
unfoldable pub absorb : List ℕ → Sum → Sum
absorb [] acc = acc
absorb (v ∷ vs) (s, has) = absorb vs (wrapping_add s v, true)

pub absorb-append : (xs ys : List ℕ) (acc : Sum) → absorb (xs ++ ys) acc ≡ absorb ys (absorb xs acc)
unfolding absorb
absorb-append [] ys acc = refl
absorb-append (x ∷ xs) ys (s, has) = absorb-append xs ys (wrapping_add s x, true)

add_twice : (s a v : ℕ) → wrapping_add s (wrapping_add a v) ≡ wrapping_add (wrapping_add s a) v
add_twice s a v = omega arith

wrapping_add-sum_from :
    (s a : ℕ) (vs : List ℕ) → wrapping_add s (sum_from a vs) ≡ sum_from (wrapping_add s a) vs
unfolding sum_from
wrapping_add-sum_from s a [] = refl
wrapping_add-sum_from s a (v ∷ vs) =
    wrapping_add-sum_from s (wrapping_add a v) vs ∙ ap (λ x. sum_from x vs) (add_twice s a v)

pub absorb-sum_from : (s : ℕ) (vs : List ℕ) → absorb vs (s, true) ≡ (sum_from s vs, true)
unfolding absorb sum_from
absorb-sum_from s [] = refl
absorb-sum_from s (v ∷ vs) = absorb-sum_from (wrapping_add s v) vs

-- Adding the sum of values, and adding the values.
absorb_sum :
    (s : ℕ) (has : Bool) (v : ℕ) (vs : List ℕ)
    → (wrapping_add s (sum_from 0 (v ∷ vs)), true) ≡ absorb (v ∷ vs) (s, has)
unfolding absorb sum_from
absorb_sum s has v vs =
    ap (λ (x : ℕ). (x, true))
      (wrapping_add-sum_from s (wrapping_add 0 v) vs ∙ ap (λ x. sum_from x vs) (omega arith))
    ∙ sym (absorb-sum_from (wrapping_add s v) vs)

-- Enough rounds are as many as the mask has set bits.
masked_loop-absorb :
    (rounds mask : ℕ) (chunk : List ℕ) (acc : Sum)
    → mask < 2 ^ 64
    → length chunk ≡ 64
    → count_ones 64 mask ≤ rounds
    → masked_loop rounds mask chunk acc ≡ absorb (at_ones 64 mask chunk) acc
unfolding masked_loop absorb
masked_loop-absorb zero mask chunk acc h l c = elim (Bool-cases (mask == 0)) [
  | inl nothing ↦
      let e : mask ≡ 0 = (==_iff mask 0).0 nothing in rw e (rw (at_ones-zero 64 chunk) refl)
  | inr more ↦ absurd (omega (arith, count_ones-clear_lowest 64 mask h (ground arith)))
]
masked_loop-absorb (suc rounds) mask chunk (s, has) h l c = elim (Bool-cases (mask == 0)) [
  | inl nothing ↦
      let e : mask ≡ 0 = (==_iff mask 0).0 nothing in rw e (rw (at_ones-zero 64 chunk) refl)
  | inr more ↦
      let p : 0 < mask = ground arith in
      let fewer = count_ones-clear_lowest 64 mask h p in
      rw (more, at_ones_step 64 mask chunk 0 h p l)
        (masked_loop-absorb rounds (clear_lowest 64 mask) chunk
          (wrapping_add s (get_or chunk (trailing_zeros 64 mask) 0), true)
          (clear_lowest-fits 64 mask h p) l (omega (arith, fewer)))
]

pub add_chunk-absorb :
    (word : ℕ) (chunk : List ℕ) (acc : Sum)
    → word < 2 ^ 64
    → length chunk ≡ 64
    → add_chunk word chunk acc ≡ absorb (unflagged (test_bit word) chunk) acc
unfolding add_chunk absorb
add_chunk-absorb word [] acc h l = absurd (omega arith)
add_chunk-absorb word (v ∷ vs) (s, has) h l = elim (Bool-cases (word == 0)) [
  | inl clear ↦
      let e : word ≡ 0 = (==_iff word 0).0 clear in
      rw e
        (rw (unflagged_none (test_bit 0) (v ∷ vs) (λ i k. test_bit-zero i)) (absorb_sum s has v vs))
  | inr marked ↦ elim (Bool-cases (word == u64_max)) [
    | inl full ↦
        let e : word ≡ u64_max = (==_iff word u64_max).0 full in
        rw e (
          rw (unflagged_all (test_bit u64_max) (v ∷ vs) (λ i k. test-ones 64 i (omega arith))) refl)
    | inr mixed ↦
        let few : count_ones 64 (u64_max - word) ≤ 64 =
          rw (count_ones-eq-count_below 64 (u64_max - word))
            (count_below-le 64 (test_bit (u64_max - word))) in
        rw (marked, mixed)
          (masked_loop-absorb 64 (u64_max - word) (v ∷ vs) (s, has) (omega arith) l few
            ∙ ap (λ l. absorb l (s, has)) (at_ones-complement 64 word (v ∷ vs) h l))
  ]
]

remainder_loop-absorb :
    (word i : ℕ) (vs : List ℕ) (acc : Sum)
    → remainder_loop word i vs acc ≡ absorb (unflagged (λ j. test_bit word (i + j)) vs) acc
unfolding remainder_loop absorb unflagged
remainder_loop-absorb word i [] acc = refl
remainder_loop-absorb word i (v ∷ vs) (s, has) =
    let shifted =
      unflagged_ext (λ j. test_bit word (i + 1 + j)) (λ j. test_bit word (i + suc j)) vs
        (λ j l. let e : i + 1 + j ≡ i + suc j = omega arith in ap (test_bit word) e) in
    let first : i + 0 ≡ i = omega arith in
    rw first (elim (Bool-cases (test_bit word i)) [
      | inl null ↦
          rw null
            (remainder_loop-absorb word (i + 1) vs (s, has) ∙ ap (λ l. absorb l (s, has)) shifted)
      | inr valid ↦ rw valid (
          remainder_loop-absorb word (i + 1) vs (wrapping_add s v, true)
          ∙ ap (λ l. absorb l (wrapping_add s v, true)) shifted)
    ])

pub add_remainder-absorb :
    (word : ℕ) (vs : List ℕ) (acc : Sum)
    → add_remainder word vs acc ≡ absorb (unflagged (test_bit word) vs) acc
unfolding add_remainder
add_remainder-absorb word [] acc = unfold unflagged absorb in refl
add_remainder-absorb word (v ∷ vs) (s, has) = elim (Bool-cases (word == 0)) [
  | inl clear ↦
      let e : word ≡ 0 = (==_iff word 0).0 clear in
      rw e
        (rw (unflagged_none (test_bit 0) (v ∷ vs) (λ i k. test_bit-zero i)) (absorb_sum s has v vs))
  | inr marked ↦ rw marked (
      remainder_loop-absorb word 0 (v ∷ vs) (s, has)
      ∙ ap (λ l. absorb l (s, has))
          (unflagged_ext (λ j. test_bit word (0 + j)) (test_bit word) (v ∷ vs)
            (λ j q. let e : 0 + j ≡ j = omega arith in ap (test_bit word) e)))
]
