-- ===== src/Storage/Bitmap/Count.antt =====
-- `count_null` and `count_valid` of bitmap.rs against the list of flags.
use yacht_sql.Prelude.{
  ℕ, zero, suc, ◌+◌, ◌-◌, ◌*◌, ◌/◌, ◌%◌, ◌≤◌, ◌<◌, Bool, false, ◌≡◌, refl, sym, ap, ap₂, List, [],
  ◌∷◌, arith, length, take, ltb, if◌then◌else◌,
}
use yacht_sql.Prelude.Tabulate.{tabulate}
use yacht_sql.Prelude.Bits.{
  test_bit, low_bits, count_ones, count_below, count_ones-eq-count_below, count_below_ext,
  count_below-add, count_below-le, count_below_masked, test-low_bits,
}
use yacht_sql.Storage.Bitmap.{NullBitmap, count_null, count_valid, sum_ones, word_at}
use yacht_sql.Storage.Bitmap.Raw.{raw, raw_words, IsWellFormed}
use yacht_sql.Storage.Bitmap.Flags.{flags}

unfoldable pub count_true : List Bool → ℕ
count_true [] = 0
count_true (b ∷ bs) = (if b then 1 else 0) + count_true bs

count_true-tabulate : (n : ℕ) (p : ℕ → Bool) → count_true (tabulate n p) ≡ count_below n p
unfolding count_true tabulate count_below
count_true-tabulate zero p = refl
count_true-tabulate (suc n) p = omega (arith, count_true-tabulate n (λ i. p (suc i)))

raw-head : (w : ℕ) (ws : List ℕ) (i : ℕ) → i < 64 → raw_words (w ∷ ws) i ≡ test_bit w i
unfolding raw_words
raw-head w ws i h =
    ap₂ (λ (word bit : ℕ). test_bit (word_at (w ∷ ws) word) bit) {y = 0} (omega arith) (omega arith)

raw-tail : (w : ℕ) (ws : List ℕ) (i : ℕ) → raw_words (w ∷ ws) (64 + i) ≡ raw_words ws i
unfolding raw_words
raw-tail w ws i =
    ap₂ (λ (word bit : ℕ). test_bit (word_at (w ∷ ws) word) bit) {y = suc (i / 64)} (omega arith)
      (omega arith)

raw_at_word :
    (ws : List ℕ) (full i : ℕ)
    → i < 64
    → raw_words ws (full * 64 + i) ≡ test_bit (word_at ws full) i
unfolding raw_words
raw_at_word ws full i h =
    ap₂ (λ (word bit : ℕ). test_bit (word_at ws word) bit) (omega arith) (omega arith)

block_size : (k : ℕ) → suc k * 64 ≡ 64 + k * 64
block_size k = omega arith

split_word : (r : ℕ) → r < 64 → 64 ≡ r + (64 - r)
split_word r h = omega arith

split_len : (n : ℕ) → n ≡ n / 64 * 64 + n % 64
split_len n = omega arith

count_below_none : (p : ℕ → Bool) → count_below 0 p ≡ 0
unfolding count_below
count_below_none p = refl

-- The full words hold the first multiple of 64 flags.
sum_ones-take :
    (k : ℕ) (ws : List ℕ)
    → k ≤ length ws
    → sum_ones (take k ws) ≡ count_below (k * 64) (raw_words ws)
unfolding count_below
sum_ones-take zero ws h = refl
sum_ones-take (suc k) [] h = absurd (omega arith)
sum_ones-take (suc k) (w ∷ ws) h =
    let p = raw_words (w ∷ ws) in
    omega (
      arith,
      count_ones-eq-count_below 64 w,
      sum_ones-take k ws (omega arith),
      ap (λ (n : ℕ). count_below n p) (block_size k),
      count_below-add 64 (k * 64) p,
      count_below_ext 64 p (test_bit w) (λ i l. raw-head w ws i l),
      count_below_ext (k * 64) (λ i. p (64 + i)) (raw_words ws) (λ i l. raw-tail w ws i),
    )

-- The bits of the last, partial word.
partial_word :
    (ws : List ℕ) (full r : ℕ)
    → r < 64
    → count_ones 64 (low_bits (word_at ws full) r)
      ≡ count_below r (λ i. raw_words ws (full * 64 + i))
partial_word ws full r h =
    let w = word_at ws full in
    omega (
      arith,
      count_ones-eq-count_below 64 (low_bits w r),
      count_below_ext 64 (test_bit (low_bits w r)) (λ i. if ltb i r then test_bit w i else false)
          (λ i _. test-low_bits w r i),
      ap (λ (n : ℕ). count_below n (λ i. if ltb i r then test_bit w i else false)) (split_word r h),
      count_below_masked r (64 - r) (test_bit w),
      count_below_ext r (test_bit w) (λ i. raw_words ws (full * 64 + i))
          (λ i l. sym (raw_at_word ws full i (omega arith))),
    )

-- `count_null` of a well-formed bitmap is the number of its null flags.
pub count_null-eq-count_true :
    (m : NullBitmap) → IsWellFormed m → count_null m ≡ count_true (flags m)
unfolding count_null flags
count_null-eq-count_true m w =
    let full = m.len / 64 in
    let r = m.len % 64 in
    ground (
      arith,
      w.needed,
      count_true-tabulate m.len (raw m),
      sum_ones-take full m.words (omega (arith, w.needed)),
      partial_word m.words full r (omega arith),
      count_below_none (raw m),
      count_below_none (λ i. raw m (full * 64 + i)),
      ap (λ (n : ℕ). count_below n (raw m)) (split_len m.len),
      count_below-add (full * 64) r (raw m),
    )

-- `count_valid` and `count_null` of a well-formed bitmap add up to its length, so that the
-- subtraction in `count_valid` does not wrap.
pub count_valid-add-count_null :
    (m : NullBitmap) → IsWellFormed m → count_valid m + count_null m ≡ m.len
unfolding count_valid flags
count_valid-add-count_null m w = omega (
  arith,
  count_null-eq-count_true m w,
  count_true-tabulate m.len (raw m),
  count_below-le m.len (raw m),
)
