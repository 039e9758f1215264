-- ===== src/Storage/Column/Sum/Total.antt =====
-- The sum of a column of integers (column.rs) against the list of its values.
use yacht_sql.Prelude.{
  ℕ, zero, suc, ◌+◌, ◌-◌, ◌*◌, ◌/◌, ◌%◌, ◌^◌, ◌<◌, ◌≤◌, ◌≡◌, refl, sym, ap, ap₂, ◌∙◌, Bool, false,
  List, [], ◌∷◌, ◌++◌, Option, none, some, arith, length, get_or, take, All, inl, inr, Bool-cases,
  ltb,
}
use yacht_sql.Prelude.Tabulate.{tabulate}
use yacht_sql.Prelude.Bits.{test_bit}
use yacht_sql.Prelude.Words.{unflagged, unflagged_ext, unflagged-append}
use yacht_sql.Common.Externals.{Externals}
use yacht_sql.Storage.Bitmap.{NullBitmap}
use yacht_sql.Storage.Bitmap.Raw.{IsWellFormed, raw, raw_words}
use yacht_sql.Storage.Bitmap.Flags.{flags}
use yacht_sql.Storage.Cells.{Cells}
use yacht_sql.Storage.Cells.Rows.{IsValid, rows, zip_rows}
use yacht_sql.Storage.Column.Sum.{
  Sum, wrapping_add, sum_from, drop, add_chunk, chunks_loop, last_word, add_remainder, int64_sum,
  cast_sum,
}
use yacht_sql.Storage.Column.Sum.Loops.{
  absorb, absorb-append, absorb-sum_from, add_chunk-absorb, add_remainder-absorb,
}

raw_words_low : (w i : ℕ) (ws : List ℕ) → i < 64 → raw_words (w ∷ ws) i ≡ test_bit w i
unfolding raw_words
raw_words_low w i ws h =
    let word : i / 64 ≡ 0 = omega arith in let bit : i % 64 ≡ i = omega arith in rw (word, bit) refl

raw_words_high : (w i : ℕ) (ws : List ℕ) → raw_words (w ∷ ws) (64 + i) ≡ raw_words ws i
unfolding raw_words
raw_words_high w i ws =
    let word : (64 + i) / 64 ≡ suc (i / 64) = omega arith in
    let bit : (64 + i) % 64 ≡ i % 64 = omega arith in rw (word, bit) refl

take-append-drop : (n : ℕ) (xs : List ℕ) → take n xs ++ drop n xs ≡ xs
take-append-drop zero xs = refl
take-append-drop (suc n) [] = refl
take-append-drop (suc n) (x ∷ xs) = ap (◌∷◌ x) (take-append-drop n xs)

length-take_le : (n : ℕ) (xs : List ℕ) → n ≤ length xs → length (take n xs) ≡ n
length-take_le zero xs h = refl
length-take_le (suc n) [] h = absurd (omega arith)
length-take_le (suc n) (x ∷ xs) h = ap suc (length-take_le n xs (omega arith))

length-drop : (n : ℕ) (xs : List ℕ) → length (drop n xs) ≡ length xs - n
length-drop zero xs = omega arith
length-drop (suc n) [] = omega arith
length-drop (suc n) (x ∷ xs) = omega (arith, length-drop n xs)

-- The flags of a list are those of its first n entries and those of the others.
unflagged_split :
    (n : ℕ) (p : ℕ → Bool) (xs : List ℕ)
    → n ≤ length xs
    → unflagged p (take n xs) ++ unflagged (λ i. p (n + i)) (drop n xs) ≡ unflagged p xs
unflagged_split n p xs h =
    ap (λ k. unflagged p (take n xs) ++ unflagged (λ i. p (k + i)) (drop n xs))
      (sym (length-take_le n xs h))
    ∙ sym (unflagged-append p (take n xs) (drop n xs))
    ∙ ap (unflagged p) (take-append-drop n xs)

chunks_loop-absorb :
    (words rows : List ℕ) (acc : Sum) (k : ℕ)
    → length rows ≡ k * 64
    → k ≤ length words
    → All (λ w. w < 2 ^ 64) words
    → chunks_loop words rows acc ≡ absorb (unflagged (raw_words words) rows) acc
unfolding chunks_loop
chunks_loop-absorb [] [] acc k h l f = unfold unflagged absorb in refl
chunks_loop-absorb [] (v ∷ vs) acc k h l f = absurd (omega arith)
chunks_loop-absorb (w ∷ ws) [] acc k h l f = unfold unflagged absorb in refl
chunks_loop-absorb (w ∷ ws) (v ∷ vs) acc zero h l f = absurd (omega arith)
chunks_loop-absorb (w ∷ ws) (v ∷ vs) acc (suc k) h l f =
    let rows = v ∷ vs in
    let enough : 64 ≤ length rows = omega arith in
    let full : ltb (length rows) 64 ≡ false = ground arith in
    let low =
      unflagged_ext (test_bit w) (raw_words (w ∷ ws)) (take 64 rows)
        (λ i q. sym (raw_words_low w i ws (omega (arith, length-take_le 64 rows enough)))) in
    let high =
      unflagged_ext (raw_words ws) (λ i. raw_words (w ∷ ws) (64 + i)) (drop 64 rows)
        (λ i q. sym (raw_words_high w i ws)) in
    rw full (
      chunks_loop-absorb ws (drop 64 rows) (add_chunk w (take 64 rows) acc) k
        (omega (arith, length-drop 64 rows)) (omega arith) f.1
      ∙ ap₂ absorb high (
          add_chunk-absorb w (take 64 rows) acc f.0 (length-take_le 64 rows enough)
          ∙ ap (λ l. absorb l acc) low)
      ∙ sym (absorb-append (unflagged (raw_words (w ∷ ws)) (take 64 rows)) _ acc)
      ∙ ap (λ l. absorb l acc) (unflagged_split 64 (raw_words (w ∷ ws)) rows enough))

last_word-get_or : (ws : List ℕ) → last_word ws ≡ get_or ws (length ws - 1) 0
last_word-get_or [] = refl
last_word-get_or (w ∷ []) = refl
last_word-get_or (w ∷ v ∷ ws) =
    let shorter : length (v ∷ ws) - 1 ≡ length ws = omega arith in
    let longer : length (w ∷ v ∷ ws) - 1 ≡ suc (length ws) = omega arith in
    last_word-get_or (v ∷ ws) ∙ rw (shorter, longer) refl

-- `present` drops the nulls.
unfoldable pub present : List (Option ℕ) → List ℕ
present [] = []
present (none ∷ vs) = present vs
present (some v ∷ vs) = v ∷ present vs

present-zip_rows :
    (vs : List ℕ) (n : ℕ) (p : ℕ → Bool)
    → length vs ≡ n
    → present (zip_rows vs (tabulate n p)) ≡ unflagged p vs
unfolding present zip_rows tabulate unflagged
present-zip_rows [] zero p h = refl
present-zip_rows [] (suc n) p h = absurd (omega arith)
present-zip_rows (v ∷ vs) zero p h = absurd (omega arith)
present-zip_rows (v ∷ vs) (suc n) p h = elim (Bool-cases (p 0)) [
  | inl null ↦ rw null (present-zip_rows vs n (λ i. p (suc i)) (omega arith))
  | inr valid ↦ rw valid (ap (◌∷◌ v) (present-zip_rows vs n (λ i. p (suc i)) (omega arith)))
]

-- The flags behind the whole chunks are in the last word.
remainder_flags :
    (m : NullBitmap) (i : ℕ)
    → IsWellFormed m
    → i < m.len - m.len / 64 * 64
    → test_bit (last_word m.words) i ≡ raw m (m.len / 64 * 64 + i)
unfolding raw_words
remainder_flags m i w h =
    let k = m.len / 64 in
    let word : (k * 64 + i) / 64 ≡ length m.words - 1 = omega (arith, w.needed, w.tight) in
    let bit : (k * 64 + i) % 64 ≡ i = omega arith in rw (last_word-get_or m.words, word, bit) refl

-- Adding up, without wrapping.
unfoldable pub plain_sum : List ℕ → ℕ
plain_sum [] = 0
plain_sum (v ∷ vs) = v + plain_sum vs

-- No sum of no values, and else the sum modulo 2 ^ 64, as a float.
abbrev pub total : (X : Externals) → List ℕ → Option X.F64
total X [] = none
total X (v ∷ vs) = some (X.f64_from_i64 (plain_sum (v ∷ vs) % 2 ^ 64))

sum_from-plain_sum :
    (a : ℕ) (vs : List ℕ) → a < 2 ^ 64 → sum_from a vs ≡ (a + plain_sum vs) % 2 ^ 64
unfolding sum_from plain_sum
sum_from-plain_sum a [] h = omega arith
sum_from-plain_sum a (v ∷ vs) h =
    sum_from-plain_sum (wrapping_add a v) vs (omega arith) ∙ omega arith

absorb-total : (X : Externals) (vs : List ℕ) → cast_sum X (absorb vs (0, false)) ≡ total X vs
unfolding absorb plain_sum
absorb-total X [] = refl
absorb-total X (v ∷ vs) = rw (absorb-sum_from (wrapping_add 0 v) vs) (
    ap (λ n. some (X.f64_from_i64 n))
      (sum_from-plain_sum (wrapping_add 0 v) vs (omega arith) ∙ omega arith))

-- The sum of a valid column of integers is the cast to a float of the sum of its values that are not
-- null, taken modulo 2 ^ 64, and there is none if all are null.
pub int64_sum-total :
    (X : Externals) (c : Cells ℕ) → IsValid c → int64_sum X c ≡ total X (present (rows c))
unfolding int64_sum rows flags
int64_sum-total X c v =
    let n = length c.values in
    let k = n / 64 in
    let e = v.same_length in
    let w = v.shape in
    let words = c.nulls.words in
    let whole = k * 64 in
    let start = take whole c.values in
    let rest = drop whole c.values in
    let flag : ℕ → Bool = raw c.nulls in
    let bound : whole ≤ length c.values = omega arith in
    let head =
      chunks_loop-absorb words start (0, false) k (length-take_le whole c.values bound)
        (omega (arith, w.needed, e)) w.fits in
    let last =
      unflagged_ext (test_bit (last_word words)) (λ i. flag (whole + i)) rest
        (λ i q.
          remainder_flags c.nulls i w (omega (arith, length-drop whole c.values, e))
          ∙ ap (λ l. flag (l / 64 * 64 + i)) (sym e)) in
    let sum : add_remainder (last_word words) rest (chunks_loop words start (0, false))
        ≡ absorb (unflagged flag c.values) (0, false) =
      add_remainder-absorb (last_word words) rest (chunks_loop words start (0, false))
      ∙ ap₂ absorb last head
      ∙ sym (absorb-append (unflagged flag start) _ (0, false))
      ∙ ap (λ l. absorb l (0, false)) (unflagged_split whole flag c.values bound) in
    ap (cast_sum X) sum
    ∙ absorb-total X (unflagged flag c.values)
    ∙ ap (total X) (sym (present-zip_rows c.values c.nulls.len flag e))
