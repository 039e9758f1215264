-- ===== src/Storage/Column/Sum.antt =====
-- `Column::sum` of crates/storage/src/column.rs for a column of integers: the loop over chunks of 64
-- rows, one for each word of the bitmap, which skips the null rows by the bits of the word. A sum
-- that overflows wraps around, as in a release build.
pub mod Loops
pub mod Total
use yacht_sql.Prelude.{
  ℕ, zero, suc, ◌+◌, ◌-◌, ◌/◌, ◌*◌, ◌%◌, ◌^◌, Bool, true, false, not, List, [], ◌∷◌, Option, none,
  some, length, get_or, take, ltb, ◌==◌, if◌then◌else◌,
}
use yacht_sql.Prelude.Bits.{test_bit}
use yacht_sql.Prelude.Words.{trailing_zeros, clear_lowest}
use yacht_sql.Storage.Bitmap.{NullBitmap, u64_max}
use yacht_sql.Storage.Cells.{Cells}
use yacht_sql.Common.Externals.{Externals}

-- The sum so far, and whether it has a value.
abbrev pub Sum : Type 0
Sum = ℕ × Bool

abbrev pub wrapping_add : ℕ → ℕ → ℕ
wrapping_add a b = (a + b) % 2 ^ 64

-- xs.iter().sum::<i64>()
unfoldable pub sum_from : ℕ → List ℕ → ℕ
sum_from s [] = s
sum_from s (v ∷ vs) = sum_from (wrapping_add s v) vs

abbrev pub drop {ℓ} : {A : Type ℓ} → ℕ → List A → List A
drop zero xs = xs
drop (suc n) [] = []
drop (suc n) (x ∷ xs) = drop n xs

-- `while valid_mask != 0`; a word has at most 64 set bits.
unfoldable pub masked_loop : ℕ → ℕ → List ℕ → Sum → Sum
masked_loop zero mask chunk acc = acc
masked_loop (suc rounds) mask chunk (s, has) =
    let bit = trailing_zeros 64 mask in
    let rest =
      masked_loop rounds (clear_lowest 64 mask) chunk (wrapping_add s (get_or chunk bit 0), true) in
    if mask == 0 then (s, has) else rest

-- The body of the loop over the words.
unfoldable pub add_chunk : ℕ → List ℕ → Sum → Sum
unfolding sum_from
add_chunk word chunk (s, has) =
    if word == 0
    then (wrapping_add s (sum_from 0 chunk), true)
    else if not (word == u64_max)
    then masked_loop 64 (u64_max - word) chunk (s, has)
    else (s, has)

-- nulls.words().iter().zip(chunks), over the words that are left
unfoldable pub chunks_loop : List ℕ → List ℕ → Sum → Sum
chunks_loop [] rows acc = acc
chunks_loop (word ∷ words) rows acc =
    let rest = chunks_loop words (drop 64 rows) (add_chunk word (take 64 rows) acc) in
    if ltb (length rows) 64 then acc else rest

-- `for (i, &val) in remainder.iter().enumerate()`, from index i on
unfoldable pub remainder_loop : ℕ → ℕ → List ℕ → Sum → Sum
remainder_loop word i [] acc = acc
remainder_loop word i (v ∷ vs) (s, has) =
    remainder_loop word (i + 1) vs (if test_bit word i then (s, has) else (wrapping_add s v, true))

-- nulls.words().last().copied().unwrap_or(0)
abbrev pub last_word : List ℕ → ℕ
last_word [] = 0
last_word (w ∷ []) = w
last_word (w ∷ v ∷ ws) = last_word (v ∷ ws)

unfoldable pub add_remainder : ℕ → List ℕ → Sum → Sum
unfolding sum_from
add_remainder word [] acc = acc
add_remainder word (v ∷ vs) (s, has) =
    if word == 0
    then (wrapping_add s (sum_from 0 (v ∷ vs)), true)
    else remainder_loop word 0 (v ∷ vs) (s, has)

-- if has_value { Some(sum as f64) } else { None }
abbrev pub cast_sum : (X : Externals) → Sum → Option X.F64
cast_sum X (s, has) = if has then some (X.f64_from_i64 s) else none

-- The arm of `Column::Int64`, with its cast.
unfoldable pub int64_sum : (X : Externals) → Cells ℕ → Option X.F64
int64_sum X c =
    let whole = length c.values / 64 * 64 in
    cast_sum X (
      add_remainder (last_word c.nulls.words) (drop whole c.values)
        (chunks_loop c.nulls.words (take whole c.values) (0, false)))
