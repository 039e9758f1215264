-- ===== src/Storage/Bitmap.antt =====
-- `NullBitmap` of crates/storage/src/bitmap.rs: one bit for each row, set where the row is null,
-- packed in 64-bit words.
pub mod Raw
pub mod Shape
pub mod Removal
pub mod Flags
pub mod Clean
pub mod Count
pub mod Run
mod Examples
use yacht_sql.Prelude.{
  ℕ, zero, suc, ◌+◌, ◌-◌, ◌/◌, ◌%◌, ◌^◌, max, Bool, true, false, not, List, [], ◌∷◌, ◌++◌, length,
  get_or, set as list_set, take, replicate, ltb, leb, ◌==◌, if◌then◌else◌, ◌&&◌,
}
use yacht_sql.Prelude.Bits.{test_bit, or_bit, and_not_bit, low_bits, count_ones}

-- `words` is the field `data`.
pub record NullBitmap : Type 0 where
  pub words : List ℕ
  pub len : ℕ

-- u64::MAX
abbrev pub u64_max : ℕ
u64_max = 2 ^ 64 - 1

-- len.div_ceil(64)
abbrev pub num_words : ℕ → ℕ
num_words len = (len + 63) / 64

unfoldable pub new : NullBitmap
new = record { words = []; len = 0 }

unfoldable pub new_valid : ℕ → NullBitmap
new_valid len = record { words = replicate (num_words len) 0; len = len }

unfoldable pub new_null : ℕ → NullBitmap
new_null len = record { words = replicate (num_words len) u64_max; len = len }

-- `self.data[word]`; where the shape invariant holds the index is in range.
abbrev pub word_at : List ℕ → ℕ → ℕ
word_at ws word = get_or ws word 0

unfoldable pub is_null : NullBitmap → ℕ → Bool
is_null m index =
    if leb m.len index then true else test_bit (word_at m.words (index / 64)) (index % 64)

unfoldable pub is_valid : NullBitmap → ℕ → Bool
is_valid m index = not (is_null m index)

unfoldable pub set : NullBitmap → ℕ → Bool → NullBitmap
set m index null =
    if leb m.len index
    then m
    else let word = index / 64 in
      let bit = index % 64 in
      let old = word_at m.words word in
      record m {
        words = list_set m.words word (if null then or_bit old bit else and_not_bit old bit);
      }

unfoldable pub set_valid : NullBitmap → ℕ → NullBitmap
unfolding set
set_valid m index = set m index false

unfoldable pub set_null : NullBitmap → ℕ → NullBitmap
unfolding set
set_null m index = set m index true

-- The words after `if word >= self.data.len() { self.data.push(0) }`.
abbrev pub grow : List ℕ → ℕ → List ℕ
grow ws word = if leb (length ws) word then ws ++ 0 ∷ [] else ws

unfoldable pub push : NullBitmap → Bool → NullBitmap
push m null =
    let word = m.len / 64 in
    let bit = m.len % 64 in
    let grown = grow m.words word in
    record {
      words = if null then list_set grown word (or_bit (word_at grown word) bit) else grown;
      len = m.len + 1;
    }

-- `for i in index..self.len - 1`, over the rounds that are left.
unfoldable pub shift_down : ℕ → ℕ → NullBitmap → NullBitmap
unfolding set is_null
shift_down zero i m = m
shift_down (suc rounds) i m = shift_down rounds (i + 1) (set m i (is_null m (i + 1)))

unfoldable pub remove : NullBitmap → ℕ → NullBitmap
unfolding shift_down
remove m index =
    if leb m.len index
    then m
    else let shifted = shift_down (m.len - 1 - index) index m in
      let len = m.len - 1 in
      record { words = take (max (num_words len) 1) shifted.words; len = len }

unfoldable pub clear : NullBitmap → NullBitmap
clear m = record { words = []; len = 0 }

abbrev pub sum_ones : List ℕ → ℕ
sum_ones [] = 0
sum_ones (w ∷ ws) = count_ones 64 w + sum_ones ws

unfoldable pub count_null : NullBitmap → ℕ
unfolding low_bits count_ones
count_null m =
    if m.len == 0
    then 0
    else let full_words = m.len / 64 in
      let remaining_bits = m.len % 64 in
      let count = sum_ones (take full_words m.words) in
      if ltb 0 remaining_bits && ltb full_words (length m.words)
      then count + count_ones 64 (low_bits (word_at m.words full_words) remaining_bits)
      else count

-- usize subtraction; `count_null` is at most `len` (see Bitmap/Count).
unfoldable pub count_valid : NullBitmap → ℕ
unfolding count_null
count_valid m = m.len - count_null m
