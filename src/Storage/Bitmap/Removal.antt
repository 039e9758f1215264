-- ===== src/Storage/Bitmap/Removal.antt =====
-- The loop of `remove`, and the bits that a removal leaves.
use yacht_sql.Prelude.{
  ℕ, zero, suc, ◌+◌, ◌-◌, ◌/◌, ◌%◌, ◌≤◌, ◌<◌, max, false, ◌≡◌, refl, ◌∙◌, inl, inr, List, arith,
  length, take, ltb, leb, ◌==◌, if◌then◌else◌, ◌&&◌, Bool-cases, get_or-take, get_or-take_beyond,
}
use yacht_sql.Prelude.Bits.{test_bit-zero}
use yacht_sql.Storage.Bitmap.{NullBitmap, is_null, set, shift_down, remove, num_words}
use yacht_sql.Storage.Bitmap.Raw.{raw, raw_words, is_null-raw, raw-set, len-set, length-words-set}

-- One round of the loop copies the next bit down.
raw_round :
    (m : NullBitmap) (i j : ℕ)
    → i + 1 < m.len
    → num_words m.len ≤ length m.words
    → raw (set m i (is_null m (i + 1))) j ≡ (if i == j then raw m (i + 1) else raw m j)
raw_round m i j h n = ground (arith, raw-set m i j (is_null m (i + 1)), is_null-raw m (i + 1))

-- The loop keeps the length, and moves the bits of its range down by one.
pub len-shift_down : (rounds i : ℕ) (m : NullBitmap) → (shift_down rounds i m).len ≡ m.len
unfolding shift_down
len-shift_down zero i m = refl
len-shift_down (suc rounds) i m =
    len-shift_down rounds (i + 1) (set m i (is_null m (i + 1))) ∙ len-set m i (is_null m (i + 1))

pub length-words-shift_down :
    (rounds i : ℕ) (m : NullBitmap) → length (shift_down rounds i m).words ≡ length m.words
unfolding shift_down
length-words-shift_down zero i m = refl
length-words-shift_down (suc rounds) i m =
    length-words-shift_down rounds (i + 1) (set m i (is_null m (i + 1)))
    ∙ length-words-set m i (is_null m (i + 1))

pub raw-shift_down :
    (rounds i : ℕ) (m : NullBitmap) (j : ℕ)
    → i + rounds < m.len
    → num_words m.len ≤ length m.words
    → raw (shift_down rounds i m) j
      ≡ (if leb i j && ltb j (i + rounds) then raw m (j + 1) else raw m j)
unfolding shift_down
raw-shift_down zero i m j h n = ground arith
raw-shift_down (suc rounds) i m j h n =
    let m' = set m i (is_null m (i + 1)) in
    ground (
      arith,
      raw-shift_down rounds (i + 1) m' j,
      len-set m i (is_null m (i + 1)),
      length-words-set m i (is_null m (i + 1)),
      raw_round m i j,
      raw_round m i (j + 1),
    )

pub len-remove : (m : NullBitmap) (k : ℕ) → k < m.len → (remove m k).len + 1 ≡ m.len
unfolding remove
len-remove m k h = ground arith

raw-take :
    (ws : List ℕ) (n j : ℕ)
    → raw_words (take n ws) j ≡ (if ltb (j / 64) n then raw_words ws j else false)
unfolding raw_words
raw-take ws n j = elim (Bool-cases (ltb (j / 64) n)) [
  | inl e ↦ ground (arith, get_or-take n ws (j / 64) 0)
  | inr e ↦ ground (arith, get_or-take_beyond n ws (j / 64) 0, test_bit-zero (j % 64))
]

-- The bits after a removal: those below the index stay, those above move down by one, and the bit
-- behind the last row keeps its old value as long as its word is kept.
pub raw-remove :
    (m : NullBitmap) (k j : ℕ)
    → k < m.len
    → num_words m.len ≤ length m.words
    → raw (remove m k) j ≡ (
        if ltb (j / 64) (max (num_words (m.len - 1)) 1)
        then (if leb k j && ltb j (m.len - 1) then raw m (j + 1) else raw m j)
        else false)
raw-remove m k j h n =
    let s = shift_down (m.len - 1 - k) k m in
    unfold remove in
    ground (
      arith,
      raw-take s.words (max (num_words (m.len - 1)) 1) j,
      raw-shift_down (m.len - 1 - k) k m j,
    )
