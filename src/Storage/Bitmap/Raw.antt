-- ===== src/Storage/Bitmap/Raw.antt =====
-- The bits of a `NullBitmap`, its shape invariant, and what each operation does to them.
use yacht_sql.Prelude.{
  ℕ, ◌+◌, ◌/◌, ◌%◌, ◌^◌, ◌≤◌, ◌<◌, max, Bool, true, false, ◌≡◌, refl, ◌∙◌, inl, inr, List, [], ◌∷◌,
  arith, length, set as list_set, All, leb, ◌==◌, if◌then◌else◌, ◌||◌, Bool-cases, length-set,
  length-append, get_or-set_self, get_or-set_ne, get_or-append_default,
}
use yacht_sql.Prelude.Bits.{test_bit, or_bit, and_not_bit, test-or_bit, test-and_not_bit}
use yacht_sql.Storage.Bitmap.{NullBitmap, is_null, set, push, num_words, word_at, grow}

-- Bit i of the words, whatever the length.
unfoldable pub raw_words : List ℕ → ℕ → Bool
raw_words ws i = test_bit (word_at ws (i / 64)) (i % 64)

abbrev pub raw : NullBitmap → ℕ → Bool
raw m i = raw_words m.words i

-- There are as many words as the rows need, but that one may be left where there is no row.
pub record IsWellFormed (m : NullBitmap) : Type 0 where
  pub needed : num_words m.len ≤ length m.words
  pub tight : length m.words ≤ max (num_words m.len) 1
  pub fits : All (λ w. w < 2 ^ 64) m.words

-- No bit is set behind the last row.
abbrev pub IsClean : NullBitmap → Type 0
IsClean m = (i : ℕ) → m.len ≤ i → raw m i ≡ false

pub is_null-raw : (m : NullBitmap) (i : ℕ) → is_null m i ≡ (if leb m.len i then true else raw m i)
unfolding is_null raw_words
is_null-raw m i = refl

-- One word replaced by a word that differs in one bit.
raw-replace :
    (ws : List ℕ) (k i w : ℕ) (b : Bool)
    → k / 64 < length ws
    → test_bit w (i % 64)
      ≡ (if k % 64 == i % 64 then b else test_bit (word_at ws (k / 64)) (i % 64))
    → raw_words (list_set ws (k / 64) w) i ≡ (if k == i then b else raw_words ws i)
unfolding raw_words
raw-replace ws k i w b h e = elim (Bool-cases (k / 64 == i / 64)) [
  | inl same ↦ ground (arith, get_or-set_self ws (k / 64) w 0)
  | inr other ↦ ground (arith, get_or-set_ne ws (k / 64) (i / 64) w 0)
]

raw-or_bit :
    (ws : List ℕ) (k i : ℕ)
    → k / 64 < length ws
    → raw_words (list_set ws (k / 64) (or_bit (word_at ws (k / 64)) (k % 64))) i
      ≡ (if k == i then true else raw_words ws i)
raw-or_bit ws k i h = raw-replace ws k i _ true h (test-or_bit _ (k % 64) (i % 64))

raw-and_not_bit :
    (ws : List ℕ) (k i : ℕ)
    → k / 64 < length ws
    → raw_words (list_set ws (k / 64) (and_not_bit (word_at ws (k / 64)) (k % 64))) i
      ≡ (if k == i then false else raw_words ws i)
raw-and_not_bit ws k i h = raw-replace ws k i _ false h (test-and_not_bit _ (k % 64) (i % 64))

-- `set` writes one bit.
pub raw-set :
    (m : NullBitmap) (k i : ℕ) (b : Bool)
    → k < m.len
    → num_words m.len ≤ length m.words
    → raw (set m k b) i ≡ (if k == i then b else raw m i)
unfolding set
raw-set m k i true h n = ground (arith, raw-or_bit m.words k i)
raw-set m k i false h n = ground (arith, raw-and_not_bit m.words k i)

pub len-set : (m : NullBitmap) (k : ℕ) (b : Bool) → (set m k b).len ≡ m.len
unfolding set
len-set m k b = ground arith

pub length-words-set :
    (m : NullBitmap) (k : ℕ) (b : Bool) → length (set m k b).words ≡ length m.words
unfolding set
length-words-set m k true =
    ground (arith, length-set m.words (k / 64) (or_bit (word_at m.words (k / 64)) (k % 64)))
length-words-set m k false =
    ground (arith, length-set m.words (k / 64) (and_not_bit (word_at m.words (k / 64)) (k % 64)))

raw-grow : (ws : List ℕ) (word i : ℕ) → raw_words (grow ws word) i ≡ raw_words ws i
unfolding raw_words
raw-grow ws word i = ground (arith, get_or-append_default ws (i / 64) 0)

length-grow : (ws : List ℕ) (word : ℕ) → word ≤ length ws → word < length (grow ws word)
length-grow ws word h = ground (arith, length-append ws (0 ∷ []))

-- `push` writes the bit of a null row, and leaves that of a valid row as it was.
pub raw-push :
    (m : NullBitmap) (b : Bool) (i : ℕ)
    → num_words m.len ≤ length m.words
    → raw (push m b) i ≡ (if m.len == i then b || raw m i else raw m i)
unfolding push
raw-push m true i n =
    raw-or_bit (grow m.words (m.len / 64)) m.len i (length-grow m.words (m.len / 64) (omega arith))
    ∙ ground (arith, raw-grow m.words (m.len / 64) i)
raw-push m false i n = raw-grow m.words (m.len / 64) i ∙ ground arith

pub len-push : (m : NullBitmap) (b : Bool) → (push m b).len ≡ m.len + 1
unfolding push
len-push m b = refl
