-- ===== src/Storage/Bitmap/Shape.antt =====
-- The shape invariant of a `NullBitmap` (bitmap.rs) and its operations.
use yacht_sql.Prelude.{
  ℕ, zero, suc, ◌+◌, ◌-◌, ◌/◌, ◌%◌, ◌^◌, ◌<◌, max, Bool, true, false, ◌≡◌, refl, inl, inr, List, [],
  ◌∷◌, arith, length, set as list_set, All, leb, if◌then◌else◌, Bool-cases, length-set,
  length-append, length-take, length-replicate, All-set, All-append, All-take, All-replicate,
  All-get_or,
}
use yacht_sql.Prelude.Bits.{or_bit, and_not_bit, or_bit-lt, and_not_bit-le}
use yacht_sql.Storage.Bitmap.{
  NullBitmap, new, new_valid, new_null, is_null, set, push, shift_down, remove, clear, num_words,
  word_at, grow, u64_max,
}
use yacht_sql.Storage.Bitmap.Raw.{IsWellFormed, len-set, len-push, length-words-set}
use yacht_sql.Storage.Bitmap.Removal.{length-words-shift_down}

lt_of_leb : (a b : ℕ) → leb a b ≡ false → b < a
lt_of_leb a b h = ground arith

pub new-IsWellFormed : IsWellFormed new
unfolding new
new-IsWellFormed = record { needed = omega arith; tight = omega arith; fits = tt }

pub new_valid-IsWellFormed : (n : ℕ) → IsWellFormed (new_valid n)
unfolding new_valid
new_valid-IsWellFormed n = record {
  needed = omega (arith, length-replicate {A = ℕ} (num_words n) 0);
  tight = omega (arith, length-replicate {A = ℕ} (num_words n) 0);
  fits = All-replicate (λ w. w < 2 ^ 64) (num_words n) 0 (omega arith);
}

pub new_null-IsWellFormed : (n : ℕ) → IsWellFormed (new_null n)
unfolding new_null
new_null-IsWellFormed n = record {
  needed = omega (arith, length-replicate {A = ℕ} (num_words n) u64_max);
  tight = omega (arith, length-replicate {A = ℕ} (num_words n) u64_max);
  fits = All-replicate (λ w. w < 2 ^ 64) (num_words n) u64_max (omega arith);
}

abbrev Fits : List ℕ → Type 0
Fits ws = All (λ w. w < 2 ^ 64) ws

-- Writing one bit keeps a word within 64 bits.
word_at-lt : (ws : List ℕ) (i : ℕ) → Fits ws → word_at ws i < 2 ^ 64
word_at-lt ws i a = All-get_or (λ w. w < 2 ^ 64) ws i 0 a (omega arith)

Fits-or_bit :
    (ws : List ℕ) (k : ℕ)
    → Fits ws
    → Fits (list_set ws (k / 64) (or_bit (word_at ws (k / 64)) (k % 64)))
Fits-or_bit ws k a =
    All-set (λ w. w < 2 ^ 64) ws (k / 64) (or_bit (word_at ws (k / 64)) (k % 64)) a
      (or_bit-lt 64 (word_at ws (k / 64)) (k % 64) (omega arith) (word_at-lt ws (k / 64) a))

Fits-and_not_bit :
    (ws : List ℕ) (k : ℕ)
    → Fits ws
    → Fits (list_set ws (k / 64) (and_not_bit (word_at ws (k / 64)) (k % 64)))
Fits-and_not_bit ws k a =
    All-set (λ w. w < 2 ^ 64) ws (k / 64) (and_not_bit (word_at ws (k / 64)) (k % 64)) a
      (omega (arith, and_not_bit-le (word_at ws (k / 64)) (k % 64), word_at-lt ws (k / 64) a))

Fits-set : (m : NullBitmap) (k : ℕ) (b : Bool) → Fits m.words → Fits (set m k b).words
unfolding set
Fits-set m k true a = ground (arith, Fits-or_bit m.words k a)
Fits-set m k false a = ground (arith, Fits-and_not_bit m.words k a)

Fits-grow : (ws : List ℕ) (word : ℕ) → Fits ws → Fits (grow ws word)
Fits-grow ws word a = ground (arith, All-append (λ w. w < 2 ^ 64) ws (0 ∷ []) a (omega arith, tt))

length-words-push :
    (m : NullBitmap) (b : Bool) → length (push m b).words ≡ length (grow m.words (m.len / 64))
unfolding push
length-words-push m true =
    let ws = grow m.words (m.len / 64) in
    length-set ws (m.len / 64) (or_bit (word_at ws (m.len / 64)) (m.len % 64))
length-words-push m false = refl

length-words-grow :
    (ws : List ℕ) (word : ℕ)
    → length (grow ws word) ≡ (if leb (length ws) word then length ws + 1 else length ws)
length-words-grow ws word = ground (arith, length-append ws (0 ∷ []))

Fits-push : (m : NullBitmap) (b : Bool) → Fits m.words → Fits (push m b).words
unfolding push
Fits-push m true a =
    Fits-or_bit (grow m.words (m.len / 64)) m.len (Fits-grow m.words (m.len / 64) a)
Fits-push m false a = Fits-grow m.words (m.len / 64) a

pub set-IsWellFormed :
    (m : NullBitmap) (k : ℕ) (b : Bool) → IsWellFormed m → IsWellFormed (set m k b)
set-IsWellFormed m k b w = record {
  needed = omega (arith, w.needed, len-set m k b, length-words-set m k b);
  tight = omega (arith, w.tight, len-set m k b, length-words-set m k b);
  fits = Fits-set m k b w.fits;
}

pub push-IsWellFormed : (m : NullBitmap) (b : Bool) → IsWellFormed m → IsWellFormed (push m b)
push-IsWellFormed m b w = record {
  needed = ground (
    arith,
    w.needed,
    w.tight,
    len-push m b,
    length-words-push m b,
    length-words-grow m.words (m.len / 64),
  );
  tight = ground (
    arith,
    w.needed,
    w.tight,
    len-push m b,
    length-words-push m b,
    length-words-grow m.words (m.len / 64),
  );
  fits = Fits-push m b w.fits;
}

Fits-shift_down :
    (rounds i : ℕ) (m : NullBitmap) → Fits m.words → Fits (shift_down rounds i m).words
unfolding shift_down
Fits-shift_down zero i m a = a
Fits-shift_down (suc rounds) i m a =
    Fits-shift_down rounds (i + 1) (set m i (is_null m (i + 1)))
      (Fits-set m i (is_null m (i + 1)) a)

pub remove-IsWellFormed : (m : NullBitmap) (k : ℕ) → IsWellFormed m → IsWellFormed (remove m k)
unfolding remove
remove-IsWellFormed m k w = elim (Bool-cases (leb m.len k)) [
  | inl beyond ↦ rw beyond w
  | inr inside ↦
      let shifted = shift_down (m.len - 1 - k) k m in
      let kept = max (num_words (m.len - 1)) 1 in
      rw inside (record {
        needed = omega (
          arith,
          w.needed,
          length-take kept shifted.words,
          length-words-shift_down (m.len - 1 - k) k m,
          lt_of_leb m.len k inside,
        );
        tight = omega (arith, length-take kept shifted.words);
        fits =
            All-take (λ w. w < 2 ^ 64) kept shifted.words
              (Fits-shift_down (m.len - 1 - k) k m w.fits);
      })
]

pub clear-IsWellFormed : (m : NullBitmap) → IsWellFormed (clear m)
unfolding clear
clear-IsWellFormed m = record { needed = omega arith; tight = omega arith; fits = tt }
