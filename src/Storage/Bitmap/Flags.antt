-- ===== src/Storage/Bitmap/Flags.antt =====
-- A `NullBitmap` read as the list of its null flags, one for each row.
use native.Mathlib.Numerals.{add-one}
use yacht_sql.Prelude.{
  ℕ, zero, suc, ◌-◌, ◌*◌, ◌/◌, ◌%◌, ◌≤◌, ◌<◌, Bool, true, false, ◌≡◌, refl, sym, ap, ap₂, ◌∙◌, inl,
  inr, List, [], ◌∷◌, ◌++◌, arith, length, get_or, replicate, set as list_set, remove_at, ltb, leb,
  ◌==◌, if◌then◌else◌, ◌||◌, Bool-cases, get_or-replicate, get_or-replicate_default,
}
use yacht_sql.Prelude.Tabulate.{
  tabulate, tabulate_ext, tabulate_snoc, set-tabulate, remove_at-tabulate, length-tabulate,
}
use yacht_sql.Prelude.Bits.{test_bit-zero, test-ones}
use yacht_sql.Storage.Bitmap.{
  NullBitmap, new, new_valid, new_null, is_null, set, push, remove, num_words, u64_max,
}
use yacht_sql.Storage.Bitmap.Raw.{
  raw, raw_words, IsWellFormed, is_null-raw, raw-set, raw-push, len-set, len-push,
}
use yacht_sql.Storage.Bitmap.Removal.{len-remove, raw-remove}

unfoldable pub flags : NullBitmap → List Bool
flags m = tabulate m.len (raw m)

get_or-tabulate :
    (n : ℕ) (f : ℕ → Bool) (i : ℕ) → get_or (tabulate n f) i true ≡ (if ltb i n then f i else true)
unfolding tabulate
get_or-tabulate zero f i = ground arith
get_or-tabulate (suc n) f zero = ground arith
get_or-tabulate (suc n) f (suc i) = ground (arith, get_or-tabulate n (λ j. f (suc j)) i)

-- `is_null` reads the flag of the row, and is true beyond the last row.
pub is_null-flags : (m : NullBitmap) (i : ℕ) → is_null m i ≡ get_or (flags m) i true
unfolding flags
is_null-flags m i = ground (arith, is_null-raw m i, get_or-tabulate m.len (raw m) i)

pub set_beyond : (m : NullBitmap) (k : ℕ) (b : Bool) → leb m.len k ≡ true → set m k b ≡ m
unfolding set
set_beyond m k b h = rw h

-- `set` in a well-formed bitmap overwrites the flag of a row that is there, and does nothing
-- beyond the last row.
pub flags-set :
    (m : NullBitmap) (k : ℕ) (b : Bool)
    → IsWellFormed m
    → flags (set m k b) ≡ list_set (flags m) k b
unfolding flags
flags-set m k b w = elim (Bool-cases (leb m.len k)) [
  | inl beyond ↦
      ap flags (set_beyond m k b beyond)
      ∙ tabulate_ext m.len (raw m) (λ i. if k == i then b else raw m i) (λ i h. ground arith)
      ∙ sym (set-tabulate m.len (raw m) k b)
  | inr inside ↦
      ap (λ n. tabulate n (raw (set m k b))) (len-set m k b)
      ∙ tabulate_ext m.len (raw (set m k b)) (λ i. if k == i then b else raw m i)
          (λ i h. raw-set m k i b (ground arith) w.needed)
      ∙ sym (set-tabulate m.len (raw m) k b)
]

-- `push` to a well-formed bitmap appends one flag: true for a null row, and for a valid row
-- whatever bit was left behind the last row.
pub flags-push :
    (m : NullBitmap) (b : Bool)
    → IsWellFormed m
    → flags (push m b) ≡ flags m ++ (b || raw m m.len) ∷ []
unfolding flags
flags-push m b w =
    ap (λ n. tabulate n (raw (push m b))) (len-push m b ∙ add-one m.len)
    ∙ tabulate_snoc m.len (raw (push m b))
    ∙ ap₂ (λ (xs : List Bool) (x : Bool). xs ++ x ∷ [])
        (tabulate_ext m.len (raw (push m b)) (raw m)
          (λ i h. ground (arith, raw-push m b i w.needed)))
        (raw-push m b m.len w.needed ∙ ground arith)

flags-remove_inside :
    (m : NullBitmap) (k : ℕ)
    → IsWellFormed m
    → k < m.len
    → flags (remove m k) ≡ remove_at (flags m) k
unfolding flags
flags-remove_inside m k w h =
    ap (λ n. tabulate n (raw (remove m k))) (omega (arith, len-remove m k h))
    ∙ tabulate_ext (m.len - 1) (raw (remove m k)) (λ i. if ltb i k then raw m i else raw m (suc i))
        (λ i l. raw-remove m k i h w.needed ∙ ground arith)
    ∙ sym (remove_at-tabulate (m.len - 1) (raw m) k (omega arith))
    ∙ ap (λ n. remove_at (tabulate n (raw m)) k) (omega arith)

remove_beyond : (m : NullBitmap) (k : ℕ) → leb m.len k ≡ true → remove m k ≡ m
unfolding remove
remove_beyond m k h = rw h

remove_at_beyond : (xs : List Bool) (k : ℕ) → length xs ≤ k → remove_at xs k ≡ xs
remove_at_beyond [] k h = refl
remove_at_beyond (x ∷ xs) zero h = absurd (omega arith)
remove_at_beyond (x ∷ xs) (suc k) h = ap (◌∷◌ x) (remove_at_beyond xs k (omega arith))

-- `remove` from a well-formed bitmap deletes the flag of the row and moves the later ones down by
-- one; beyond the last row it does nothing.
pub flags-remove :
    (m : NullBitmap) (k : ℕ) → IsWellFormed m → flags (remove m k) ≡ remove_at (flags m) k
unfolding flags
flags-remove m k w = elim (Bool-cases (leb m.len k)) [
  | inl beyond ↦
      ap flags (remove_beyond m k beyond)
      ∙ sym (remove_at_beyond (flags m) k (ground (arith, length-tabulate m.len (raw m))))
  | inr inside ↦ flags-remove_inside m k w (ground arith)
]

-- The constructors.
pub flags-new : flags new ≡ []
unfolding flags new tabulate
flags-new = refl

tabulate_const :
    (n : ℕ) (f : ℕ → Bool) (b : Bool) → ((i : ℕ) → i < n → f i ≡ b) → tabulate n f ≡ replicate n b
unfolding tabulate
tabulate_const zero f b h = refl
tabulate_const (suc n) f b h =
    ap₂ ◌∷◌ (h 0 (omega arith))
      (tabulate_const n (λ i. f (suc i)) b (λ i l. h (suc i) (omega arith)))

pub raw-new_valid : (n i : ℕ) → raw (new_valid n) i ≡ false
unfolding new_valid raw_words
raw-new_valid n i = rw get_or-replicate_default (test_bit-zero (i % 64))

pub flags-new_valid : (n : ℕ) → flags (new_valid n) ≡ replicate n false
unfolding flags new_valid
flags-new_valid n = tabulate_const n (raw (new_valid n)) false (λ i h. raw-new_valid n i)

pub raw-new_null : (n i : ℕ) → i < num_words n * 64 → raw (new_null n) i ≡ true
unfolding new_null raw_words
raw-new_null n i h =
    rw (get_or-replicate (num_words n) u64_max (i / 64) 0 (omega arith))
      (test-ones 64 (i % 64) (omega arith))

pub flags-new_null : (n : ℕ) → flags (new_null n) ≡ replicate n true
unfolding flags new_null
flags-new_null n = tabulate_const n (raw (new_null n)) true (λ i h. raw-new_null n i (omega arith))
