-- ===== src/Storage/Bitmap/Clean.antt =====
-- The bits behind the last row of a `NullBitmap` (bitmap.rs), and what `push` makes of one that
-- is set.
use yacht_sql.Prelude.{
  ℕ, ◌-◌, ◌%◌, ◌<◌, Bool, ◌≡◌, ◌≢◌, ap, ◌∙◌, ◌⊎◌, inl, inr, [], ◌∷◌, ◌++◌, arith, leb, ◌||◌,
  Bool-cases,
}
use yacht_sql.Prelude.Bits.{test_bit-zero}
use yacht_sql.Storage.Bitmap.{NullBitmap, new, new_valid, is_null, set, push, remove, clear}
use yacht_sql.Storage.Bitmap.Raw.{
  raw, raw_words, IsWellFormed, IsClean, is_null-raw, raw-set, raw-push, len-set, len-push,
}
use yacht_sql.Storage.Bitmap.Shape.{remove-IsWellFormed}
use yacht_sql.Storage.Bitmap.Flags.{set_beyond, flags, flags-push, raw-new_valid}
use yacht_sql.Storage.Bitmap.Removal.{len-remove, raw-remove}

pub new-IsClean : IsClean new
unfolding new raw_words
new-IsClean i h = test_bit-zero (i % 64)

pub new_valid-IsClean : (n : ℕ) → IsClean (new_valid n)
new_valid-IsClean n i h = raw-new_valid n i

pub clear-IsClean : (m : NullBitmap) → IsClean (clear m)
unfolding clear raw_words
clear-IsClean m i h = test_bit-zero (i % 64)

pub set-IsClean :
    (m : NullBitmap) (k : ℕ) (b : Bool) → IsWellFormed m → IsClean m → IsClean (set m k b)
set-IsClean m k b w c i h = elim (Bool-cases (leb m.len k)) [
  | inl beyond ↦ ground (arith, ap (λ x. raw x i) (set_beyond m k b beyond), len-set m k b, c i)
  | inr inside ↦ ground (arith, raw-set m k i b, len-set m k b, c i, w.needed)
]

pub push-IsClean : (m : NullBitmap) (b : Bool) → IsWellFormed m → IsClean m → IsClean (push m b)
push-IsClean m b w c i h = ground (arith, raw-push m b i w.needed, len-push m b, c i)

-- In a clean bitmap `push` appends the flag that it is given.
pub flags-push_clean :
    (m : NullBitmap) (b : Bool) → IsWellFormed m → IsClean m → flags (push m b) ≡ flags m ++ b ∷ []
flags-push_clean m b w c =
    flags-push m b w ∙ ap (λ (x : Bool). flags m ++ x ∷ []) (ground (arith, c m.len (omega arith)))

-- After a removal from a well-formed bitmap that keeps its last word, the flag of a pushed row is the
-- disjunction of the flag
-- given and the flag that the last row had before the removal.
pub push_after_remove :
    (m : NullBitmap) (k : ℕ) (b : Bool)
    → IsWellFormed m
    → k < m.len
    → ((m.len - 1) % 64 ≢ 0) ⊎ (m.len ≡ 1)
    → is_null (push (remove m k) b) (m.len - 1) ≡ b || is_null m (m.len - 1)
push_after_remove m k b w h kept =
    let r = remove m k in
    let last = m.len - 1 in
    ground (
      arith,
      is_null-raw (push r b) last,
      is_null-raw m last,
      len-push r b,
      len-remove m k h,
      raw-push r b last (remove-IsWellFormed m k w).needed,
      raw-remove m k last h w.needed,
    )
