-- ===== src/Storage/Bitmap/Examples.antt =====
-- Tests of the bitmap, and instances of its theorems.
use yacht_sql.Prelude.{◌≡◌, refl, true, false, ◌||◌, inl, List, [], ◌∷◌, arith}
use yacht_sql.Prelude.Bits.{test_bit, or_bit, and_not_bit}
use yacht_sql.Storage.Bitmap.{
  NullBitmap, new, new_valid, new_null, is_null, push, remove, count_null,
}
use yacht_sql.Storage.Bitmap.Raw.{IsWellFormed}
use yacht_sql.Storage.Bitmap.Flags.{flags}
use yacht_sql.Storage.Bitmap.Clean.{push_after_remove}
use yacht_sql.Storage.Bitmap.Run.{Op, set_op, push_op, remove_op, run, replay, run_refines}

-- Rows 0 and 2 of three are null.
abbrev sample : NullBitmap
sample = record { words = 5 ∷ []; len = 3 }

sample-IsWellFormed : IsWellFormed sample
sample-IsWellFormed = record { needed = omega arith; tight = omega arith; fits = (omega arith, tt) }

reads : (is_null sample 0 ≡ true) × (is_null sample 1 ≡ false) × (is_null sample 3 ≡ true)
unfolding is_null test_bit
reads = (refl, refl, refl)

across_words :
    (is_null (push (new_valid 64) true) 64 ≡ true) × (count_null (push (new_null 70) false) ≡ 71)
unfolding new_valid new_null push is_null count_null test_bit or_bit
across_words = (refl, refl)

-- The row pushed behind a removed null row reads as null.
stale : is_null (push (remove sample 2) false) 2 ≡ true
unfolding remove push is_null test_bit and_not_bit or_bit
stale = refl

abbrev script : List Op
script =
    push_op true ∷ push_op false ∷ set_op 1 true ∷ set_op 0 false ∷ push_op true ∷ remove_op 0 ∷ []

run_refines_example : flags (run script new) ≡ replay script []
run_refines_example = run_refines script (refl, (refl, (refl, tt)))

push_after_remove_example : is_null (push (remove sample 0) false) 2 ≡ false || is_null sample 2
push_after_remove_example =
    push_after_remove sample 0 false sample-IsWellFormed (omega arith) (inl (omega arith))
