-- ===== src/Storage/Bitmap/Run.antt =====
-- Runs of operations on a `NullBitmap` against the same operations on the list of flags.
use yacht_sql.Prelude.{
  ℕ, Bool, true, false, ◌≡◌, refl, ap, ◌∙◌, List, [], ◌∷◌, ◌++◌, set as list_set, remove_at,
}
use yacht_sql.Prelude.Tabulate.{tabulate}
use yacht_sql.Storage.Bitmap.{NullBitmap, new, set, push, remove, clear}
use yacht_sql.Storage.Bitmap.Raw.{IsWellFormed, IsClean}
use yacht_sql.Storage.Bitmap.Shape.{
  new-IsWellFormed, set-IsWellFormed, push-IsWellFormed, remove-IsWellFormed, clear-IsWellFormed,
}
use yacht_sql.Storage.Bitmap.Flags.{flags, flags-set, flags-remove, flags-new}
use yacht_sql.Storage.Bitmap.Clean.{
  new-IsClean, push-IsClean, set-IsClean, clear-IsClean, flags-push_clean,
}

pub data Op : Type 0 where
  set_op : ℕ → Bool → Op
  push_op : Bool → Op
  remove_op : ℕ → Op
  clear_op : Op

unfoldable pub run : List Op → NullBitmap → NullBitmap
run [] m = m
run (set_op k b ∷ ops) m = run ops (set m k b)
run (push_op b ∷ ops) m = run ops (push m b)
run (remove_op k ∷ ops) m = run ops (remove m k)
run (clear_op ∷ ops) m = run ops (clear m)

-- The same operations on a list of flags.
unfoldable pub replay : List Op → List Bool → List Bool
replay [] l = l
replay (set_op k b ∷ ops) l = replay ops (list_set l k b)
replay (push_op b ∷ ops) l = replay ops (l ++ b ∷ [])
replay (remove_op k ∷ ops) l = replay ops (remove_at l k)
replay (clear_op ∷ ops) l = replay ops []

-- No push stands behind a removal, unless a `clear` stands between them. The argument tells
-- whether a removal has gone before.
abbrev pub IsDisciplined : Bool → List Op → Type 0
IsDisciplined removed [] = Unit
IsDisciplined removed (set_op k b ∷ ops) = IsDisciplined removed ops
IsDisciplined removed (push_op b ∷ ops) = (removed ≡ false) × IsDisciplined removed ops
IsDisciplined removed (remove_op k ∷ ops) = IsDisciplined true ops
IsDisciplined removed (clear_op ∷ ops) = IsDisciplined false ops

-- Every run of operations keeps a bitmap in shape: with as many words as its rows need, but that
-- one may be left where there is no row, and with every word below 2 ^ 64.
pub run-IsWellFormed : (ops : List Op) (m : NullBitmap) → IsWellFormed m → IsWellFormed (run ops m)
unfolding run
run-IsWellFormed [] m w = w
run-IsWellFormed (set_op k b ∷ ops) m w =
    run-IsWellFormed ops (set m k b) (set-IsWellFormed m k b w)
run-IsWellFormed (push_op b ∷ ops) m w = run-IsWellFormed ops (push m b) (push-IsWellFormed m b w)
run-IsWellFormed (remove_op k ∷ ops) m w =
    run-IsWellFormed ops (remove m k) (remove-IsWellFormed m k w)
run-IsWellFormed (clear_op ∷ ops) m w = run-IsWellFormed ops (clear m) (clear-IsWellFormed m)

flags-clear : (m : NullBitmap) → flags (clear m) ≡ []
unfolding flags clear tabulate
flags-clear m = refl

run_refines_from :
    (ops : List Op) (removed : Bool) (m : NullBitmap)
    → IsDisciplined removed ops
    → IsWellFormed m
    → (removed ≡ false → IsClean m)
    → flags (run ops m) ≡ replay ops (flags m)
unfolding run replay
run_refines_from [] removed m d w c = refl
run_refines_from (set_op k b ∷ ops) removed m d w c =
    run_refines_from ops removed (set m k b) d (set-IsWellFormed m k b w)
      (λ e. set-IsClean m k b w (c e))
    ∙ ap (replay ops) (flags-set m k b w)
run_refines_from (push_op b ∷ ops) removed m d w c =
    run_refines_from ops removed (push m b) d.1 (push-IsWellFormed m b w)
      (λ e. push-IsClean m b w (c e))
    ∙ ap (replay ops) (flags-push_clean m b w (c d.0))
run_refines_from (remove_op k ∷ ops) removed m d w c =
    run_refines_from ops true (remove m k) d (remove-IsWellFormed m k w) (λ e. cc)
    ∙ ap (replay ops) (flags-remove m k w)
run_refines_from (clear_op ∷ ops) removed m d w c =
    run_refines_from ops false (clear m) d (clear-IsWellFormed m) (λ e. clear-IsClean m)
    ∙ ap (replay ops) (flags-clear m)

-- From the empty bitmap, a run in which no push follows a removal (but after a `clear`) reads as the
-- same operations on a list of flags.
pub run_refines : (ops : List Op) → IsDisciplined false ops → flags (run ops new) ≡ replay ops []
run_refines ops d =
    run_refines_from ops false new d new-IsWellFormed (λ _. new-IsClean) ∙ ap (replay ops) flags-new
