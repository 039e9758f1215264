-- ===== src/Storage/Column/Operations.antt =====
-- What `push`, `set`, `remove` and `clear` of column.rs make of a column, as operations on the list
-- of its values.
use yacht_sql.Prelude.{ℕ, ◌<◌, ◌≡◌, [], ◌∷◌, ◌++◌, remove_at, set as list_set}
use yacht_sql.Common.Error.{ok}
use yacht_sql.Common.Externals.{Externals}
use yacht_sql.Common.Types.{Value}
use yacht_sql.Storage.Bitmap.Raw.{IsClean}
use yacht_sql.Storage.Column.{Column, nulls, len, remove}
use yacht_sql.Storage.Column.Entries.{push}
use yacht_sql.Storage.Column.Exact.{set}
use yacht_sql.Storage.Column.Rows.{IsValid, values}
use yacht_sql.Storage.Column.Push.{stored, values-push, push-IsValid, push-IsClean}
use yacht_sql.Storage.Column.Update.{values-set, set-IsValid}
use yacht_sql.Storage.Column.Removal.{values-remove, remove-IsValid}

module _ {X : Externals} where
  -- A `push` that succeeds, on a valid column with no null flag behind its last row, appends the
  -- value as the column stores it, and leaves the column valid and with no such flag.
  pub push_appends :
      (col : Column X) (v : Value X)
      → IsValid col
      → IsClean (nulls col)
      → (push col v).1 ≡ ok tt
      → IsValid (push col v).0
        × IsClean (nulls (push col v).0)
        × (values (push col v).0 ≡ values col ++ stored col v ∷ [])
  push_appends col v w k r = (push-IsValid col v w, push-IsClean col v w k, values-push col v w k r)

  -- A `set` that succeeds, at an index in range of a valid column, puts the value itself in its row,
  -- changes no other row, and leaves the column valid.
  pub set_replaces :
      (col : Column X) (i : ℕ) (v : Value X)
      → IsValid col
      → i < len col
      → (set col i v).1 ≡ ok tt
      → IsValid (set col i v).0 × (values (set col i v).0 ≡ list_set (values col) i v)
  set_replaces col i v w h r = (set-IsValid col i v w, values-set col i v w r)

  -- `remove` at an index in range of a valid column deletes that row, keeps the others in order, and
  -- leaves the column valid.
  pub remove_deletes :
      (col : Column X) (i : ℕ)
      → IsValid col
      → i < len col
      → IsValid (remove col i) × (values (remove col i) ≡ remove_at (values col) i)
  remove_deletes col i w h = (remove-IsValid col i h w, values-remove col i w)
