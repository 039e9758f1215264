-- ===== src/Storage/Column/Removal.antt =====
-- What `remove` and `clear` of column.rs do to the values of a column.
use yacht_sql.Prelude.{ℕ, ◌<◌, ◌≡◌, ap, ◌∙◌, [], map, remove_at, map-remove_at}
use yacht_sql.Common.Externals.{Externals}
use yacht_sql.Common.Types.{Value}
use yacht_sql.Storage.Cells
use yacht_sql.Storage.Cells.{Cells}
use yacht_sql.Storage.Cells.Rows
use yacht_sql.Storage.Column.{Column, len, remove, clear, to_value}
use yacht_sql.Storage.Column.Rows.{IsValid, values}

module _ {X : Externals} where
  remove_case :
      {A : Type 0} (f : A → Value X) (c : Cells A) (i : ℕ)
      → Rows.IsValid c
      → map (to_value f) (Rows.rows (Cells.remove c i))
        ≡ remove_at (map (to_value f) (Rows.rows c)) i
  remove_case f c i w =
      ap (map (to_value f)) (Rows.rows-remove c i w) ∙ map-remove_at (to_value f) (Rows.rows c) i

  -- `remove` deletes one row and keeps the others in order.
  pub values-remove :
      (col : Column X) (i : ℕ) → IsValid col → values (remove col i) ≡ remove_at (values col) i
  unfolding remove values
  values-remove (Column.bool c) i w = remove_case Value.bool c i w
  values-remove (Column.int64 c) i w = remove_case Value.int64 c i w
  values-remove (Column.float64 c) i w = remove_case Value.float64 c i w
  values-remove (Column.numeric c) i w = remove_case Value.numeric c i w
  values-remove (Column.string c) i w = remove_case Value.string c i w
  values-remove (Column.bytes c) i w = remove_case Value.bytes c i w
  values-remove (Column.date c) i w = remove_case Value.date c i w
  values-remove (Column.time c) i w = remove_case Value.time c i w
  values-remove (Column.date_time c) i w = remove_case Value.date_time c i w
  values-remove (Column.timestamp c) i w = remove_case Value.timestamp c i w
  values-remove (Column.json c) i w = remove_case Value.json c i w
  values-remove (Column.array c t) i w = remove_case Value.array c i w
  values-remove (Column.struct c t) i w = remove_case Value.struct c i w
  values-remove (Column.geography c) i w = remove_case Value.geography c i w
  values-remove (Column.interval c) i w = remove_case Value.interval c i w
  values-remove (Column.range c t) i w = remove_case Value.range c i w

  pub remove-IsValid : (col : Column X) (i : ℕ) → i < len col → IsValid col → IsValid (remove col i)
  unfolding remove len
  remove-IsValid (Column.bool c) i h w = Rows.remove-IsValid c i h w
  remove-IsValid (Column.int64 c) i h w = Rows.remove-IsValid c i h w
  remove-IsValid (Column.float64 c) i h w = Rows.remove-IsValid c i h w
  remove-IsValid (Column.numeric c) i h w = Rows.remove-IsValid c i h w
  remove-IsValid (Column.string c) i h w = Rows.remove-IsValid c i h w
  remove-IsValid (Column.bytes c) i h w = Rows.remove-IsValid c i h w
  remove-IsValid (Column.date c) i h w = Rows.remove-IsValid c i h w
  remove-IsValid (Column.time c) i h w = Rows.remove-IsValid c i h w
  remove-IsValid (Column.date_time c) i h w = Rows.remove-IsValid c i h w
  remove-IsValid (Column.timestamp c) i h w = Rows.remove-IsValid c i h w
  remove-IsValid (Column.json c) i h w = Rows.remove-IsValid c i h w
  remove-IsValid (Column.array c t) i h w = Rows.remove-IsValid c i h w
  remove-IsValid (Column.struct c t) i h w = Rows.remove-IsValid c i h w
  remove-IsValid (Column.geography c) i h w = Rows.remove-IsValid c i h w
  remove-IsValid (Column.interval c) i h w = Rows.remove-IsValid c i h w
  remove-IsValid (Column.range c t) i h w = Rows.remove-IsValid c i h w

  pub clear-IsValid : (col : Column X) → IsValid (clear col)
  unfolding clear
  clear-IsValid (Column.bool c) = Rows.clear-IsValid c
  clear-IsValid (Column.int64 c) = Rows.clear-IsValid c
  clear-IsValid (Column.float64 c) = Rows.clear-IsValid c
  clear-IsValid (Column.numeric c) = Rows.clear-IsValid c
  clear-IsValid (Column.string c) = Rows.clear-IsValid c
  clear-IsValid (Column.bytes c) = Rows.clear-IsValid c
  clear-IsValid (Column.date c) = Rows.clear-IsValid c
  clear-IsValid (Column.time c) = Rows.clear-IsValid c
  clear-IsValid (Column.date_time c) = Rows.clear-IsValid c
  clear-IsValid (Column.timestamp c) = Rows.clear-IsValid c
  clear-IsValid (Column.json c) = Rows.clear-IsValid c
  clear-IsValid (Column.array c t) = Rows.clear-IsValid c
  clear-IsValid (Column.struct c t) = Rows.clear-IsValid c
  clear-IsValid (Column.geography c) = Rows.clear-IsValid c
  clear-IsValid (Column.interval c) = Rows.clear-IsValid c
  clear-IsValid (Column.range c t) = Rows.clear-IsValid c

  pub values-clear : (col : Column X) → values (clear col) ≡ []
  unfolding clear values
  values-clear (Column.bool c) = ap (map (to_value Value.bool)) (Rows.rows-clear c)
  values-clear (Column.int64 c) = ap (map (to_value Value.int64)) (Rows.rows-clear c)
  values-clear (Column.float64 c) = ap (map (to_value Value.float64)) (Rows.rows-clear c)
  values-clear (Column.numeric c) = ap (map (to_value Value.numeric)) (Rows.rows-clear c)
  values-clear (Column.string c) = ap (map (to_value Value.string)) (Rows.rows-clear c)
  values-clear (Column.bytes c) = ap (map (to_value Value.bytes)) (Rows.rows-clear c)
  values-clear (Column.date c) = ap (map (to_value Value.date)) (Rows.rows-clear c)
  values-clear (Column.time c) = ap (map (to_value Value.time)) (Rows.rows-clear c)
  values-clear (Column.date_time c) = ap (map (to_value Value.date_time)) (Rows.rows-clear c)
  values-clear (Column.timestamp c) = ap (map (to_value Value.timestamp)) (Rows.rows-clear c)
  values-clear (Column.json c) = ap (map (to_value Value.json)) (Rows.rows-clear c)
  values-clear (Column.array c t) = ap (map (to_value Value.array)) (Rows.rows-clear c)
  values-clear (Column.struct c t) = ap (map (to_value Value.struct)) (Rows.rows-clear c)
  values-clear (Column.geography c) = ap (map (to_value Value.geography)) (Rows.rows-clear c)
  values-clear (Column.interval c) = ap (map (to_value Value.interval)) (Rows.rows-clear c)
  values-clear (Column.range c t) = ap (map (to_value Value.range)) (Rows.rows-clear c)
