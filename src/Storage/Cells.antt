-- ===== src/Storage/Cells.antt =====
-- The two fields that each variant of `Column` has: the data, and the bitmap of the rows that are
-- null, and what the methods of `Column` do to them.
pub mod Rows
use yacht_sql.Prelude.{
  ℕ, zero, suc, Bool, true, false, List, [], ◌∷◌, ◌++◌, Option, none, some, length, get_elem?,
  remove_at, leb, ◌||◌, set as list_set, if◌then◌else◌,
}
use yacht_sql.Storage.Bitmap
use yacht_sql.Storage.Bitmap.{NullBitmap}

-- `values` is the field `data`.
pub record Cells {ℓ} (A : Type ℓ) : Type ℓ where
  pub values : List A
  pub nulls : NullBitmap

module _ {ℓ} {A : Type ℓ} where
  -- Vec::new(), NullBitmap::new()
  unfoldable pub new : Cells A
  unfolding Bitmap.new
  new = record { values = []; nulls = Bitmap.new }

  -- data.push(v); nulls.push(is_null)
  unfoldable pub push : Cells A → A × Bool → Cells A
  unfolding Bitmap.push
  push c (v, null) = record { values = c.values ++ v ∷ []; nulls = Bitmap.push c.nulls null }

  -- data[index] = v; nulls.set(index, is_null), for an index in range
  unfoldable pub set : Cells A → ℕ → A × Bool → Cells A
  unfolding Bitmap.set
  set c index (v, null) = record {
    values = list_set c.values index v;
    nulls = Bitmap.set c.nulls index null;
  }

  -- data.remove(index); nulls.remove(index), for an index in range
  unfoldable pub remove : Cells A → ℕ → Cells A
  unfolding Bitmap.remove
  remove c index = record { values = remove_at c.values index; nulls = Bitmap.remove c.nulls index }

  -- data.clear(); nulls.clear()
  unfoldable pub clear : Cells A → Cells A
  unfolding Bitmap.clear
  clear c = record { values = []; nulls = Bitmap.clear c.nulls }

  -- The datum at an index, unless the row is null or not there.
  unfoldable pub read : Cells A → ℕ → Option A
  unfolding Bitmap.is_null
  read c index =
      if leb (length c.values) index || Bitmap.is_null c.nulls index
      then none
      else get_elem? c.values index
