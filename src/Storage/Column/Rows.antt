-- ===== src/Storage/Column/Rows.antt =====
-- A column read as the list of its values, and what each method does to that list.
use yacht_sql.Prelude.{
  ℕ, zero, suc, ◌≡◌, refl, ap, ◌∙◌, List, [], ◌∷◌, map, Option, length, get_elem?, get_or,
  length-map,
}
use yacht_sql.Common.Externals.{Externals}
use yacht_sql.Common.Types.{DataType, Value}
use yacht_sql.Storage.Bitmap.Raw.{IsClean}
use yacht_sql.Storage.Bitmap.Clean
use yacht_sql.Storage.Cells
use yacht_sql.Storage.Cells.{Cells}
use yacht_sql.Storage.Cells.Rows
use yacht_sql.Storage.Column.{Column, new, len, nulls, get_value, to_value}

module _ {X : Externals} where
  -- The data and the bitmap of the column have one length, and the bitmap is in shape.
  abbrev pub IsValid : Column X → Type 0
  IsValid (Column.bool c) = Rows.IsValid c
  IsValid (Column.int64 c) = Rows.IsValid c
  IsValid (Column.float64 c) = Rows.IsValid c
  IsValid (Column.numeric c) = Rows.IsValid c
  IsValid (Column.string c) = Rows.IsValid c
  IsValid (Column.bytes c) = Rows.IsValid c
  IsValid (Column.date c) = Rows.IsValid c
  IsValid (Column.time c) = Rows.IsValid c
  IsValid (Column.date_time c) = Rows.IsValid c
  IsValid (Column.timestamp c) = Rows.IsValid c
  IsValid (Column.json c) = Rows.IsValid c
  IsValid (Column.array c t) = Rows.IsValid c
  IsValid (Column.struct c t) = Rows.IsValid c
  IsValid (Column.geography c) = Rows.IsValid c
  IsValid (Column.interval c) = Rows.IsValid c
  IsValid (Column.range c t) = Rows.IsValid c

  -- The values of the rows, in order.
  unfoldable pub values : Column X → List (Value X)
  unfolding Rows.rows
  values (Column.bool c) = map (to_value Value.bool) (Rows.rows c)
  values (Column.int64 c) = map (to_value Value.int64) (Rows.rows c)
  values (Column.float64 c) = map (to_value Value.float64) (Rows.rows c)
  values (Column.numeric c) = map (to_value Value.numeric) (Rows.rows c)
  values (Column.string c) = map (to_value Value.string) (Rows.rows c)
  values (Column.bytes c) = map (to_value Value.bytes) (Rows.rows c)
  values (Column.date c) = map (to_value Value.date) (Rows.rows c)
  values (Column.time c) = map (to_value Value.time) (Rows.rows c)
  values (Column.date_time c) = map (to_value Value.date_time) (Rows.rows c)
  values (Column.timestamp c) = map (to_value Value.timestamp) (Rows.rows c)
  values (Column.json c) = map (to_value Value.json) (Rows.rows c)
  values (Column.array c t) = map (to_value Value.array) (Rows.rows c)
  values (Column.struct c t) = map (to_value Value.struct) (Rows.rows c)
  values (Column.geography c) = map (to_value Value.geography) (Rows.rows c)
  values (Column.interval c) = map (to_value Value.interval) (Rows.rows c)
  values (Column.range c t) = map (to_value Value.range) (Rows.rows c)

  get_or-map :
      {A : Type 0} (f : A → Value X) (os : List (Option A)) (i : ℕ)
      → to_value f (Rows.flat (get_elem? os i)) ≡ get_or (map (to_value f) os) i Value.null
  get_or-map f [] i = refl
  get_or-map f (o ∷ os) zero = refl
  get_or-map f (o ∷ os) (suc i) = get_or-map f os i

  read_value :
      {A : Type 0} (f : A → Value X) (c : Cells A) (i : ℕ)
      → to_value f (Cells.read c i) ≡ get_or (map (to_value f) (Rows.rows c)) i Value.null
  read_value f c i = ap (to_value f) (Rows.read-rows c i) ∙ get_or-map f (Rows.rows c) i

  -- `get_value` reads the list of values, and is null beyond its end.
  pub get_value-values :
      (col : Column X) (i : ℕ) → get_value col i ≡ get_or (values col) i Value.null
  unfolding get_value values
  get_value-values (Column.bool c) i = read_value Value.bool c i
  get_value-values (Column.int64 c) i = read_value Value.int64 c i
  get_value-values (Column.float64 c) i = read_value Value.float64 c i
  get_value-values (Column.numeric c) i = read_value Value.numeric c i
  get_value-values (Column.string c) i = read_value Value.string c i
  get_value-values (Column.bytes c) i = read_value Value.bytes c i
  get_value-values (Column.date c) i = read_value Value.date c i
  get_value-values (Column.time c) i = read_value Value.time c i
  get_value-values (Column.date_time c) i = read_value Value.date_time c i
  get_value-values (Column.timestamp c) i = read_value Value.timestamp c i
  get_value-values (Column.json c) i = read_value Value.json c i
  get_value-values (Column.array c t) i = read_value Value.array c i
  get_value-values (Column.struct c t) i = read_value Value.struct c i
  get_value-values (Column.geography c) i = read_value Value.geography c i
  get_value-values (Column.interval c) i = read_value Value.interval c i
  get_value-values (Column.range c t) i = read_value Value.range c i

  length-map_value :
      {A : Type 0} (f : A → Value X) (c : Cells A)
      → Rows.IsValid c
      → length (map (to_value f) (Rows.rows c)) ≡ length c.values
  length-map_value f c w = length-map (to_value f) (Rows.rows c) ∙ Rows.length-rows c w

  -- A valid column has as many values as `len` says.
  pub length-values : (col : Column X) → IsValid col → length (values col) ≡ len col
  unfolding values len
  length-values (Column.bool c) w = length-map_value Value.bool c w
  length-values (Column.int64 c) w = length-map_value Value.int64 c w
  length-values (Column.float64 c) w = length-map_value Value.float64 c w
  length-values (Column.numeric c) w = length-map_value Value.numeric c w
  length-values (Column.string c) w = length-map_value Value.string c w
  length-values (Column.bytes c) w = length-map_value Value.bytes c w
  length-values (Column.date c) w = length-map_value Value.date c w
  length-values (Column.time c) w = length-map_value Value.time c w
  length-values (Column.date_time c) w = length-map_value Value.date_time c w
  length-values (Column.timestamp c) w = length-map_value Value.timestamp c w
  length-values (Column.json c) w = length-map_value Value.json c w
  length-values (Column.array c t) w = length-map_value Value.array c w
  length-values (Column.struct c t) w = length-map_value Value.struct c w
  length-values (Column.geography c) w = length-map_value Value.geography c w
  length-values (Column.interval c) w = length-map_value Value.interval c w
  length-values (Column.range c t) w = length-map_value Value.range c w

module _ (X : Externals) where
  -- A new column is valid and has no value, and no bit stands in its bitmap.
  pub new-IsValid : (t : DataType) → IsValid (new X t)
  unfolding new
  new-IsValid DataType.unknown = Rows.new-IsValid
  new-IsValid _ = Rows.new-IsValid

  pub values-new : (t : DataType) → values (new X t) ≡ []
  unfolding new values
  values-new DataType.unknown = ap (map (to_value Value.string)) Rows.rows-new
  values-new DataType.bool = ap (map (to_value Value.bool)) Rows.rows-new
  values-new DataType.int64 = ap (map (to_value Value.int64)) Rows.rows-new
  values-new DataType.float64 = ap (map (to_value Value.float64)) Rows.rows-new
  values-new (DataType.numeric p) = ap (map (to_value Value.numeric)) Rows.rows-new
  values-new DataType.string = ap (map (to_value Value.string)) Rows.rows-new
  values-new DataType.bytes = ap (map (to_value Value.bytes)) Rows.rows-new
  values-new DataType.date = ap (map (to_value Value.date)) Rows.rows-new
  values-new DataType.time = ap (map (to_value Value.time)) Rows.rows-new
  values-new DataType.date_time = ap (map (to_value Value.date_time)) Rows.rows-new
  values-new DataType.timestamp = ap (map (to_value Value.timestamp)) Rows.rows-new
  values-new DataType.json = ap (map (to_value Value.json)) Rows.rows-new
  values-new (DataType.array p) = ap (map (to_value Value.array)) Rows.rows-new
  values-new (DataType.struct p) = ap (map (to_value Value.struct)) Rows.rows-new
  values-new DataType.geography = ap (map (to_value Value.geography)) Rows.rows-new
  values-new DataType.interval = ap (map (to_value Value.interval)) Rows.rows-new
  values-new (DataType.range p) = ap (map (to_value Value.range)) Rows.rows-new
  values-new DataType.big_numeric = ap (map (to_value Value.numeric)) Rows.rows-new

  pub new-IsClean : (t : DataType) → IsClean (nulls (new X t))
  unfolding new nulls Cells.new
  new-IsClean DataType.unknown = Clean.new-IsClean
  new-IsClean _ = Clean.new-IsClean
