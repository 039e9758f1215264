-- ===== src/Storage/Column/Push.antt =====
-- What `push` of column.rs does to the values of a column.
use yacht_sql.Prelude.{
  ◌≡◌, refl, sym, ap, ◌∙◌, Bool, List, [], ◌∷◌, ◌++◌, map, Option, none, some, map-snoc,
}
use yacht_sql.Common.Error.{Error, ok, err}
use yacht_sql.Common.Externals.{Externals}
use yacht_sql.Common.Types.{Value}
use yacht_sql.Storage.Bitmap.Raw.{IsClean}
use yacht_sql.Storage.Bitmap.Clean
use yacht_sql.Storage.Cells
use yacht_sql.Storage.Cells.{Cells}
use yacht_sql.Storage.Cells.Rows
use yacht_sql.Storage.Column.{Column, nulls, to_value}
use yacht_sql.Storage.Column.Entries.{
  push, push_entry, bool_entry, int64_entry, float64_entry, numeric_entry, string_entry,
  bytes_entry, date_entry, time_entry, date_time_entry, timestamp_entry, json_entry, array_entry,
  struct_entry, geography_entry, interval_entry, range_entry,
}
use yacht_sql.Storage.Column.Rows.{IsValid, values}

push_nulls-IsClean :
    {A : Type 0} (c : Cells A) (e : A × Bool)
    → Rows.IsValid c
    → IsClean c.nulls
    → IsClean (Cells.push c e).nulls
unfolding Cells.push
push_nulls-IsClean c (w, b) v k = Clean.push-IsClean c.nulls b v.shape k

module _ {X : Externals} where
  abbrev pub stored_entry : {A : Type 0} → (A → Value X) → Option (A × Bool) → Value X
  stored_entry f none = Value.null
  stored_entry f (some e) = to_value f (Rows.entry e)

  -- What a column makes of a value that it takes: null for a null or a default, the value itself for
  -- its own variant (a struct with the column's field names), and else a conversion.
  unfoldable pub stored : Column X → Value X → Value X
  unfolding bool_entry int64_entry float64_entry numeric_entry string_entry bytes_entry date_entry
      time_entry date_time_entry timestamp_entry json_entry array_entry struct_entry geography_entry
      interval_entry range_entry
  stored (Column.bool c) v = stored_entry Value.bool (bool_entry v)
  stored (Column.int64 c) v = stored_entry Value.int64 (int64_entry v)
  stored (Column.float64 c) v = stored_entry Value.float64 (float64_entry v)
  stored (Column.numeric c) v = stored_entry Value.numeric (numeric_entry v)
  stored (Column.string c) v = stored_entry Value.string (string_entry v)
  stored (Column.bytes c) v = stored_entry Value.bytes (bytes_entry v)
  stored (Column.date c) v = stored_entry Value.date (date_entry v)
  stored (Column.time c) v = stored_entry Value.time (time_entry v)
  stored (Column.date_time c) v = stored_entry Value.date_time (date_time_entry v)
  stored (Column.timestamp c) v = stored_entry Value.timestamp (timestamp_entry v)
  stored (Column.json c) v = stored_entry Value.json (json_entry v)
  stored (Column.array c t) v = stored_entry Value.array (array_entry v)
  stored (Column.struct c t) v = stored_entry Value.struct (struct_entry t v)
  stored (Column.geography c) v = stored_entry Value.geography (geography_entry v)
  stored (Column.interval c) v = stored_entry Value.interval (interval_entry v)
  stored (Column.range c t) v = stored_entry Value.range (range_entry v)

  push_case :
      {A : Type 0} (f : A → Value X) (con : Cells A → Column X) (c : Cells A)
      (e : Option (A × Bool)) (x : Error)
      → ((d : Cells A) → values (con d) ≡ map (to_value f) (Rows.rows d))
      → Rows.IsValid c
      → IsClean c.nulls
      → (push_entry con c e x).1 ≡ ok tt
      → values (push_entry con c e x).0 ≡ values (con c) ++ stored_entry f e ∷ []
  push_case f con c none x h v k r = cc
  push_case f con c (some e) x h v k r =
      h (Cells.push c e)
      ∙ ap (map (to_value f)) (Rows.rows-push c e v k)
      ∙ map-snoc (to_value f) (Rows.rows c) (Rows.entry e)
      ∙ ap (λ (l : List (Value X)). l ++ to_value f (Rows.entry e) ∷ []) (sym (h c))

  -- A successful `push` appends the value that the column makes of the one it is given. The column
  -- has no bit set behind its last row.
  pub values-push :
      (col : Column X) (v : Value X)
      → IsValid col
      → IsClean (nulls col)
      → (push col v).1 ≡ ok tt
      → values (push col v).0 ≡ values col ++ stored col v ∷ []
  unfolding push values stored nulls
  values-push (Column.bool c) v w k r =
      push_case Value.bool Column.bool c (bool_entry v) _ (λ d. refl) w k r
  values-push (Column.int64 c) v w k r =
      push_case Value.int64 Column.int64 c (int64_entry v) _ (λ d. refl) w k r
  values-push (Column.float64 c) v w k r =
      push_case Value.float64 Column.float64 c (float64_entry v) _ (λ d. refl) w k r
  values-push (Column.numeric c) v w k r =
      push_case Value.numeric Column.numeric c (numeric_entry v) _ (λ d. refl) w k r
  values-push (Column.string c) v w k r =
      push_case Value.string Column.string c (string_entry v) _ (λ d. refl) w k r
  values-push (Column.bytes c) v w k r =
      push_case Value.bytes Column.bytes c (bytes_entry v) _ (λ d. refl) w k r
  values-push (Column.date c) v w k r =
      push_case Value.date Column.date c (date_entry v) _ (λ d. refl) w k r
  values-push (Column.time c) v w k r =
      push_case Value.time Column.time c (time_entry v) _ (λ d. refl) w k r
  values-push (Column.date_time c) v w k r =
      push_case Value.date_time Column.date_time c (date_time_entry v) _ (λ d. refl) w k r
  values-push (Column.timestamp c) v w k r =
      push_case Value.timestamp Column.timestamp c (timestamp_entry v) _ (λ d. refl) w k r
  values-push (Column.json c) v w k r =
      push_case Value.json Column.json c (json_entry v) _ (λ d. refl) w k r
  values-push (Column.array c t) v w k r =
      push_case Value.array (λ d. Column.array d t) c (array_entry v) _ (λ d. refl) w k r
  values-push (Column.struct c t) v w k r =
      push_case Value.struct (λ d. Column.struct d t) c (struct_entry t v) _ (λ d. refl) w k r
  values-push (Column.geography c) v w k r =
      push_case Value.geography Column.geography c (geography_entry v) _ (λ d. refl) w k r
  values-push (Column.interval c) v w k r =
      push_case Value.interval Column.interval c (interval_entry v) _ (λ d. refl) w k r
  values-push (Column.range c t) v w k r =
      push_case Value.range (λ d. Column.range d t) c (range_entry v) _ (λ d. refl) w k r

  push_case_error :
      {A : Type 0} (con : Cells A → Column X) (c : Cells A) (e : Option (A × Bool)) (x y : Error)
      → (push_entry con c e x).1 ≡ err y
      → (push_entry con c e x).0 ≡ con c
  push_case_error con c none x y r = refl
  push_case_error con c (some e) x y r = cc

  -- A `push` that fails leaves the column as it was.
  pub push_error :
      (col : Column X) (v : Value X) (y : Error) → (push col v).1 ≡ err y → (push col v).0 ≡ col
  unfolding push
  push_error (Column.bool c) v y r = push_case_error Column.bool c (bool_entry v) _ y r
  push_error (Column.int64 c) v y r = push_case_error Column.int64 c (int64_entry v) _ y r
  push_error (Column.float64 c) v y r = push_case_error Column.float64 c (float64_entry v) _ y r
  push_error (Column.numeric c) v y r = push_case_error Column.numeric c (numeric_entry v) _ y r
  push_error (Column.string c) v y r = push_case_error Column.string c (string_entry v) _ y r
  push_error (Column.bytes c) v y r = push_case_error Column.bytes c (bytes_entry v) _ y r
  push_error (Column.date c) v y r = push_case_error Column.date c (date_entry v) _ y r
  push_error (Column.time c) v y r = push_case_error Column.time c (time_entry v) _ y r
  push_error (Column.date_time c) v y r =
      push_case_error Column.date_time c (date_time_entry v) _ y r
  push_error (Column.timestamp c) v y r =
      push_case_error Column.timestamp c (timestamp_entry v) _ y r
  push_error (Column.json c) v y r = push_case_error Column.json c (json_entry v) _ y r
  push_error (Column.array c t) v y r =
      push_case_error (λ d. Column.array d t) c (array_entry v) _ y r
  push_error (Column.struct c t) v y r =
      push_case_error (λ d. Column.struct d t) c (struct_entry t v) _ y r
  push_error (Column.geography c) v y r =
      push_case_error Column.geography c (geography_entry v) _ y r
  push_error (Column.interval c) v y r = push_case_error Column.interval c (interval_entry v) _ y r
  push_error (Column.range c t) v y r =
      push_case_error (λ d. Column.range d t) c (range_entry v) _ y r

  push_case-IsValid :
      {A : Type 0} (con : Cells A → Column X) (c : Cells A) (e : Option (A × Bool)) (x : Error)
      → ((d : Cells A) → Rows.IsValid d → IsValid (con d))
      → Rows.IsValid c
      → IsValid (push_entry con c e x).0
  push_case-IsValid con c none x h v = h c v
  push_case-IsValid con c (some e) x h v = h (Cells.push c e) (Rows.push-IsValid c e v)

  pub push-IsValid : (col : Column X) (v : Value X) → IsValid col → IsValid (push col v).0
  unfolding push
  push-IsValid (Column.bool c) v w = push_case-IsValid Column.bool c (bool_entry v) _ (λ d x. x) w
  push-IsValid (Column.int64 c) v w =
      push_case-IsValid Column.int64 c (int64_entry v) _ (λ d x. x) w
  push-IsValid (Column.float64 c) v w =
      push_case-IsValid Column.float64 c (float64_entry v) _ (λ d x. x) w
  push-IsValid (Column.numeric c) v w =
      push_case-IsValid Column.numeric c (numeric_entry v) _ (λ d x. x) w
  push-IsValid (Column.string c) v w =
      push_case-IsValid Column.string c (string_entry v) _ (λ d x. x) w
  push-IsValid (Column.bytes c) v w =
      push_case-IsValid Column.bytes c (bytes_entry v) _ (λ d x. x) w
  push-IsValid (Column.date c) v w = push_case-IsValid Column.date c (date_entry v) _ (λ d x. x) w
  push-IsValid (Column.time c) v w = push_case-IsValid Column.time c (time_entry v) _ (λ d x. x) w
  push-IsValid (Column.date_time c) v w =
      push_case-IsValid Column.date_time c (date_time_entry v) _ (λ d x. x) w
  push-IsValid (Column.timestamp c) v w =
      push_case-IsValid Column.timestamp c (timestamp_entry v) _ (λ d x. x) w
  push-IsValid (Column.json c) v w = push_case-IsValid Column.json c (json_entry v) _ (λ d x. x) w
  push-IsValid (Column.array c t) v w =
      push_case-IsValid (λ d. Column.array d t) c (array_entry v) _ (λ d x. x) w
  push-IsValid (Column.struct c t) v w =
      push_case-IsValid (λ d. Column.struct d t) c (struct_entry t v) _ (λ d x. x) w
  push-IsValid (Column.geography c) v w =
      push_case-IsValid Column.geography c (geography_entry v) _ (λ d x. x) w
  push-IsValid (Column.interval c) v w =
      push_case-IsValid Column.interval c (interval_entry v) _ (λ d x. x) w
  push-IsValid (Column.range c t) v w =
      push_case-IsValid (λ d. Column.range d t) c (range_entry v) _ (λ d x. x) w

  push_case-IsClean :
      {A : Type 0} (con : Cells A → Column X) (c : Cells A) (e : Option (A × Bool)) (x : Error)
      → ((d : Cells A) → IsClean d.nulls → IsClean (nulls (con d)))
      → Rows.IsValid c
      → IsClean c.nulls
      → IsClean (nulls (push_entry con c e x).0)
  push_case-IsClean con c none x h v k = h c k
  push_case-IsClean con c (some e) x h v k = h (Cells.push c e) (push_nulls-IsClean c e v k)

  -- `push` leaves no bit behind the last row where there was none.
  pub push-IsClean :
      (col : Column X) (v : Value X)
      → IsValid col
      → IsClean (nulls col)
      → IsClean (nulls (push col v).0)
  unfolding push nulls
  push-IsClean (Column.bool c) v w h =
      push_case-IsClean Column.bool c (bool_entry v) _ (λ d x. x) w h
  push-IsClean (Column.int64 c) v w h =
      push_case-IsClean Column.int64 c (int64_entry v) _ (λ d x. x) w h
  push-IsClean (Column.float64 c) v w h =
      push_case-IsClean Column.float64 c (float64_entry v) _ (λ d x. x) w h
  push-IsClean (Column.numeric c) v w h =
      push_case-IsClean Column.numeric c (numeric_entry v) _ (λ d x. x) w h
  push-IsClean (Column.string c) v w h =
      push_case-IsClean Column.string c (string_entry v) _ (λ d x. x) w h
  push-IsClean (Column.bytes c) v w h =
      push_case-IsClean Column.bytes c (bytes_entry v) _ (λ d x. x) w h
  push-IsClean (Column.date c) v w h =
      push_case-IsClean Column.date c (date_entry v) _ (λ d x. x) w h
  push-IsClean (Column.time c) v w h =
      push_case-IsClean Column.time c (time_entry v) _ (λ d x. x) w h
  push-IsClean (Column.date_time c) v w h =
      push_case-IsClean Column.date_time c (date_time_entry v) _ (λ d x. x) w h
  push-IsClean (Column.timestamp c) v w h =
      push_case-IsClean Column.timestamp c (timestamp_entry v) _ (λ d x. x) w h
  push-IsClean (Column.json c) v w h =
      push_case-IsClean Column.json c (json_entry v) _ (λ d x. x) w h
  push-IsClean (Column.array c t) v w h =
      push_case-IsClean (λ d. Column.array d t) c (array_entry v) _ (λ d x. x) w h
  push-IsClean (Column.struct c t) v w h =
      push_case-IsClean (λ d. Column.struct d t) c (struct_entry t v) _ (λ d x. x) w h
  push-IsClean (Column.geography c) v w h =
      push_case-IsClean Column.geography c (geography_entry v) _ (λ d x. x) w h
  push-IsClean (Column.interval c) v w h =
      push_case-IsClean Column.interval c (interval_entry v) _ (λ d x. x) w h
  push-IsClean (Column.range c t) v w h =
      push_case-IsClean (λ d. Column.range d t) c (range_entry v) _ (λ d x. x) w h

  stored_case :
      {A : Type 0} (con : Cells A → Column X) (c : Cells A) (e : Option (A × Bool)) (x : Error)
      (y : Value X)
      → ((d : Cells A) → stored (con d) y ≡ stored (con c) y)
      → stored (push_entry con c e x).0 y ≡ stored (con c) y
  stored_case con c none x y h = refl
  stored_case con c (some e) x y h = h (Cells.push c e)

  -- What a column makes of a value does not depend on its rows.
  pub stored-push : (col : Column X) (v y : Value X) → stored (push col v).0 y ≡ stored col y
  unfolding push stored
  stored-push (Column.bool c) v y = stored_case Column.bool c (bool_entry v) _ y (λ d. refl)
  stored-push (Column.int64 c) v y = stored_case Column.int64 c (int64_entry v) _ y (λ d. refl)
  stored-push (Column.float64 c) v y =
      stored_case Column.float64 c (float64_entry v) _ y (λ d. refl)
  stored-push (Column.numeric c) v y =
      stored_case Column.numeric c (numeric_entry v) _ y (λ d. refl)
  stored-push (Column.string c) v y = stored_case Column.string c (string_entry v) _ y (λ d. refl)
  stored-push (Column.bytes c) v y = stored_case Column.bytes c (bytes_entry v) _ y (λ d. refl)
  stored-push (Column.date c) v y = stored_case Column.date c (date_entry v) _ y (λ d. refl)
  stored-push (Column.time c) v y = stored_case Column.time c (time_entry v) _ y (λ d. refl)
  stored-push (Column.date_time c) v y =
      stored_case Column.date_time c (date_time_entry v) _ y (λ d. refl)
  stored-push (Column.timestamp c) v y =
      stored_case Column.timestamp c (timestamp_entry v) _ y (λ d. refl)
  stored-push (Column.json c) v y = stored_case Column.json c (json_entry v) _ y (λ d. refl)
  stored-push (Column.array c t) v y =
      stored_case (λ d. Column.array d t) c (array_entry v) _ y (λ d. refl)
  stored-push (Column.struct c t) v y =
      stored_case (λ d. Column.struct d t) c (struct_entry t v) _ y (λ d. refl)
  stored-push (Column.geography c) v y =
      stored_case Column.geography c (geography_entry v) _ y (λ d. refl)
  stored-push (Column.interval c) v y =
      stored_case Column.interval c (interval_entry v) _ y (λ d. refl)
  stored-push (Column.range c t) v y =
      stored_case (λ d. Column.range d t) c (range_entry v) _ y (λ d. refl)
