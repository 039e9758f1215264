-- ===== src/Storage/Column/Update.antt =====
-- What `set` of column.rs does to the values of a column.
use yacht_sql.Prelude.{
  ℕ, ◌≡◌, refl, sym, ap, ap₂, ◌∙◌, Bool, map, Option, none, some, arith, set as list_set, map-set,
}
use yacht_sql.Common.Error.{Error, ok}
use yacht_sql.Common.Externals.{Externals}
use yacht_sql.Common.Types.{Value}
use yacht_sql.Storage.Cells
use yacht_sql.Storage.Cells.{Cells}
use yacht_sql.Storage.Cells.Rows
use yacht_sql.Storage.Column.{Column, to_value}
use yacht_sql.Storage.Column.Exact.{
  set, set_entry, bool_exact, int64_exact, float64_exact, numeric_exact, string_exact, bytes_exact,
  date_exact, time_exact, date_time_exact, timestamp_exact, json_exact, array_exact, struct_exact,
  geography_exact, interval_exact, range_exact,
}
use yacht_sql.Storage.Column.Rows.{IsValid, values}

module _ {X : Externals} where
  -- An exact entry reads back as the value it was made from.
  bool_exact_value :
      (v : Value X) (e : _ × Bool) → bool_exact v ≡ some e → to_value Value.bool (Rows.entry e) ≡ v
  unfolding bool_exact
  bool_exact_value Value.null e h = ground arith
  bool_exact_value _ e h = ground arith

  int64_exact_value :
      (v : Value X) (e : _ × Bool)
      → int64_exact v ≡ some e
      → to_value Value.int64 (Rows.entry e) ≡ v
  unfolding int64_exact
  int64_exact_value Value.null e h = ground arith
  int64_exact_value _ e h = ground arith

  float64_exact_value :
      (v : Value X) (e : _ × Bool)
      → float64_exact v ≡ some e
      → to_value Value.float64 (Rows.entry e) ≡ v
  unfolding float64_exact
  float64_exact_value Value.null e h = ground arith
  float64_exact_value _ e h = ground arith

  numeric_exact_value :
      (v : Value X) (e : _ × Bool)
      → numeric_exact v ≡ some e
      → to_value Value.numeric (Rows.entry e) ≡ v
  unfolding numeric_exact
  numeric_exact_value Value.null e h = ground arith
  numeric_exact_value _ e h = ground arith

  string_exact_value :
      (v : Value X) (e : _ × Bool)
      → string_exact v ≡ some e
      → to_value Value.string (Rows.entry e) ≡ v
  unfolding string_exact
  string_exact_value Value.null e h = ground arith
  string_exact_value _ e h = ground arith

  bytes_exact_value :
      (v : Value X) (e : _ × Bool)
      → bytes_exact v ≡ some e
      → to_value Value.bytes (Rows.entry e) ≡ v
  unfolding bytes_exact
  bytes_exact_value Value.null e h = ground arith
  bytes_exact_value _ e h = ground arith

  date_exact_value :
      (v : Value X) (e : _ × Bool) → date_exact v ≡ some e → to_value Value.date (Rows.entry e) ≡ v
  unfolding date_exact
  date_exact_value Value.null e h = ground arith
  date_exact_value _ e h = ground arith

  time_exact_value :
      (v : Value X) (e : _ × Bool) → time_exact v ≡ some e → to_value Value.time (Rows.entry e) ≡ v
  unfolding time_exact
  time_exact_value Value.null e h = ground arith
  time_exact_value _ e h = ground arith

  date_time_exact_value :
      (v : Value X) (e : _ × Bool)
      → date_time_exact v ≡ some e
      → to_value Value.date_time (Rows.entry e) ≡ v
  unfolding date_time_exact
  date_time_exact_value Value.null e h = ground arith
  date_time_exact_value _ e h = ground arith

  timestamp_exact_value :
      (v : Value X) (e : _ × Bool)
      → timestamp_exact v ≡ some e
      → to_value Value.timestamp (Rows.entry e) ≡ v
  unfolding timestamp_exact
  timestamp_exact_value Value.null e h = ground arith
  timestamp_exact_value _ e h = ground arith

  json_exact_value :
      (v : Value X) (e : _ × Bool) → json_exact v ≡ some e → to_value Value.json (Rows.entry e) ≡ v
  unfolding json_exact
  json_exact_value Value.null e h = ground arith
  json_exact_value _ e h = ground arith

  array_exact_value :
      (v : Value X) (e : _ × Bool)
      → array_exact v ≡ some e
      → to_value Value.array (Rows.entry e) ≡ v
  unfolding array_exact
  array_exact_value Value.null e h = ground arith
  array_exact_value _ e h = ground arith

  struct_exact_value :
      (v : Value X) (e : _ × Bool)
      → struct_exact v ≡ some e
      → to_value Value.struct (Rows.entry e) ≡ v
  unfolding struct_exact
  struct_exact_value Value.null e h = ground arith
  struct_exact_value _ e h = ground arith

  geography_exact_value :
      (v : Value X) (e : _ × Bool)
      → geography_exact v ≡ some e
      → to_value Value.geography (Rows.entry e) ≡ v
  unfolding geography_exact
  geography_exact_value Value.null e h = ground arith
  geography_exact_value _ e h = ground arith

  interval_exact_value :
      (v : Value X) (e : _ × Bool)
      → interval_exact v ≡ some e
      → to_value Value.interval (Rows.entry e) ≡ v
  unfolding interval_exact
  interval_exact_value Value.null e h = ground arith
  interval_exact_value _ e h = ground arith

  range_exact_value :
      (v : Value X) (e : _ × Bool)
      → range_exact v ≡ some e
      → to_value Value.range (Rows.entry e) ≡ v
  unfolding range_exact
  range_exact_value Value.null e h = ground arith
  range_exact_value _ e h = ground arith

  set_case :
      {A : Type 0} (f : A → Value X) (con : Cells A → Column X) (c : Cells A) (i : ℕ)
      (o : Option (A × Bool)) (x : Error) (v : Value X)
      → ((d : Cells A) → values (con d) ≡ map (to_value f) (Rows.rows d))
      → ((e : A × Bool) → o ≡ some e → to_value f (Rows.entry e) ≡ v)
      → Rows.IsValid c
      → (set_entry con c i o x).1 ≡ ok tt
      → values (set_entry con c i o x).0 ≡ list_set (values (con c)) i v
  set_case f con c i none x v h s w r = cc
  set_case f con c i (some e) x v h s w r =
      h (Cells.set c i e)
      ∙ ap (map (to_value f)) (Rows.rows-set c i e w)
      ∙ map-set (to_value f) (Rows.rows c) i (Rows.entry e)
      ∙ ap₂ (λ l y. list_set l i y) (sym (h c)) (s e refl)

  -- A successful `set` puts the value itself in its row, and changes no other row.
  pub values-set :
      (col : Column X) (i : ℕ) (v : Value X)
      → IsValid col
      → (set col i v).1 ≡ ok tt
      → values (set col i v).0 ≡ list_set (values col) i v
  unfolding set values
  values-set (Column.bool c) i v w r =
      set_case Value.bool Column.bool c i (bool_exact v) _ v (λ d. refl) (bool_exact_value v) w r
  values-set (Column.int64 c) i v w r =
      set_case Value.int64 Column.int64 c i (int64_exact v) _ v (λ d. refl) (int64_exact_value v) w
        r
  values-set (Column.float64 c) i v w r =
      set_case Value.float64 Column.float64 c i (float64_exact v) _ v (λ d. refl)
        (float64_exact_value v) w r
  values-set (Column.numeric c) i v w r =
      set_case Value.numeric Column.numeric c i (numeric_exact v) _ v (λ d. refl)
        (numeric_exact_value v) w r
  values-set (Column.string c) i v w r =
      set_case Value.string Column.string c i (string_exact v) _ v (λ d. refl)
        (string_exact_value v) w r
  values-set (Column.bytes c) i v w r =
      set_case Value.bytes Column.bytes c i (bytes_exact v) _ v (λ d. refl) (bytes_exact_value v) w
        r
  values-set (Column.date c) i v w r =
      set_case Value.date Column.date c i (date_exact v) _ v (λ d. refl) (date_exact_value v) w r
  values-set (Column.time c) i v w r =
      set_case Value.time Column.time c i (time_exact v) _ v (λ d. refl) (time_exact_value v) w r
  values-set (Column.date_time c) i v w r =
      set_case Value.date_time Column.date_time c i (date_time_exact v) _ v (λ d. refl)
        (date_time_exact_value v) w r
  values-set (Column.timestamp c) i v w r =
      set_case Value.timestamp Column.timestamp c i (timestamp_exact v) _ v (λ d. refl)
        (timestamp_exact_value v) w r
  values-set (Column.json c) i v w r =
      set_case Value.json Column.json c i (json_exact v) _ v (λ d. refl) (json_exact_value v) w r
  values-set (Column.array c t) i v w r =
      set_case Value.array (λ d. Column.array d t) c i (array_exact v) _ v (λ d. refl)
        (array_exact_value v) w r
  values-set (Column.struct c t) i v w r =
      set_case Value.struct (λ d. Column.struct d t) c i (struct_exact v) _ v (λ d. refl)
        (struct_exact_value v) w r
  values-set (Column.geography c) i v w r =
      set_case Value.geography Column.geography c i (geography_exact v) _ v (λ d. refl)
        (geography_exact_value v) w r
  values-set (Column.interval c) i v w r =
      set_case Value.interval Column.interval c i (interval_exact v) _ v (λ d. refl)
        (interval_exact_value v) w r
  values-set (Column.range c t) i v w r =
      set_case Value.range (λ d. Column.range d t) c i (range_exact v) _ v (λ d. refl)
        (range_exact_value v) w r

  set_case-IsValid :
      {A : Type 0} (con : Cells A → Column X) (c : Cells A) (i : ℕ) (o : Option (A × Bool))
      (x : Error)
      → ((d : Cells A) → Rows.IsValid d → IsValid (con d))
      → Rows.IsValid c
      → IsValid (set_entry con c i o x).0
  set_case-IsValid con c i none x h v = h c v
  set_case-IsValid con c i (some e) x h v = h (Cells.set c i e) (Rows.set-IsValid c i e v)

  pub set-IsValid : (col : Column X) (i : ℕ) (v : Value X) → IsValid col → IsValid (set col i v).0
  unfolding set
  set-IsValid (Column.bool c) i v w = set_case-IsValid Column.bool c i (bool_exact v) _ (λ d x. x) w
  set-IsValid (Column.int64 c) i v w =
      set_case-IsValid Column.int64 c i (int64_exact v) _ (λ d x. x) w
  set-IsValid (Column.float64 c) i v w =
      set_case-IsValid Column.float64 c i (float64_exact v) _ (λ d x. x) w
  set-IsValid (Column.numeric c) i v w =
      set_case-IsValid Column.numeric c i (numeric_exact v) _ (λ d x. x) w
  set-IsValid (Column.string c) i v w =
      set_case-IsValid Column.string c i (string_exact v) _ (λ d x. x) w
  set-IsValid (Column.bytes c) i v w =
      set_case-IsValid Column.bytes c i (bytes_exact v) _ (λ d x. x) w
  set-IsValid (Column.date c) i v w = set_case-IsValid Column.date c i (date_exact v) _ (λ d x. x) w
  set-IsValid (Column.time c) i v w = set_case-IsValid Column.time c i (time_exact v) _ (λ d x. x) w
  set-IsValid (Column.date_time c) i v w =
      set_case-IsValid Column.date_time c i (date_time_exact v) _ (λ d x. x) w
  set-IsValid (Column.timestamp c) i v w =
      set_case-IsValid Column.timestamp c i (timestamp_exact v) _ (λ d x. x) w
  set-IsValid (Column.json c) i v w = set_case-IsValid Column.json c i (json_exact v) _ (λ d x. x) w
  set-IsValid (Column.array c t) i v w =
      set_case-IsValid (λ d. Column.array d t) c i (array_exact v) _ (λ d x. x) w
  set-IsValid (Column.struct c t) i v w =
      set_case-IsValid (λ d. Column.struct d t) c i (struct_exact v) _ (λ d x. x) w
  set-IsValid (Column.geography c) i v w =
      set_case-IsValid Column.geography c i (geography_exact v) _ (λ d x. x) w
  set-IsValid (Column.interval c) i v w =
      set_case-IsValid Column.interval c i (interval_exact v) _ (λ d x. x) w
  set-IsValid (Column.range c t) i v w =
      set_case-IsValid (λ d. Column.range d t) c i (range_exact v) _ (λ d x. x) w
