-- ===== src/Storage/Table/Projection.antt =====
-- The views of table/core.rs: which rows a table has under another schema, or with its columns in
-- another order.
use yacht_sql.Prelude.{
  ℕ, ◌<◌, ◌≡◌, zero, suc, refl, sym, ap, ◌∙◌, false, List, [], ◌∷◌, ◌++◌, map, Option, none, some,
  arith, length, get_elem?, get_or, All,
}
use mathlib.Core.List.{append_assoc, append-nil}
use yacht_sql.Prelude.Tabulate.{tabulate, tabulate_ext}
use yacht_sql.Prelude.Text.{Text, text_eq_iff}
use yacht_sql.Prelude.Assoc
use yacht_sql.Prelude.Assoc.{Assoc, text_mem, contains_key, get, get-insert}
use yacht_sql.Common.Error.{ok}
use yacht_sql.Common.Externals.{Externals}
use yacht_sql.Common.Types.{Value}
use yacht_sql.Storage.Column.{Column}
use yacht_sql.Storage.Schema.{Schema, Field}
use yacht_sql.Storage.Schema.Validation.{IsDistinct, names}
use yacht_sql.Storage.IndexMap.{IndexMap, values}
use yacht_sql.Storage.Table.{Table, column_list}
use yacht_sql.Storage.Table.RowOps.{Record, row_at}
use yacht_sql.Storage.Table.Rectangular.{rows, to_records-rows}
use yacht_sql.Storage.Table.Views.{
  insert_zipped, insert_at_index, insert_picked, with_schema, with_reordered_schema,
  to_query_result, column_infos,
}

pub values-insert_new :
    {V : Type 0} (m : Assoc V) (k : Text) (v : V)
    → contains_key m k ≡ false
    → values (Assoc.insert m k v) ≡ values m ++ v ∷ []
unfolding Assoc.insert contains_key get
values-insert_new [] k v h = refl
values-insert_new ((j, w) ∷ m) k v h = ground (arith, values-insert_new m k v)

module _ {X : Externals} where
  -- No field has the name of an entry.
  abbrev IsFreeFor : Assoc (Column X) → List (Field X) → Type 0
  IsFreeFor m fs = All (λ f. contains_key m f.name ≡ false) fs

  IsFreeFor-insert :
      (m : Assoc (Column X)) (k : Text) (c : Column X) (fs : List (Field X))
      → text_mem k (names fs) ≡ false
      → IsFreeFor m fs
      → IsFreeFor (Assoc.insert m k c) fs
  unfolding text_mem contains_key
  IsFreeFor-insert m k c [] h v = tt
  IsFreeFor-insert m k c (f ∷ fs) h v = ground (
    arith,
    get-insert m k f.name c,
    text_eq_iff k f.name,
    text_eq_iff f.name k,
    IsFreeFor-insert m k c fs,
  )

  IsFreeFor-empty : (fs : List (Field X)) → IsFreeFor [] fs
  unfolding contains_key get
  IsFreeFor-empty [] = tt
  IsFreeFor-empty (f ∷ fs) = (refl, IsFreeFor-empty fs)

  -- The columns at the indices.
  abbrev pick_column : Option (Column X) → List (Column X) → List (Column X)
  pick_column none cs = cs
  pick_column (some c) cs = c ∷ cs

  abbrev picked : List (Column X) → List ℕ → List (Column X)
  picked source [] = []
  picked source (i ∷ is) = pick_column (get_elem? source i) (picked source is)

  -- The values at the indices.
  unfoldable pub pick : List ℕ → Record X → Record X
  pick [] r = []
  pick (i ∷ is) r = get_or r i Value.null ∷ pick is r

  in_range :
      (source : List (Column X)) (i : ℕ)
      → i < length source
      → (c : Column X) × (get_elem? source i ≡ some c)
  in_range [] i h = absurd (omega arith)
  in_range (c ∷ source) zero h = (c, refl)
  in_range (c ∷ source) (suc i) h = in_range source i (omega arith)

  row_at-picked_one :
      (source : List (Column X)) (i j : ℕ) (cs : List (Column X))
      → i < length source
      → row_at (pick_column (get_elem? source i) cs) j
        ≡ get_or (row_at source j) i Value.null ∷ row_at cs j
  row_at-picked_one [] i j cs h = absurd (omega arith)
  row_at-picked_one (c ∷ source) zero j cs h = refl
  row_at-picked_one (c ∷ source) (suc i) j cs h = row_at-picked_one source i j cs (omega arith)

  row_at-picked :
      (source : List (Column X)) (is : List ℕ) (j : ℕ)
      → All (λ i. i < length source) is
      → row_at (picked source is) j ≡ pick is (row_at source j)
  unfolding pick
  row_at-picked source [] j h = refl
  row_at-picked source (i ∷ is) j h =
      row_at-picked_one source i j (picked source is) h.0
      ∙ ap (λ r. get_or (row_at source j) i Value.null ∷ r) (row_at-picked source is j h.1)

  pub map-tabulate :
      (n : ℕ) (f : Record X → Record X) (g : ℕ → Record X)
      → map f (tabulate n g) ≡ tabulate n (λ i. f (g i))
  unfolding tabulate
  map-tabulate zero f g = refl
  map-tabulate (suc n) f g = ap (λ l. f (g 0) ∷ l) (map-tabulate n f (λ i. g (suc i)))

module _ {X : Externals} (I : IndexMap (Column X)) where
  values-insert_zipped :
      (cs : List (Column X)) (fs : List (Field X)) (m : I.Map)
      → length cs ≡ length fs
      → IsFreeFor (I.entries m) fs
      → IsDistinct (names fs)
      → values (I.entries (insert_zipped I cs fs m)) ≡ values (I.entries m) ++ cs
  unfolding insert_zipped
  values-insert_zipped [] fs m w v d = sym (append-nil (values (I.entries m)))
  values-insert_zipped (c ∷ cs) [] m w v d = absurd (omega arith)
  values-insert_zipped (c ∷ cs) (f ∷ fs) m w v d =
      let e = I.entries-insert m f.name c in
      values-insert_zipped cs fs (I.insert m f.name c) (omega arith)
        (rw e (IsFreeFor-insert (I.entries m) f.name c fs d.0 v.1)) d.1
      ∙ ap (λ (l : List (Column X)). l ++ cs)
          (ap values e ∙ values-insert_new (I.entries m) f.name c v.0)
      ∙ append_assoc (values (I.entries m)) (c ∷ []) cs

  insert_at_index_there :
      (source : List (Column X)) (k : Text) (i : ℕ) (m : I.Map) (c : Column X)
      → get_elem? source i ≡ some c
      → insert_at_index I source k i m ≡ I.insert m k c
  unfolding insert_at_index
  insert_at_index_there source k i m c h = rw (insert_at_index, h) refl

  values-insert_picked :
      (source : List (Column X)) (fs : List (Field X)) (is : List ℕ) (m : I.Map)
      → length fs ≡ length is
      → All (λ i. i < length source) is
      → IsFreeFor (I.entries m) fs
      → IsDistinct (names fs)
      → values (I.entries (insert_picked I source fs is m))
        ≡ values (I.entries m) ++ picked source is
  unfolding insert_picked
  values-insert_picked source [] [] m w b v d = sym (append-nil (values (I.entries m)))
  values-insert_picked source [] (i ∷ is) m w b v d = absurd (omega arith)
  values-insert_picked source (f ∷ fs) [] m w b v d = absurd (omega arith)
  values-insert_picked source (f ∷ fs) (i ∷ is) m w b v d =
      let (c, there) = in_range source i b.0 in
      let e = I.entries-insert m f.name c in
      rw (insert_at_index_there source f.name i m c there, there)
        (values-insert_picked source fs is (I.insert m f.name c) (omega arith) b.1
            (rw e (IsFreeFor-insert (I.entries m) f.name c fs d.0 v.1)) d.1
          ∙ ap (λ (l : List (Column X)). l ++ picked source is)
              (ap values e ∙ values-insert_new (I.entries m) f.name c v.0)
          ∙ append_assoc (values (I.entries m)) (c ∷ []) (picked source is))

module _ {X : Externals} {I : IndexMap (Column X)} where
  -- A schema of distinct names with one field for each column leaves the rows as they are.
  pub rows-with_schema :
      (s : Schema X) (t : Table X I)
      → IsDistinct (names s.fields)
      → length (column_list t) ≡ length s.fields
      → rows (with_schema s t) ≡ rows t
  unfolding rows with_schema
  rows-with_schema s t d w =
      let free : IsFreeFor (I.entries I.empty) s.fields =
        rw (I.entries-empty) (IsFreeFor-empty s.fields) in
      ap (λ cs. tabulate t.row_count (row_at cs))
        (values-insert_zipped I (column_list t) s.fields I.empty w free d
          ∙ rw (I.entries-empty) refl)

  -- A schema of distinct names with one column index in range for each field: every row is the values
  -- of the old row at these indices, in their order.
  pub rows-with_reordered_schema :
      (s : Schema X) (is : List ℕ) (t : Table X I)
      → IsDistinct (names s.fields)
      → length s.fields ≡ length is
      → All (λ i. i < length (column_list t)) is
      → rows (with_reordered_schema s is t) ≡ map (pick is) (rows t)
  unfolding rows with_reordered_schema
  rows-with_reordered_schema s is t d w b =
      let cs = column_list t in
      let free : IsFreeFor (I.entries I.empty) s.fields =
        rw (I.entries-empty) (IsFreeFor-empty s.fields) in
      ap (λ l. tabulate t.row_count (row_at l))
        (values-insert_picked I cs s.fields is I.empty w b free d ∙ rw (I.entries-empty) refl)
      ∙ tabulate_ext t.row_count (row_at (picked cs is)) (λ j. pick is (row_at cs j))
          (λ j l. row_at-picked cs is j b)
      ∙ sym (map-tabulate t.row_count (pick is) (row_at cs))

  -- `to_query_result` does not fail, and gives the rows with the names and the types of the fields.
  pub to_query_result-rows :
      (t : Table X I)
      → to_query_result t ≡ ok (record { schema = column_infos t.schema.fields; rows = rows t })
  unfolding to_query_result
  to_query_result-rows t = rw (to_records-rows t) refl
