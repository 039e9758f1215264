-- ===== src/Storage/Cells/Rows.antt =====
-- The cells of a column read as a list of optional data, one for each row.
use yacht_sql.Prelude.{
  ℕ, zero, suc, ◌<◌, ◌≡◌, refl, ap, ◌∙◌, Bool, true, List, [], ◌∷◌, ◌++◌, Option, none, some, arith,
  length, get_elem?, get_or, remove_at, leb, ◌||◌, set as list_set, if◌then◌else◌, length-append,
  length-set, length-remove_at,
}
use yacht_sql.Prelude.Tabulate.{length-tabulate}
use yacht_sql.Storage.Bitmap
use yacht_sql.Storage.Bitmap.Raw.{IsWellFormed, IsClean, raw, len-set, len-push}
use yacht_sql.Storage.Bitmap.Shape.{
  new-IsWellFormed, set-IsWellFormed, push-IsWellFormed, remove-IsWellFormed, clear-IsWellFormed,
}
use yacht_sql.Storage.Bitmap.Removal.{len-remove}
use yacht_sql.Storage.Bitmap.Flags.{flags, flags-set, flags-remove, is_null-flags}
use yacht_sql.Storage.Bitmap.Clean.{flags-push_clean}
use yacht_sql.Storage.Cells.{Cells, new, push, set, remove, clear, read}

module _ {ℓ} {A : Type ℓ} where
  -- What a row with a datum and a null flag reads as.
  abbrev pub entry : A × Bool → Option A
  entry (v, b) = if b then none else some v

  unfoldable pub zip_rows : List A → List Bool → List (Option A)
  zip_rows [] bs = []
  zip_rows (v ∷ vs) [] = []
  zip_rows (v ∷ vs) (b ∷ bs) = entry (v, b) ∷ zip_rows vs bs

  unfoldable pub rows : Cells A → List (Option A)
  unfolding zip_rows
  rows c = zip_rows c.values (flags c.nulls)

  -- The data and the bitmap have one length, and the bitmap is in shape.
  pub record IsValid (c : Cells A) : Type 0 where
    pub same_length : length c.values ≡ c.nulls.len
    pub shape : IsWellFormed c.nulls

  zip-append :
      (vs : List A) (bs : List Bool) (v : A) (b : Bool)
      → length vs ≡ length bs
      → zip_rows (vs ++ v ∷ []) (bs ++ b ∷ []) ≡ zip_rows vs bs ++ entry (v, b) ∷ []
  unfolding zip_rows
  zip-append [] [] v b h = refl
  zip-append [] (x ∷ bs) v b h = absurd (omega arith)
  zip-append (u ∷ vs) [] v b h = absurd (omega arith)
  zip-append (u ∷ vs) (x ∷ bs) v b h = ap (◌∷◌ (entry (u, x))) (zip-append vs bs v b (omega arith))

  zip-set :
      (vs : List A) (bs : List Bool) (i : ℕ) (v : A) (b : Bool)
      → zip_rows (list_set vs i v) (list_set bs i b) ≡ list_set (zip_rows vs bs) i (entry (v, b))
  unfolding zip_rows
  zip-set [] bs i v b = refl
  zip-set (u ∷ vs) [] zero v b = refl
  zip-set (u ∷ vs) [] (suc i) v b = refl
  zip-set (u ∷ vs) (x ∷ bs) zero v b = refl
  zip-set (u ∷ vs) (x ∷ bs) (suc i) v b = ap (◌∷◌ (entry (u, x))) (zip-set vs bs i v b)

  zip-remove_at :
      (vs : List A) (bs : List Bool) (i : ℕ)
      → length vs ≡ length bs
      → zip_rows (remove_at vs i) (remove_at bs i) ≡ remove_at (zip_rows vs bs) i
  unfolding zip_rows
  zip-remove_at [] bs i h = refl
  zip-remove_at (u ∷ vs) [] i h = absurd (omega arith)
  zip-remove_at (u ∷ vs) (x ∷ bs) zero h = refl
  zip-remove_at (u ∷ vs) (x ∷ bs) (suc i) h =
      ap (◌∷◌ (entry (u, x))) (zip-remove_at vs bs i (omega arith))

  -- A row that is not there reads as nothing.
  abbrev pub flat : Option (Option A) → Option A
  flat none = none
  flat (some o) = o

  zip-read :
      (vs : List A) (bs : List Bool) (i : ℕ)
      → (if leb (length vs) i || get_or bs i true then none else get_elem? vs i)
        ≡ flat (get_elem? (zip_rows vs bs) i)
  unfolding zip_rows
  zip-read [] bs i = ground arith
  zip-read (u ∷ vs) [] i = ground arith
  zip-read (u ∷ vs) (x ∷ bs) zero = ground arith
  zip-read (u ∷ vs) (x ∷ bs) (suc i) = ground (arith, zip-read vs bs i)

  -- `read` is a lookup in the rows.
  pub read-rows : (c : Cells A) (i : ℕ) → read c i ≡ flat (get_elem? (rows c) i)
  unfolding read rows
  read-rows c i =
      ap (λ b. if leb (length c.values) i || b then none else get_elem? c.values i)
        (is_null-flags c.nulls i)
      ∙ zip-read c.values (flags c.nulls) i

  length-flags : (c : Cells A) → IsValid c → length c.values ≡ length (flags c.nulls)
  unfolding flags
  length-flags c v = omega (arith, v.same_length, length-tabulate c.nulls.len (raw c.nulls))

  length-zip :
      (vs : List A) (bs : List Bool) → length vs ≡ length bs → length (zip_rows vs bs) ≡ length vs
  unfolding zip_rows
  length-zip [] bs h = refl
  length-zip (u ∷ vs) [] h = absurd (omega arith)
  length-zip (u ∷ vs) (x ∷ bs) h = ap suc (length-zip vs bs (omega arith))

  -- There is a row for each datum.
  pub length-rows : (c : Cells A) → IsValid c → length (rows c) ≡ length c.values
  unfolding rows
  length-rows c v = length-zip c.values (flags c.nulls) (length-flags c v)

  pub rows-clear : (c : Cells A) → rows (clear c) ≡ []
  unfolding rows clear
  rows-clear c = refl

  pub new-IsValid : IsValid (new {A = A})
  unfolding new Bitmap.new
  new-IsValid = record { same_length = refl; shape = new-IsWellFormed }

  pub push-IsValid : (c : Cells A) (e : A × Bool) → IsValid c → IsValid (push c e)
  unfolding push
  push-IsValid c (w, b) v = record {
    same_length = omega (arith, v.same_length, length-append c.values (w ∷ []), len-push c.nulls b);
    shape = push-IsWellFormed c.nulls b v.shape;
  }

  pub set-IsValid : (c : Cells A) (i : ℕ) (e : A × Bool) → IsValid c → IsValid (set c i e)
  unfolding set
  set-IsValid c i (w, b) v = record {
    same_length = omega (arith, v.same_length, length-set c.values i w, len-set c.nulls i b);
    shape = set-IsWellFormed c.nulls i b v.shape;
  }

  pub remove-IsValid :
      (c : Cells A) (i : ℕ) → i < length c.values → IsValid c → IsValid (remove c i)
  unfolding remove
  remove-IsValid c i h v = record {
    same_length = omega (
      arith,
      v.same_length,
      length-remove_at c.values i h,
      len-remove c.nulls i (omega (arith, v.same_length)),
    );
    shape = remove-IsWellFormed c.nulls i v.shape;
  }

  pub clear-IsValid : (c : Cells A) → IsValid (clear c)
  unfolding clear Bitmap.clear
  clear-IsValid c = record { same_length = refl; shape = clear-IsWellFormed c.nulls }

  pub rows-new : rows (new {A = A}) ≡ []
  unfolding rows new
  rows-new = refl

  -- Where no bit stands behind the last row, `push` appends its entry.
  pub rows-push :
      (c : Cells A) (e : A × Bool)
      → IsValid c
      → IsClean c.nulls
      → rows (push c e) ≡ rows c ++ entry e ∷ []
  unfolding rows push
  rows-push c (w, b) v clean =
      ap (zip_rows (c.values ++ w ∷ [])) (flags-push_clean c.nulls b v.shape clean)
      ∙ zip-append c.values (flags c.nulls) w b (length-flags c v)

  pub rows-set :
      (c : Cells A) (i : ℕ) (e : A × Bool)
      → IsValid c
      → rows (set c i e) ≡ list_set (rows c) i (entry e)
  unfolding rows set
  rows-set c i (w, b) v =
      ap (zip_rows (list_set c.values i w)) (flags-set c.nulls i b v.shape)
      ∙ zip-set c.values (flags c.nulls) i w b

  pub rows-remove : (c : Cells A) (i : ℕ) → IsValid c → rows (remove c i) ≡ remove_at (rows c) i
  unfolding rows remove
  rows-remove c i v =
      ap (zip_rows (remove_at c.values i)) (flags-remove c.nulls i v.shape)
      ∙ zip-remove_at c.values (flags c.nulls) i (length-flags c v)
