-- ===== src/Storage/Table/Rows.antt =====
-- The loops of table/core.rs over the columns, column by column against row by row.
use yacht_sql.Prelude.{
  ℕ, suc, ◌<◌, ◌≡◌, refl, sym, ap, ap₂, ◌∙◌, subst, Bool, true, false, List, [], ◌∷◌, ◌++◌, map,
  arith, length, get_or, All, ltb, ◌==◌, if◌then◌else◌, length-append, length-set, length-remove_at,
  get_or-append_lt, get_or-append_last, get_or-set, get_or-remove_at,
}
use yacht_sql.Common.Error.{ok}
use yacht_sql.Common.Externals.{Externals}
use yacht_sql.Common.Types.{Value}
use yacht_sql.Storage.Bitmap.Raw.{IsClean}
use yacht_sql.Storage.Column
use yacht_sql.Storage.Column.{Column, nulls, get_value}
use yacht_sql.Storage.Column.Entries
use yacht_sql.Storage.Column.Exact
use yacht_sql.Storage.Column.Rows
use yacht_sql.Storage.Column.Rows.{values, get_value-values, length-values}
use yacht_sql.Storage.Column.Push.{stored, values-push, push-IsValid, push-IsClean}
use yacht_sql.Storage.Column.Typed.{HasColumnType, set-HasColumnType}
use yacht_sql.Storage.Column.Update.{values-set, set-IsValid}
use yacht_sql.Storage.Column.Removal.{values-remove, remove-IsValid}
use yacht_sql.Storage.Table.RowOps.{push_values, set_values, row_at}

module _ {X : Externals} where
  -- The column is valid and has n rows.
  abbrev pub HasRows : ℕ → Column X → Type 0
  HasRows n c = Rows.IsValid c × (length (values c) ≡ n)

  -- No null flag stands behind the last row.
  abbrev pub IsCleanColumn : Column X → Type 0
  IsCleanColumn c = IsClean (nulls c)

  -- What the columns make of a row.
  abbrev pub stored_row : List (Column X) → List (Value X) → List (Value X)
  stored_row [] vs = []
  stored_row (c ∷ cs) [] = []
  stored_row (c ∷ cs) (v ∷ vs) = stored c v ∷ stored_row cs vs

  if_cons :
      (b : Bool) (x y : Value X) (xs ys : List (Value X))
      → (if b then x else y) ∷ (if b then xs else ys) ≡ (if b then x ∷ xs else y ∷ ys)
  if_cons true x y xs ys = refl
  if_cons false x y xs ys = refl

  -- One column after a successful `push`.
  pub push-HasRows :
      (n : ℕ) (c : Column X) (v : Value X)
      → HasRows n c
      → IsCleanColumn c
      → (Entries.push c v).1 ≡ ok tt
      → HasRows (suc n) (Entries.push c v).0
        × ((i : ℕ) → i < n → get_value (Entries.push c v).0 i ≡ get_value c i)
        × (get_value (Entries.push c v).0 n ≡ stored c v)
  push-HasRows n c v h k r =
      let appended = values-push c v h.0 k r in
      (
        (
          push-IsValid c v h.0,
          omega (arith, ap length appended, length-append (values c) (stored c v ∷ []), h.1),
        ),
        λ i l.
            get_value-values (Entries.push c v).0 i
            ∙ ap (λ xs. get_or xs i Value.null) appended
            ∙ get_or-append_lt (values c) (stored c v ∷ []) i Value.null (omega (arith, h.1))
            ∙ sym (get_value-values c i),
        get_value-values (Entries.push c v).0 n
            ∙ ap (λ xs. get_or xs n Value.null) appended
            ∙ ap (λ k. get_or (values c ++ stored c v ∷ []) k Value.null) (sym h.1)
            ∙ get_or-append_last (values c) (stored c v) Value.null,
      )

  pub push_values_cons :
      (c : Column X) (cs : List (Column X)) (v : Value X) (vs : List (Value X))
      → (push_values (c ∷ cs) (v ∷ vs)).1 ≡ ok tt
      → ((Entries.push c v).1 ≡ ok tt)
        × ((push_values cs vs).1 ≡ ok tt)
        × ((push_values (c ∷ cs) (v ∷ vs)).0 ≡ (Entries.push c v).0 ∷ (push_values cs vs).0)
  unfolding push_values
  push_values_cons c cs v vs r = ground arith

  -- Every column is one row longer, with no flag behind it, the earlier rows are as before, and the last row is what the
  -- columns make of the values.
  abbrev pub PushedRow : ℕ → List (Column X) → List (Value X) → List (Column X) → Type 0
  PushedRow n cs vs cs' =
      All (HasRows (suc n)) cs'
      × ((i : ℕ) → i < n → row_at cs' i ≡ row_at cs i)
      × (row_at cs' n ≡ stored_row cs vs)
      × (length cs' ≡ length cs)
      × All IsCleanColumn cs'

  -- A row of full width that all columns take lengthens every column by one; the earlier rows are as
  -- before, and the new one is what the columns make of it.
  pub push_values_ok :
      (n : ℕ) (cs : List (Column X)) (vs : List (Value X))
      → All (HasRows n) cs
      → All IsCleanColumn cs
      → length vs ≡ length cs
      → (push_values cs vs).1 ≡ ok tt
      → PushedRow n cs vs (push_values cs vs).0
  unfolding push_values
  push_values_ok n [] vs h k w r = (tt, λ i l. refl, refl, refl, tt)
  push_values_ok n (c ∷ cs) [] h k w r = absurd (omega arith)
  push_values_ok n (c ∷ cs) (v ∷ vs) h k w r =
      let (taken, rest, made) = push_values_cons c cs v vs r in
      let one = push-HasRows n c v h.0 k.0 taken in
      let more = push_values_ok n cs vs h.1 k.1 (omega arith) rest in
      subst (PushedRow n (c ∷ cs) (v ∷ vs)) (sym made) (
        (one.0, more.0),
        λ i l. ap₂ ◌∷◌ (one.1 i l) (more.1 i l),
        ap₂ ◌∷◌ one.2 more.2,
        ap suc more.3,
        (push-IsClean c v h.0.0 k.0, more.4),
      )

  set_values_cons :
      (i : ℕ) (c : Column X) (cs : List (Column X)) (v : Value X) (vs : List (Value X))
      → (set_values i (c ∷ cs) (v ∷ vs)).1 ≡ ok tt
      → ((Exact.set c i v).1 ≡ ok tt)
        × ((set_values i cs vs).1 ≡ ok tt)
        × ((set_values i (c ∷ cs) (v ∷ vs)).0 ≡ (Exact.set c i v).0 ∷ (set_values i cs vs).0)
  unfolding set_values
  set_values_cons i c cs v vs r = ground arith

  -- The values are null or have the types of the columns, one for each.
  abbrev pub HasColumnTypes : List (Column X) → List (Value X) → Type 0
  HasColumnTypes [] [] = Unit {0}
  HasColumnTypes (c ∷ cs) (v ∷ vs) = HasColumnType c v × HasColumnTypes cs vs
  HasColumnTypes _ _ = ⊥

  pub set_values-HasColumnTypes :
      (i : ℕ) (cs : List (Column X)) (vs : List (Value X))
      → HasColumnTypes cs vs
      → ((set_values i cs vs).1 ≡ ok tt) × (length vs ≡ length cs)
  unfolding set_values
  set_values-HasColumnTypes i [] [] h = (refl, refl)
  set_values-HasColumnTypes i [] (v ∷ vs) h = absurd h
  set_values-HasColumnTypes i (c ∷ cs) [] h = absurd h
  set_values-HasColumnTypes i (c ∷ cs) (v ∷ vs) h =
      let (taken, wide) = set_values-HasColumnTypes i cs vs h.1 in
      (ground (arith, set-HasColumnType i h.0, taken), ap suc wide)

  -- One column after a successful `set`.
  set-HasRows :
      (n i : ℕ) (c : Column X) (v : Value X)
      → i < n
      → HasRows n c
      → (Exact.set c i v).1 ≡ ok tt
      → HasRows n (Exact.set c i v).0
        × ((j : ℕ) → get_value (Exact.set c i v).0 j ≡ (if i == j then v else get_value c j))
  set-HasRows n i c v l h r =
      let written = values-set c i v h.0 r in
      (
        (set-IsValid c i v h.0, omega (arith, ap length written, length-set (values c) i v, h.1)),
        λ j.
            get_value-values (Exact.set c i v).0 j
            ∙ ap (λ xs. get_or xs j Value.null) written
            ∙ get_or-set (values c) i j v Value.null (omega (arith, h.1))
            ∙ ap (λ y. if i == j then v else y) (sym (get_value-values c j)),
      )

  -- Row i holds the values themselves, and the other rows are as before.
  abbrev pub SetRow : ℕ → ℕ → List (Column X) → List (Value X) → List (Column X) → Type 0
  SetRow n i cs vs cs' =
      All (HasRows n) cs'
      × ((j : ℕ) → row_at cs' j ≡ (if i == j then vs else row_at cs j))
      × (length cs' ≡ length cs)

  pub set_values_ok :
      (n i : ℕ) (cs : List (Column X)) (vs : List (Value X))
      → i < n
      → All (HasRows n) cs
      → length vs ≡ length cs
      → (set_values i cs vs).1 ≡ ok tt
      → SetRow n i cs vs (set_values i cs vs).0
  unfolding set_values
  set_values_ok n i [] [] l h w r = (tt, λ j. ground arith, refl)
  set_values_ok n i [] (v ∷ vs) l h w r = absurd (omega arith)
  set_values_ok n i (c ∷ cs) [] l h w r = absurd (omega arith)
  set_values_ok n i (c ∷ cs) (v ∷ vs) l h w r =
      let (taken, rest, made) = set_values_cons i c cs v vs r in
      let one = set-HasRows n i c v l h.0 taken in
      let more = set_values_ok n i cs vs l h.1 (omega arith) rest in
      subst (SetRow n i (c ∷ cs) (v ∷ vs)) (sym made) (
        (one.0, more.0),
        λ j. ap₂ ◌∷◌ (one.1 j) (more.1 j) ∙ if_cons (i == j) _ _ _ _,
        ap suc more.2,
      )

  -- Removing row i of every column moves the later rows down by one.
  pub remove_ok :
      (n i : ℕ) (cs : List (Column X))
      → i < suc n
      → All (HasRows (suc n)) cs
      → All (HasRows n) (map (λ c. Column.remove c i) cs)
        × ((j : ℕ)
            → row_at (map (λ c. Column.remove c i) cs) j
              ≡ (if ltb j i then row_at cs j else row_at cs (suc j)))
  remove_ok n i [] l h = (tt, λ j. ground arith)
  remove_ok n i (c ∷ cs) l h =
      let removed = values-remove c i h.0.0 in
      let more = remove_ok n i cs l h.1 in
      (
        (
          (
            remove-IsValid c i (omega (arith, length-values c h.0.0, h.0.1)) h.0.0,
            omega (
              arith,
              ap length removed,
              length-remove_at (values c) i (omega (arith, h.0.1)),
              h.0.1,
            ),
          ),
          more.0,
        ),
        λ j.
            ap₂ ◌∷◌
              (get_value-values (Column.remove c i) j
                ∙ ap (λ xs. get_or xs j Value.null) removed
                ∙ get_or-remove_at (values c) i j Value.null
                ∙ ap₂ (λ y z. if ltb j i then y else z) (sym (get_value-values c j))
                    (sym (get_value-values c (suc j))))
              (more.1 j)
            ∙ if_cons (ltb j i) _ _ _ _,
      )
