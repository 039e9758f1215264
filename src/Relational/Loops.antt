-- ===== src/Relational/Loops.antt =====
-- What the operators of crates/executor/src/executor share: pushing the rows that are kept into an
-- empty table, one after the other.
use yacht_sql.Prelude.{◌≡◌, refl, ap, ◌∙◌, List, [], ◌∷◌, ◌++◌, sym, inl, inr}
use yacht_sql.Common.Error.{Result, ok, err, ◌>>=◌, Result-cases}
use yacht_sql.Common.Externals.{Externals}
use yacht_sql.Storage.Column.{Column}
use yacht_sql.Storage.IndexMap.{IndexMap}
use yacht_sql.Storage.Table.{Table}
use yacht_sql.Storage.Table.RowOps.{Record, push_row, push_rows}

pub bind_ext {ℓ κ} :
    {A : Type ℓ} {B : Type κ} (m : Result A) (f g : A → Result B)
    → ((a : A) → f a ≡ g a)
    → (m >>= f) ≡ (m >>= g)
bind_ext (ok a) f g h = h a
bind_ext (err e) f g h = refl

pub bind_assoc {ℓ κ μ} :
    {A : Type ℓ} {B : Type κ} {C : Type μ} (m : Result A) (f : A → Result B) (g : B → Result C)
    → (m >>= λ a. f a >>= g) ≡ ((m >>= f) >>= g)
bind_assoc (ok a) f g = refl
bind_assoc (err e) f g = refl

module _ {X : Externals} {I : IndexMap (Column X)} where
  -- result.push_row(row)?
  unfoldable pub pushed : Record X → Table X I → Result (Table X I)
  pushed row t = let (t', r) = push_row row t in elim r [ err e ↦ err e | ok u ↦ ok t' ]

  -- Pushing a row and then the others.
  pub push_rows_step :
      (row : Record X) (rows : List (Record X)) (t : Table X I)
      → push_rows (row ∷ rows) t ≡ (pushed row t >>= push_rows rows)
  unfolding push_rows pushed
  push_rows_step row rows t = elim (Result-cases (push_row row t).1) [
    | inl (u, e) ↦ rw (push_rows, pushed, e) refl
    | inr (x, e) ↦ rw (push_rows, pushed, e) refl
  ]

  pub push_rows-append :
      (xs ys : List (Record X)) (t : Table X I)
      → push_rows (xs ++ ys) t ≡ (push_rows xs t >>= push_rows ys)
  push_rows-append [] ys t = unfold push_rows in refl
  push_rows-append (x ∷ xs) ys t =
      push_rows_step x (xs ++ ys) t
      ∙ bind_ext (pushed x t) (push_rows (xs ++ ys)) (λ u. push_rows xs u >>= push_rows ys)
          (push_rows-append xs ys)
      ∙ bind_assoc (pushed x t) (push_rows xs) (push_rows ys)
      ∙ ap (λ m. m >>= push_rows ys) (sym (push_rows_step x xs t))
