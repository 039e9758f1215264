-- ===== src/Relational/Joining.antt =====
-- The loops of crates/executor/src/executor/join.rs against the lists of the joined rows.
use yacht_sql.Prelude.{
  ◌≡◌, refl, sym, ap, ◌∙◌, Bool, true, false, ◌||◌, inl, inr, List, [], ◌∷◌, ◌++◌, Option, All, map,
  arith, if◌then◌else◌, Bool-cases,
}
use yacht_sql.Common.Error.{Result, ok, err, ◌>>=◌}
use yacht_sql.Common.Externals.{Externals}
use yacht_sql.Common.Operators.{Operators}
use yacht_sql.Storage.Column.{Column}
use yacht_sql.Storage.IndexMap.{IndexMap}
use yacht_sql.Storage.Table.{Table}
use yacht_sql.Storage.Table.RowOps.{Record, push_rows}
use yacht_sql.Storage.Table.Rectangular.{rows, to_records-rows}
use yacht_sql.Evaluator.Expr.{Expr}
use yacht_sql.Evaluator.Tests.{IrEvaluator}
use yacht_sql.Relational.Loops.{pushed, push_rows_step, push_rows-append, bind_ext, bind_assoc}
use yacht_sql.Relational.Joined.{
  nonempty, or_alone, HasVerdict, matching, matching_cons, inner_rows, outer_rows,
}
use yacht_sql.Relational.Join.{
  push_matches, inner_join, left_join, right_join, full_right, combine_records, push_combined,
}

pub or_true : (b : Bool) → (b || true) ≡ true
or_true true = refl
or_true false = refl

pub bind_ok {ℓ} : {A : Type ℓ} (m : Result A) → (m >>= ok) ≡ m
bind_ok (ok a) = refl
bind_ok (err e) = refl

module _ {X : Externals} {I : IndexMap (Column X)} where
  -- Pushing a row, where the other steps push rows and give a value.
  pub push_then {ℓ} :
      {B : Type ℓ} (r : Record X) (rs : List (Record X)) (t : Table X I) (f : Table X I → Result B)
      (g : Table X I → Result B)
      → ((t' : Table X I) → f t' ≡ (push_rows rs t' >>= g))
      → (pushed r t >>= f) ≡ (push_rows (r ∷ rs) t >>= g)
  push_then r rs t f g h =
      bind_ext (pushed r t) f (λ t'. push_rows rs t' >>= g) h
      ∙ bind_assoc (pushed r t) (push_rows rs) g
      ∙ ap (λ m. m >>= g) (sym (push_rows_step r rs t))

  -- Steps that push rows, one after the other.
  pub push_append {ℓ} :
      {B : Type ℓ} (xs ys : List (Record X)) (t : Table X I) (f g : Table X I → Result B)
      → ((t' : Table X I) → f t' ≡ (push_rows ys t' >>= g))
      → (push_rows xs t >>= f) ≡ (push_rows (xs ++ ys) t >>= g)
  push_append xs ys t f g h =
      bind_ext (push_rows xs t) f (λ t'. push_rows ys t' >>= g) h
      ∙ bind_assoc (push_rows xs t) (push_rows ys) g
      ∙ ap (λ m. m >>= g) (sym (push_rows-append xs ys t))

  -- The matching rows are pushed, or one row where there is none, and then the others.
  pub settle {ℓ} :
      {B : Type ℓ} (ms : List (Record X)) (a : Record X) (rest : List (Record X)) (t : Table X I)
      (next g : Table X I → Result B)
      → ((t' : Table X I) → next t' ≡ (push_rows rest t' >>= g))
      → (push_rows ms t >>= λ u. if nonempty ms then next u else (pushed a u >>= next))
        ≡ (push_rows (or_alone ms a ++ rest) t >>= g)
  settle [] a rest t next g h = unfold push_rows in push_then a rest t next g h
  settle (x ∷ xs) a rest t next g h = push_append (x ∷ xs) rest t next g h

  push_step :
      (r : Record X) (rs : List (Record X)) (t : Table X I) (f : Table X I → Result (Table X I))
      → ((t' : Table X I) → f t' ≡ push_rows rs t')
      → (pushed r t >>= f) ≡ push_rows (r ∷ rs) t
  push_step r rs t f h = bind_ext (pushed r t) f (push_rows rs) h ∙ sym (push_rows_step r rs t)

module _ {X : Externals} {I : IndexMap (Column X)} where
  pub push_combined-push_rows :
      (l : Record X) (rs : List (Record X)) (t : Table X I)
      → push_combined l rs t ≡ push_rows (map (combine_records l) rs) t
  unfolding push_combined
  push_combined-push_rows l [] t = unfold push_rows in refl
  push_combined-push_rows l (r ∷ rs) t =
      push_step (combine_records l r) (map (combine_records l) rs) t (push_combined l rs)
        (push_combined-push_rows l rs)

  pub full_right-push_rows :
      (nulls : Record X) (rs : List (Record X)) (t : Table X I)
      → full_right nulls rs t ≡ push_rows (map (λ r. nulls ++ r) rs) t
  unfolding full_right
  full_right-push_rows nulls [] t = unfold push_rows in refl
  full_right-push_rows nulls (r ∷ rs) t =
      push_step (nulls ++ r) (map (λ q. nulls ++ q) rs) t (full_right nulls rs)
        (full_right-push_rows nulls rs)

module _ {X : Externals} {I : IndexMap (Column X)} (O : Operators X) (ev : IrEvaluator X)
    (condition : Option (Expr X)) where
  -- The inner loop pushes the matching rows, and says whether there is one.
  pub push_matches-push_rows :
      (combine : Record X → Record X) (had : Bool) (rs : List (Record X)) (t : Table X I)
      → All (λ r. HasVerdict O ev condition (combine r)) rs
      → push_matches O ev condition combine had rs t ≡ (
          push_rows (matching O ev condition combine rs) t >>= λ u.
          ok (had || nonempty (matching O ev condition combine rs), u))
  unfolding push_matches
  push_matches-push_rows combine had [] t h = unfold push_rows matching in ground arith
  push_matches-push_rows combine had (r ∷ rs) t h =
      let (b, verdict) = h.0 in
      rw (matching_cons O ev condition combine r rs b verdict, verdict)
        (elim (Bool-cases b) [
          | inr e ↦ rw e (push_matches-push_rows combine had rs t h.1)
          | inl e ↦
              rw (e, or_true had)
                (push_then (combine r) (matching O ev condition combine rs) t
                  (push_matches O ev condition combine true rs) (λ u. ok (true, u))
                  (λ u. push_matches-push_rows combine true rs u h.1))
        ])

  pub inner_join-push_rows :
      (ls : List (Record X)) (right t : Table X I)
      → All (λ l. All (λ r. HasVerdict O ev condition (combine_records l r)) (rows right)) ls
      → inner_join O ev condition ls right t
        ≡ push_rows (inner_rows O ev condition ls (rows right)) t
  unfolding inner_join inner_rows
  inner_join-push_rows [] right t h = unfold push_rows in refl
  inner_join-push_rows (l ∷ ls) right t h =
      let found = matching O ev condition (combine_records l) (rows right) in
      rw
        (to_records-rows right, push_matches-push_rows (combine_records l) false (rows right) t h.0)
        (sym (
            bind_assoc (push_rows found t) (λ u. ok (nonempty found, u))
              (λ st. inner_join O ev condition ls right (st.1)))
          ∙ push_append found (inner_rows O ev condition ls (rows right)) t
              (inner_join O ev condition ls right) ok
              (λ u. inner_join-push_rows ls right u h.1 ∙ sym (bind_ok _))
          ∙ bind_ok _)

  pub left_join-push_rows :
      (nulls : Record X) (ls : List (Record X)) (right t : Table X I)
      → All (λ l. All (λ r. HasVerdict O ev condition (combine_records l r)) (rows right)) ls
      → left_join O ev condition nulls ls right t
        ≡ push_rows (outer_rows O ev condition combine_records (λ l. l ++ nulls) ls (rows right)) t
  unfolding left_join outer_rows
  left_join-push_rows nulls [] right t h = unfold push_rows in refl
  left_join-push_rows nulls (l ∷ ls) right t h =
      let found = matching O ev condition (combine_records l) (rows right) in
      let others = outer_rows O ev condition combine_records (λ k. k ++ nulls) ls (rows right) in
      let next = left_join O ev condition nulls ls right in
      rw
        (to_records-rows right, push_matches-push_rows (combine_records l) false (rows right) t h.0)
        (sym (
            bind_assoc (push_rows found t) (λ u. ok (nonempty found, u))
              (λ st. if st.0 then next (st.1) else (pushed (l ++ nulls) (st.1) >>= next)))
          ∙ settle found (l ++ nulls) others t next ok
              (λ u. left_join-push_rows nulls ls right u h.1 ∙ sym (bind_ok _))
          ∙ bind_ok _)

  pub right_join-push_rows :
      (nulls : Record X) (rs : List (Record X)) (left t : Table X I)
      → All (λ r. All (λ l. HasVerdict O ev condition (combine_records l r)) (rows left)) rs
      → right_join O ev condition nulls rs left t
        ≡ push_rows
            (outer_rows O ev condition
              (λ r l. combine_records l r)
              (λ r. nulls ++ r)
              rs
              (rows left))
            t
  unfolding right_join outer_rows
  right_join-push_rows nulls [] left t h = unfold push_rows in refl
  right_join-push_rows nulls (r ∷ rs) left t h =
      let found = matching O ev condition (λ l. combine_records l r) (rows left) in
      let others =
        outer_rows O ev condition (λ q l. combine_records l q) (λ q. nulls ++ q) rs (rows left) in
      let next = right_join O ev condition nulls rs left in
      rw
        (
          to_records-rows left,
          push_matches-push_rows (λ l. combine_records l r) false (rows left) t h.0,
        )
        (sym (
            bind_assoc (push_rows found t) (λ u. ok (nonempty found, u))
              (λ st. if st.0 then next (st.1) else (pushed (nulls ++ r) (st.1) >>= next)))
          ∙ settle found (nulls ++ r) others t next ok
              (λ u. right_join-push_rows nulls rs left u h.1 ∙ sym (bind_ok _))
          ∙ bind_ok _)
