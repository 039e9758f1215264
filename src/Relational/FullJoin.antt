-- ===== src/Relational/FullJoin.antt =====
-- `full_join` of crates/executor/src/executor/join.rs against the rows of a full join.
use yacht_sql.Prelude.{
  ◌≡◌, refl, sym, ap, ◌∙◌, Bool, true, false, ◌||◌, inl, inr, List, [], ◌∷◌, ◌++◌, Option, All,
  replicate, length, length-replicate, map, arith, if◌then◌else◌, Bool-cases,
}
use yacht_sql.Common.Error.{ok, ◌>>=◌}
use yacht_sql.Common.Externals.{Externals}
use yacht_sql.Common.Operators.{Operators}
use yacht_sql.Storage.Column.{Column}
use yacht_sql.Storage.IndexMap.{IndexMap}
use yacht_sql.Storage.Table.{Table}
use yacht_sql.Storage.Table.RowOps.{Record, push_rows}
use yacht_sql.Storage.Table.Rectangular.{rows, to_records-rows}
use yacht_sql.Evaluator.Expr.{Expr}
use yacht_sql.Evaluator.Tests.{IrEvaluator}
use yacht_sql.Relational.Loops.{pushed, bind_assoc}
use yacht_sql.Relational.PlanSchema.{JoinType}
use yacht_sql.Relational.Join.{
  push_marking, full_left, full_right, full_join, unmatched, combine_records, null_row,
}
use yacht_sql.Relational.Joined.{
  nonempty, HasVerdict, matching, matching_cons, holds, outer_rows, lonely, marks, all_marks,
  unmatched-all_marks, length-marks, joined_rows,
}
use yacht_sql.Relational.Joining.{
  or_true, bind_ok, push_then, push_append, settle, full_right-push_rows,
}

module _ {ℓ κ} {A : Type ℓ} where
  pub All-map : {P Q : A → Type κ} (xs : List A) → ((x : A) → P x → Q x) → All P xs → All Q xs
  All-map [] f h = h
  All-map (x ∷ xs) f h = (f x h.0, All-map xs f h.1)

module _ {A B : Type 0} (P : A → B → Type 0) where
  -- What holds of each pair does in the other order.
  pub All-swap :
      (xs : List A) (ys : List B) → All (λ x. All (P x) ys) xs → All (λ y. All (λ x. P x y) xs) ys
  All-swap xs [] h = tt
  All-swap xs (y ∷ ys) h = (All-map xs (λ x p. p.0) h, All-swap xs ys (All-map xs (λ x p. p.1) h))

module _ {X : Externals} (O : Operators X) (ev : IrEvaluator X) (condition : Option (Expr X)) where
  -- One flag, where the condition has a value.
  marks_cons :
      (l r : Record X) (rs : List (Record X)) (f : Bool) (fs : List Bool)
      (h : HasVerdict O ev condition (combine_records l r))
      → marks O ev condition l (r ∷ rs) (f ∷ fs)
        ≡ (if h.0 then true else f) ∷ marks O ev condition l rs fs
  unfolding marks holds
  marks_cons l r rs f fs (b, verdict) = rw verdict refl

module _ {X : Externals} {I : IndexMap (Column X)} (O : Operators X) (ev : IrEvaluator X)
    (condition : Option (Expr X)) where
  -- The inner loop pushes the matching rows and marks them.
  push_marking-push_rows :
      (l : Record X) (had : Bool) (rs : List (Record X)) (fs : List Bool) (t : Table X I)
      → length fs ≡ length rs
      → All (λ r. HasVerdict O ev condition (combine_records l r)) rs
      → push_marking O ev condition l had rs fs t ≡ (
          push_rows (matching O ev condition (combine_records l) rs) t >>= λ u. ok (
            had || nonempty (matching O ev condition (combine_records l) rs),
            (marks O ev condition l rs fs, u),
          ))
  unfolding push_marking
  push_marking-push_rows l had [] fs t n h = unfold push_rows matching marks in ground arith
  push_marking-push_rows l had (r ∷ rs) [] t n h = cc
  push_marking-push_rows l had (r ∷ rs) (f ∷ fs) t n h =
      let found = matching O ev condition (combine_records l) rs in
      let flags = marks O ev condition l rs fs in
      let m : length fs ≡ length rs = omega (arith, n) in
      rw
        (
          matching_cons O ev condition (combine_records l) r rs h.0.0 h.0.1,
          marks_cons O ev condition l r rs f fs h.0,
          h.0.1,
        )
        (elim (Bool-cases h.0.0) [
          | inr e ↦
              rw (e, push_marking-push_rows l had rs fs t m h.1)
                (sym (
                  bind_assoc (push_rows found t) (λ u. ok (had || nonempty found, (flags, u)))
                    (λ st. ok (st.0, (f ∷ st.1.0, st.1.1)))))
          | inl e ↦
              rw (e, or_true had)
                (sym (
                    bind_assoc (pushed (combine_records l r) t)
                      (push_marking O ev condition l true rs fs)
                      (λ st. ok (st.0, (true ∷ st.1.0, st.1.1))))
                  ∙ push_then (combine_records l r) found t
                      (λ u. push_marking O ev condition l true rs fs u >>= λ st.
                        ok (st.0, (true ∷ st.1.0, st.1.1)))
                      (λ u. ok (true, (true ∷ flags, u)))
                      (λ u.
                        ap (λ q. q >>= λ st. ok (st.0, (true ∷ st.1.0, st.1.1)))
                          (push_marking-push_rows l true rs fs u m h.1)
                        ∙ sym (
                            bind_assoc (push_rows found u) (λ w. ok (true, (flags, w)))
                              (λ st. ok (st.0, (true ∷ st.1.0, st.1.1))))))
        ])

  full_left-push_rows :
      (nulls : Record X) (ls rs : List (Record X)) (fs : List Bool) (t : Table X I)
      → length fs ≡ length rs
      → All (λ l. All (λ r. HasVerdict O ev condition (combine_records l r)) rs) ls
      → full_left O ev condition nulls ls rs fs t ≡ (
          push_rows (outer_rows O ev condition combine_records (λ l. l ++ nulls) ls rs) t >>= λ u.
          ok (all_marks O ev condition ls rs fs, u))
  unfolding full_left outer_rows all_marks
  full_left-push_rows nulls [] rs fs t n h = unfold push_rows in refl
  full_left-push_rows nulls (l ∷ ls) rs fs t n h =
      let found = matching O ev condition (combine_records l) rs in
      let flags = marks O ev condition l rs fs in
      let others = outer_rows O ev condition combine_records (λ k. k ++ nulls) ls rs in
      let next = full_left O ev condition nulls ls rs flags in
      rw (push_marking-push_rows l false rs fs t n h.0) (
        sym (
          bind_assoc (push_rows found t) (λ u. ok (nonempty found, (flags, u)))
            (λ st.
              if st.0
              then full_left O ev condition nulls ls rs (st.1.0) (st.1.1)
              else (pushed (l ++ nulls) (st.1.1)
                  >>= full_left O ev condition nulls ls rs (st.1.0))))
        ∙ settle found (l ++ nulls) others t next
            (λ u. ok (all_marks O ev condition ls rs flags, u))
            (λ u.
              full_left-push_rows nulls ls rs flags u (length-marks O ev condition l rs fs ∙ n)
                h.1))

  pub full_join-push_rows :
      (left right t : Table X I)
      → All
          (λ l. All (λ r. HasVerdict O ev condition (combine_records l r)) (rows right))
          (rows left)
      → full_join O ev condition left right t
        ≡ push_rows
            (joined_rows O ev condition JoinType.full
              (null_row left.schema)
              (null_row right.schema)
              (rows left)
              (rows right))
            t
  unfolding full_join joined_rows
  full_join-push_rows left right t h =
      let start = replicate (length (rows right)) false in
      let outer =
        outer_rows O ev condition combine_records (λ l. l ++ null_row right.schema) (rows left)
          (rows right) in
      let alone =
        map (λ r. null_row left.schema ++ r) (lonely O ev condition (rows left) (rows right)) in
      rw
        (
          to_records-rows left,
          to_records-rows right,
          full_left-push_rows (null_row right.schema) (rows left) (rows right) start t
              (length-replicate (length (rows right)) false) h,
        )
        (sym (
            bind_assoc (push_rows outer t)
              (λ u. ok (all_marks O ev condition (rows left) (rows right) start, u))
              (λ st. full_right (null_row left.schema) (unmatched (rows right) (st.0)) (st.1)))
          ∙ ap (λ us. push_rows outer t >>= full_right (null_row left.schema) us)
              (unmatched-all_marks O ev condition (rows left) (rows right))
          ∙ push_append outer alone t
              (full_right (null_row left.schema) (lonely O ev condition (rows left) (rows right)))
              ok (λ u. full_right-push_rows (null_row left.schema) _ u ∙ sym (bind_ok _))
          ∙ bind_ok _)
