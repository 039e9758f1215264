-- ===== src/Relational/SetOps.antt =====
-- The operators of crates/executor/src/executor/set_ops.rs and distinct.rs against bags of rows.
use yacht_sql.Prelude.{
  ℕ, ◌-◌, min, ◌≡◌, ◌↔◌, refl, sym, ap, ◌∙◌, Bool, true, false, not, List, [], ◌∷◌, ◌++◌, map,
  arith, ltb, if◌then◌else◌,
}
use yacht_sql.Prelude.Text.{Text}
use yacht_sql.Common.Error.{ok}
use yacht_sql.Common.Externals.{Externals}
use yacht_sql.Storage.Column.{Column}
use yacht_sql.Storage.IndexMap.{IndexMap}
use yacht_sql.Storage.Table.{Table, new}
use yacht_sql.Storage.Table.RowOps.{Record, push_rows}
use yacht_sql.Storage.Table.Rectangular.{rows, to_records-rows}
use yacht_sql.Relational.PlanSchema.{PlanSchema, plan_schema_to_schema}
use yacht_sql.Relational.Loops.{bind_ext, bind_assoc, push_rows-append}
use yacht_sql.Relational.Distinct.{
  ValueKey, value_key, value_key_eq, keys_eq, row_to_key, texts_eq, seen_before, count_in,
  count_keys, execute_distinct, execute_union, union_all, union_distinct, execute_intersect,
  execute_except,
}
use yacht_sql.Relational.Bags.{
  Sublist, occurrences, first_with, unseen, counted, uncounted, unseen-Sublist, counted-Sublist,
  uncounted-Sublist, occurrences-unseen, first_with-unseen, occurrences-counted,
  occurrences-uncounted, count_in-count_keys,
}
use yacht_sql.Relational.Pushing.{
  keys_eq_iff, texts_eq_iff, value_key_eq_iff, seen_after, push_unseen-push_rows, push_unseen_table,
  unseen-append, push_counted-push_rows, push_uncounted-push_rows,
}

-- One row for each key that occurs, its first one.
abbrev pub IsDistinct : {R K : Type 0} → (R → K) → (K → K → Bool) → List R → List R → Type 0
IsDistinct key same kept rs =
    Sublist kept rs
    × ((k : _) → occurrences key same k kept ≡ min 1 (occurrences key same k rs))
    × ((k : _) → first_with key same k kept ≡ first_with key same k rs)

module _ {R K : Type 0} (key : R → K) (same : K → K → Bool) where
  seen_before-map :
      (k : K) (rs : List R) → seen_before same k (map key rs) ≡ ltb 0 (occurrences key same k rs)
  unfolding seen_before occurrences
  seen_before-map k [] = ground arith
  seen_before-map k (r ∷ rs) = ground (arith, seen_before-map k rs)

module _ {R K : Type 0} (key : R → K) (same : K → K → Bool)
    (law : (j k : K) → (same j k ≡ true) ↔ (j ≡ k)) (rs : List R) where
  distinct_occurrences :
      (k : K)
      → occurrences key same k (unseen key same (λ j. true) [] rs)
        ≡ min 1 (occurrences key same k rs)
  unfolding seen_before
  distinct_occurrences k = ground (arith, occurrences-unseen key same law (λ j. true) [] rs k)

  distinct_first :
      (k : K) → first_with key same k (unseen key same (λ j. true) [] rs) ≡ first_with key same k rs
  unfolding seen_before
  distinct_first k = first_with-unseen key same law (λ j. true) [] rs k

module _ {X : Externals} {I : IndexMap (Column X)} where
  -- The rows of the inputs, one after the other.
  abbrev pub all_rows : List (Table X I) → List (Record X)
  all_rows [] = []
  all_rows (t ∷ ts) = rows t ++ all_rows ts

  union_all-push_rows :
      (inputs : List (Table X I)) (t : Table X I)
      → union_all inputs t ≡ push_rows (all_rows inputs) t
  unfolding union_all
  union_all-push_rows [] t = unfold push_rows in refl
  union_all-push_rows (input ∷ inputs) t = rw (to_records-rows input) (
      bind_ext (push_rows (rows input) t) (union_all inputs) (push_rows (all_rows inputs))
        (union_all-push_rows inputs)
      ∙ sym (push_rows-append (rows input) (all_rows inputs) t))

  union_distinct-push_rows :
      (inputs : List (Table X I)) (seen : List (List Text)) (t : Table X I)
      → union_distinct inputs seen t
        ≡ push_rows (unseen row_to_key texts_eq (λ k. true) seen (all_rows inputs)) t
  unfolding union_distinct
  union_distinct-push_rows [] seen t = unfold unseen push_rows in refl
  union_distinct-push_rows (input ∷ inputs) seen t =
      let kept = unseen row_to_key texts_eq (λ k. true) seen (rows input) in
      let after = seen_after row_to_key texts_eq (λ k. true) seen (rows input) in
      rw
        (
          to_records-rows input,
          push_unseen-push_rows row_to_key texts_eq (λ k. true) seen (rows input) t,
        )
        (sym (
            bind_assoc (push_rows kept t) (λ u. ok (after, u))
              (λ st. union_distinct inputs (st.0) (st.1)))
          ∙ bind_ext (push_rows kept t) (union_distinct inputs after)
              (push_rows (unseen row_to_key texts_eq (λ k. true) after (all_rows inputs)))
              (union_distinct-push_rows inputs after)
          ∙ sym (push_rows-append kept _ t)
          ∙ ap (λ rs. push_rows rs t)
              (sym (
                unseen-append row_to_key texts_eq (λ k. true) seen (rows input) (all_rows inputs))))

  -- DISTINCT makes its result, with the schema of its input, of one row for each key that occurs, the
  -- first one, in their order.
  pub execute_distinct-rows :
      (to_bits : X.F64 → ℕ) (t : Table X I)
      → (kept : List (Record X)) × (execute_distinct to_bits t ≡ push_rows kept (new t.schema))
        × IsDistinct (map (value_key to_bits)) (keys_eq value_key_eq) kept (rows t)
  unfolding execute_distinct
  execute_distinct-rows to_bits t =
      let key : Record X → List ValueKey = map (value_key to_bits) in
      let same = keys_eq value_key_eq in
      let law = keys_eq_iff value_key_eq value_key_eq_iff in
      let all : List ValueKey → Bool = λ k. true in
      (
        unseen key same all [] (rows t),
        rw (to_records-rows t) (push_unseen_table key same all [] (rows t) (new t.schema)),
        (
          unseen-Sublist key same all [] (rows t),
          distinct_occurrences key same law (rows t),
          distinct_first key same law (rows t),
        ),
      )

  -- UNION ALL makes its result of the rows of its inputs, one input after the other.
  pub execute_union-all :
      (inputs : List (Table X I)) (schema : PlanSchema)
      → execute_union inputs true schema
        ≡ push_rows (all_rows inputs) (new (plan_schema_to_schema schema))
  unfolding execute_union
  execute_union-all inputs schema = union_all-push_rows inputs (new (plan_schema_to_schema schema))

  -- UNION DISTINCT makes its result of one row for each key that occurs in an input, the first one, in
  -- their order.
  pub execute_union-rows :
      (inputs : List (Table X I)) (schema : PlanSchema)
      → (kept : List (Record X)) × (execute_union inputs false schema
          ≡ push_rows kept (new (plan_schema_to_schema schema)))
        × IsDistinct row_to_key texts_eq kept (all_rows inputs)
  unfolding execute_union
  execute_union-rows inputs schema =
      let all : List Text → Bool = λ k. true in
      (
        unseen row_to_key texts_eq all [] (all_rows inputs),
        union_distinct-push_rows inputs [] (new (plan_schema_to_schema schema)),
        (
          unseen-Sublist row_to_key texts_eq all [] (all_rows inputs),
          distinct_occurrences row_to_key texts_eq texts_eq_iff (all_rows inputs),
          distinct_first row_to_key texts_eq texts_eq_iff (all_rows inputs),
        ),
      )

  -- INTERSECT ALL makes its result of rows of the left input, in their order: of each key as many as
  -- both inputs have. INTERSECT DISTINCT takes one row of each key that both inputs have.
  pub execute_intersect-rows :
      (left right : Table X I) (all : Bool) (schema : PlanSchema)
      → (kept : List (Record X)) × (execute_intersect left right all schema
          ≡ push_rows kept (new (plan_schema_to_schema schema)))
        × Sublist kept (rows left)
        × ((k : List Text)
            → occurrences row_to_key texts_eq k kept ≡ (
                if all
                then min
                    (occurrences row_to_key texts_eq k (rows right))
                    (occurrences row_to_key texts_eq k (rows left))
                else min 1 (
                    min
                      (occurrences row_to_key texts_eq k (rows right))
                      (occurrences row_to_key texts_eq k (rows left)))))
  unfolding execute_intersect
  execute_intersect-rows left right true schema =
      let counts = count_keys row_to_key texts_eq (rows right) [] in
      (
        counted row_to_key texts_eq counts (rows left),
        rw (to_records-rows right, to_records-rows left)
            (push_counted-push_rows row_to_key texts_eq counts (rows left)
              (new (plan_schema_to_schema schema))),
        counted-Sublist row_to_key texts_eq counts (rows left),
        λ k.
            unfold count_in in
            ground (
              arith,
              occurrences-counted row_to_key texts_eq texts_eq_iff counts (rows left) k,
              count_in-count_keys row_to_key texts_eq texts_eq_iff (rows right) [] k,
            ),
      )
  execute_intersect-rows left right false schema =
      let wanted : List Text → Bool = λ k. seen_before texts_eq k (map row_to_key (rows right)) in
      (
        unseen row_to_key texts_eq wanted [] (rows left),
        rw (to_records-rows right, to_records-rows left)
            (push_unseen_table row_to_key texts_eq wanted [] (rows left)
              (new (plan_schema_to_schema schema))),
        unseen-Sublist row_to_key texts_eq wanted [] (rows left),
        λ k.
            unfold seen_before in
            ground (
              arith,
              occurrences-unseen row_to_key texts_eq texts_eq_iff wanted [] (rows left) k,
              seen_before-map row_to_key texts_eq k (rows right),
            ),
      )

  -- EXCEPT ALL makes its result of rows of the left input, in their order: of each key as many as are
  -- left when those of the right input are taken away. EXCEPT DISTINCT takes one row of each key that
  -- the left input has and the right one has not.
  pub execute_except-rows :
      (left right : Table X I) (all : Bool) (schema : PlanSchema)
      → (kept : List (Record X)) × (execute_except left right all schema
          ≡ push_rows kept (new (plan_schema_to_schema schema)))
        × Sublist kept (rows left)
        × ((k : List Text)
            → occurrences row_to_key texts_eq k kept ≡ (
                if all
                then occurrences row_to_key texts_eq k (rows left)
                  - occurrences row_to_key texts_eq k (rows right)
                else min
                    (1 - occurrences row_to_key texts_eq k (rows right))
                    (occurrences row_to_key texts_eq k (rows left))))
  unfolding execute_except
  execute_except-rows left right true schema =
      let counts = count_keys row_to_key texts_eq (rows right) [] in
      (
        uncounted row_to_key texts_eq counts (rows left),
        rw (to_records-rows right, to_records-rows left)
            (push_uncounted-push_rows row_to_key texts_eq counts (rows left)
              (new (plan_schema_to_schema schema))),
        uncounted-Sublist row_to_key texts_eq counts (rows left),
        λ k.
            unfold count_in in
            ground (
              arith,
              occurrences-uncounted row_to_key texts_eq texts_eq_iff counts (rows left) k,
              count_in-count_keys row_to_key texts_eq texts_eq_iff (rows right) [] k,
            ),
      )
  execute_except-rows left right false schema =
      let wanted : List Text → Bool =
        λ k. not (seen_before texts_eq k (map row_to_key (rows right))) in
      (
        unseen row_to_key texts_eq wanted [] (rows left),
        rw (to_records-rows right, to_records-rows left)
            (push_unseen_table row_to_key texts_eq wanted [] (rows left)
              (new (plan_schema_to_schema schema))),
        unseen-Sublist row_to_key texts_eq wanted [] (rows left),
        λ k.
            unfold seen_before in
            ground (
              arith,
              occurrences-unseen row_to_key texts_eq texts_eq_iff wanted [] (rows left) k,
              seen_before-map row_to_key texts_eq k (rows right),
            ),
      )
