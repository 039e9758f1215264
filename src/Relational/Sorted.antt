-- ===== src/Relational/Sorted.antt =====
-- `execute_sort` of crates/executor/src/executor/sort.rs on keys that are integers or null.
use Prim.Native.Nat.{Ordering, compare}
use yacht_sql.Prelude.{
  ℕ, ◌+◌, ◌-◌, ◌≡◌, refl, sym, ap, ◌∙◌, ◌⊎◌, Bool, true, inl, inr, List, [], ◌∷◌, arith, All,
  if◌then◌else◌, Bool-cases,
}
use yacht_sql.Prelude.Text.{text_eq, text_eq_iff}
use yacht_sql.Common.Externals.{Externals}
use yacht_sql.Common.Operators.{Operators}
use yacht_sql.Common.Signed.{offset, signed_cmp}
use yacht_sql.Common.Types.{Value}
use yacht_sql.Common.ValueEquality.{text_cmp}
use yacht_sql.Storage.Column.{Column}
use yacht_sql.Storage.IndexMap.{IndexMap}
use yacht_sql.Storage.Table.{Table, new}
use yacht_sql.Storage.Table.RowOps.{Record, push_rows}
use yacht_sql.Storage.Table.Rectangular.{rows, to_records-rows}
use yacht_sql.Evaluator.Comparison.{is_le}
use yacht_sql.Evaluator.Tests.{IrEvaluator}
use yacht_sql.Evaluator.Evaluate.{evaluate}
use yacht_sql.Relational.Sort.{
  SortExpr, insert, sort_by, compare_keys, compare_rows, or_null, plain, execute_sort,
}

text_cmp_refl : (s : List ℕ) → text_cmp s s ≡ Ordering.eq
unfolding text_cmp
text_cmp_refl [] = refl
text_cmp_refl (c ∷ s) = ground (arith, text_cmp_refl s)

text_cmp_trans :
    (s t u : List ℕ)
    → is_le (text_cmp s t) ≡ true
    → is_le (text_cmp t u) ≡ true
    → is_le (text_cmp s u) ≡ true
unfolding text_cmp
text_cmp_trans [] t [] h k = refl
text_cmp_trans [] t (e ∷ u) h k = refl
text_cmp_trans (c ∷ s) [] u h k = cc
text_cmp_trans (c ∷ s) (d ∷ t) [] h k = cc
text_cmp_trans (c ∷ s) (d ∷ t) (e ∷ u) h k = ground (arith, text_cmp_trans s t u)

text_cmp_gt : (s t : List ℕ) → text_cmp s t ≡ Ordering.gt → is_le (text_cmp t s) ≡ true
unfolding text_cmp
text_cmp_gt [] [] h = refl
text_cmp_gt [] (d ∷ t) h = cc
text_cmp_gt (c ∷ s) [] h = refl
text_cmp_gt (c ∷ s) (d ∷ t) h = ground (arith, text_cmp_gt s t)

le_or_gt : (o : Ordering) → (is_le o ≡ true) ⊎ (o ≡ Ordering.gt)
le_or_gt Ordering.lt = inl refl
le_or_gt Ordering.eq = inl refl
le_or_gt Ordering.gt = inr refl

not_gt : (s t : List ℕ) → text_cmp s t ≡ Ordering.gt → s ≡ t → ⊥
not_gt s t h e =
    let gt_is_eq : Ordering.gt ≡ Ordering.eq = sym h ∙ ap (text_cmp s) (sym e) ∙ text_cmp_refl s in
    cc

module _ {A : Type 0} (rank : A → List ℕ) where
  abbrev by_rank : A → A → Ordering
  by_rank a b = text_cmp (rank a) (rank b)

  -- No element has a greater rank than a later one.
  abbrev pub IsSorted : List A → Type 0
  IsSorted [] = Unit
  IsSorted (x ∷ xs) = All (λ y. is_le (text_cmp (rank x) (rank y)) ≡ true) xs × IsSorted xs

  -- The elements of a rank, in order.
  unfoldable pub with_rank : List ℕ → List A → List A
  unfolding text_eq
  with_rank k [] = []
  with_rank k (x ∷ xs) = let rest = with_rank k xs in if text_eq (rank x) k then x ∷ rest else rest

  insert_le :
      (x y : A) (ys : List A)
      → is_le (text_cmp (rank x) (rank y)) ≡ true
      → insert by_rank x (y ∷ ys) ≡ x ∷ y ∷ ys
  unfolding insert
  insert_le x y ys h = ground arith

  insert_gt :
      (x y : A) (ys : List A)
      → text_cmp (rank x) (rank y) ≡ Ordering.gt
      → insert by_rank x (y ∷ ys) ≡ y ∷ insert by_rank x ys
  unfolding insert
  insert_gt x y ys h = rw (insert, h) refl

  insert-All : (P : A → Type 0) (x : A) (xs : List A) → P x → All P xs → All P (insert by_rank x xs)
  insert-All P x [] p all = unfold insert in (p, tt)
  insert-All P x (y ∷ ys) p all = elim (le_or_gt (text_cmp (rank x) (rank y))) [
    | inl h ↦ rw (insert_le x y ys h) (p, all)
    | inr h ↦ rw (insert_gt x y ys h) (all.0, insert-All P x ys p all.1)
  ]

  All-le :
      (x y : A) (ys : List A)
      → is_le (text_cmp (rank x) (rank y)) ≡ true
      → All (λ z. is_le (text_cmp (rank y) (rank z)) ≡ true) ys
      → All (λ z. is_le (text_cmp (rank x) (rank z)) ≡ true) ys
  All-le x y [] h all = tt
  All-le x y (z ∷ zs) h all =
      (text_cmp_trans (rank x) (rank y) (rank z) h all.0, All-le x y zs h all.1)

  insert-IsSorted : (x : A) (xs : List A) → IsSorted xs → IsSorted (insert by_rank x xs)
  insert-IsSorted x [] s = unfold insert in (tt, tt)
  insert-IsSorted x (y ∷ ys) s = elim (le_or_gt (text_cmp (rank x) (rank y))) [
    | inl h ↦ rw (insert_le x y ys h) ((h, All-le x y ys h s.0), s)
    | inr h ↦ rw (insert_gt x y ys h) (
      insert-All (λ z. is_le (text_cmp (rank y) (rank z)) ≡ true) x ys
          (text_cmp_gt (rank x) (rank y) h) s.0,
      insert-IsSorted x ys s.1,
    )
  ]

  with_rank_cons :
      (k : List ℕ) (x : A) (xs ys : List A)
      → with_rank k xs ≡ with_rank k ys
      → with_rank k (x ∷ xs) ≡ with_rank k (x ∷ ys)
  unfolding with_rank
  with_rank_cons k x xs ys h = ground arith

  -- Elements of different ranks may change places.
  with_rank_swap :
      (k : List ℕ) (x y : A) (ys : List A)
      → (rank x ≡ rank y → ⊥)
      → with_rank k (y ∷ x ∷ ys) ≡ with_rank k (x ∷ y ∷ ys)
  unfolding with_rank
  with_rank_swap k x y ys h = elim (Bool-cases (text_eq (rank x) k)) [
    | inr e ↦ rw e refl
    | inl e ↦ elim (Bool-cases (text_eq (rank y) k)) [
      | inr f ↦ rw (e, f) refl
      | inl f ↦ absurd (h ((text_eq_iff (rank x) k).0 e ∙ sym ((text_eq_iff (rank y) k).0 f)))
    ]
  ]

  insert-with_rank :
      (k : List ℕ) (x : A) (xs : List A) → with_rank k (insert by_rank x xs) ≡ with_rank k (x ∷ xs)
  insert-with_rank k x [] = unfold insert in refl
  insert-with_rank k x (y ∷ ys) = elim (le_or_gt (text_cmp (rank x) (rank y))) [
    | inl h ↦ rw (insert_le x y ys h) refl
    | inr h ↦ rw (insert_gt x y ys h) (
        with_rank_cons k y (insert by_rank x ys) (x ∷ ys) (insert-with_rank k x ys)
        ∙ with_rank_swap k x y ys (λ e. not_gt (rank x) (rank y) h e))
  ]

  sort_by-All : (P : A → Type 0) (xs : List A) → All P xs → All P (sort_by by_rank xs)
  unfolding sort_by
  sort_by-All P [] all = tt
  sort_by-All P (x ∷ xs) all = insert-All P x (sort_by by_rank xs) all.0 (sort_by-All P xs all.1)

  insert-ext :
      (P : A → Type 0) (cmp : A → A → Ordering) (x : A) (xs : List A)
      → ((a b : A) → P a → P b → cmp a b ≡ by_rank a b)
      → P x
      → All P xs
      → insert cmp x xs ≡ insert by_rank x xs
  unfolding insert
  insert-ext P cmp x [] e p all = refl
  insert-ext P cmp x (y ∷ ys) e p all =
      rw (insert, e x y p all.0) (ground (arith, insert-ext P cmp x ys e p all.1))

  pub sort_by-IsSorted : (xs : List A) → IsSorted (sort_by by_rank xs)
  unfolding sort_by
  sort_by-IsSorted [] = tt
  sort_by-IsSorted (x ∷ xs) = insert-IsSorted x (sort_by by_rank xs) (sort_by-IsSorted xs)

  pub sort_by-with_rank :
      (k : List ℕ) (xs : List A) → with_rank k (sort_by by_rank xs) ≡ with_rank k xs
  unfolding sort_by
  sort_by-with_rank k [] = refl
  sort_by-with_rank k (x ∷ xs) =
      insert-with_rank k x (sort_by by_rank xs)
      ∙ with_rank_cons k x (sort_by by_rank xs) xs (sort_by-with_rank k xs)

  -- Where the comparison is that of the ranks, so is the sort.
  sort_by-ext :
      (P : A → Type 0) (cmp : A → A → Ordering) (xs : List A)
      → ((a b : A) → P a → P b → cmp a b ≡ by_rank a b)
      → All P xs
      → sort_by cmp xs ≡ sort_by by_rank xs
  unfolding sort_by
  sort_by-ext P cmp [] e all = refl
  sort_by-ext P cmp (x ∷ xs) e all =
      ap (insert cmp x) (sort_by-ext P cmp xs e all.1)
      ∙ insert-ext P cmp x (sort_by by_rank xs) e all.0 (sort_by-All P xs all.1)

-- The place of a key among those of its column.
abbrev key_rank : {X : Externals} → Bool → Bool → Value X → ℕ
key_rank asc nulls_first Value.null = if nulls_first then 0 else 0x10000000000000001
key_rank asc nulls_first (Value.int64 n) =
    if asc then offset n + 1 else 0x10000000000000000 - offset n
key_rank asc nulls_first _ = 0

abbrev pub IsIntOrNull : {X : Externals} → Value X → Type 0
IsIntOrNull Value.null = Unit {0}
IsIntOrNull (Value.int64 n) = Unit {0}
IsIntOrNull _ = ⊥

module _ {X : Externals} (O : Operators X) where
  compare_keys-rank :
      (asc nulls_first : Bool) (a b : Value X)
      → IsIntOrNull a
      → IsIntOrNull b
      → compare_keys O asc nulls_first a b
        ≡ compare (key_rank asc nulls_first a) (key_rank asc nulls_first b)
  unfolding compare_keys signed_cmp
  compare_keys-rank asc nulls_first Value.null Value.null h k = ground arith
  compare_keys-rank asc nulls_first Value.null (Value.int64 b) h k = ground arith
  compare_keys-rank asc nulls_first (Value.int64 a) Value.null h k = ground arith
  compare_keys-rank asc nulls_first (Value.int64 a) (Value.int64 b) h k = ground arith
  compare_keys-rank asc nulls_first _ _ h k = ground arith

module _ {X : Externals} (O : Operators X) (ev : IrEvaluator X) where
  -- The places of the keys of a row.
  abbrev pub ranks : List (SortExpr X) → Record X → List ℕ
  ranks [] r = []
  ranks (e ∷ es) r = key_rank e.asc e.nulls_first (or_null (evaluate O ev e.expr r)) ∷ ranks es r

  -- Every key of the row is an integer, null, or an error, which counts as null.
  abbrev pub HasIntKeys : List (SortExpr X) → Record X → Type 0
  HasIntKeys [] r = Unit {0}
  HasIntKeys (e ∷ es) r = IsIntOrNull (or_null (evaluate O ev e.expr r)) × HasIntKeys es r

  compare_rows-ranks :
      (es : List (SortExpr X)) (a b : Record X)
      → HasIntKeys es a
      → HasIntKeys es b
      → compare_rows O ev es a b ≡ text_cmp (ranks es a) (ranks es b)
  unfolding compare_rows text_cmp
  compare_rows-ranks [] a b h k = refl
  compare_rows-ranks (e ∷ es) a b h k =
      rw
        (
          compare_rows,
          compare_keys-rank O e.asc e.nulls_first (or_null (evaluate O ev e.expr a))
              (or_null (evaluate O ev e.expr b)) h.0 k.0,
        )
        (ground (arith, compare_rows-ranks es a b h.1 k.1))

module _ {X : Externals} {I : IndexMap (Column X)} (O : Operators X) where
  -- Where every sort key of every row is an integer or null, ORDER BY makes its result of the rows in
  -- the order of their keys, each ascending or descending and with nulls first or last as it says; rows
  -- with the same keys are all there, and stay in their order.
  pub execute_sort-rows :
      (es : List (SortExpr X)) (t : Table X I)
      → All (HasIntKeys O (plain t.schema) es) (rows t)
      → (sorted : List (Record X)) × (execute_sort O es t ≡ push_rows sorted (new t.schema))
        × IsSorted (ranks O (plain t.schema) es) sorted
        × ((k : List ℕ)
            → with_rank (ranks O (plain t.schema) es) k sorted
              ≡ with_rank (ranks O (plain t.schema) es) k (rows t))
  unfolding execute_sort
  execute_sort-rows es t h =
      let ev = plain t.schema in
      let rank = ranks O ev es in
      let by_keys = sort_by (λ a b. text_cmp (rank a) (rank b)) (rows t) in
      (
        by_keys,
        rw (to_records-rows t) (
            ap (λ rs. push_rows rs (new t.schema))
              (sort_by-ext rank (HasIntKeys O ev es) (compare_rows O ev es) (rows t)
                (compare_rows-ranks O ev es) h)),
        sort_by-IsSorted rank (rows t),
        λ k. sort_by-with_rank rank k (rows t),
      )
