-- ===== src/Relational/Limited.antt =====
-- `execute_limit` of crates/executor/src/executor/limit.rs against the list of the rows.
use yacht_sql.Prelude.{
  ℕ, zero, suc, ◌+◌, ◌-◌, ◌≤◌, ◌<◌, min, ◌≡◌, refl, sym, ap, ap₂, ◌∙◌, true, inl, inr, List, [],
  ◌∷◌, Option, none, some, arith, take, drop, length, leb, leb→le, le→leb, Bool-cases,
}
use yacht_sql.Prelude.Tabulate.{tabulate, tabulate_ext, length-tabulate}
use yacht_sql.Common.Error.{ok}
use yacht_sql.Common.Externals.{Externals}
use yacht_sql.Storage.Column.{Column}
use yacht_sql.Storage.IndexMap.{IndexMap}
use yacht_sql.Storage.Table.{Table, new, column_list}
use yacht_sql.Storage.Table.RowOps.{push_rows, row_at}
use yacht_sql.Storage.Table.Rectangular.{rows, get_row_inside}
use yacht_sql.Relational.Loops.{pushed, bind_ext, push_rows_step}
use yacht_sql.Relational.Limit.{
  execute_limit, copy_rows, limit_start, limit_end, offset_or_zero, limit_or_max,
}

module _ {ℓ} {A : Type ℓ} where
  take-nil : (n : ℕ) → take {A = A} n [] ≡ []
  take-nil zero = refl
  take-nil (suc n) = refl

  drop-nil : (n : ℕ) → drop {A = A} n [] ≡ []
  drop-nil zero = refl
  drop-nil (suc n) = refl

  take_trim : (count n : ℕ) (xs : List A) → count ≡ min n (length xs) → take count xs ≡ take n xs
  take_trim zero zero xs h = refl
  take_trim zero (suc n) [] h = refl
  take_trim zero (suc n) (x ∷ xs) h = absurd (omega arith)
  take_trim (suc count) zero xs h = absurd (omega arith)
  take_trim (suc count) (suc n) [] h = refl
  take_trim (suc count) (suc n) (x ∷ xs) h = ap (◌∷◌ x) (take_trim count n xs (omega arith))

  -- The rows between two bounds that are cut at the end of the list.
  take-drop_trim :
      (xs : List A) (off lim start count : ℕ)
      → start ≡ min off (length xs)
      → count ≡ min (off + lim) (length xs) - start
      → take count (drop start xs) ≡ take lim (drop off xs)
  take-drop_trim [] off lim start count h k =
      rw (drop-nil start, drop-nil off, take-nil count) (sym (take-nil lim))
  take-drop_trim (x ∷ xs) zero lim zero count h k = take_trim count lim (x ∷ xs) (omega arith)
  take-drop_trim (x ∷ xs) zero lim (suc start) count h k = absurd (omega arith)
  take-drop_trim (x ∷ xs) (suc off) lim zero count h k = absurd (omega arith)
  take-drop_trim (x ∷ xs) (suc off) lim (suc start) count h k =
      take-drop_trim xs off lim start count (omega arith) (omega arith)

  -- A part of a table of values.
  take-drop-tabulate :
      (n i k : ℕ) (f : ℕ → A)
      → i + k ≤ n
      → tabulate k (λ j. f (i + j)) ≡ take k (drop i (tabulate n f))
  unfolding tabulate
  take-drop-tabulate n i zero f h = refl
  take-drop-tabulate zero i (suc k) f h = absurd (omega arith)
  take-drop-tabulate (suc n) zero (suc k) f h = ap₂ ◌∷◌ (ap f (omega arith)) (
      tabulate_ext k _ _ (λ j l. ap f (omega arith))
      ∙ take-drop-tabulate n 0 k (λ j. f (suc j)) (omega arith))
  take-drop-tabulate (suc n) (suc i) (suc k) f h =
      ap₂ ◌∷◌ (ap f (omega arith)) (tabulate_ext k _ _ (λ j l. ap f (omega arith)))
      ∙ take-drop-tabulate n i (suc k) (λ j. f (suc j)) (omega arith)

limit_start_lem : (offset : Option ℕ) (n : ℕ) → limit_start offset n ≡ min (offset_or_zero offset) n
unfolding limit_start
limit_start_lem none n = refl
limit_start_lem (some offset) n = refl

limit_end_lem :
    (limit offset : Option ℕ) (n : ℕ)
    → offset_or_zero offset + limit_or_max limit < 0x10000000000000000
    → limit_end limit offset n ≡ min (offset_or_zero offset + limit_or_max limit) n
unfolding limit_end
limit_end_lem limit offset n h = omega arith

nothing_left : (a b : ℕ) → leb a b ≡ true → 0 ≡ a - b
nothing_left a b h = omega (arith, leb→le a b h)

ends_first :
    (offset n : ℕ)
    → 0 < offset
    → offset < 0x10000000000000000
    → limit_end none (some offset) n ≤ limit_start (some offset) n
unfolding limit_end limit_start
ends_first offset n h k = omega arith

module _ {X : Externals} {I : IndexMap (Column X)} where
  copy_rows-push_rows :
      (k i : ℕ) (input result : Table X I)
      → i + k ≤ input.row_count
      → copy_rows k i input result
        ≡ push_rows (tabulate k (λ j. row_at (column_list input) (i + j))) result
  unfolding copy_rows tabulate
  copy_rows-push_rows zero i input result h = unfold push_rows in refl
  copy_rows-push_rows (suc k) i input result h =
      let here = row_at (column_list input) i in
      let others = tabulate k (λ j. row_at (column_list input) (i + suc j)) in
      rw (get_row_inside i input (omega arith)) (
        bind_ext (pushed here result) (copy_rows k (i + 1) input) (push_rows others) (λ t.
          copy_rows-push_rows k (i + 1) input t (omega arith)
          ∙ ap (λ rs. push_rows rs t)
              (tabulate_ext k _ _ (λ j l. ap (row_at (column_list input)) (omega arith))))
        ∙ sym (push_rows_step here others result)
        ∙ ap (λ r. push_rows (r ∷ others) result) (ap (row_at (column_list input)) (omega arith)))

  length-rows : (t : Table X I) → length (rows t) ≡ t.row_count
  unfolding rows
  length-rows t = length-tabulate t.row_count (row_at (column_list t))

  take-drop-rows :
      (t : Table X I) (i k : ℕ)
      → i + k ≤ t.row_count
      → tabulate k (λ j. row_at (column_list t) (i + j)) ≡ take k (drop i (rows t))
  unfolding rows
  take-drop-rows t i k h = take-drop-tabulate t.row_count i k (row_at (column_list t)) h

  -- Without a row between the bounds nothing is copied.
  as_copy :
      (limit offset : Option ℕ) (t : Table X I)
      → execute_limit limit offset t
        ≡ copy_rows
            (limit_end limit offset t.row_count - limit_start offset t.row_count)
            (limit_start offset t.row_count)
            t
            (new t.schema)
  unfolding execute_limit
  as_copy limit offset t =
      elim (Bool-cases
        (leb (limit_end limit offset t.row_count) (limit_start offset t.row_count))) [
          | inl e ↦
              rw (execute_limit, e)
                (ap (λ k. copy_rows k (limit_start offset t.row_count) t (new t.schema))
                  (nothing_left _ _ e))
          | inr e ↦ rw (execute_limit, e) refl
        ]

  -- Where OFFSET + LIMIT fits 64 bits, the result is made of the rows behind the offset, as many as the
  -- limit says, in order; without OFFSET the offset is 0, and without LIMIT the limit is 2 ^ 64 - 1.
  pub execute_limit-rows :
      (limit offset : Option ℕ) (t : Table X I)
      → offset_or_zero offset + limit_or_max limit < 0x10000000000000000
      → execute_limit limit offset t
        ≡ push_rows
            (take (limit_or_max limit) (drop (offset_or_zero offset) (rows t)))
            (new t.schema)
  execute_limit-rows limit offset t h =
      let n = t.row_count in
      let start = limit_start offset n in
      let stop = limit_end limit offset n in
      let starts : start ≡ min (offset_or_zero offset) n = limit_start_lem offset n in
      let stops : stop ≡ min (offset_or_zero offset + limit_or_max limit) n =
        limit_end_lem limit offset n h in
      let inside : start + (stop - start) ≤ n = omega arith in
      as_copy limit offset t
      ∙ copy_rows-push_rows (stop - start) start t (new t.schema) inside
      ∙ ap (λ rs. push_rows rs (new t.schema))
          (take-drop-rows t start (stop - start) inside
            ∙ take-drop_trim (rows t) (offset_or_zero offset) (limit_or_max limit) start
                (stop - start) (starts ∙ ap (min (offset_or_zero offset)) (sym (length-rows t)))
                (omega (arith, stops, length-rows t)))

  -- An OFFSET that is not 0, without LIMIT, gives no row at all: OFFSET + LIMIT wraps.
  pub execute_limit-offset_alone :
      (offset : ℕ) (t : Table X I)
      → 0 < offset
      → offset < 0x10000000000000000
      → execute_limit none (some offset) t ≡ ok (new t.schema)
  unfolding execute_limit
  execute_limit-offset_alone offset t h k = rw (le→leb _ _ (ends_first offset t.row_count h k)) refl
