-- ===== src/Relational/HashIndex.antt =====
-- The first loop of `hash_inner_join` in crates/executor/src/executor/join.rs: what the hash map has
-- under a key.
use yacht_sql.Prelude.{
  ℕ, ◌≡◌, refl, sym, ap, ◌∙◌, true, false, inl, inr, List, [], ◌∷◌, ◌++◌, All, arith, if◌then◌else◌,
  Bool-cases,
}
use yacht_sql.Common.Error.{Result, ok, err}
use yacht_sql.Common.Externals.{Externals}
use yacht_sql.Common.Operators.{Operators}
use yacht_sql.Common.Types.{Value}
use yacht_sql.Storage.Table.RowOps.{Record}
use yacht_sql.Evaluator.Expr.{Expr}
use yacht_sql.Evaluator.Tests.{IrEvaluator}
use yacht_sql.Relational.HashJoin.{same_key, add_to, rows_in, has_null, key_values, build_table}
use yacht_sql.Relational.HashTable.{
  IsPlain, HasKeys, add_to-HasKeys, rows_in-add_to, same_key_iff, match_keys, match_keys-same_key,
  match_keys_null,
}

append_assoc : {A : Type 0} (xs ys zs : List A) → (xs ++ ys) ++ zs ≡ xs ++ (ys ++ zs)
append_assoc [] ys zs = refl
append_assoc (x ∷ xs) ys zs = ap (λ t. x ∷ t) (append_assoc xs ys zs)

append_nil : {A : Type 0} (xs : List A) → xs ++ [] ≡ xs
append_nil [] = refl
append_nil (x ∷ xs) = ap (λ t. x ∷ t) (append_nil xs)

module _ {X : Externals} (O : Operators X) (ev : IrEvaluator X) (keys : List (Expr X)) where
  -- The keys of the row evaluate, each to a null, an integer or a string.
  abbrev pub HasPlainKeys : Record X → Type 0
  HasPlainKeys r = (k : List (Value X)) × (key_values O ev keys r ≡ ok k) × All IsPlain k

  abbrev pub or_empty : Result (List (Value X)) → List (Value X)
  or_empty (err e) = []
  or_empty (ok k) = k

  unfoldable pub keys_of : Record X → List (Value X)
  keys_of r = or_empty (key_values O ev keys r)

module _ {X : Externals} (O : Operators X) (ev : IrEvaluator X) (keys : List (Expr X)) where
  -- The rows whose keys match the given ones.
  unfoldable pub with_keys : List (Value X) → List (Record X) → List (Record X)
  unfolding keys_of
  with_keys k [] = []
  with_keys k (r ∷ rs) =
      let rest = with_keys k rs in if match_keys O k (keys_of O ev keys r) then r ∷ rest else rest

  pub with_keys_cons :
      (k : List (Value X)) (r : Record X) (rs : List (Record X)) (h : HasPlainKeys O ev keys r)
      → with_keys k (r ∷ rs) ≡ (if match_keys O k h.0 then r ∷ with_keys k rs else with_keys k rs)
  unfolding with_keys keys_of
  with_keys_cons k r rs h = rw h.1 refl

module _ {X : Externals} (O : Operators X) (to_bits : X.F64 → ℕ) (ev : IrEvaluator X)
    (keys : List (Expr X)) where
  -- Keys with a null match no row.
  pub with_keys_null :
      (k : List (Value X)) (rs : List (Record X))
      → All IsPlain k
      → has_null k ≡ true
      → All (HasPlainKeys O ev keys) rs
      → with_keys O ev keys k rs ≡ []
  with_keys_null k [] p n h = unfold with_keys in refl
  with_keys_null k (r ∷ rs) p n h =
      rw
        (
          with_keys_cons O ev keys k r rs h.0,
          match_keys_null O to_bits k h.0.0 p h.0.2 (ground (arith, n)),
          with_keys_null k rs p n h.1,
        )
        refl

  -- The hash map has, under each key without a null, the rows whose keys match it.
  abbrev pub Indexes :
      List (Record X)
      → List (List (Value X) × List (Record X))
      → List (List (Value X) × List (Record X))
      → Type 0
  Indexes rs before after =
      (k : List (Value X))
      → All IsPlain k
      → has_null k ≡ false
      → rows_in (same_key O to_bits) k after
        ≡ rows_in (same_key O to_bits) k before ++ with_keys O ev keys k rs

  build_table_step :
      (r : Record X) (rs : List (Record X)) (before after : List (List (Value X) × List (Record X)))
      → (h : HasPlainKeys O ev keys r)
      → HasKeys (same_key O to_bits) (All IsPlain) (same_key_iff O to_bits) before
      → has_null h.0 ≡ false
      → Indexes rs (add_to (same_key O to_bits) h.0 r before) after
      → Indexes (r ∷ rs) before after
  build_table_step r rs before after h ks full found k p n =
      found k p n
      ∙ rw
          (
            rows_in-add_to (same_key O to_bits) (All IsPlain) (same_key_iff O to_bits) h.0 k r
                before h.2 p ks,
            with_keys_cons O ev keys k r rs h,
            match_keys-same_key O to_bits k h.0 p h.2 n,
          )
          (elim (Bool-cases (same_key O to_bits k h.0)) [
            | inr e ↦ rw e refl
            | inl e ↦ rw e (append_assoc (rows_in (same_key O to_bits) k before) (r ∷ []) _)
          ])

  build_table_skip :
      (r : Record X) (rs : List (Record X)) (before after : List (List (Value X) × List (Record X)))
      → (h : HasPlainKeys O ev keys r) → has_null h.0 ≡ true
      → Indexes rs before after
      → Indexes (r ∷ rs) before after
  build_table_skip r rs before after h full found k p n =
      found k p n
      ∙ rw
          (
            with_keys_cons O ev keys k r rs h,
            match_keys_null O to_bits k h.0 p h.2 (ground (arith, full)),
          )
          refl

  pub build_table-Indexes :
      (rs : List (Record X)) (before : List (List (Value X) × List (Record X)))
      → All (HasPlainKeys O ev keys) rs
      → HasKeys (same_key O to_bits) (All IsPlain) (same_key_iff O to_bits) before
      → (after : List (List (Value X) × List (Record X))) × (build_table O ev
            (same_key O to_bits)
            keys
            rs
            before
          ≡ ok after)
        × Indexes rs before after
  unfolding build_table
  build_table-Indexes [] before h ks =
      (before, refl, λ k p n. unfold with_keys in sym (append_nil _))
  build_table-Indexes (r ∷ rs) before h ks =
      let (j, value, plain_j) = h.0 in
      rw value (elim (Bool-cases (has_null j)) [
        | inl e ↦ rw e (
            let (after, built, found) = build_table-Indexes rs before h.1 ks in
            (after, built, build_table_skip r rs before after h.0 e found))
        | inr e ↦ rw e (
            let (after, built, found) =
              build_table-Indexes rs (add_to (same_key O to_bits) j r before) h.1 (
                add_to-HasKeys (same_key O to_bits) (All IsPlain) (same_key_iff O to_bits) j r
                  before plain_j ks) in
            (after, built, build_table_step r rs before after h.0 ks e found))
      ])
