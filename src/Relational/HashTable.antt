-- ===== src/Relational/HashTable.antt =====
-- The hash map of `hash_inner_join` in crates/executor/src/executor/join.rs, and its keys.
use yacht_sql.Prelude.{
  ◌≡◌, ◌↔◌, refl, sym, Bool, true, false, ◌&&◌, ◌||◌, inl, inr, List, [], ◌∷◌, ◌++◌, All, arith,
  if◌then◌else◌, Bool-cases, ℕ,
}
use yacht_sql.Prelude.Text.{Text, text_eq_iff}
use yacht_sql.Common.Externals.{Externals}
use yacht_sql.Common.Operators.{Operators}
use yacht_sql.Common.Types.{Value, is_null}
use yacht_sql.Common.ValueEquality.{value_eq}
use yacht_sql.Evaluator.Comparison.{values_equal}
use yacht_sql.Relational.HashJoin.{same_hash, same_key, add_to, rows_in, has_null}

module _ {K R : Type 0} (same : K → K → Bool) (P : K → Type 0)
    (law : (j k : K) → P j → P k → (same j k ≡ true) ↔ (j ≡ k)) where
  -- All keys of the map satisfy P.
  abbrev pub HasKeys : List (K × List R) → Type 0
  HasKeys table = All (λ e. P (e.0)) table

  pub add_to-HasKeys :
      (k : K) (r : R) (table : List (K × List R))
      → P k
      → HasKeys table
      → HasKeys (add_to same k r table)
  unfolding add_to
  add_to-HasKeys k r [] p h = (p, tt)
  add_to-HasKeys k r ((j, rs) ∷ table) p h = elim (Bool-cases (same k j)) [
    | inl e ↦ rw (add_to, e) h
    | inr e ↦ rw (add_to, e) (h.0, add_to-HasKeys k r table p h.1)
  ]

  -- A record is added behind the records of its key.
  pub rows_in-add_to :
      (j k : K) (r : R) (table : List (K × List R))
      → P j
      → P k
      → HasKeys table
      → rows_in same k (add_to same j r table)
        ≡ (if same k j then rows_in same k table ++ r ∷ [] else rows_in same k table)
  unfolding rows_in add_to
  rows_in-add_to j k r [] p q h = ground arith
  rows_in-add_to j k r ((i, rs) ∷ table) p q h =
      ground (arith, law j i p h.0, law k i q h.0, law k j q p, rows_in-add_to j k r table p q h.1)

-- A null, an integer or a string.
pub data IsPlain {X : Externals} : Value X → Type 0 where
  null : IsPlain Value.null
  int64 : (n : ℕ) → IsPlain (Value.int64 n)
  string : (s : Text) → IsPlain (Value.string s)

module _ {X : Externals} (O : Operators X) where
  -- The keys are equal one by one, as by `=`, in which a null is not equal to anything.
  unfoldable pub match_keys : List (Value X) → List (Value X) → Bool
  match_keys [] [] = true
  match_keys (v ∷ vs) (w ∷ ws) = values_equal O v w && match_keys vs ws
  match_keys _ _ = false

module _ {X : Externals} (O : Operators X) (to_bits : X.F64 → ℕ) where
  same_value_iff :
      {v w : Value X}
      → IsPlain v
      → IsPlain w
      → ((same_hash O to_bits v w && value_eq O v w) ≡ true) ↔ (v ≡ w)
  unfolding same_hash value_eq
  same_value_iff null null = ground arith
  same_value_iff null (int64 m) = ground arith
  same_value_iff null (string s) = ground arith
  same_value_iff (int64 n) null = ground arith
  same_value_iff (int64 n) (int64 m) = ground arith
  same_value_iff (int64 n) (string s) = ground arith
  same_value_iff (string s) null = ground arith
  same_value_iff (string s) (int64 m) = ground arith
  same_value_iff (string s) (string u) = ground (arith, text_eq_iff s u)

  pub same_key_iff :
      (vs ws : List (Value X))
      → All IsPlain vs
      → All IsPlain ws
      → (same_key O to_bits vs ws ≡ true) ↔ (vs ≡ ws)
  unfolding same_key
  same_key_iff [] [] p q = ground arith
  same_key_iff [] (w ∷ ws) p q = ground arith
  same_key_iff (v ∷ vs) [] p q = ground arith
  same_key_iff (v ∷ vs) (w ∷ ws) p q =
      ground (arith, same_value_iff p.0 q.0, same_key_iff vs ws p.1 q.1)

  same_value-values_equal :
      {v w : Value X}
      → IsPlain v
      → IsPlain w
      → is_null v ≡ false
      → (same_hash O to_bits v w && value_eq O v w) ≡ values_equal O v w
  unfolding same_hash value_eq values_equal is_null
  same_value-values_equal null q h = ground arith
  same_value-values_equal (int64 n) null h = refl
  same_value-values_equal (int64 n) (int64 m) h = ground arith
  same_value-values_equal (int64 n) (string s) h = refl
  same_value-values_equal (string s) null h = refl
  same_value-values_equal (string s) (int64 m) h = refl
  same_value-values_equal (string s) (string u) h = ground arith

  values_equal_null :
      {v w : Value X}
      → IsPlain v
      → IsPlain w
      → is_null v || is_null w ≡ true
      → values_equal O v w ≡ false
  unfolding values_equal is_null
  values_equal_null null q h = refl
  values_equal_null (int64 n) null h = refl
  values_equal_null (string s) null h = refl
  values_equal_null (int64 n) (int64 m) h = ground arith
  values_equal_null (int64 n) (string m) h = ground arith
  values_equal_null (string n) (int64 m) h = ground arith
  values_equal_null (string n) (string m) h = ground arith

  -- Keys without a null match where the hash map takes them for the same.
  pub match_keys-same_key :
      (vs ws : List (Value X))
      → All IsPlain vs
      → All IsPlain ws
      → has_null vs ≡ false
      → match_keys O vs ws ≡ same_key O to_bits vs ws
  unfolding match_keys same_key has_null
  match_keys-same_key [] [] p q h = refl
  match_keys-same_key [] (w ∷ ws) p q h = refl
  match_keys-same_key (v ∷ vs) [] p q h = refl
  match_keys-same_key (v ∷ vs) (w ∷ ws) p q h =
      let first : is_null v ≡ false = ground (arith, h) in
      let others : has_null vs ≡ false = ground (arith, h) in
      rw (sym (same_value-values_equal p.0 q.0 first), match_keys-same_key vs ws p.1 q.1 others)
        refl

  -- Keys with a null do not match.
  pub match_keys_null :
      (vs ws : List (Value X))
      → All IsPlain vs
      → All IsPlain ws
      → has_null vs || has_null ws ≡ true
      → match_keys O vs ws ≡ false
  unfolding match_keys has_null
  match_keys_null [] [] p q h = ground arith
  match_keys_null [] (w ∷ ws) p q h = refl
  match_keys_null (v ∷ vs) [] p q h = refl
  match_keys_null (v ∷ vs) (w ∷ ws) p q h =
      let first = values_equal_null p.0 q.0 in
      let others = match_keys_null vs ws p.1 q.1 in ground (arith, h, first, others)
