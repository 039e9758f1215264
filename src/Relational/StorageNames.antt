-- ===== src/Relational/StorageNames.antt =====
-- The names that `plan_schema_to_schema` of crates/executor/src/executor/mod.rs gives to the columns.
use yacht_sql.Prelude.{
  ℕ, ◌+◌, ◌≡◌, refl, sym, ap, ap₂, ◌∙◌, false, inl, inr, List, [], ◌∷◌, ◌++◌, none, arith, All,
  Bool-cases, length, length-append,
}
use yacht_sql.Prelude.Text.{Text, codes, text_eq, text_eq_iff}
use yacht_sql.Prelude.Assoc
use yacht_sql.Prelude.Assoc.{Assoc, text_mem}
use yacht_sql.Common.Externals.{Externals}
use yacht_sql.Storage.Schema.{new_field}
use yacht_sql.Storage.Schema.Validation.{IsDistinct, names}
use yacht_sql.Relational.PlanSchema.{
  PlanField, PlanSchema, storage_name, storage_field, storage_fields, plan_schema_to_schema,
  count_of,
}

abbrev pub plan_names : List PlanField → List Text
plan_names [] = []
plan_names (f ∷ fs) = f.name ∷ plan_names fs

-- No name has been counted.
abbrev AreNew : Assoc ℕ → List Text → Type 0
AreNew counts ns = All (λ n. Assoc.get counts n ≡ none) ns

AreNew-insert :
    (counts : Assoc ℕ) (n : Text) (ns : List Text)
    → text_mem n ns ≡ false
    → AreNew counts ns
    → AreNew (Assoc.insert counts n 1) ns
unfolding text_mem
AreNew-insert counts n [] h new = tt
AreNew-insert counts n (m ∷ ns) h new = (
  ground (arith, Assoc.get-insert counts n m 1, text_eq_iff n m, text_eq_iff m n),
  AreNew-insert counts n ns (ground arith) new.1,
)

AreNew-nil : (ns : List Text) → AreNew [] ns
unfolding Assoc.get
AreNew-nil [] = tt
AreNew-nil (n ∷ ns) = (refl, AreNew-nil ns)

suffixed : (n : Text) → text_eq n (n ++ codes "_1") ≡ false
suffixed n = elim (Bool-cases (text_eq n (n ++ codes "_1"))) [
  | inr e ↦ e
  | inl e ↦ absurd (
      omega
        (arith, ap length ((text_eq_iff n (n ++ codes "_1")).0 e), length-append n (codes "_1")))
]

-- The count of a name that has occurred, and of one that has not.
second_count : (a b : Text) → a ≡ b → count_of (Assoc.get (Assoc.insert [] a 1) b) ≡ 1
unfolding Assoc.get
second_count a b e = ground (arith, Assoc.get-insert {V = ℕ} [] a b 1, text_eq_iff a b)

third_count :
    (a b c n : Text)
    → a ≡ n
    → b ≡ n
    → c ≡ n ++ codes "_1"
    → count_of (
        Assoc.get
          (Assoc.insert (Assoc.insert [] a 1) b (count_of (Assoc.get (Assoc.insert [] a 1) b) + 1))
          c)
      ≡ 0
unfolding Assoc.get
third_count a b c n p q r =
    let k = count_of (Assoc.get (Assoc.insert [] a 1) b) + 1 in
    rw
      (
        Assoc.get-insert (Assoc.insert [] a 1) b c k,
        Assoc.get-insert {V = ℕ} [] a c 1,
        p,
        q,
        r,
        suffixed n,
      )
      refl

-- A name with the count behind it, if that is not 0.
numbered : (m n : Text) (k l : ℕ) → m ≡ n → k ≡ l → storage_name m k ≡ storage_name n l
numbered m n k l e f = ap₂ storage_name e f

module _ (X : Externals) where
  storage_field-name : (f : PlanField) (name : Text) → (storage_field {X = X} f name).name ≡ name
  unfolding storage_field new_field
  storage_field-name f name = refl

  storage_fields-names :
      (counts : Assoc ℕ) (fs : List PlanField)
      → IsDistinct (plan_names fs)
      → AreNew counts (plan_names fs)
      → names (storage_fields {X = X} counts fs) ≡ plan_names fs
  unfolding storage_fields
  storage_fields-names counts [] d new = refl
  storage_fields-names counts (f ∷ fs) d new = rw new.0 (
      ap₂ ◌∷◌ (storage_field-name f (storage_name f.name 0) ∙ unfold storage_name in refl) (
        storage_fields-names (Assoc.insert counts f.name 1) fs d.1
          (AreNew-insert counts f.name (plan_names fs) d.0 new.1)))

  -- Where the fields of a plan have distinct names, the columns keep them.
  pub plan_schema_to_schema-names :
      (s : PlanSchema)
      → IsDistinct (plan_names s.fields)
      → names (plan_schema_to_schema {X = X} s).fields ≡ plan_names s.fields
  unfolding plan_schema_to_schema
  plan_schema_to_schema-names s d =
      storage_fields-names [] s.fields d (AreNew-nil (plan_names s.fields))

  -- The columns of two fields of one name and of a third with "_1" behind that name do not have distinct
  -- names: the second and the third are both named like the third.
  pub plan_schema_to_schema-clash :
      (a b c : PlanField) (n : Text)
      → a.name ≡ n
      → b.name ≡ n
      → c.name ≡ n ++ codes "_1"
      → names (plan_schema_to_schema {X = X} (record { fields = a ∷ b ∷ c ∷ [] })).fields
        ≡ n ∷ (n ++ codes "_1") ∷ (n ++ codes "_1") ∷ []
  unfolding plan_schema_to_schema storage_fields storage_field new_field
  plan_schema_to_schema-clash a b c n p q r =
      ap₂ ◌∷◌ (numbered a.name n _ 0 p (unfold Assoc.get in refl) ∙ unfold storage_name in refl) (
        ap₂ ◌∷◌
          (numbered b.name n _ 1 q (second_count a.name b.name (p ∙ sym q))
            ∙ unfold storage_name in refl)
          (ap (λ x. x ∷ [])
            (numbered c.name (n ++ codes "_1") _ 0 r (third_count a.name b.name c.name n p q r)
              ∙ unfold storage_name in refl)))
