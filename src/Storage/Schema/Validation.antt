-- ===== src/Storage/Schema/Validation.antt =====
-- What `validate`, `is_compatible_with` and the lookups of schema.rs decide.
use mathlib.Core.Option
use yacht_sql.Prelude.{
  ℕ, suc, ◌≡◌, ◌↔◌, refl, ap, Bool, true, false, List, [], ◌∷◌, Option, none, some, arith, length,
  get_elem?, ◌==◌, Bool-cases, inl, inr,
}
use yacht_sql.Prelude.Text.{Text, text_eq, text_eq_iff}
use yacht_sql.Prelude.Assoc.{text_mem}
use yacht_sql.Common.Error.{ok}
use yacht_sql.Common.Externals.{Externals}
use yacht_sql.Common.Types.{DataType}
use yacht_sql.Common.TypeEquality.{data_type_eq_iff}
use yacht_sql.Storage.Schema.{
  Field, Schema, position, find, field, field_index, validate, validate_from, is_compatible_with,
  compatible_fields, shift,
}

-- No name is among the later ones.
abbrev pub IsDistinct : List Text → Type 0
IsDistinct [] = Unit
IsDistinct (n ∷ ns) = (text_mem n ns ≡ false) × IsDistinct ns

-- No name is among those seen.
abbrev IsFresh : List Text → List Text → Type 0
IsFresh seen [] = Unit
IsFresh seen (n ∷ ns) = (text_mem n seen ≡ false) × IsFresh seen ns

IsFresh-cons :
    (n : Text) (seen ns : List Text)
    → IsFresh (n ∷ seen) ns ↔ (text_mem n ns ≡ false) × IsFresh seen ns
unfolding text_mem
IsFresh-cons n seen [] = (λ h. (refl, tt), λ h. tt)
IsFresh-cons n seen (m ∷ ns) =
    ground (arith, IsFresh-cons n seen ns, text_eq_iff n m, text_eq_iff m n)

IsFresh-nil : (ns : List Text) → IsFresh [] ns
unfolding text_mem
IsFresh-nil [] = tt
IsFresh-nil (n ∷ ns) = (refl, IsFresh-nil ns)

module _ {X : Externals} where
  abbrev pub names : List (Field X) → List Text
  names [] = []
  names (f ∷ fs) = f.name ∷ names fs

  -- The names and types of the fields, in order.
  abbrev pub columns : List (Field X) → List (Text × DataType)
  columns [] = []
  columns (f ∷ fs) = (f.name, f.data_type) ∷ columns fs

  compatible_fields_iff :
      (fs gs : List (Field X))
      → length fs ≡ length gs
      → (compatible_fields fs gs ≡ true) ↔ (columns fs ≡ columns gs)
  unfolding compatible_fields
  compatible_fields_iff [] [] h = ground arith
  compatible_fields_iff [] (g ∷ gs) h = absurd (omega arith)
  compatible_fields_iff (f ∷ fs) [] h = absurd (omega arith)
  compatible_fields_iff (f ∷ fs) (g ∷ gs) h = ground (
    arith,
    text_eq_iff f.name g.name,
    data_type_eq_iff f.data_type g.data_type,
    compatible_fields_iff fs gs,
  )

  length-columns : (fs : List (Field X)) → length (columns fs) ≡ length fs
  length-columns [] = refl
  length-columns (f ∷ fs) = ap suc (length-columns fs)

  -- Schemas are compatible exactly if their fields have the same names and types in the same order.
  pub is_compatible_with_iff :
      (s t : Schema X) → (is_compatible_with s t ≡ true) ↔ (columns s.fields ≡ columns t.fields)
  unfolding is_compatible_with
  is_compatible_with_iff s t = elim (Bool-cases (length s.fields == length t.fields)) [
    | inl same ↦ ground (arith, same, compatible_fields_iff s.fields t.fields)
    | inr other ↦ (
      λ h. ground arith,
      λ e. ground (arith, length-columns s.fields, length-columns t.fields, ap length e),
    )
  ]

  bind-shift :
      (f : Field X) (fs : List (Field X)) (o : Option ℕ)
      → Option.bind (shift o) (get_elem? (f ∷ fs)) ≡ Option.bind o (get_elem? fs)
  unfolding Option.bind
  bind-shift f fs none = refl
  bind-shift f fs (some i) = refl

  find-position :
      (p : Field X → Bool) (fs : List (Field X))
      → find p fs ≡ Option.bind (position p fs) (get_elem? fs)
  unfolding find position Option.bind
  find-position p [] = refl
  find-position p (f ∷ fs) = ground (arith, find-position p fs, bind-shift f fs (position p fs))

  -- `field` finds the field at the position that `field_index` gives, and none where there is none.
  pub field-field_index :
      (name : Text) (s : Schema X)
      → field name s ≡ Option.bind (field_index name s) (get_elem? s.fields)
  unfolding field field_index
  field-field_index name s = find-position (λ f. text_eq f.name name) s.fields

  validate_from_iff :
      (seen : List Text) (fs : List (Field X))
      → (validate_from seen fs ≡ ok tt) ↔ IsFresh seen (names fs) × IsDistinct (names fs)
  unfolding validate_from
  validate_from_iff seen [] = (λ h. (tt, tt), λ h. refl)
  validate_from_iff seen (f ∷ fs) =
      ground (arith, validate_from_iff (f.name ∷ seen) fs, IsFresh-cons f.name seen (names fs))

  -- `validate` accepts a schema exactly if no two of its fields have one name.
  pub validate_iff : (s : Schema X) → (validate s ≡ ok tt) ↔ IsDistinct (names s.fields)
  unfolding validate
  validate_iff s = ground (arith, validate_from_iff [] s.fields, IsFresh-nil (names s.fields))
