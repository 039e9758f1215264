-- ===== src/Storage/Schema.antt =====
-- `Field` and `Schema` of crates/storage/src/schema.rs.
pub mod Validation
mod Examples
use yacht_sql.Prelude.{
  ℕ, zero, suc, ◌+◌, Bool, true, false, not, ◌&&◌, ◌||◌, List, [], ◌∷◌, ◌++◌, Option, none, some,
  length, get_elem?, remove_at, set as list_set, ltb, ◌==◌, if◌then◌else◌,
}
use yacht_sql.Prelude.Text.{
  Text, codes, text_eq, to_lowercase, eq_ignore_ascii_case, ends_with, qualified,
}
use yacht_sql.Prelude.Assoc.{text_mem, is_some}
use yacht_sql.Common.Error.{Error, Result, ok, err, schema_mismatch}
use yacht_sql.Common.Externals.{Externals}
use yacht_sql.Common.Types.{DataType, Value}
use yacht_sql.Common.TypeEquality.{data_type_eq}

pub data FieldMode : Type 0 where
  nullable required repeated : FieldMode

pub record Field (X : Externals) : Type 0 where
  pub name : Text
  pub data_type : DataType
  pub mode : FieldMode
  pub description : Option Text
  pub source_table : Option Text
  pub default_value : Option (Value X)
  pub collation : Option Text

pub record Schema (X : Externals) : Type 0 where
  pub fields : List (Field X)

abbrev pub or_position : Option ℕ → Option ℕ → Option ℕ
or_position (some i) rest = some i
or_position none rest = rest

abbrev pub shift : Option ℕ → Option ℕ
shift none = none
shift (some i) = some (suc i)

module _ {X : Externals} where
  -- `Field::new`
  unfoldable pub new_field : Text → DataType → FieldMode → Field X
  new_field name t mode = record {
    name = name;
    data_type = t;
    mode = mode;
    description = none;
    source_table = none;
    default_value = none;
    collation = none;
  }

  unfoldable pub is_nullable : Field X → Bool
  is_nullable f = elim f.mode [ nullable ↦ true | _ ↦ false ]

  unfoldable pub is_repeated : Field X → Bool
  is_repeated f = elim f.mode [ repeated ↦ true | _ ↦ false ]

  unfoldable pub add_field : Field X → Schema X → Schema X
  add_field f s = record { fields = s.fields ++ f ∷ [] }

  unfoldable pub remove_field : ℕ → Schema X → Schema X
  remove_field index s =
      if ltb index (length s.fields) then record { fields = remove_at s.fields index } else s

  unfoldable pub rename_at : List (Field X) → ℕ → Text → List (Field X)
  rename_at [] i name = []
  rename_at (f ∷ fs) zero name = record f { name = name } ∷ fs
  rename_at (f ∷ fs) (suc i) name = f ∷ rename_at fs i name

  unfoldable pub rename_field : ℕ → Text → Schema X → Schema X
  unfolding rename_at
  rename_field index new_name s = record { fields = rename_at s.fields index new_name }

  -- self.fields.iter().position(|f| p(f))
  unfoldable pub position : (Field X → Bool) → List (Field X) → Option ℕ
  position p [] = none
  position p (f ∷ fs) = let rest = position p fs in if p f then some 0 else shift rest

  -- self.fields.iter().find(|f| p(f))
  unfoldable pub find : (Field X → Bool) → List (Field X) → Option (Field X)
  find p [] = none
  find p (f ∷ fs) = let rest = find p fs in if p f then some f else rest

  unfoldable pub field : Text → Schema X → Option (Field X)
  unfolding find text_eq
  field name s = find (λ f. text_eq f.name name) s.fields

  unfoldable pub field_index : Text → Schema X → Option ℕ
  unfolding position text_eq
  field_index name s = position (λ f. text_eq f.name name) s.fields

  -- The source table is the one named, or ends in its name behind a dot.
  abbrev pub from_table : Text → Field X → Bool
  from_table tbl f = elim f.source_table [
    | none ↦ false
    | some src ↦
        eq_ignore_ascii_case src tbl || ends_with (to_lowercase src) (b'.' ∷ to_lowercase tbl)
  ]

  unfoldable pub field_index_qualified : Text → Option Text → Schema X → Option ℕ
  unfolding position field_index eq_ignore_ascii_case ends_with to_lowercase
  field_index_qualified name none s = field_index name s
  field_index_qualified name (some tbl) s =
      or_position (position (λ f. eq_ignore_ascii_case f.name (qualified tbl name)) s.fields)
        (position (λ f. eq_ignore_ascii_case f.name name && from_table tbl f) s.fields)

  unfoldable pub field_count : Schema X → ℕ
  field_count s = length s.fields

  -- The loop of `validate` over the names that it has seen.
  unfoldable pub validate_from : List Text → List (Field X) → Result (Unit {0})
  unfolding text_mem
  validate_from seen [] = ok tt
  validate_from seen (f ∷ fs) =
      let rest = validate_from (f.name ∷ seen) fs in
      if text_mem f.name seen
      then err (schema_mismatch (codes "Duplicate field name: " ++ f.name))
      else rest

  unfoldable pub validate : Schema X → Result (Unit {0})
  unfolding validate_from
  validate s = validate_from [] s.fields

  unfoldable pub compatible_fields : List (Field X) → List (Field X) → Bool
  unfolding text_eq data_type_eq
  compatible_fields (f ∷ fs) (g ∷ gs) =
      let rest = compatible_fields fs gs in
      if not (text_eq f.name g.name) || not (data_type_eq f.data_type g.data_type)
      then false
      else rest
  compatible_fields _ _ = true

  unfoldable pub is_compatible_with : Schema X → Schema X → Bool
  unfolding compatible_fields
  is_compatible_with s other =
      if not (length s.fields == length other.fields)
      then false
      else compatible_fields s.fields other.fields
