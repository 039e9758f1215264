-- ===== src/Common/TypeEquality.antt =====
-- The derived `PartialEq` of `DataType` (crates/common/src/types/mod.rs).
use yacht_sql.Prelude.{
  ℕ, ◌≡◌, ◌↔◌, refl, sym, ap, ◌∙◌, Bool, true, false, ◌&&◌, Option, none, some, arith, ◌==◌,
  and_parts,
}
use yacht_sql.Prelude.Text.{text_eq, text_eq_iff, text_eq_refl}
use yacht_sql.Common.Types.{DataType, StructFields, no_fields, field}

unfoldable pub precision_eq : Option (ℕ × ℕ) → Option (ℕ × ℕ) → Bool
precision_eq none none = true
precision_eq (some (p, s)) (some (q, t)) = (p == q) && (s == t)
precision_eq _ _ = false

precision_eq_iff : (a b : Option (ℕ × ℕ)) → (precision_eq a b ≡ true) ↔ (a ≡ b)
unfolding precision_eq
precision_eq_iff none none = ground arith
precision_eq_iff (some (p, s)) (some (q, t)) = ground arith
precision_eq_iff _ _ = ground arith

unfoldable mutual
  unfolding text_eq precision_eq

  pub data_type_eq : DataType → DataType → Bool
  data_type_eq DataType.unknown DataType.unknown = true
  data_type_eq DataType.bool DataType.bool = true
  data_type_eq DataType.int64 DataType.int64 = true
  data_type_eq DataType.float64 DataType.float64 = true
  data_type_eq DataType.big_numeric DataType.big_numeric = true
  data_type_eq DataType.string DataType.string = true
  data_type_eq DataType.bytes DataType.bytes = true
  data_type_eq DataType.date DataType.date = true
  data_type_eq DataType.date_time DataType.date_time = true
  data_type_eq DataType.time DataType.time = true
  data_type_eq DataType.timestamp DataType.timestamp = true
  data_type_eq DataType.geography DataType.geography = true
  data_type_eq DataType.json DataType.json = true
  data_type_eq DataType.interval DataType.interval = true
  data_type_eq (DataType.numeric p) (DataType.numeric q) = precision_eq p q
  data_type_eq (DataType.struct fs) (DataType.struct gs) = fields_eq fs gs
  data_type_eq (DataType.array t) (DataType.array u) = data_type_eq t u
  data_type_eq (DataType.range t) (DataType.range u) = data_type_eq t u
  data_type_eq _ _ = false

  pub fields_eq : StructFields → StructFields → Bool
  fields_eq no_fields no_fields = true
  fields_eq (field n t fs) (field m u gs) = text_eq n m && (data_type_eq t u && fields_eq fs gs)
  fields_eq _ _ = false

mutual
  unfolding data_type_eq

  data_type_eq_refl : (t : DataType) → data_type_eq t t ≡ true
  data_type_eq_refl DataType.unknown = refl
  data_type_eq_refl DataType.bool = refl
  data_type_eq_refl DataType.int64 = refl
  data_type_eq_refl DataType.float64 = refl
  data_type_eq_refl DataType.big_numeric = refl
  data_type_eq_refl DataType.string = refl
  data_type_eq_refl DataType.bytes = refl
  data_type_eq_refl DataType.date = refl
  data_type_eq_refl DataType.date_time = refl
  data_type_eq_refl DataType.time = refl
  data_type_eq_refl DataType.timestamp = refl
  data_type_eq_refl DataType.geography = refl
  data_type_eq_refl DataType.json = refl
  data_type_eq_refl DataType.interval = refl
  data_type_eq_refl (DataType.numeric p) = (precision_eq_iff p p).1 refl
  data_type_eq_refl (DataType.struct fs) = fields_eq_refl fs
  data_type_eq_refl (DataType.array t) = data_type_eq_refl t
  data_type_eq_refl (DataType.range t) = data_type_eq_refl t

  fields_eq_refl : (fs : StructFields) → fields_eq fs fs ≡ true
  fields_eq_refl no_fields = refl
  fields_eq_refl (field n t fs) =
      ground (arith, text_eq_refl n, data_type_eq_refl t, fields_eq_refl fs)

mutual
  unfolding data_type_eq

  data_type_eq_sound : (t u : DataType) → data_type_eq t u ≡ true → t ≡ u
  data_type_eq_sound (DataType.numeric p) (DataType.numeric q) h =
      ap DataType.numeric ((precision_eq_iff p q).0 h)
  data_type_eq_sound (DataType.struct fs) (DataType.struct gs) h =
      ap DataType.struct (fields_eq_sound fs gs h)
  data_type_eq_sound (DataType.array t) (DataType.array u) h =
      ap DataType.array (data_type_eq_sound t u h)
  data_type_eq_sound (DataType.range t) (DataType.range u) h =
      ap DataType.range (data_type_eq_sound t u h)
  data_type_eq_sound DataType.unknown DataType.unknown h = refl
  data_type_eq_sound _ _ h = ground arith

  fields_eq_sound : (fs gs : StructFields) → fields_eq fs gs ≡ true → fs ≡ gs
  fields_eq_sound no_fields no_fields h = refl
  fields_eq_sound (field n t fs) (field m u gs) h =
      let (same_name, rest) = and_parts (text_eq n m) _ h in
      let (same_type, more) = and_parts (data_type_eq t u) _ rest in
      ap (λ x. field x t fs) ((text_eq_iff n m).0 same_name)
      ∙ ap (λ x. field m x fs) (data_type_eq_sound t u same_type)
      ∙ ap (field m u) (fields_eq_sound fs gs more)
  fields_eq_sound no_fields (field m u gs) h = cc
  fields_eq_sound (field n t fs) no_fields h = cc

-- The derived equality is equality.
pub data_type_eq_iff : (t u : DataType) → (data_type_eq t u ≡ true) ↔ (t ≡ u)
data_type_eq_iff t u =
    (data_type_eq_sound t u, λ e. ap (data_type_eq t) (sym e) ∙ data_type_eq_refl t)
