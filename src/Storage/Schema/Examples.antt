-- ===== src/Storage/Schema/Examples.antt =====
-- Tests of the schemas, and instances of their theorems.

use yacht_sql.Prelude.{◌≡◌, refl, [], ◌∷◌, some}
use yacht_sql.Prelude.Text.{codes, text_eq}
use yacht_sql.Common.Types.{DataType}
use yacht_sql.Common.Sample.{sample_externals}
use yacht_sql.Storage.Schema.{FieldMode, Schema, new_field, field_index, position}

abbrev sample : Schema sample_externals
sample = record {
  fields =
      new_field (codes "id") DataType.int64 FieldMode.required
      ∷ new_field (codes "name") DataType.string FieldMode.nullable
      ∷ [];
}

second : field_index (codes "name") sample ≡ some 1
unfolding field_index position text_eq new_field
second = refl
