-- ===== src/Storage/Column/Examples.antt =====
-- Tests of the columns, and instances of their theorems.
use yacht_sql.Prelude.{ℕ, some, replicate, ◌<◌, arith, ◌≡◌, refl, true, [], ◌∷◌, ◌++◌}
use yacht_sql.Prelude.Text.{codes}
use yacht_sql.Common.Error.{ok, err, type_mismatch}
use yacht_sql.Common.Types.{DataType, Value}
use yacht_sql.Common.Debug.{debug_type}
use yacht_sql.Common.Types
use yacht_sql.Common.Sample.{sample_externals}
use yacht_sql.Storage.Bitmap.Raw.{IsClean}
use yacht_sql.Storage.Column.{Column, new, nulls, data_type, len}
use yacht_sql.Storage.Column.Entries.{push}
use yacht_sql.Storage.Column.Exact.{set}
use yacht_sql.Storage.Column.Rows.{values, IsValid, new-IsValid, new-IsClean}
use yacht_sql.Storage.Column.Push.{stored, push-IsValid, push-IsClean}
use yacht_sql.Storage.Cells
use yacht_sql.Storage.Cells.{Cells}
use yacht_sql.Prelude.Words.{trailing_zeros, clear_lowest}
use yacht_sql.Prelude.Bits.{test_bit}
use yacht_sql.Storage.Column.Sum.{
  int64_sum, chunks_loop, add_chunk, masked_loop, add_remainder, remainder_loop, sum_from,
}
use yacht_sql.Storage.Column.Sum.Total.{total, present, int64_sum-total}
use yacht_sql.Storage.Column.Operations.{push_appends}

abbrev pub Col : Type 0
Col = Column sample_externals

abbrev pub fresh : Col
fresh = new sample_externals DataType.int64

-- A column of integers with one row.
abbrev pub one : Col
one = (push fresh (Value.int64 7)).0

pub one-IsValid : IsValid one
one-IsValid = push-IsValid fresh (Value.int64 7) (new-IsValid sample_externals DataType.int64)

pub one-IsClean : IsClean (nulls one)
one-IsClean =
    push-IsClean fresh (Value.int64 7) (new-IsValid sample_externals DataType.int64)
      (new-IsClean sample_externals DataType.int64)

takes_text : (push one (Value.string (codes "-1"))).1 ≡ ok tt
unfolding new push
takes_text = refl

takes_null : (set one 0 Value.null).1 ≡ ok tt
unfolding new push set
takes_null = refl

refuses_bool :
    (push one (Value.bool true)).1
    ≡ err (type_mismatch (codes "Cannot push Bool to column of type Int64"))
unfolding new push debug_type data_type Types.data_type
refuses_bool = refl

converts : stored one (Value.string (codes "-1")) ≡ Value.int64 18446744073709551615
unfolding new push stored
converts = refl

one_inside : 0 < len one
unfolding new push len
one_inside = omega arith

push_appends_example :
    IsValid (push one (Value.string (codes "-1"))).0
    × IsClean (nulls (push one (Value.string (codes "-1"))).0)
    × (values (push one (Value.string (codes "-1"))).0
        ≡ values one ++ stored one (Value.string (codes "-1")) ∷ [])
push_appends_example =
    push_appends one (Value.string (codes "-1")) one-IsValid one-IsClean takes_text

-- Rows 0 and 2 of three are null.
abbrev with_nulls : Cells ℕ
with_nulls = record {
  values = 0 ∷ 18446744073709551615 ∷ 0 ∷ [];
  nulls = record { words = 5 ∷ []; len = 3 };
}

with_nulls-IsValid : Cells.Rows.IsValid with_nulls
with_nulls-IsValid = record {
  same_length = refl;
  shape = record { needed = omega arith; tight = omega arith; fits = (omega arith, tt) };
}

abbrev many : Cells ℕ
many = record { values = replicate 70 3; nulls = record { words = 6 ∷ 1 ∷ []; len = 70 } }

sums :
    (int64_sum sample_externals with_nulls ≡ some 18446744073709551615)
    × (int64_sum sample_externals many ≡ some 201)
unfolding int64_sum chunks_loop add_chunk masked_loop add_remainder remainder_loop sum_from
    trailing_zeros clear_lowest test_bit
sums = (refl, refl)

int64_sum-total_example :
    int64_sum sample_externals with_nulls
    ≡ total sample_externals (present (Cells.Rows.rows with_nulls))
int64_sum-total_example = int64_sum-total sample_externals with_nulls with_nulls-IsValid
