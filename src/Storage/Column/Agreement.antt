-- ===== src/Storage/Column/Agreement.antt =====
-- `push` against `set` of column.rs: which values both take, and how they are stored.
use yacht_sql.Prelude.{ℕ, ◌≡◌, Bool, true, false, arith}
use yacht_sql.Common.Error.{ok}
use yacht_sql.Common.Externals.{Externals}
use yacht_sql.Common.Types.{Value}
use yacht_sql.Storage.Column.{Column}
use yacht_sql.Storage.Column.Entries.{
  push, bool_entry, int64_entry, float64_entry, numeric_entry, string_entry, bytes_entry,
  date_entry, time_entry, date_time_entry, timestamp_entry, json_entry, array_entry, struct_entry,
  geography_entry, interval_entry, range_entry,
}
use yacht_sql.Storage.Column.Exact.{
  set, bool_exact, int64_exact, float64_exact, numeric_exact, string_exact, bytes_exact, date_exact,
  time_exact, date_time_exact, timestamp_exact, json_exact, array_exact, struct_exact,
  geography_exact, interval_exact, range_exact,
}
use yacht_sql.Storage.Column.Push.{stored}

module _ {X : Externals} where
  abbrev pub is_struct : Value X → Bool
  is_struct (Value.struct fs) = true
  is_struct _ = false

  -- A value that `set` takes is taken by `push` too, and if it is not a struct, it is stored unchanged.
  pub push_agrees :
      (col : Column X) (i : ℕ) (v : Value X)
      → (set col i v).1 ≡ ok tt
      → ((push col v).1 ≡ ok tt) × (is_struct v ≡ false → stored col v ≡ v)
  unfolding set push stored bool_entry int64_entry float64_entry numeric_entry string_entry
      bytes_entry date_entry time_entry date_time_entry timestamp_entry json_entry array_entry
      struct_entry geography_entry interval_entry range_entry bool_exact int64_exact float64_exact
      numeric_exact string_exact bytes_exact date_exact time_exact date_time_exact timestamp_exact
      json_exact array_exact struct_exact geography_exact interval_exact range_exact
  push_agrees _ i _ h = ground arith
