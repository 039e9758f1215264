-- ===== src/Relational/Limit.antt =====
-- `execute_limit` of crates/executor/src/executor/limit.rs and `execute_sample` of sample.rs, on the
-- table of their input.
use yacht_sql.Prelude.{
  ℕ, zero, suc, ◌+◌, ◌-◌, ◌%◌, min, Bool, ◌&&◌, List, [], ◌∷◌, Option, none, some, take, ltb, leb,
  if◌then◌else◌,
}
use yacht_sql.Common.Error.{Result, ok, ◌>>=◌}
use yacht_sql.Common.Externals.{Externals}
use yacht_sql.Storage.Column.{Column}
use yacht_sql.Storage.IndexMap.{IndexMap}
use yacht_sql.Storage.Table.{Table, new}
use yacht_sql.Storage.Table.RowOps.{Record, get_row, push_rows, to_records}
use yacht_sql.Relational.Loops.{pushed}

-- The bounds of the rows, from a missing OFFSET or LIMIT on. The sum wraps at 2 ^ 64, as a usize does in
-- a release build.
unfoldable pub limit_start : Option ℕ → ℕ → ℕ
limit_start none n = min 0 n
limit_start (some offset) n = min offset n

abbrev pub offset_or_zero : Option ℕ → ℕ
offset_or_zero none = 0
offset_or_zero (some offset) = offset

abbrev pub limit_or_max : Option ℕ → ℕ
limit_or_max none = 0xffffffffffffffff
limit_or_max (some limit) = limit

unfoldable pub limit_end : Option ℕ → Option ℕ → ℕ → ℕ
limit_end limit offset n =
    min ((offset_or_zero offset + limit_or_max limit) % 0x10000000000000000) n

module _ {X : Externals} {I : IndexMap (Column X)} where
  -- for i in start..end { result.push_row(input_table.get_row(i)?)? }, over the rounds that are left.
  unfoldable pub copy_rows : ℕ → ℕ → Table X I → Table X I → Result (Table X I)
  copy_rows zero i input result = ok result
  copy_rows (suc rounds) i input result = get_row i input >>= λ row.
      pushed row result >>= λ result'. copy_rows rounds (i + 1) input result'

  unfoldable pub execute_limit : Option ℕ → Option ℕ → Table X I → Result (Table X I)
  unfolding limit_start limit_end copy_rows
  execute_limit limit offset input =
      let start = limit_start offset input.row_count in
      let stop = limit_end limit offset input.row_count in
      if leb stop start
      then ok (new input.schema)
      else copy_rows (stop - start) start input (new input.schema)

-- `SampleType`, the percentage with the outcome of the draw for each row.
pub data SampleType : Type 0 where
  rows : SampleType
  percent : List Bool → SampleType

module _ {ℓ} {A : Type ℓ} where
  -- .filter(|_| rng.gen_range(0.0..1.0) < rate), with what the draws say.
  unfoldable pub drawn : List Bool → List A → List A
  drawn picks [] = []
  drawn [] (x ∷ xs) = []
  drawn (pick ∷ picks) (x ∷ xs) = let rest = drawn picks xs in if pick then x ∷ rest else rest

module _ {X : Externals} where
  -- The sample size is an i64 pattern.
  unfoldable pub sample_rows : SampleType → ℕ → List (Record X) → List (Record X)
  unfolding drawn
  sample_rows SampleType.rows value rs = take (if ltb value 0x8000000000000000 then value else 0) rs
  sample_rows (percent picks) value rs =
      if ltb 0 value && ltb value 0x8000000000000000
      then if leb 100 value then rs else drawn picks rs
      else []

module _ {X : Externals} {I : IndexMap (Column X)} where
  unfoldable pub execute_sample : SampleType → ℕ → Table X I → Result (Table X I)
  unfolding sample_rows
  execute_sample kind value input =
      to_records input >>= λ rs. push_rows (sample_rows kind value rs) (new input.schema)
