-- ===== src/Storage/Table.antt =====
-- `Table` of crates/storage/src/table/core.rs: a schema, and a column for each field in an
-- insertion-ordered map.
pub mod RowOps
pub mod Alter
pub mod Rows
pub mod Rectangular
pub mod Build
pub mod Errors
pub mod Views
pub mod Projection
pub mod AddColumn
pub mod Clear
mod Examples
use yacht_sql.Prelude.{ℕ, ◌==◌, Bool, List, [], ◌∷◌, Option, none, some, get_elem?, length}
use yacht_sql.Prelude.Text.{Text}
use yacht_sql.Prelude.Assoc
use yacht_sql.Common.Externals.{Externals}
use yacht_sql.Storage.Column
use yacht_sql.Storage.Column.{Column}
use yacht_sql.Storage.Schema.{Schema, Field}
use yacht_sql.Storage.IndexMap.{IndexMap, values}

pub record Table (X : Externals) (I : IndexMap (Column X)) : Type 0 where
  pub schema : Schema X
  pub columns : I.Map
  pub row_count : ℕ

module _ {X : Externals} where
  abbrev pub first_len : List (Column X) → ℕ
  first_len [] = 0
  first_len (c ∷ cs) = Column.len c

module _ {X : Externals} (I : IndexMap (Column X)) where
  -- `collect` into the map inserts the pairs one after the other.
  unfoldable pub collect : List (Field X) → I.Map → I.Map
  unfolding Column.new
  collect [] m = m
  collect (f ∷ fs) m = collect fs (I.insert m f.name (Column.new X f.data_type))

module _ {X : Externals} {I : IndexMap (Column X)} where
  -- self.columns.values()
  abbrev pub column_list : Table X I → List (Column X)
  column_list t = values (I.entries t.columns)

  unfoldable pub new : Schema X → Table X I
  unfolding collect
  new schema = record { schema = schema; columns = collect I schema.fields I.empty; row_count = 0 }

  unfoldable pub from_columns : Schema X → I.Map → Table X I
  unfolding Column.len
  from_columns schema columns = record {
    schema = schema;
    columns = columns;
    row_count = first_len (values (I.entries columns));
  }

  unfoldable pub is_empty : Table X I → Bool
  is_empty t = t.row_count == 0

  unfoldable pub column : ℕ → Table X I → Option (Column X)
  column idx t = get_elem? (column_list t) idx

  unfoldable pub column_by_name : Text → Table X I → Option (Column X)
  unfolding Assoc.get
  column_by_name name t = Assoc.get (I.entries t.columns) name

  unfoldable pub num_columns : Table X I → ℕ
  num_columns t = length (column_list t)
