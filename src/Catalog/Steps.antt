-- ===== src/Catalog/Steps.antt =====
-- The operations of catalog.rs that change the catalog, as one step function, and runs of them.
use yacht_sql.Prelude.{Bool, List, [], ◌∷◌}
use yacht_sql.Prelude.Text.{Text}
use yacht_sql.Prelude.Assoc.{Assoc}
use yacht_sql.Common.Error.{Result}
use yacht_sql.Catalog.{Payload, Catalog, ColumnDefault, UserFunction, UserProcedure, done}
use yacht_sql.Catalog.Schemas
use yacht_sql.Catalog.Tables
use yacht_sql.Catalog.Routines
use yacht_sql.Catalog.Transactions

pub data Op (P : Payload) : Type 0 where
  create_schema : Text → Bool → Op P
  create_schema_with_options : Text → Bool → Assoc Text → Op P
  drop_schema : Text → Bool → Bool → Op P
  undrop_schema : Text → Bool → Op P
  alter_schema_options : Text → Assoc Text → Op P
  set_search_path : List Text → Op P
  create_table : Text → P.TableSchema → Op P
  insert_table : Text → P.Table → Op P
  set_table_defaults : Text → List (ColumnDefault P) → Op P
  drop_table : Text → Op P
  update_table : Text → (P.Table → P.Table) → Op P
  rename_table : Text → Text → Op P
  replace_table : Text → P.Table → Op P
  create_or_replace_table : Text → P.Table → Op P
  create_function : UserFunction P → Bool → Op P
  drop_function : Text → Op P
  create_procedure : UserProcedure P → Bool → Bool → Op P
  drop_procedure : Text → Op P
  create_view : Text → Text → List Text → Bool → Bool → Op P
  drop_view : Text → Bool → Op P
  begin_transaction commit rollback : Op P

-- The operation is not one of the three on transactions.
abbrev pub KeepsTransaction : {P : Payload} → Op P → Type 0
KeepsTransaction Op.begin_transaction = ⊥
KeepsTransaction Op.commit = ⊥
KeepsTransaction Op.rollback = ⊥
KeepsTransaction _ = Unit {0}

module _ {P : Payload} where
  unfoldable pub step : Op P → Catalog P → Catalog P × Result (Unit {0})
  step (create_schema n e) c = Schemas.create_schema n e c
  step (create_schema_with_options n e o) c = Schemas.create_schema_with_options n e o c
  step (drop_schema n e x) c = Schemas.drop_schema n e x c
  step (undrop_schema n e) c = Schemas.undrop_schema n e c
  step (alter_schema_options n o) c = Schemas.alter_schema_options n o c
  step (set_search_path p) c = done (Schemas.set_search_path p c)
  step (create_table n s) c = Tables.create_table n s c
  step (insert_table n t) c = Tables.insert_table n t c
  step (set_table_defaults n d) c = done (Tables.set_table_defaults n d c)
  step (drop_table n) c = Tables.drop_table n c
  step (update_table n f) c = done (Tables.update_table n f c)
  step (rename_table o n) c = Tables.rename_table o n c
  step (replace_table n t) c = Tables.replace_table n t c
  step (create_or_replace_table n t) c = done (Tables.create_or_replace_table n t c)
  step (create_function f r) c = Routines.create_function f r c
  step (drop_function n) c = Routines.drop_function n c
  step (create_procedure p r e) c = Routines.create_procedure p r e c
  step (drop_procedure n) c = Routines.drop_procedure n c
  step (create_view n q a r e) c = Routines.create_view n q a r e c
  step (drop_view n e) c = Routines.drop_view n e c
  step begin_transaction c = done (Transactions.begin_transaction c)
  step commit c = done (Transactions.commit c)
  step rollback c = done (Transactions.rollback c)

  -- A session goes on after an operation that fails.
  unfoldable pub run : List (Op P) → Catalog P → Catalog P
  unfolding step
  run [] c = c
  run (op ∷ ops) c = run ops (step op c).0
