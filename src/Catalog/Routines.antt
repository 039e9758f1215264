-- ===== src/Catalog/Routines.antt =====
-- The functions, procedures and views of catalog.rs.
use yacht_sql.Prelude.{Bool, not, ◌++◌, ◌&&◌, List, Option, if◌then◌else◌}
use yacht_sql.Prelude.Text.{Text, codes, to_uppercase}
use yacht_sql.Prelude.Assoc.{get, contains_key, insert, remove}
use yacht_sql.Common.Error.{Error, Result, invalid_query}
use yacht_sql.Catalog.{Payload, Catalog, UserFunction, UserProcedure, ViewDef, done, fail}

abbrev pub function_already_exists : Text → Error
function_already_exists name = invalid_query (codes "Function already exists: " ++ name)

abbrev pub no_such_function : Text → Error
no_such_function name = invalid_query (codes "Function not found: " ++ name)

abbrev pub procedure_already_exists : Text → Error
procedure_already_exists name = invalid_query (codes "Procedure already exists: " ++ name)

abbrev pub no_such_procedure : Text → Error
no_such_procedure name = invalid_query (codes "Procedure not found: " ++ name)

abbrev pub view_already_exists : Text → Error
view_already_exists name = invalid_query (codes "View already exists: " ++ name)

abbrev pub no_such_view : Text → Error
no_such_view name = invalid_query (codes "View not found: " ++ name)

module _ {P : Payload} where
  unfoldable pub create_function : UserFunction P → Bool → Catalog P → Catalog P × Result (Unit {0})
  unfolding to_uppercase contains_key insert
  create_function func or_replace c =
      let key = to_uppercase func.name in
      if contains_key c.functions key && not or_replace
      then fail c (function_already_exists func.name)
      else done (record c { functions = insert c.functions key func })

  unfoldable pub drop_function : Text → Catalog P → Catalog P × Result (Unit {0})
  unfolding to_uppercase contains_key remove
  drop_function name c =
      let key = to_uppercase name in
      if not (contains_key c.functions key)
      then fail c (no_such_function name)
      else done (record c { functions = remove c.functions key })

  unfoldable pub get_function : Text → Catalog P → Option (UserFunction P)
  unfolding to_uppercase get
  get_function name c = get c.functions (to_uppercase name)

  unfoldable pub function_exists : Text → Catalog P → Bool
  unfolding to_uppercase contains_key
  function_exists name c = contains_key c.functions (to_uppercase name)

  unfoldable pub create_procedure :
      UserProcedure P → Bool → Bool → Catalog P → Catalog P × Result (Unit {0})
  unfolding to_uppercase contains_key insert
  create_procedure proc or_replace if_not_exists c =
      let key = to_uppercase proc.name in
      let replaced = done (record c { procedures = insert c.procedures key proc }) in
      if contains_key c.procedures key
      then (if if_not_exists
          then done c
          else if not or_replace
          then fail c (procedure_already_exists proc.name)
          else replaced)
      else replaced

  unfoldable pub drop_procedure : Text → Catalog P → Catalog P × Result (Unit {0})
  unfolding to_uppercase contains_key remove
  drop_procedure name c =
      let key = to_uppercase name in
      if not (contains_key c.procedures key)
      then fail c (no_such_procedure name)
      else done (record c { procedures = remove c.procedures key })

  unfoldable pub get_procedure : Text → Catalog P → Option (UserProcedure P)
  unfolding to_uppercase get
  get_procedure name c = get c.procedures (to_uppercase name)

  unfoldable pub procedure_exists : Text → Catalog P → Bool
  unfolding to_uppercase contains_key
  procedure_exists name c = contains_key c.procedures (to_uppercase name)

  unfoldable pub create_view :
      Text → Text → List Text → Bool → Bool → Catalog P → Catalog P × Result (Unit {0})
  unfolding to_uppercase contains_key insert
  create_view name query column_aliases or_replace if_not_exists c =
      let key = to_uppercase name in
      let view : ViewDef = record { query = query; column_aliases = column_aliases } in
      let replaced = done (record c { views = insert c.views key view }) in
      if contains_key c.views key
      then (if if_not_exists
          then done c
          else if not or_replace
          then fail c (view_already_exists name)
          else replaced)
      else replaced

  unfoldable pub drop_view : Text → Bool → Catalog P → Catalog P × Result (Unit {0})
  unfolding to_uppercase contains_key remove
  drop_view name if_exists c =
      let key = to_uppercase name in
      let removed = record c { views = remove c.views key } in
      if not (contains_key c.views key) && not if_exists
      then fail removed (no_such_view name)
      else done removed

  unfoldable pub get_view : Text → Catalog P → Option ViewDef
  unfolding to_uppercase get
  get_view name c = get c.views (to_uppercase name)

  unfoldable pub view_exists : Text → Catalog P → Bool
  unfolding to_uppercase contains_key
  view_exists name c = contains_key c.views (to_uppercase name)
