-- ===== src/Catalog/Lookup.antt =====
-- Which table a name means, and what the table operations do to it.
use mathlib.Core.Option
use yacht_sql.Prelude.{
  ◌≡◌, ◌≢◌, refl, ap, ◌∙◌, true, false, List, [], ◌∷◌, Option, none, some, arith, Option-cases, inl,
  inr, if◌then◌else◌,
}
use yacht_sql.Prelude.Text.{Text, to_uppercase, text_eq_iff, text_eq_refl, contains_dot, qualified}
use yacht_sql.Prelude.Assoc
use yacht_sql.Prelude.Assoc.{Assoc, get, contains_key, is_some, or_else, get-insert, get-remove}
use yacht_sql.Common.Error.{ok}
use yacht_sql.Catalog.{Payload, Catalog}
use yacht_sql.Catalog.Tables.{
  resolve_on, resolve_table_name, get_table, get_table_schema, table_exists, create_table,
}

-- The first table that is found at one of the keys, in order.
unfoldable pub first_found {ℓ} : {V : Type ℓ} → List Text → Assoc V → Option V
first_found [] tables = none
first_found (k ∷ ks) tables = or_else (get tables k) (first_found ks tables)

-- The keys behind the search path.
unfoldable pub on_path : List Text → Text → List Text
on_path [] key = []
on_path (schema ∷ path) key = qualified schema key ∷ on_path path key

resolve_on-first_found {ℓ} :
    {V : Type ℓ} (path : List Text) (key : Text) (tables : Assoc V)
    → get tables key ≡ none
    → get tables (resolve_on path key tables) ≡ first_found (on_path path key) tables
unfolding resolve_on first_found on_path contains_key
resolve_on-first_found [] key tables h = h
resolve_on-first_found (schema ∷ path) key tables h =
    elim (Option-cases (get tables (qualified schema key))) [
      | inl absent ↦ rw absent (resolve_on-first_found path key tables h)
      | inr (t, there) ↦ ground (arith, there)
    ]

-- The keys that a name stands for: itself in upper case, and where that holds no dot, the same in
-- each schema of the search path.
abbrev pub candidates : Text → List Text → List Text
candidates name path =
    let key = to_uppercase name in key ∷ (if contains_dot key then [] else on_path path key)

module _ {P : Payload} where
  -- `get_table` finds the table at the first candidate key that has one: the name itself, then, for
  -- a name with no dot, the name in each schema of the search path in order.
  pub get_table-first_found :
      (name : Text) (c : Catalog P)
      → get_table name c ≡ first_found (candidates name c.search_path) c.tables
  unfolding get_table resolve_table_name first_found contains_key
  get_table-first_found name c =
      let key = to_uppercase name in
      elim (Option-cases (get c.tables key)) [
        | inr (t, there) ↦ ground (arith, there)
        | inl absent ↦ ground (arith, absent, resolve_on-first_found c.search_path key c.tables)
      ]

  -- A table exists exactly if `get_table` finds it.
  pub table_exists-get_table :
      (name : Text) (c : Catalog P) → table_exists name c ≡ is_some (get_table name c)
  unfolding get_table table_exists contains_key
  table_exists-get_table name c = refl

  -- A key that is in the table map is its own resolution.
  pub resolve_own :
      (name : Text) (c : Catalog P)
      → contains_key c.tables (to_uppercase name) ≡ true
      → resolve_table_name name c ≡ to_uppercase name
  unfolding resolve_table_name
  resolve_own name c h = ground (arith, h)

  -- The catalog in which one table stands at a key.
  abbrev pub with_table : Text → P.Table → Catalog P → Catalog P
  with_table key table c = record c { tables = Assoc.insert c.tables key table }

  pub contains-with_table :
      (key : Text) (table : P.Table) (c : Catalog P)
      → contains_key (with_table key table c).tables key ≡ true
  unfolding contains_key
  contains-with_table key table c =
      ground (arith, get-insert c.tables key key table, text_eq_refl key)

  pub get_table-with_table :
      (name : Text) (table : P.Table) (c : Catalog P)
      → get_table name (with_table (to_uppercase name) table c) ≡ some table
  unfolding get_table
  get_table-with_table name table c =
      let key = to_uppercase name in
      ap (get (with_table key table c).tables)
        (resolve_own name (with_table key table c) (contains-with_table key table c))
      ∙ ground (arith, get-insert c.tables key key table, text_eq_refl key)

  -- What `create_table` does where it succeeds.
  pub create_table_ok :
      (name : Text) (schema : P.TableSchema) (c : Catalog P)
      → (create_table name schema c).1 ≡ ok tt
      → (contains_key c.tables (to_uppercase name) ≡ false)
        × ((create_table name schema c).0 ≡ with_table (to_uppercase name) (P.new_table schema) c)
  unfolding create_table
  create_table_ok name schema c h = ground arith

  -- A table whose creation succeeds is found by its name, with the schema it was given; its key
  -- was free, and the tables at all other keys are as before.
  pub get_table-create_table :
      (name : Text) (schema : P.TableSchema) (c : Catalog P)
      → (create_table name schema c).1 ≡ ok tt
      → (get_table name (create_table name schema c).0 ≡ some (P.new_table schema))
        × (get_table_schema name (create_table name schema c).0 ≡ some schema)
        × (get c.tables (to_uppercase name) ≡ none)
        × ((j : Text)
            → j ≢ to_uppercase name
            → get (create_table name schema c).0.tables j ≡ get c.tables j)
  unfolding get_table_schema
  get_table-create_table name schema c h =
      let key = to_uppercase name in
      let (free, made) = create_table_ok name schema c h in
      rw made (
        get_table-with_table name (P.new_table schema) c,
        ap (Option.map P.table_schema) (get_table-with_table name (P.new_table schema) c)
            ∙ ap some (P.schema-new schema),
        unfold contains_key in ground arith,
        λ j n. ground (arith, get-insert c.tables key j (P.new_table schema), text_eq_iff key j),
      )
