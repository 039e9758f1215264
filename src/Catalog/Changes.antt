-- ===== src/Catalog/Changes.antt =====
-- Dropping and renaming tables, and what a dropped table leaves behind.
use yacht_sql.Prelude.{
  ◌≡◌, ◌≢◌, refl, sym, ap, ◌∙◌, true, false, none, some, arith, Option-cases, inl, inr,
  if◌then◌else◌, ◌↔◌,
}
use yacht_sql.Prelude.Text.{Text, to_uppercase, text_eq, text_eq_iff, text_eq_refl}
use yacht_sql.Prelude.Assoc
use yacht_sql.Prelude.Assoc.{Assoc, get, contains_key, is_some, get-insert, get-remove}
use yacht_sql.Common.Error.{ok}
use yacht_sql.Catalog.{Payload, Catalog}
use yacht_sql.Catalog.Tables.{
  resolve_table_name, get_table, table_exists, create_table, drop_table, rename_table,
  get_table_defaults,
}
use yacht_sql.Catalog.Lookup.{
  resolve_own, with_table, contains-with_table, get_table-with_table, create_table_ok,
}

module _ {P : Payload} where
  -- `drop_table` succeeds exactly where the name resolves to a table. It removes that table and no
  -- other, and leaves the column defaults in place.
  pub drop_table_exact :
      (name : Text) (c : Catalog P)
      → (((drop_table name c).1 ≡ ok tt) ↔ (table_exists name c ≡ true))
        × ((j : Text)
            → get (drop_table name c).0.tables j
              ≡ (if text_eq (resolve_table_name name c) j then none else get c.tables j))
        × ((drop_table name c).0.table_defaults ≡ c.table_defaults)
  unfolding drop_table table_exists contains_key
  drop_table_exact name c =
      let key = resolve_table_name name c in
      elim (Option-cases (get c.tables key)) [
        | inl absent ↦ (
          ground (arith, absent),
          λ j. ground (arith, absent, text_eq_iff key j),
          ground (arith, absent),
        )
        | inr (t, there) ↦ (
          ground (arith, there),
          λ j. ground (arith, there, get-remove c.tables key j),
          ground (arith, there),
        )
      ]

  get_there :
      (name : Text) (c : Catalog P) → get_table name c ≡ get c.tables (resolve_table_name name c)
  unfolding get_table
  get_there name c = refl

  abbrev renamed : Text → Text → P.Table → Catalog P → Catalog P
  renamed old_key new_key table c = record c {
    tables = Assoc.insert (Assoc.remove c.tables old_key) new_key table;
  }

  rename_table_ok :
      (old_name new_name : Text) (c : Catalog P)
      → (rename_table old_name new_name c).1 ≡ ok tt
      → (t : P.Table) × (get_table old_name c ≡ some t)
        × (contains_key c.tables (to_uppercase new_name) ≡ false)
        × ((rename_table old_name new_name c).0
            ≡ renamed (resolve_table_name old_name c) (to_uppercase new_name) t c)
  unfolding rename_table get_table contains_key
  rename_table_ok old_name new_name c h =
      elim (Option-cases (get c.tables (resolve_table_name old_name c))) [
        | inl absent ↦ absurd (ground (arith, absent))
        | inr (t, there) ↦ (t, there, ground (arith, there), ground (arith, there))
      ]

  -- A table whose renaming succeeds is found by its new name, as it was by the old one; it is gone
  -- from its old key; the tables at all other keys are as before.
  pub get_table-rename_table :
      (old_name new_name : Text) (c : Catalog P)
      → (rename_table old_name new_name c).1 ≡ ok tt
      → (get_table new_name (rename_table old_name new_name c).0 ≡ get_table old_name c)
        × (get (rename_table old_name new_name c).0.tables (resolve_table_name old_name c) ≡ none)
        × ((j : Text)
            → j ≢ to_uppercase new_name
            → j ≢ resolve_table_name old_name c
            → get (rename_table old_name new_name c).0.tables j ≡ get c.tables j)
  unfolding contains_key
  get_table-rename_table old_name new_name c h =
      let old_key = resolve_table_name old_name c in
      let new_key = to_uppercase new_name in
      let (t, there, free, made) = rename_table_ok old_name new_name c h in
      let c' = record c { tables = Assoc.remove c.tables old_key } in
      rw made (
        get_table-with_table new_name t c' ∙ sym there,
        ground (
          arith,
          there,
          free,
          get-insert (Assoc.remove c.tables old_key) new_key old_key t,
          get-remove c.tables old_key old_key,
          text_eq_iff new_key old_key,
          text_eq_refl old_key,
          get_there old_name c,
        ),
        λ j n m. ground (
          arith,
          get-insert (Assoc.remove c.tables old_key) new_key j t,
          get-remove c.tables old_key j,
          text_eq_iff new_key j,
          text_eq_iff old_key j,
        ),
      )

  -- Defaults outlive their table: where a table stands at a name itself, is dropped, and a table
  -- of the same name is created, the new table has the column defaults of the old one.
  pub defaults_survive_drop :
      (name : Text) (schema : P.TableSchema) (c : Catalog P)
      → contains_key c.tables (to_uppercase name) ≡ true
      → (create_table name schema (drop_table name c).0).1 ≡ ok tt
      → get_table_defaults name (create_table name schema (drop_table name c).0).0
        ≡ get_table_defaults name c
  unfolding get_table_defaults
  defaults_survive_drop name schema c h made =
      let key = to_uppercase name in
      let c1 = (drop_table name c).0 in
      let c2 = with_table key (P.new_table schema) c1 in
      let (free, made') = create_table_ok name schema c1 made in
      rw made' (
        ap (get c1.table_defaults)
          (resolve_own name c2 (contains-with_table key (P.new_table schema) c1))
        ∙ ap (λ d. get d key) (drop_table_exact name c).2
        ∙ ap (get c.table_defaults) (sym (resolve_own name c h)))
