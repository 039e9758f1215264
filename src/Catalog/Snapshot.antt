-- ===== src/Catalog/Snapshot.antt =====
-- What a transaction restores.
use yacht_sql.Prelude.{◌≡◌, refl, ap, ◌∙◌, Bool, List, [], ◌∷◌, Option, none, some, All, arith}
use yacht_sql.Prelude.Text.{Text, to_uppercase}
use yacht_sql.Prelude.Assoc
use yacht_sql.Prelude.Assoc.{get}
use yacht_sql.Catalog.{Payload, Catalog, DroppedSchema}
use yacht_sql.Catalog.Transactions.{begin_transaction, commit, rollback, restore}
use yacht_sql.Catalog.Schemas
use yacht_sql.Catalog.Tables
use yacht_sql.Catalog.Routines
use yacht_sql.Catalog.Steps.{Op, KeepsTransaction, step, run}

module _ {P : Payload} where
  snapshot-undrop :
      (name : Text) (e : Bool) (key : Text) (o : Option (DroppedSchema P)) (c : Catalog P)
      → (Schemas.undrop name e key o c).0.transaction_snapshot ≡ c.transaction_snapshot
  unfolding Schemas.undrop
  snapshot-undrop name e key (some d) c = refl
  snapshot-undrop name e key none c = ground arith

  snapshot-undrop_schema :
      (name : Text) (e : Bool) (c : Catalog P)
      → (Schemas.undrop_schema name e c).0.transaction_snapshot ≡ c.transaction_snapshot
  unfolding Schemas.undrop_schema
  snapshot-undrop_schema name e c =
      let key = to_uppercase name in
      ground (
        arith,
        snapshot-undrop name e key (get c.dropped_schemas key)
            (record c { dropped_schemas = Assoc.remove c.dropped_schemas key }),
      )

  -- No other operation touches the snapshot of the open transaction.
  snapshot-step :
      (op : Op P) (c : Catalog P)
      → KeepsTransaction op
      → (step op c).0.transaction_snapshot ≡ c.transaction_snapshot
  unfolding step Schemas.create_schema Schemas.create_schema_with_options Schemas.drop_schema
      Schemas.alter_schema_options Schemas.set_search_path Tables.create_table Tables.insert_table
      Tables.set_table_defaults Tables.drop_table Tables.update_table Tables.rename_table
      Tables.replace_table Tables.create_or_replace_table Routines.create_function
      Routines.drop_function Routines.create_procedure Routines.drop_procedure Routines.create_view
      Routines.drop_view
  snapshot-step (Op.create_schema n e) c k = ground arith
  snapshot-step (Op.undrop_schema n e) c k = snapshot-undrop_schema n e c
  snapshot-step Op.begin_transaction c k = absurd k
  snapshot-step Op.commit c k = absurd k
  snapshot-step Op.rollback c k = absurd k
  snapshot-step _ c k = ground arith

  snapshot-run :
      (ops : List (Op P)) (c : Catalog P)
      → All KeepsTransaction ops
      → (run ops c).transaction_snapshot ≡ c.transaction_snapshot
  unfolding run
  snapshot-run [] c k = refl
  snapshot-run (op ∷ ops) c k = snapshot-run ops (step op c).0 k.1 ∙ snapshot-step op c k.0

  begin_snapshot :
      (c : Catalog P)
      → (begin_transaction c).transaction_snapshot ≡ some (record { tables = c.tables })
  unfolding begin_transaction
  begin_snapshot c = refl

  -- `rollback` gives back the tables of the `begin_transaction`, keeps all else as the operations
  -- in between left it, and closes the transaction, whatever those were other than
  -- `begin_transaction`, `commit` and `rollback`.
  pub rollback_restores :
      (ops : List (Op P)) (c : Catalog P)
      → All KeepsTransaction ops
      → rollback (run ops (begin_transaction c))
        ≡ record (run ops (begin_transaction c)) { tables = c.tables; transaction_snapshot = none }
  unfolding rollback restore
  rollback_restores ops c k =
      ap (λ s. restore s (run ops (begin_transaction c)))
        (snapshot-run ops (begin_transaction c) k ∙ begin_snapshot c)

  commit_snapshot : (c : Catalog P) → (commit c).transaction_snapshot ≡ none
  unfolding commit
  commit_snapshot c = refl

  -- After a `commit`, whatever operations other than those on transactions ran since, `rollback`
  -- changes nothing.
  pub rollback-commit :
      (ops : List (Op P)) (c : Catalog P)
      → All KeepsTransaction ops
      → rollback (run ops (commit c)) ≡ run ops (commit c)
  unfolding rollback restore
  rollback-commit ops c k =
      ap (λ s. restore s (run ops (commit c))) (snapshot-run ops (commit c) k ∙ commit_snapshot c)
