-- ===== src/Catalog/Transactions.antt =====
-- `begin_transaction`, `commit` and `rollback` of catalog.rs.
use yacht_sql.Prelude.{Option, none, some}
use yacht_sql.Catalog.{Payload, Catalog, TransactionSnapshot}

module _ {P : Payload} where
  unfoldable pub begin_transaction : Catalog P → Catalog P
  begin_transaction c = record c { transaction_snapshot = some (record { tables = c.tables }) }

  unfoldable pub commit : Catalog P → Catalog P
  commit c = record c { transaction_snapshot = none }

  unfoldable pub restore : Option (TransactionSnapshot P) → Catalog P → Catalog P
  restore none c = c
  restore (some snapshot) c = record c { tables = snapshot.tables; transaction_snapshot = none }

  unfoldable pub rollback : Catalog P → Catalog P
  unfolding restore
  rollback c = restore c.transaction_snapshot c
