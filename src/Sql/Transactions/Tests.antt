-- ===== src/Sql/Transactions/Tests.antt =====
-- Runs of the transaction manager.
use goods_db.Prelude.{◌+◌, ◌≡◌, refl, true, List, [], ◌∷◌, some, arith}
use goods_db.Prelude.Assoc.{lookup, erase, put}
use goods_db.Sql.Transactions.{
  TransactionManager, Savepoint, XidFile, read_committed, serializable, init, initialize, load_xid,
  write_xid_file, persist_xid, allocate_xid, set_current_transaction, begin, commit, rollback,
  remove, clear_current, retire, has, drop_first, keep_through, on_current, create_savepoint,
  release_savepoint, rollback_to_savepoint, get_active_transaction_count,
}
use goods_db.Sql.Transactions.Accounts.{
  start, next, begins, commits, rolls_back, transactions_balance,
}
use goods_db.Sql.Transactions.Savepoints.{
  savepoints_at, create_each, rollback_to_savepoint-create_savepoint,
}
use goods_db.Sql.Transactions.Xids.{begin-commit}

program : Unit {0}
unfolding lookup erase put init initialize load_xid write_xid_file persist_xid allocate_xid
    set_current_transaction begin commit rollback remove clear_current retire has drop_first
    keep_through on_current create_savepoint release_savepoint rollback_to_savepoint
    get_active_transaction_count
program = tt

abbrev file : XidFile
file = record { stored = some 40; writable = true }

-- Threads 1 and 2 have a transaction each.
abbrev served : TransactionManager
served = (begin (begin (initialize init (some file)) 1 100 read_committed).0 2 200 serializable).0

ids : get_active_transaction_count served ≡ 2
unfolding program
ids = refl

abbrev ended : TransactionManager
ended = (rollback (commit served 1 (some 41)).0 2 (some 42)).0

transactions_balance_example :
    ended.total_txns_started
    ≡ ended.total_txns_committed + ended.total_txns_rolled_back + get_active_transaction_count ended
transactions_balance_example = transactions_balance {m = ended} (
    next
      (next
        (next (next (start (some file)) (begins 1 100 read_committed)) (begins 2 200 serializable))
        (commits 1 (some 41)))
      (rolls_back 2 (some 42)))

begin-commit_example :
    (begin (initialize init (commit served 1 (some 41)).0.xid_file) 7 300 read_committed).1 ≡ 43
unfolding program
begin-commit_example =
    begin-commit served 1 7 300 (some 41) read_committed file refl refl (omega arith) (omega arith)
      refl

-- Thread 1 has the savepoint 5.
abbrev saved : TransactionManager
saved = (create_savepoint served 1 5).0

abbrev after_five : List Savepoint
after_five = record { name = 5; txn_id = 41; created_at = 0 } ∷ []

rollback_to_savepoint-create_savepoint_example :
    ((rollback_to_savepoint (create_each (8 ∷ 9 ∷ []) 1 (create_savepoint saved 1 6).0) 1 6).1
      ≡ true)
    × (savepoints_at
          (rollback_to_savepoint (create_each (8 ∷ 9 ∷ []) 1 (create_savepoint saved 1 6).0) 1 6).0
          1
        ≡ savepoints_at (create_savepoint saved 1 6).0 1)
unfolding program
rollback_to_savepoint-create_savepoint_example =
    rollback_to_savepoint-create_savepoint saved 1 6 (8 ∷ 9 ∷ []) after_five refl refl
