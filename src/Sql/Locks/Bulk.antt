-- ===== src/Sql/Locks/Bulk.antt =====
-- What goods_db/src/sql/lock_manager.cpp records of the transactions, and what `ReleaseAllLocks` finds.
use goods_db.Prelude.{ℕ, List, [], ◌∷◌}
use goods_db.Sql.Locks.{
  LockMode, LockManager, Timeout, lock_row, unlock_row, lock_table, wake_table, time_out_table,
  unlock_table, release_all_locks,
}

pub data Call : Type 0 where
  lock_the_row : ℕ → LockMode → Call
  unlock_the_row : ℕ → Call
  lock_the_table : ℕ → LockMode → Timeout → ℕ → Call
  wake : ℕ → LockMode → ℕ → Call
  time_out : ℕ → Call
  unlock_the_table : ℕ → Call
  release_all : ℕ → Call

abbrev pub step : LockManager → Call → LockManager
step m (lock_the_row rid mode) = (lock_row m rid mode).0
step m (unlock_the_row rid) = (unlock_row m rid).0
step m (lock_the_table name mode t us) = (lock_table m name mode t us).0
step m (wake name mode us) = (wake_table m name mode us).0
step m (time_out us) = (time_out_table m us).0
step m (unlock_the_table name) = (unlock_table m name).0
step m (release_all txn) = release_all_locks m txn

abbrev pub run : LockManager → List Call → LockManager
run m [] = m
run m (c ∷ calls) = run (step m c) calls

-- A manager as it is made.
abbrev pub idle : LockManager
idle = record {
  row_locks = [];
  table_locks = [];
  txn_locks = [];
  deadlock_count = 0;
  total_wait_count = 0;
  total_wait_time_us = 0;
}
