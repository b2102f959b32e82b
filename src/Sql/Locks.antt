-- ===== src/Sql/Locks.antt =====
-- goods_db/src/sql/lock_manager.cpp: row and table locks. The names of tables and the row ids are
-- keys that are only compared, so a number stands for each.
use goods_db.Prelude.{
  ℕ, zero, suc, ◌+◌, ◌-◌, ◌%◌, ◌^◌, ◌≡◌, Bool, true, false, not, List, [], ◌∷◌, Option, none, some,
  leb, ◌==◌, if◌then◌else◌, ◌||◌, ◌&&◌, ◌++◌, length,
}
use goods_db.Prelude.Assoc.{lookup, erase, put}
pub mod Mode
unfoldable pub use Mode.*
pub mod Modes
pub mod Table
pub mod Agrees
pub mod Holders
pub mod First
pub mod Rows
pub mod Bulk
pub mod Deadlock
pub mod Tests

pub record LockEntry : Type 0 where
  pub mode : LockMode
  pub count : ℕ
  pub txn_id : ℕ
  pub waiting_txns : List ℕ

-- `TxnLockInfo` without the time stamp, which nothing reads.
pub record TxnLockInfo : Type 0 where
  pub row_locks : List ℕ
  pub table_locks : List ℕ

pub record LockManager : Type 0 where
  pub row_locks : List (ℕ × LockEntry)
  pub table_locks : List (ℕ × LockEntry)
  pub txn_locks : List (ℕ × TxnLockInfo)
  pub deadlock_count : ℕ
  pub total_wait_count : ℕ
  pub total_wait_time_us : ℕ

-- What a call has come to. `waiting` is a thread in the wait on the condition variable. `stuck` is a
-- thread that locks a `std::mutex` which it holds.
pub data Outcome : Type 0 where
  granted : Outcome
  refused : Outcome
  waiting : Outcome
  stuck : Outcome

abbrev pub new_entry : LockMode → LockEntry
new_entry mode = record { mode = mode; count = 1; txn_id = 0; waiting_txns = [] }

-- `++` and `--` on the count of an entry; an entry without holders is erased.
unfoldable pub acquire : ℕ → LockEntry → List (ℕ × LockEntry) → List (ℕ × LockEntry)
acquire key e locks = put key (record e { count = e.count + 1 }) locks

unfoldable pub release : ℕ → List (ℕ × LockEntry) → List (ℕ × LockEntry)
release key locks = elim (lookup key locks) [
  | none ↦ locks
  | some e ↦
      if leb e.count 1 then erase key locks else put key (record e { count = e.count - 1 }) locks
]

-- The lists of what a transaction holds; the transaction 0 has none.
abbrev pub info_at : LockManager → ℕ → TxnLockInfo
info_at m txn = elim (lookup txn m.txn_locks) [
  | none ↦ record { row_locks = []; table_locks = [] }
  | some i ↦ i
]

unfoldable pub record_lock_grant : LockManager → ℕ → ℕ → LockManager
record_lock_grant m txn rid = if txn == 0 then m else record m {
  txn_locks =
      put txn (record (info_at m txn) { row_locks = (info_at m txn).row_locks ++ rid ∷ [] })
        m.txn_locks;
}

unfoldable pub record_table_lock_grant : LockManager → ℕ → ℕ → LockManager
record_table_lock_grant m txn name = if txn == 0 then m else record m {
  txn_locks =
      put txn (record (info_at m txn) { table_locks = (info_at m txn).table_locks ++ name ∷ [] })
        m.txn_locks;
}

-- `std::remove` with `erase` on a list.
unfoldable pub without : ℕ → List ℕ → List ℕ
without key [] = []
without key (k ∷ ks) = if k == key then without key ks else k ∷ without key ks

unfoldable pub record_lock_release : LockManager → ℕ → ℕ → LockManager
record_lock_release m txn rid = if txn == 0 then m else elim (lookup txn m.txn_locks) [
  | none ↦ m
  | some i ↦ record m {
    txn_locks = put txn (record i { row_locks = without rid i.row_locks }) m.txn_locks;
  }
]

unfoldable pub record_table_lock_release : LockManager → ℕ → ℕ → LockManager
record_table_lock_release m txn name = if txn == 0 then m else elim (lookup txn m.txn_locks) [
  | none ↦ m
  | some i ↦ record m {
    txn_locks = put txn (record i { table_locks = without name i.table_locks }) m.txn_locks;
  }
]

-- `LockRow` up to `WouldDeadlock`, which locks `row_mutex_` again: the transaction id is always 0.
unfoldable pub lock_row : LockManager → ℕ → LockMode → LockManager × Outcome
lock_row m rid mode = elim (lookup rid m.row_locks) [
  | none ↦ (
    record_lock_grant (record m { row_locks = put rid (new_entry mode) m.row_locks }) 0 rid,
    granted,
  )
  | some e ↦
      if modes_compatible e.mode mode && (is_shared mode && is_shared e.mode)
      then (record_lock_grant (record m { row_locks = acquire rid e m.row_locks }) 0 rid, granted)
      else (m, stuck)
]

unfoldable pub unlock_row : LockManager → ℕ → LockManager × Bool
unlock_row m rid = elim (lookup rid m.row_locks) [
  | none ↦ (m, false)
  | some e ↦ (record_lock_release (record m { row_locks = release rid m.row_locks }) 0 rid, true)
]

-- `timeout_ms`: none, some milliseconds, or for ever.
pub data Timeout : Type 0 where
  no_wait : Timeout
  timed : Timeout
  infinite : Timeout

unfoldable pub add_wait_time : LockManager → ℕ → LockManager
add_wait_time m us = record m { total_wait_time_us = (m.total_wait_time_us + us) % 2 ^ 64 }

-- The wait of `LockTable`. Without one the call is over, and the time that it took counts.
unfoldable pub wait_table : LockManager → Timeout → ℕ → LockManager × Outcome
wait_table m no_wait us = (add_wait_time m us, refused)
wait_table m timed us = (m, waiting)
wait_table m infinite us = (m, waiting)

-- `us` is the time that the call takes.
unfoldable pub lock_table : LockManager → ℕ → LockMode → Timeout → ℕ → LockManager × Outcome
lock_table m name mode timeout us = elim (lookup name m.table_locks) [
  | none ↦ (
    record_table_lock_grant (record m { table_locks = put name (new_entry mode) m.table_locks }) 0
        name,
    granted,
  )
  | some e ↦
      if modes_compatible e.mode mode
      then (
        record_table_lock_grant (record m { table_locks = acquire name e m.table_locks }) 0 name,
        granted,
      )
      else wait_table (record m { total_wait_count = m.total_wait_count + 1 }) timeout us
]

-- A thread that waits in `LockTable` is woken after the time `us`: the condition of the wait, then the
-- grant.
unfoldable pub wake_table : LockManager → ℕ → LockMode → ℕ → LockManager × Outcome
wake_table m name mode us =
    let m' = add_wait_time m us in
    elim (lookup name m.table_locks) [
      | none ↦ (
        record_table_lock_grant
            (record m' { table_locks = put name (new_entry mode) m'.table_locks }) 0 name,
        granted,
      )
      | some e ↦
          if modes_compatible e.mode mode
          then (
            record_table_lock_grant (record m' { table_locks = acquire name e m'.table_locks }) 0
                name,
            granted,
          )
          else (m, waiting)
    ]

-- The wait of a thread ends where the condition does not hold in time.
unfoldable pub time_out_table : LockManager → ℕ → LockManager × Outcome
time_out_table m us = (add_wait_time m us, refused)

unfoldable pub unlock_table : LockManager → ℕ → LockManager × Bool
unlock_table m name = elim (lookup name m.table_locks) [
  | none ↦ (m, false)
  | some e ↦ (
    record_table_lock_release (record m { table_locks = release name m.table_locks }) 0 name,
    true,
  )
]

unfoldable pub release_each : List ℕ → List (ℕ × LockEntry) → List (ℕ × LockEntry)
release_each [] locks = locks
release_each (key ∷ keys) locks = release_each keys (release key locks)

unfoldable pub release_all_locks : LockManager → ℕ → LockManager
release_all_locks m txn = elim (lookup txn m.txn_locks) [
  | none ↦ m
  | some i ↦ record m {
    row_locks = release_each i.row_locks m.row_locks;
    table_locks = release_each i.table_locks m.table_locks;
    txn_locks = erase txn m.txn_locks;
  }
]

unfoldable pub get_lock_count : LockManager → ℕ
get_lock_count m = length m.row_locks + length m.table_locks
