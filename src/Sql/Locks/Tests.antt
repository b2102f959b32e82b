-- ===== src/Sql/Locks/Tests.antt =====
-- Runs of the lock manager.
use goods_db.Prelude.{◌≡◌, refl, false, some, List, [], ◌∷◌}
use goods_db.Prelude.Assoc.{lookup, erase, put}
use goods_db.Sql.Locks.{
  LockManager, granted, no_wait, infinite, modes_compatible, acquire, release,
  record_table_lock_grant, record_lock_grant, record_table_lock_release, add_wait_time, wait_table,
  lock_table, wake_table, unlock_table, lock_row, unlock_row, exclusive, shared, intention_shared,
  intention_exclusive, new_entry, release_all_locks,
}
use goods_db.Sql.Locks.Bulk.{Call, run, idle}
use goods_db.Sql.Locks.First.{lock_each, first_mode_decides}
use goods_db.Sql.Locks.Holders.{Run, start, lock, fail, wake, unlock, exclusive_alone}

program : Unit {0}
unfolding lookup erase put modes_compatible acquire release record_table_lock_grant
    record_lock_grant add_wait_time wait_table lock_table record_table_lock_release wake_table
    unlock_table lock_row unlock_row
program = tt

-- A reader of table 7, and a writer that waits for it.
abbrev read_locked : LockManager
read_locked = (lock_table idle 7 shared no_wait 0).0

abbrev contended : LockManager
contended = (lock_table read_locked 7 exclusive infinite 0).0

abbrev write_locked : LockManager
write_locked = (wake_table (unlock_table contended 7).0 7 exclusive 900).0

history : Run 7 write_locked (exclusive ∷ [])
unfolding program
history =
    wake exclusive 900
      (unlock shared [] [] (
        fail exclusive infinite 0 (lock shared no_wait 0 (start {m = idle} refl) refl) (λ e. cc e)))
      refl

exclusive_alone_example : exclusive ∷ [] ≡ exclusive ∷ []
exclusive_alone_example = exclusive_alone history refl

-- IS, then IX, then S, which conflicts with IX.
first_mode_decides_example :
    ((lock_each write_locked 3 (
        (intention_shared, no_wait, 0)
        ∷ (intention_exclusive, no_wait, 0)
        ∷ (shared, no_wait, 0)
        ∷ [])).1
      ≡ granted ∷ granted ∷ granted ∷ [])
    × (lookup 3
          (lock_each write_locked 3 (
            (intention_shared, no_wait, 0)
            ∷ (intention_exclusive, no_wait, 0)
            ∷ (shared, no_wait, 0)
            ∷ [])).0.table_locks
        ≡ some (record (new_entry intention_shared) { count = 3 }))
first_mode_decides_example =
    first_mode_decides write_locked 3 intention_shared no_wait 0
      ((intention_exclusive, no_wait, 0) ∷ (shared, no_wait, 0) ∷ []) (unfold program in refl)
      (unfold program in refl)

matrix_denies : modes_compatible intention_exclusive shared ≡ false
unfolding program
matrix_denies = refl

-- Transaction 7 gives back what it holds, but a row and a table stay locked.
abbrev calls : List Call
calls =
    Call.lock_the_row 5 shared
    ∷ Call.lock_the_table 2 exclusive no_wait 0
    ∷ Call.lock_the_table 2 shared infinite 0
    ∷ Call.release_all 7
    ∷ []

still_locked : lookup 2 (run idle calls).table_locks ≡ some (new_entry exclusive)
unfolding program release_all_locks
still_locked = refl
