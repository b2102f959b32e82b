-- ===== src/Sql/Locks/Holders.antt =====
-- Who holds a lock on a table, in any history of the calls of goods_db/src/sql/lock_manager.cpp.
use goods_db.Prelude.{
  ℕ, ◌≡◌, ◌≢◌, refl, true, false, List, [], ◌∷◌, ◌++◌, none, some, arith, ◌==◌, length, ap, sym,
  ◌∙◌,
}
use goods_db.Prelude.Assoc.{lookup}
use goods_db.Sql.Locks.{
  LockMode, LockManager, granted, Timeout, infinite, add_wait_time, lock_table, wake_table,
  time_out_table, unlock_table, exclusive,
}
use goods_db.Sql.Locks.Agrees.{
  has_exclusive, Agrees, free, grant-Agrees, release-Agrees, alone, counted,
}
use goods_db.Sql.Locks.Table.{
  lock_table_entry, lock_table_granted, lock_table_denied, unlock_table_entry,
  wake_table-lock_table, wake_table_elsewhere,
}

-- The modes that are held on table `name`, most recent first, and a manager that got there.
pub data Run (name : ℕ) : LockManager → List LockMode → Type 0 where
  start : {m : LockManager} → lookup name m.table_locks ≡ none → Run name m []
  lock :
      {m : LockManager} {l : List LockMode} (mode : LockMode) (t : Timeout) (us : ℕ)
      → Run name m l
      → (lock_table m name mode t us).1 ≡ granted
      → Run name (lock_table m name mode t us).0 (mode ∷ l)
  fail :
      {m : LockManager} {l : List LockMode} (mode : LockMode) (t : Timeout) (us : ℕ)
      → Run name m l
      → (lock_table m name mode t us).1 ≢ granted
      → Run name (lock_table m name mode t us).0 l
  wake :
      {m : LockManager} {l : List LockMode} (mode : LockMode) (us : ℕ)
      → Run name m l
      → (wake_table m name mode us).1 ≡ granted
      → Run name (wake_table m name mode us).0 (mode ∷ l)
  wake_elsewhere :
      {m : LockManager} {l : List LockMode} (other : ℕ) (mode : LockMode) (us : ℕ)
      → (other == name) ≡ false
      → Run name m l
      → Run name (wake_table m other mode us).0 l
  time_out :
      {m : LockManager} {l : List LockMode} (us : ℕ)
      → Run name m l
      → Run name (time_out_table m us).0 l
  unlock :
      {m : LockManager} (mode : LockMode) (l r : List LockMode)
      → Run name m (l ++ mode ∷ r)
      → Run name (unlock_table m name).0 (l ++ r)
  elsewhere :
      {m : LockManager} {l : List LockMode} (other : ℕ) (mode : LockMode) (t : Timeout) (us : ℕ)
      → (other == name) ≡ false
      → Run name m l
      → Run name (lock_table m other mode t us).0 l
  unlock_elsewhere :
      {m : LockManager} {l : List LockMode} (other : ℕ)
      → (other == name) ≡ false
      → Run name m l
      → Run name (unlock_table m other).0 l

same_name : (n : ℕ) → (n == n) ≡ true
same_name n = ground arith

Run-Agrees :
    {name : ℕ} {m : LockManager} {l : List LockMode}
    → Run name m l
    → Agrees (lookup name m.table_locks) l
unfolding add_wait_time time_out_table
Run-Agrees (start h) = rw h free
Run-Agrees {name} (lock {m} {l} mode t us r g) =
    rw
      (
        lock_table_entry m name mode t us name,
        same_name name,
        lock_table_granted m name mode t us g,
      )
      (grant-Agrees (lookup name m.table_locks) l mode (Run-Agrees r)
        (lock_table_granted m name mode t us g))
Run-Agrees {name} (fail {m} {l} mode t us r g) =
    rw
      (lock_table_entry m name mode t us name, same_name name, lock_table_denied m name mode t us g)
      (Run-Agrees r)
Run-Agrees {name} (wake {m} {l} mode us r g) =
    let same = wake_table-lock_table m name mode us g in
    let ok =
      lock_table_granted (add_wait_time m us) name mode infinite us
        (sym (ap (λ x. x.1) same) ∙ g) in
    rw (same, lock_table_entry (add_wait_time m us) name mode infinite us name, same_name name, ok)
      (grant-Agrees (lookup name m.table_locks) l mode (Run-Agrees r) ok)
Run-Agrees {name} (wake_elsewhere {m} {l} other mode us ne r) =
    rw (wake_table_elsewhere m name other mode us ne) (Run-Agrees r)
Run-Agrees (time_out us r) = Run-Agrees r
Run-Agrees {name} (unlock {m} mode l r run) =
    rw (unlock_table_entry m name name, same_name name)
      (release-Agrees (lookup name m.table_locks) (l ++ mode ∷ r) l r mode (Run-Agrees run) refl)
Run-Agrees {name} (elsewhere {m} {l} other mode t us ne r) =
    rw (lock_table_entry m other mode t us name, ne) (Run-Agrees r)
Run-Agrees {name} (unlock_elsewhere {m} {l} other ne r) =
    rw (unlock_table_entry m name other, ne) (Run-Agrees r)

-- In any history of granted, refused, waiting, woken and timed-out calls of `LockTable` and of
-- `UnlockTable` by holders, a holder of the exclusive mode is the only holder of the table.
pub exclusive_alone :
    {name : ℕ} {m : LockManager} {l : List LockMode}
    → Run name m l
    → has_exclusive l ≡ true
    → l ≡ exclusive ∷ []
exclusive_alone {name} {m} {l} r h = alone (lookup name m.table_locks) l (Run-Agrees r) h

-- In any history of granted, refused, waiting, woken and timed-out calls of `LockTable` and of
-- `UnlockTable` by holders, the entry of the table counts its holders, and a table without an
-- entry has none.
pub holders_counted :
    {name : ℕ} {m : LockManager} {l : List LockMode}
    → Run name m l
    → length l ≡ elim (lookup name m.table_locks) [ none ↦ 0 | some e ↦ e.count ]
holders_counted {name} {m} {l} r = counted (lookup name m.table_locks) l (Run-Agrees r)
