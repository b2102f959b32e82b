-- ===== src/Sql/Locks/Table.antt =====
-- What the calls of goods_db/src/sql/lock_manager.cpp do to the entry of a table.
use goods_db.Prelude.{
  ℕ, ◌+◌, ◌-◌, ◌≡◌, ◌≢◌, refl, Bool, true, false, List, Option, none, some, arith, leb, ◌==◌,
  if◌then◌else◌, Bool-cases, Option-cases, inl, inr, ap, sym, ◌∙◌,
}
use goods_db.Prelude.Assoc.{lookup, put, lookup-put, lookup-put_ne, lookup-erase}
use goods_db.Sql.Locks.{
  LockMode, LockEntry, LockManager, granted, Timeout, no_wait, timed, infinite, modes_compatible,
  new_entry, acquire, release, record_table_lock_grant, add_wait_time, wait_table, lock_table,
  wake_table, unlock_table, record_table_lock_release,
}

-- What the calls do to the entry of the table.
abbrev pub entry_after : Option LockEntry → LockMode → LockEntry
entry_after none mode = new_entry mode
entry_after (some e) mode = record e { count = e.count + 1 }

abbrev pub may_grant : Option LockEntry → LockMode → Bool
may_grant none mode = true
may_grant (some e) mode = modes_compatible e.mode mode

abbrev pub entry_released : Option LockEntry → Option LockEntry
entry_released none = none
entry_released (some e) = if leb e.count 1 then none else some (record e { count = e.count - 1 })

wait_table_frame :
    (m : LockManager) (t : Timeout) (us : ℕ)
    → ((wait_table m t us).0.table_locks ≡ m.table_locks) × ((wait_table m t us).1 ≢ granted)
unfolding wait_table add_wait_time
wait_table_frame m no_wait us = (refl, λ e. cc e)
wait_table_frame m timed us = (refl, λ e. cc e)
wait_table_frame m infinite us = (refl, λ e. cc e)

module _ (m : LockManager) (other : ℕ) (mode : LockMode) (t : Timeout) (us : ℕ) where
  -- The manager that has counted a wait.
  abbrev counted : LockManager
  counted = record m { total_wait_count = m.total_wait_count + 1 }

  pub lock_table_free :
      lookup other m.table_locks ≡ none
      → lock_table m other mode t us
        ≡ (record m { table_locks = put other (new_entry mode) m.table_locks }, granted)
  unfolding lock_table record_table_lock_grant
  lock_table_free h = ground arith

  pub lock_table_shared :
      (e : LockEntry)
      → lookup other m.table_locks ≡ some e
      → modes_compatible e.mode mode ≡ true
      → lock_table m other mode t us
        ≡ (record m { table_locks = acquire other e m.table_locks }, granted)
  unfolding lock_table record_table_lock_grant
  lock_table_shared e h c = ground arith

  lock_table_conflict :
      (e : LockEntry)
      → lookup other m.table_locks ≡ some e
      → modes_compatible e.mode mode ≡ false
      → lock_table m other mode t us
        ≡ wait_table (record m { total_wait_count = m.total_wait_count + 1 }) t us
  unfolding lock_table record_table_lock_grant
  lock_table_conflict e h c = ground arith

  pub lock_table_entry :
      (name : ℕ)
      → lookup name (lock_table m other mode t us).0.table_locks ≡ (
          if other == name
          then (if may_grant (lookup other m.table_locks) mode
              then some (entry_after (lookup other m.table_locks) mode)
              else lookup name m.table_locks)
          else lookup name m.table_locks)
  lock_table_entry name = elim (Option-cases (lookup other m.table_locks)) [
    | inl out ↦ rw (lock_table_free out, out) (lookup-put other name (new_entry mode) m.table_locks)
    | inr (e, at) ↦ elim (Bool-cases (modes_compatible e.mode mode)) [
      | inl ok ↦
          rw (lock_table_shared e at ok, at, ok)
            (unfold acquire in
              lookup-put other name (record e { count = e.count + 1 }) m.table_locks)
      | inr conflict ↦
          rw (lock_table_conflict e at conflict, at, conflict)
            (ap (λ l. lookup name l) (wait_table_frame counted t us).0 ∙ ground arith)
    ]
  ]

  pub lock_table_granted :
      (lock_table m other mode t us).1 ≡ granted
      → may_grant (lookup other m.table_locks) mode ≡ true
  lock_table_granted g = elim (Option-cases (lookup other m.table_locks)) [
    | inl out ↦ rw out refl
    | inr (e, at) ↦ elim (Bool-cases (modes_compatible e.mode mode)) [
      | inl ok ↦ rw at ok
      | inr conflict ↦ absurd (
          (wait_table_frame counted t us).1
            (sym (ap (λ r. r.1) (lock_table_conflict e at conflict)) ∙ g))
    ]
  ]

  pub lock_table_denied :
      (lock_table m other mode t us).1 ≢ granted
      → may_grant (lookup other m.table_locks) mode ≡ false
  lock_table_denied g = elim (Option-cases (lookup other m.table_locks)) [
    | inl out ↦ absurd (g (ap (λ r. r.1) (lock_table_free out)))
    | inr (e, at) ↦ elim (Bool-cases (modes_compatible e.mode mode)) [
      | inl ok ↦ absurd (g (ap (λ r. r.1) (lock_table_shared e at ok)))
      | inr conflict ↦ rw at conflict
    ]
  ]

pub release_entry :
    (name other : ℕ) (locks : List (ℕ × LockEntry))
    → lookup name (release other locks)
      ≡ (if other == name then entry_released (lookup other locks) else lookup name locks)
unfolding release
release_entry name other locks = elim (Option-cases (lookup other locks)) [
  | inl out ↦ rw (release, out) (ground arith)
  | inr (e, at) ↦ elim (Bool-cases (leb e.count 1)) [
    | inl last ↦ rw (release, at, last) (lookup-erase other name locks)
    | inr more ↦
        rw (release, at, more) (lookup-put other name (record e { count = e.count - 1 }) locks)
  ]
]

pub unlock_table_entry :
    (m : LockManager) (name other : ℕ)
    → lookup name (unlock_table m other).0.table_locks ≡ (
        if other == name
        then entry_released (lookup other m.table_locks)
        else lookup name m.table_locks)
unfolding unlock_table record_table_lock_release
unlock_table_entry m name other = elim (Option-cases (lookup other m.table_locks)) [
  | inl out ↦ rw (unlock_table, out) (ground arith)
  | inr (e, at) ↦ rw (unlock_table, at) (release_entry name other m.table_locks ∙ rw at refl)
]

pub wake_table-lock_table :
    (m : LockManager) (name : ℕ) (mode : LockMode) (us : ℕ)
    → (wake_table m name mode us).1 ≡ granted
    → wake_table m name mode us ≡ lock_table (add_wait_time m us) name mode infinite us
unfolding wake_table lock_table add_wait_time
wake_table-lock_table m name mode us g = ground arith

-- A thread that is woken leaves the other tables alone.
pub wake_table_elsewhere :
    (m : LockManager) (name other : ℕ) (mode : LockMode) (us : ℕ)
    → (other == name) ≡ false
    → lookup name (wake_table m other mode us).0.table_locks ≡ lookup name m.table_locks
unfolding wake_table add_wait_time acquire record_table_lock_grant
wake_table_elsewhere m name other mode us ne = elim (Option-cases (lookup other m.table_locks)) [
  | inl out ↦ rw (wake_table, out) (lookup-put_ne other name (new_entry mode) m.table_locks ne)
  | inr (e, at) ↦ elim (Bool-cases (modes_compatible e.mode mode)) [
    | inl ok ↦
        rw (wake_table, at, ok)
          (lookup-put_ne other name (record e { count = e.count + 1 }) m.table_locks ne)
    | inr conflict ↦ rw (wake_table, at, conflict) refl
  ]
]
