-- ===== src/Sql/Locks/Rows.antt =====
-- Row locks of goods_db/src/sql/lock_manager.cpp: what `UnlockRow` undoes.
use goods_db.Prelude.{
  ℕ, ◌+◌, ◌-◌, ◌<◌, ◌≡◌, refl, true, false, List, none, some, arith, leb, ◌==◌, if◌then◌else◌, ◌&&◌,
  Bool-cases, Option-cases, inl, inr, ap, sym, ◌∙◌,
}
use goods_db.Prelude.Assoc.{lookup, lookup-put_self, lookup-put_ne, put}
use goods_db.Sql.Locks.{
  LockMode, LockEntry, LockManager, granted, stuck, is_shared, modes_compatible, new_entry, acquire,
  release, record_lock_grant, record_lock_release, lock_row, unlock_row,
}
use goods_db.Sql.Locks.Table.{release_entry}

lock_row_free :
    (m : LockManager) (rid : ℕ) (mode : LockMode)
    → lookup rid m.row_locks ≡ none
    → lock_row m rid mode ≡ (record m { row_locks = put rid (new_entry mode) m.row_locks }, granted)
unfolding lock_row record_lock_grant
lock_row_free m rid mode h = ground arith

lock_row_found :
    (m : LockManager) (rid : ℕ) (mode : LockMode) (e : LockEntry)
    → lookup rid m.row_locks ≡ some e
    → lock_row m rid mode ≡ (
        if modes_compatible e.mode mode && (is_shared mode && is_shared e.mode)
        then (record m { row_locks = acquire rid e m.row_locks }, granted)
        else (m, stuck))
unfolding lock_row record_lock_grant
lock_row_found m rid mode e h = ground arith

unlock_row_held :
    (m : LockManager) (rid : ℕ) (e : LockEntry)
    → lookup rid m.row_locks ≡ some e
    → unlock_row m rid ≡ (record m { row_locks = release rid m.row_locks }, true)
unfolding unlock_row record_lock_release
unlock_row_held m rid e h = ground arith

-- Releasing right after acquiring gives every key its old entry back.
release-acquire :
    (key q : ℕ) (e : LockEntry) (locks : List (ℕ × LockEntry))
    → lookup key locks ≡ some e
    → 0 < e.count
    → lookup q (release key (acquire key e locks)) ≡ lookup q locks
unfolding acquire
release-acquire key q e locks h pos =
    let up = record e { count = e.count + 1 } in
    let held : lookup key (put key up locks) ≡ some up = lookup-put_self key up locks in
    let more : leb (e.count + 1) 1 ≡ false = ground arith in
    let back : e.count + 1 - 1 ≡ e.count = omega arith in
    let again = release_entry q key (put key up locks) in
    elim (Bool-cases (key == q)) [
      | inl same ↦
          let k : key ≡ q = ground arith in
          again ∙ rw (same, held, more, back) (sym (ap (λ x. lookup x locks) (sym k) ∙ h))
      | inr apart ↦ again ∙ rw apart (lookup-put_ne key q up locks apart)
    ]

release-new_entry :
    (key q : ℕ) (mode : LockMode) (locks : List (ℕ × LockEntry))
    → lookup key locks ≡ none
    → lookup q (release key (put key (new_entry mode) locks)) ≡ lookup q locks
release-new_entry key q mode locks h =
    let held : lookup key (put key (new_entry mode) locks) ≡ some (new_entry mode) =
      lookup-put_self key (new_entry mode) locks in
    let again = release_entry q key (put key (new_entry mode) locks) in
    elim (Bool-cases (key == q)) [
      | inl same ↦
          let k : key ≡ q = ground arith in
          again ∙ rw (same, held) (sym (ap (λ x. lookup x locks) (sym k) ∙ h))
      | inr apart ↦ again ∙ rw apart (lookup-put_ne key q (new_entry mode) locks apart)
    ]

-- `UnlockRow` right after a `LockRow` that was granted succeeds and leaves the locks of every row as
-- they were, where the entry of the row counted a holder.
pub unlock_row-lock_row :
    (m : LockManager) (rid q : ℕ) (mode : LockMode)
    → ((e : LockEntry) → lookup rid m.row_locks ≡ some e → 0 < e.count)
    → (lock_row m rid mode).1 ≡ granted
    → ((unlock_row (lock_row m rid mode).0 rid).1 ≡ true)
      × (lookup q (unlock_row (lock_row m rid mode).0 rid).0.row_locks ≡ lookup q m.row_locks)
unlock_row-lock_row m rid q mode pos g = elim (Option-cases (lookup rid m.row_locks)) [
  | inl out ↦
      let m' = record m { row_locks = put rid (new_entry mode) m.row_locks } in
      let held : lookup rid (put rid (new_entry mode) m.row_locks) ≡ some (new_entry mode) =
        lookup-put_self rid (new_entry mode) m.row_locks in
      rw (lock_row_free m rid mode out, unlock_row_held m' rid (new_entry mode) held)
        (refl, release-new_entry rid q mode m.row_locks out)
  | inr (e, at) ↦
      let up = record e { count = e.count + 1 } in
      let m' = record m { row_locks = acquire rid e m.row_locks } in
      let held : lookup rid (acquire rid e m.row_locks) ≡ some up =
        unfold acquire in lookup-put_self rid up m.row_locks in
      elim (Bool-cases (modes_compatible e.mode mode && (is_shared mode && is_shared e.mode))) [
        | inl ok ↦
            rw (lock_row_found m rid mode e at, ok, unlock_row_held m' rid up held)
              (refl, release-acquire rid q e m.row_locks at (pos e at))
        | inr conflict ↦ absurd (
            cc (
              let w : (lock_row m rid mode).1 ≡ stuck =
                rw (lock_row_found m rid mode e at, conflict) refl in
              sym w ∙ g))
      ]
]
