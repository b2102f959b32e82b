-- ===== src/Sql/Locks/First.antt =====
-- Which requests `LockTable` of goods_db/src/sql/lock_manager.cpp grants while nobody unlocks.
use goods_db.Prelude.{
  ℕ, ◌+◌, ◌≡◌, refl, Bool, true, List, [], ◌∷◌, none, some, arith, ◌==◌, suc, length, ap, ◌∙◌, ◌&&◌,
}
use goods_db.Prelude.Assoc.{lookup}
use goods_db.Sql.Locks.{
  LockMode, LockEntry, LockManager, Outcome, granted, Timeout, modes_compatible, new_entry,
  lock_table,
}
use goods_db.Sql.Locks.Table.{lock_table_entry, lock_table_free, lock_table_shared}

-- Requests for one table, each with its time limit and the time that it takes.
abbrev pub lock_each : LockManager → ℕ → List (LockMode × Timeout × ℕ) → LockManager × List Outcome
lock_each m name [] = (m, [])
lock_each m name ((mode, t, us) ∷ requests) =
    let (m1, outcome) = lock_table m name mode t us in
    let (m2, outcomes) = lock_each m1 name requests in (m2, outcome ∷ outcomes)

-- Every mode of the list is compatible with one mode.
abbrev pub all_compatible : LockMode → List (LockMode × Timeout × ℕ) → Bool
all_compatible mode [] = true
all_compatible mode ((other, _, _) ∷ requests) =
    modes_compatible mode other && all_compatible mode requests

abbrev pub all_granted : List (LockMode × Timeout × ℕ) → List Outcome
all_granted [] = []
all_granted (_ ∷ requests) = granted ∷ all_granted requests

outcome-cons :
    {o o' : Outcome} {l l' : List Outcome}
    → o ≡ o'
    → l ≡ l'
    → ◌≡◌ {A = List Outcome} (o ∷ l) (o' ∷ l')
outcome-cons a b = rw (a, b) refl

entry-lock_each :
    (m : LockManager) (name : ℕ) (e : LockEntry) (requests : List (LockMode × Timeout × ℕ))
    → lookup name m.table_locks ≡ some e
    → all_compatible e.mode requests ≡ true
    → ((lock_each m name requests).1 ≡ all_granted requests)
      × (lookup name (lock_each m name requests).0.table_locks
          ≡ some (record e { count = e.count + length requests }))
entry-lock_each m name e [] at ok =
    let counted : e.count ≡ e.count + 0 = omega arith in
    (refl, at ∙ ap (λ n. some (record e { count = n })) counted)
entry-lock_each m name e ((mode, t, us) ∷ requests) at ok =
    let fits : modes_compatible e.mode mode ≡ true = ground arith in
    let later : all_compatible e.mode requests ≡ true = ground arith in
    let more = record e { count = e.count + 1 } in
    let same : (name == name) ≡ true = ground arith in
    let m1 = (lock_table m name mode t us).0 in
    let held : lookup name m1.table_locks ≡ some more =
      lock_table_entry m name mode t us name ∙ rw (same, at, fits) refl in
    let (outcomes, entry) = entry-lock_each m1 name more requests held later in
    let first = ap (λ r. r.1) (lock_table_shared m name mode t us e at fits) in
    let counted : e.count + 1 + length requests ≡ e.count + suc (length requests) = omega arith in
    (outcome-cons first outcomes, entry ∙ ap (λ n. some (record e { count = n })) counted)

-- On a table without locks, `LockTable` grants a first request, and then every request whose mode is
-- compatible with that of the first one, whatever conflicts there are among the others. The entry keeps
-- the mode of the first holder and counts all of them.
pub first_mode_decides :
    (m : LockManager) (name : ℕ) (mode : LockMode) (t : Timeout) (us : ℕ)
    (requests : List (LockMode × Timeout × ℕ))
    → lookup name m.table_locks ≡ none
    → all_compatible mode requests ≡ true
    → ((lock_each m name ((mode, t, us) ∷ requests)).1 ≡ granted ∷ all_granted requests)
      × (lookup name (lock_each m name ((mode, t, us) ∷ requests)).0.table_locks
          ≡ some (record (new_entry mode) { count = 1 + length requests }))
first_mode_decides m name mode t us requests free ok =
    let same : (name == name) ≡ true = ground arith in
    let held : lookup name (lock_table m name mode t us).0.table_locks ≡ some (new_entry mode) =
      lock_table_entry m name mode t us name ∙ rw (same, free) refl in
    let (outcomes, entry) =
      entry-lock_each (lock_table m name mode t us).0 name (new_entry mode) requests held ok in
    (outcome-cons (ap (λ r. r.1) (lock_table_free m name mode t us free)) outcomes, entry)
