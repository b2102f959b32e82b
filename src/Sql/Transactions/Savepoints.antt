-- ===== src/Sql/Transactions/Savepoints.antt =====
-- The savepoints of goods_db/src/sql/transaction_manager.cpp, as the current transaction lists
-- them.
use goods_db.Prelude.{
  ℕ, ◌≡◌, refl, true, false, List, [], ◌∷◌, ◌++◌, Option, none, some, arith, ◌==◌, if◌then◌else◌,
  length, Bool-cases, inl, inr, ap, sym, ◌∙◌,
}
use mathlib.Core.List.{append-nil, append_assoc}
use goods_db.Prelude.Assoc.{lookup, put, lookup-put}
use goods_db.Sql.Transactions.{
  Savepoint, Transaction, TransactionManager, has, keep_through, on_current, create_savepoint,
  rollback_to_savepoint,
}

-- The list of the current transaction of a thread.
abbrev pub savepoints_at : TransactionManager → ℕ → Option (List Savepoint)
savepoints_at m thread = elim (lookup thread m.current_txn) [
  | none ↦ none
  | some txn ↦ elim (lookup txn m.heap) [ none ↦ none | some t ↦ some t.savepoints ]
]

-- The savepoints of `names`, created in this order.
abbrev pub create_each : List ℕ → ℕ → TransactionManager → TransactionManager
create_each [] thread m = m
create_each (n ∷ names) thread m = create_each names thread (create_savepoint m thread n).0

has-append : (n : ℕ) (l r : List Savepoint) → has n (l ++ r) ≡ (if has n l then true else has n r)
unfolding has
has-append n [] r = refl
has-append n (s ∷ l) r = ground (arith, has-append n l r)

keep_through_found :
    (n : ℕ) (l r : List Savepoint) → has n l ≡ true → keep_through n (l ++ r) ≡ keep_through n l
unfolding has keep_through
keep_through_found n [] r h = absurd (cc h)
keep_through_found n (s ∷ l) r h = elim (Bool-cases (s.name == n)) [
  | inl same ↦ rw same refl
  | inr other ↦ rw other (ap (◌∷◌ s) (keep_through_found n l r (ground arith)))
]

keep_through_last :
    (n : ℕ) (l : List Savepoint) (s : Savepoint)
    → has n l ≡ false
    → (s.name == n) ≡ true
    → keep_through n (l ++ s ∷ []) ≡ l ++ s ∷ []
unfolding has keep_through
keep_through_last n [] s h same = rw same refl
keep_through_last n (x ∷ l) s h same = elim (Bool-cases (x.name == n)) [
  | inl found ↦ absurd (ground arith)
  | inr other ↦ rw other (ap (◌∷◌ x) (keep_through_last n l s (ground arith) same))
]

-- A thread whose current transaction is `txn`, with its record.
record Current (m : TransactionManager) (thread : ℕ) (l : List Savepoint) : Type 0 where
  txn : ℕ
  t : Transaction
  points : lookup thread m.current_txn ≡ some txn
  lives : lookup txn m.heap ≡ some t
  holds : t.savepoints ≡ l

current :
    (m : TransactionManager) (thread : ℕ) (l : List Savepoint)
    → savepoints_at m thread ≡ some l
    → Current m thread l
current m thread l h = ground arith

on_current-some :
    (m : TransactionManager) (thread txn : ℕ) (t t' : Transaction)
    (change : Transaction → Option Transaction)
    → lookup thread m.current_txn ≡ some txn
    → lookup txn m.heap ≡ some t
    → change t ≡ some t'
    → on_current m thread change ≡ (record m { heap = put txn t' m.heap }, true)
unfolding on_current
on_current-some m thread txn t t' change at lives h = rw (on_current, at, lives, h) refl

-- A change of the current transaction that succeeds, as its list of savepoints shows it.
change_savepoints :
    (m : TransactionManager) (thread : ℕ) (l : List Savepoint)
    (change : Transaction → Option Transaction) (c : Current m thread l) (t' : Transaction)
    → change c.t ≡ some t'
    → ((on_current m thread change).1 ≡ true)
      × (savepoints_at (on_current m thread change).0 thread ≡ some t'.savepoints)
change_savepoints m thread l change c t' h =
    let found : lookup c.txn (put c.txn t' m.heap) ≡ some t' =
      lookup-put c.txn c.txn t' m.heap ∙ ground arith in
    let eq = on_current-some m thread c.txn c.t t' change c.points c.lives h in
    (
      ap (λ r. r.1) eq,
      ap (λ r. savepoints_at r.0 thread) eq ∙ rw (savepoints_at, c.points, found) refl,
    )

-- `CreateSavepoint` adds a savepoint of the name at the end.
create_savepoint_lem :
    (m : TransactionManager) (thread n : ℕ) (l : List Savepoint)
    → savepoints_at m thread ≡ some l
    → (s : Savepoint) × ((s.name == n) ≡ true)
      × (savepoints_at (create_savepoint m thread n).0 thread ≡ some (l ++ s ∷ []))
unfolding create_savepoint
create_savepoint_lem m thread n l h =
    let c = current m thread l h in
    let s : Savepoint = record {
      name = n;
      txn_id = c.t.txn_id;
      created_at = length c.t.savepoints;
    } in
    (
      s,
      ground arith,
      (change_savepoints m thread l _ c (record c.t { savepoints = c.t.savepoints ++ s ∷ [] })
            refl).1
          ∙ ap (λ (k : List Savepoint). some (k ++ s ∷ [])) c.holds,
    )

create_each_lem :
    (names : List ℕ) (m : TransactionManager) (thread : ℕ) (l : List Savepoint)
    → savepoints_at m thread ≡ some l
    → (r : List Savepoint) × (savepoints_at (create_each names thread m) thread ≡ some (l ++ r))
create_each_lem [] m thread l h = ([], h ∙ ap some (sym (append-nil l)))
create_each_lem (n ∷ names) m thread l h =
    let (s, named, one) = create_savepoint_lem m thread n l h in
    let (r, rest) =
      create_each_lem names (create_savepoint m thread n).0 thread (l ++ s ∷ []) one in
    (s ∷ r, rest ∙ ap some (append_assoc l (s ∷ []) r))

rollback_to_savepoint_lem :
    (m : TransactionManager) (thread n : ℕ) (l : List Savepoint)
    → savepoints_at m thread ≡ some l
    → has n l ≡ true
    → ((rollback_to_savepoint m thread n).1 ≡ true)
      × (savepoints_at (rollback_to_savepoint m thread n).0 thread ≡ some (keep_through n l))
unfolding rollback_to_savepoint
rollback_to_savepoint_lem m thread n l h found =
    let c = current m thread l h in
    let ok : has n c.t.savepoints ≡ true = ap (has n) c.holds ∙ found in
    let (done, list) =
      change_savepoints m thread l _ c (record c.t { savepoints = keep_through n c.t.savepoints })
        (rw ok refl) in
    (done, list ∙ ap (λ k. some (keep_through n k)) c.holds)

-- In a thread with a transaction that has no savepoint of the name, `RollbackToSavepoint` succeeds
-- after `CreateSavepoint` of the name and of any others, and the transaction has the savepoints that
-- it had right after the first of these calls.
pub rollback_to_savepoint-create_savepoint :
    (m : TransactionManager) (thread n : ℕ) (names : List ℕ) (l : List Savepoint)
    → savepoints_at m thread ≡ some l
    → has n l ≡ false
    → ((rollback_to_savepoint (create_each names thread (create_savepoint m thread n).0) thread n).1
        ≡ true)
      × (savepoints_at
            (rollback_to_savepoint
              (create_each names thread (create_savepoint m thread n).0)
              thread
              n).0
            thread
          ≡ savepoints_at (create_savepoint m thread n).0 thread)
rollback_to_savepoint-create_savepoint m thread n names l h new =
    let (s, named, one) = create_savepoint_lem m thread n l h in
    let first = l ++ s ∷ [] in
    let has_it : has n first ≡ true =
      has-append n l (s ∷ []) ∙ rw new (unfold has in rw named refl) in
    let (r, all) = create_each_lem names (create_savepoint m thread n).0 thread first one in
    let found : has n (first ++ r) ≡ true = has-append n first r ∙ rw has_it refl in
    let (done, list) =
      rollback_to_savepoint_lem (create_each names thread (create_savepoint m thread n).0) thread n
        (first ++ r) all found in
    (
      done,
      list
          ∙ ap some (keep_through_found n first r has_it ∙ keep_through_last n l s new named)
          ∙ sym one,
    )

-- Where the transaction already has a savepoint of the name, `RollbackToSavepoint` right after
-- `CreateSavepoint` of it returns to the old savepoint, and the new one is gone.
pub rollback_to_savepoint_duplicate :
    (m : TransactionManager) (thread n : ℕ) (l : List Savepoint)
    → savepoints_at m thread ≡ some l
    → has n l ≡ true
    → savepoints_at (rollback_to_savepoint (create_savepoint m thread n).0 thread n).0 thread
      ≡ some (keep_through n l)
rollback_to_savepoint_duplicate m thread n l h old =
    let (s, named, one) = create_savepoint_lem m thread n l h in
    let found : has n (l ++ s ∷ []) ≡ true = has-append n l (s ∷ []) ∙ rw old refl in
    (rollback_to_savepoint_lem (create_savepoint m thread n).0 thread n (l ++ s ∷ []) one found).1
    ∙ ap some (keep_through_found n l (s ∷ []) old)
