-- ===== src/Sql/Transactions/Books.antt =====
-- What each call of goods_db/src/sql/transaction_manager.cpp does to the books.
use goods_db.Prelude.{
  ℕ, ◌+◌, ◌≡◌, refl, true, false, List, [], ◌∷◌, Option, some, arith, ◌==◌, length, length-append,
  Bool-cases, Option-cases, inl, inr, ap, sym, ◌∙◌, subst,
}
use goods_db.Prelude.Assoc.{lookup, erase, put, put-cases, erase-kept}
use goods_db.Prelude.Members.{member, member-append}
use goods_db.Sql.Transactions.{
  IsolationLevel, Transaction, TransactionManager, begin, is_active, active_at, remove, commit,
  rollback, on_current,
}
use goods_db.Sql.Transactions.Frame.{
  next_xid, begin_frame, active_at-lives, commit_frame, rollback_frame, commit_failed,
}

length-remove : (x : ℕ) (l : List ℕ) → member x l ≡ true → length (remove x l) + 1 ≡ length l
unfolding remove
length-remove x [] h = absurd (cc h)
length-remove x (y ∷ l) h = elim (Bool-cases (y == x)) [
  | inl same ↦ rw same (omega arith)
  | inr other ↦ rw other (let r = length-remove x l (ground arith) in omega (arith, r))
]

member-remove_ne :
    (x y : ℕ) (l : List ℕ) → (x == y) ≡ false → member y l ≡ true → member y (remove x l) ≡ true
unfolding remove
member-remove_ne x y [] ne h = h
member-remove_ne x y (z ∷ l) ne h = elim (Bool-cases (z == x)) [
  | inl same ↦ rw same (ground arith)
  | inr other ↦ rw other (elim (Bool-cases (y == z)) [
    | inl here ↦ rw here refl
    | inr there ↦ rw there (member-remove_ne x y l ne (ground arith))
  ])
]

-- What the counters say, and that an active transaction on the heap is in the list.
pub record Accounts (m : TransactionManager) : Type 0 where
  pub balance :
      m.total_txns_started
      ≡ m.total_txns_committed + m.total_txns_rolled_back + length m.active_txns
  pub listed :
      (a : ℕ) (t : Transaction)
      → lookup a m.heap ≡ some t
      → is_active t.state ≡ true
      → member a m.active_txns ≡ true

-- The books after the transaction `txn` left the list and the heap.
retired-listed :
    (m : TransactionManager) (txn : ℕ)
    → Accounts m
    → (a : ℕ) (t : Transaction) → lookup a (erase txn m.heap) ≡ some t
    → is_active t.state ≡ true
    → member a (remove txn m.active_txns) ≡ true
retired-listed m txn v a t at on =
    let (other, still) = erase-kept txn a t m.heap at in
    member-remove_ne txn a m.active_txns other (v.listed a t still on)

retired-length :
    (m : TransactionManager) (txn : ℕ) (p : Option ℕ)
    → Accounts m
    → active_at m p ≡ some txn
    → length (remove txn m.active_txns) + 1 ≡ length m.active_txns
retired-length m txn p v h =
    let (t, at, on) = active_at-lives m p txn h in
    length-remove txn m.active_txns (v.listed txn t at on)

pub begin-Accounts :
    (m : TransactionManager) (thread now : ℕ) (level : IsolationLevel)
    → Accounts m
    → Accounts (begin m thread now level).0
begin-Accounts m thread now level v =
    let (f, t, on, e) = begin_frame m thread now level in
    let x = next_xid m in
    rw e (record {
      balance = omega (arith, v.balance, length-append m.active_txns (x ∷ []));
      listed = λ a u at act. elim (put-cases x a t u m.heap at) [
        | inl (same, _) ↦ ground (arith, member-append a x m.active_txns)
        | inr still ↦ ground (arith, member-append a x m.active_txns, v.listed a u still act)
      ];
    })

pub commit-Accounts :
    (m : TransactionManager) (thread : ℕ) (p : Option ℕ)
    → Accounts m
    → Accounts (commit m thread p).0
commit-Accounts m thread p v = elim (Option-cases (active_at m p)) [
  | inl out ↦ rw (commit_failed m thread p out).0 v
  | inr (txn, h) ↦
      let (f, c, e) = commit_frame m thread txn p h in
      rw e (record {
        balance = omega (arith, v.balance, retired-length m txn p v h);
        listed = retired-listed m txn v;
      })
]

pub rollback-Accounts :
    (m : TransactionManager) (thread : ℕ) (p : Option ℕ)
    → Accounts m
    → Accounts (rollback m thread p).0
rollback-Accounts m thread p v = elim (Option-cases (active_at m p)) [
  | inl out ↦ rw (commit_failed m thread p out).1 v
  | inr (txn, h) ↦
      let (c, e) = rollback_frame m thread txn p h in
      rw e (record {
        balance = omega (arith, v.balance, retired-length m txn p v h);
        listed = retired-listed m txn v;
      })
]

put-listed :
    (m : TransactionManager) (txn : ℕ) (t t' : Transaction)
    → Accounts m
    → lookup txn m.heap ≡ some t
    → t'.state ≡ t.state
    → (a : ℕ) (u : Transaction) → lookup a (put txn t' m.heap) ≡ some u
    → is_active u.state ≡ true
    → member a m.active_txns ≡ true
put-listed m txn t t' v lives same_state a u found act = elim (put-cases txn a t' u m.heap found) [
  | inl (same, this) ↦
      let on : is_active t.state ≡ true =
        ap is_active (sym same_state) ∙ ap (λ (x : Transaction). is_active x.state) this ∙ act in
      subst (λ x. member x m.active_txns ≡ true) same (v.listed txn t lives on)
  | inr old ↦ v.listed a u old act
]

-- A change of the current transaction that keeps its state.
pub on_current-Accounts :
    (m : TransactionManager) (thread : ℕ) (change : Transaction → Option Transaction)
    → ((t t' : Transaction) → change t ≡ some t' → t'.state ≡ t.state)
    → Accounts m
    → Accounts (on_current m thread change).0
unfolding on_current
on_current-Accounts m thread change keeps v = elim (Option-cases (lookup thread m.current_txn)) [
  | inl out ↦ rw (on_current, out) v
  | inr (txn, at) ↦ elim (Option-cases (lookup txn m.heap)) [
    | inl gone ↦ rw (on_current, at, gone) v
    | inr (t, lives) ↦ elim (Option-cases (change t)) [
      | inl failed ↦ rw (on_current, at, lives, failed) v
      | inr (t', done) ↦
          rw (on_current, at, lives, done)
            (record {
              balance = v.balance;
              listed = put-listed m txn t t' v lives (keeps t t' done);
            })
    ]
  ]
]
