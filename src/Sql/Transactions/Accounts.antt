-- ===== src/Sql/Transactions/Accounts.antt =====
-- The books of goods_db/src/sql/transaction_manager.cpp: every transaction that was started is
-- committed, rolled back or active.
use goods_db.Prelude.{
  ℕ, ◌+◌, ◌≡◌, refl, Bool, true, false, List, Option, none, some, if◌then◌else◌, ap, sym,
}
use mathlib.Core.Option.{some-injective}
use goods_db.Prelude.Assoc.{lookup}
use goods_db.Sql.Transactions.{
  Savepoint, IsolationLevel, Transaction, TransactionManager, XidFile, init, initialize, begin,
  commit, rollback, has, drop_first, keep_through, create_savepoint, release_savepoint,
  rollback_to_savepoint, get_active_transaction_count, set_current_transaction,
  set_default_isolation_level,
}
use goods_db.Sql.Transactions.Frame.{initialize_frame}
use goods_db.Sql.Transactions.Books.{
  Accounts, begin-Accounts, commit-Accounts, rollback-Accounts, on_current-Accounts,
}

-- The calls of clients, by any threads.
pub data Step (m : TransactionManager) : TransactionManager → Type 0 where
  begins : (thread now : ℕ) (level : IsolationLevel) → Step m (begin m thread now level).0
  commits : (thread : ℕ) (p : Option ℕ) → Step m (commit m thread p).0
  rolls_back : (thread : ℕ) (p : Option ℕ) → Step m (rollback m thread p).0
  creates : (thread name : ℕ) → Step m (create_savepoint m thread name).0
  releases : (thread name : ℕ) → Step m (release_savepoint m thread name).0
  returns : (thread name : ℕ) → Step m (rollback_to_savepoint m thread name).0
  sets_current : (thread : ℕ) (p : Option ℕ) → Step m (set_current_transaction m thread p)
  sets_level : (level : IsolationLevel) → Step m (set_default_isolation_level m level)

-- A server that was initialised and has served calls.
pub data Reach : TransactionManager → Type 0 where
  start : (file : Option XidFile) → Reach (initialize init file)
  next : {m t : TransactionManager} → Reach m → Step m t → Reach t

initialize-Accounts : (file : Option XidFile) → Accounts (initialize init file)
unfolding init lookup
initialize-Accounts file =
    rw (initialize_frame file) (record { balance = refl; listed = λ a t at on. absurd (cc at) })

guarded :
    (b : Bool) (t t' : Transaction) (l : List Savepoint)
    → (if b then some (record t { savepoints = l }) else none) ≡ some t'
    → t'.state ≡ t.state
guarded true t t' l e =
    ap (λ (x : Transaction). x.state) (sym (some-injective (record t { savepoints = l }) t' e))
guarded false t t' l e = absurd (cc e)

Step-Accounts : {m t : TransactionManager} → Step m t → Accounts m → Accounts t
unfolding create_savepoint release_savepoint rollback_to_savepoint set_current_transaction
    set_default_isolation_level
Step-Accounts {m} (begins thread now level) v = begin-Accounts m thread now level v
Step-Accounts {m} (commits thread p) v = commit-Accounts m thread p v
Step-Accounts {m} (rolls_back thread p) v = rollback-Accounts m thread p v
Step-Accounts {m} (creates thread name) v =
    on_current-Accounts m thread _
      (λ t t' e. ap (λ (x : Transaction). x.state) (sym (some-injective _ _ e))) v
Step-Accounts {m} (releases thread name) v =
    on_current-Accounts m thread _
      (λ t t' e. guarded (has name t.savepoints) t t' (drop_first name t.savepoints) e) v
Step-Accounts {m} (returns thread name) v =
    on_current-Accounts m thread _
      (λ t t' e. guarded (has name t.savepoints) t t' (keep_through name t.savepoints) e) v
Step-Accounts {m} (sets_current thread none) v = record { balance = v.balance; listed = v.listed }
Step-Accounts {m} (sets_current thread (some txn)) v = record {
  balance = v.balance;
  listed = v.listed;
}
Step-Accounts {m} (sets_level level) v = record { balance = v.balance; listed = v.listed }

Reach-Accounts : {m : TransactionManager} → Reach m → Accounts m
Reach-Accounts (start file) = initialize-Accounts file
Reach-Accounts (next r s) = Step-Accounts s (Reach-Accounts r)

-- In every history of calls after `Initialize`, the transactions started are those committed, those
-- rolled back and those active.
pub transactions_balance :
    {m : TransactionManager}
    → Reach m
    → m.total_txns_started
      ≡ m.total_txns_committed + m.total_txns_rolled_back + get_active_transaction_count m
unfolding get_active_transaction_count
transactions_balance r = (Reach-Accounts r).balance
