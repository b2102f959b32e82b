-- ===== src/Sql/Transactions.antt =====
-- goods_db/src/sql/transaction_manager.cpp: the life of transactions, their savepoints and ids. A
-- pointer to a transaction is the id of the transaction that it was made for, since ids are not used
-- twice in a run. The names of savepoints are only compared, so a number stands for each.
use goods_db.Prelude.{
  ℕ, zero, suc, ◌+◌, ◌-◌, ◌%◌, ◌^◌, ◌≡◌, Bool, true, false, not, List, [], ◌∷◌, ◌++◌, Option, none,
  some, ◌==◌, if◌then◌else◌, ◌&&◌, length,
}
use goods_db.Prelude.Assoc.{lookup, erase, put}
pub mod Frame
pub mod Books
pub mod Accounts
pub mod Savepoints
pub mod Xids
pub mod Tests

pub record Savepoint : Type 0 where
  pub name : ℕ
  pub txn_id : ℕ
  pub created_at : ℕ

pub data State : Type 0 where
  active : State
  committed : State
  aborted : State

pub data IsolationLevel : Type 0 where
  read_uncommitted : IsolationLevel
  read_committed : IsolationLevel
  repeatable_read : IsolationLevel
  serializable : IsolationLevel

pub record Transaction : Type 0 where
  pub txn_id : ℕ
  pub state : State
  pub start_ts : ℕ
  pub isolation_level : IsolationLevel
  pub savepoints : List Savepoint

-- The file behind `xid_file_`: what it holds, and whether it can be opened for writing.
pub record XidFile : Type 0 where
  pub stored : Option ℕ
  pub writable : Bool

-- `heap` holds the transactions that are allocated, `current_txn` the variable of each thread.
pub record TransactionManager : Type 0 where
  pub heap : List (ℕ × Transaction)
  pub active_txns : List ℕ
  pub current_txn : List (ℕ × ℕ)
  pub last_xid : ℕ
  pub xid_file : Option XidFile
  pub default_isolation_level : IsolationLevel
  pub total_txns_started : ℕ
  pub total_txns_committed : ℕ
  pub total_txns_rolled_back : ℕ

unfoldable pub init : TransactionManager
init = record {
  heap = [];
  active_txns = [];
  current_txn = [];
  last_xid = 0;
  xid_file = none;
  default_isolation_level = read_committed;
  total_txns_started = 0;
  total_txns_committed = 0;
  total_txns_rolled_back = 0;
}

-- Without a name there is no file, and `PersistXid` has nothing to do.
unfoldable pub write_xid_file : TransactionManager → ℕ → TransactionManager × Bool
write_xid_file m xid = elim m.xid_file [
  | none ↦ (m, false)
  | some file ↦
      if file.writable
      then (record m { xid_file = some (record file { stored = some xid }) }, true)
      else (m, false)
]

unfoldable pub persist_xid : TransactionManager → TransactionManager × Bool
persist_xid m = elim m.xid_file [ none ↦ (m, true) | some file ↦ write_xid_file m m.last_xid ]

-- The file that the name leads to; it may not exist.
unfoldable pub load_xid : TransactionManager → XidFile → TransactionManager
load_xid m file = elim file.stored [
  | none ↦ record m { last_xid = 1 }
  | some xid ↦ if xid == 0 then record m { last_xid = 1 } else record m { last_xid = xid }
]

unfoldable pub initialize : TransactionManager → Option XidFile → TransactionManager
initialize m named =
    let m' : TransactionManager = elim named [
      | none ↦ m
      | some file ↦ load_xid (record m { xid_file = some file }) file
    ] in
    if m'.last_xid == 0 then record m' { last_xid = 1 } else m'

-- `last_xid_` is a `uint64_t`; every thousandth id is written to the file.
unfoldable pub allocate_xid : TransactionManager → TransactionManager × ℕ
allocate_xid m =
    let xid = (m.last_xid + 1) % 2 ^ 64 in
    let m' = record m { last_xid = xid } in
    if xid % 1000 == 0 then ((write_xid_file m' xid).0, xid) else (m', xid)

-- A null pointer is no entry.
unfoldable pub set_current_transaction : TransactionManager → ℕ → Option ℕ → TransactionManager
set_current_transaction m thread none = record m { current_txn = erase thread m.current_txn }
set_current_transaction m thread (some txn) = record m {
  current_txn = put thread txn m.current_txn;
}

unfoldable pub begin : TransactionManager → ℕ → ℕ → IsolationLevel → TransactionManager × ℕ
begin m thread now level =
    let (m', xid) = allocate_xid m in
    let txn : Transaction = record {
      txn_id = xid;
      state = active;
      start_ts = now;
      isolation_level = level;
      savepoints = [];
    } in
    let listed = record m' {
      heap = put xid txn m'.heap;
      active_txns = m'.active_txns ++ xid ∷ [];
    } in
    let set = set_current_transaction listed thread (some xid) in
    (record set { total_txns_started = set.total_txns_started + 1 }, xid)

unfoldable pub begin_default : TransactionManager → ℕ → ℕ → TransactionManager × ℕ
begin_default m thread now = begin m thread now m.default_isolation_level

abbrev pub is_active : State → Bool
is_active active = true
is_active committed = false
is_active aborted = false

-- `std::find` and `erase`: the first occurrence goes.
unfoldable pub remove : ℕ → List ℕ → List ℕ
remove x [] = []
remove x (y ∷ l) = if y == x then l else y ∷ remove x l

-- `if (current_txn_ == txn) current_txn_ = nullptr`
unfoldable pub clear_current : TransactionManager → ℕ → ℕ → TransactionManager
clear_current m thread txn = elim (lookup thread m.current_txn) [
  | none ↦ m
  | some c ↦ if c == txn then record m { current_txn = erase thread m.current_txn } else m
]

-- A pointer that is neither null nor to a transaction of the heap is a use after free in the C++; the
-- call fails here.
abbrev pub active_at : TransactionManager → Option ℕ → Option ℕ
active_at m none = none
active_at m (some txn) = elim (lookup txn m.heap) [
  | none ↦ none
  | some t ↦ if is_active t.state then some txn else none
]

-- The transaction leaves the list of the active ones and is deleted.
unfoldable pub retire : TransactionManager → ℕ → TransactionManager
retire m txn = record m { active_txns = remove txn m.active_txns; heap = erase txn m.heap }

unfoldable pub commit : TransactionManager → ℕ → Option ℕ → TransactionManager × Bool
commit m thread pointer = elim (active_at m pointer) [
  | none ↦ (m, false)
  | some txn ↦
      let m' = (persist_xid (retire m txn)).0 in
      (
        clear_current (record m' { total_txns_committed = m'.total_txns_committed + 1 }) thread txn,
        true,
      )
]

unfoldable pub rollback : TransactionManager → ℕ → Option ℕ → TransactionManager × Bool
rollback m thread pointer = elim (active_at m pointer) [
  | none ↦ (m, false)
  | some txn ↦
      let m' = retire m txn in
      (
        clear_current (record m' { total_txns_rolled_back = m'.total_txns_rolled_back + 1 }) thread
            txn,
        true,
      )
]

-- `std::find_if` for a name, and what the calls do at the place that it finds: `erase(it)` and
-- `erase(it + 1, end())`.
unfoldable pub has : ℕ → List Savepoint → Bool
has name [] = false
has name (s ∷ l) = if s.name == name then true else has name l

unfoldable pub drop_first : ℕ → List Savepoint → List Savepoint
drop_first name [] = []
drop_first name (s ∷ l) = if s.name == name then l else s ∷ drop_first name l

unfoldable pub keep_through : ℕ → List Savepoint → List Savepoint
keep_through name [] = []
keep_through name (s ∷ l) = if s.name == name then s ∷ [] else s ∷ keep_through name l

-- A change of the current transaction of a thread, which may fail.
unfoldable pub on_current :
    TransactionManager → ℕ → (Transaction → Option Transaction) → TransactionManager × Bool
on_current m thread change = elim (lookup thread m.current_txn) [
  | none ↦ (m, false)
  | some txn ↦ elim (lookup txn m.heap) [
    | none ↦ (m, false)
    | some t ↦ elim (change t) [
      | none ↦ (m, false)
      | some t' ↦ (record m { heap = put txn t' m.heap }, true)
    ]
  ]
]

-- `CreateSavepoint`: a savepoint of the same name stays in the list.
unfoldable pub create_savepoint : TransactionManager → ℕ → ℕ → TransactionManager × Bool
create_savepoint m thread name = on_current m thread (λ t. some (record t {
  savepoints =
      t.savepoints
      ++ record { name = name; txn_id = t.txn_id; created_at = length t.savepoints } ∷ [];
}))

unfoldable pub release_savepoint : TransactionManager → ℕ → ℕ → TransactionManager × Bool
release_savepoint m thread name = on_current m thread (λ t.
    if has name t.savepoints
    then some (record t { savepoints = drop_first name t.savepoints })
    else none)

unfoldable pub rollback_to_savepoint : TransactionManager → ℕ → ℕ → TransactionManager × Bool
rollback_to_savepoint m thread name = on_current m thread (λ t.
    if has name t.savepoints
    then some (record t { savepoints = keep_through name t.savepoints })
    else none)

unfoldable pub get_active_transaction_count : TransactionManager → ℕ
get_active_transaction_count m = length m.active_txns

unfoldable pub set_default_isolation_level :
    TransactionManager → IsolationLevel → TransactionManager
set_default_isolation_level m level = record m { default_isolation_level = level }

-- The destructor deletes the transactions that are still active.
unfoldable pub delete_all : List ℕ → List (ℕ × Transaction) → List (ℕ × Transaction)
delete_all [] heap = heap
delete_all (txn ∷ txns) heap = delete_all txns (erase txn heap)

unfoldable pub destroy : TransactionManager → TransactionManager
destroy m =
    let m' = (persist_xid m).0 in
    record m' { heap = delete_all m'.active_txns m'.heap; active_txns = [] }
