-- ===== src/Sql/Transactions/Frame.antt =====
-- What the calls of goods_db/src/sql/transaction_manager.cpp leave alone.
use goods_db.Prelude.{
  ℕ, zero, suc, ◌+◌, ◌%◌, ◌^◌, ◌≡◌, refl, Bool, true, false, List, [], ◌∷◌, ◌++◌, Option, none,
  some, arith, ◌==◌, if◌then◌else◌, Bool-cases, Option-cases, inl, inr, ap, sym, ◌∙◌,
}
use goods_db.Prelude.Assoc.{lookup, erase, put}
use goods_db.Sql.Transactions.{
  IsolationLevel, Transaction, TransactionManager, XidFile, init, write_xid_file, persist_xid,
  load_xid, initialize, allocate_xid, set_current_transaction, begin, is_active, active, active_at,
  remove, clear_current, retire, commit, rollback,
}

-- The calls that write the file of ids change nothing else.
write_xid_file_frame :
    (m : TransactionManager) (x : ℕ)
    → (f : Option XidFile) × ((write_xid_file m x).0 ≡ record m { xid_file = f })
unfolding write_xid_file
write_xid_file_frame m x = elim (Option-cases m.xid_file) [
  | inl out ↦ (m.xid_file, ground arith)
  | inr (file, at) ↦ elim (Bool-cases file.writable) [
    | inl ok ↦ (some (record file { stored = some x }), ground arith)
    | inr closed ↦ (m.xid_file, ground arith)
  ]
]

pub persist_xid_named :
    (m : TransactionManager) (file : XidFile)
    → m.xid_file ≡ some file
    → persist_xid m ≡ write_xid_file m m.last_xid
unfolding persist_xid
persist_xid_named m file h = ground arith

persist_xid_unnamed : (m : TransactionManager) → m.xid_file ≡ none → persist_xid m ≡ (m, true)
unfolding persist_xid
persist_xid_unnamed m h = ground arith

pub persist_xid_frame :
    (m : TransactionManager)
    → (f : Option XidFile) × ((persist_xid m).0 ≡ record m { xid_file = f })
persist_xid_frame m = elim (Option-cases m.xid_file) [
  | inl out ↦ (m.xid_file, ap (λ r. r.0) (persist_xid_unnamed m out))
  | inr (file, at) ↦
      let (f, e) = write_xid_file_frame m m.last_xid in
      (f, ap (λ r. r.0) (persist_xid_named m file at) ∙ e)
]

-- The id that `AllocateXid` gives, and the file of ids after it.
unfoldable pub next_xid : TransactionManager → ℕ
next_xid m = (m.last_xid + 1) % 2 ^ 64

pub allocate_xid_frame :
    (m : TransactionManager)
    → (f : Option XidFile) × (allocate_xid m
        ≡ (record m { xid_file = f; last_xid = next_xid m }, next_xid m))
unfolding allocate_xid next_xid
allocate_xid_frame m =
    let m' = record m { last_xid = (m.last_xid + 1) % 2 ^ 64 } in
    let (f, e) = write_xid_file_frame m' ((m.last_xid + 1) % 2 ^ 64) in
    elim (Bool-cases ((m.last_xid + 1) % 2 ^ 64 % 1000 == 0)) [
      | inl due ↦ (f, rw due (ap (λ (n : TransactionManager). (n, (m.last_xid + 1) % 2 ^ 64)) e))
      | inr later ↦ (m.xid_file, rw later refl)
    ]

pub clear_current_frame :
    (m : TransactionManager) (thread txn : ℕ)
    → (c : List (ℕ × ℕ)) × (clear_current m thread txn ≡ record m { current_txn = c })
unfolding clear_current
clear_current_frame m thread txn = elim (Option-cases (lookup thread m.current_txn)) [
  | inl out ↦ (m.current_txn, ground arith)
  | inr (c, at) ↦ elim (Bool-cases (c == txn)) [
    | inl same ↦ (erase thread m.current_txn, ground arith)
    | inr other ↦ (m.current_txn, ground arith)
  ]
]

-- A call of `Begin`, with the new transaction.
pub begin_frame :
    (m : TransactionManager) (thread now : ℕ) (level : IsolationLevel)
    → (f : Option XidFile) × (t : Transaction) × (is_active t.state ≡ true)
      × (begin m thread now level ≡ (
        record m {
          heap = put (next_xid m) t m.heap;
          active_txns = m.active_txns ++ next_xid m ∷ [];
          current_txn = put thread (next_xid m) m.current_txn;
          last_xid = next_xid m;
          xid_file = f;
          total_txns_started = m.total_txns_started + 1;
        },
        next_xid m,
      ))
unfolding begin set_current_transaction
begin_frame m thread now level =
    let (f, e) = allocate_xid_frame m in
    (
      f,
      record {
        txn_id = next_xid m;
        state = active;
        start_ts = now;
        isolation_level = level;
        savepoints = [];
      },
      refl,
      rw e refl,
    )

pub active_at-lives :
    (m : TransactionManager) (p : Option ℕ) (txn : ℕ)
    → active_at m p ≡ some txn
    → (t : Transaction) × (lookup txn m.heap ≡ some t) × (is_active t.state ≡ true)
active_at-lives m none txn h = absurd (cc h)
active_at-lives m (some a) txn h = elim (Option-cases (lookup a m.heap)) [
  | inl out ↦ absurd (ground arith)
  | inr (t, at) ↦ elim (Bool-cases (is_active t.state)) [
    | inl on ↦
        (let same : a ≡ txn = ground arith in (t, ap (λ x. lookup x m.heap) (sym same) ∙ at, on))
    | inr off ↦ absurd (ground arith)
  ]
]

-- `Commit` and `Rollback` that succeed.
pub commit_frame :
    (m : TransactionManager) (thread txn : ℕ) (p : Option ℕ)
    → active_at m p ≡ some txn
    → (f : Option XidFile) × (c : List (ℕ × ℕ)) × (commit m thread p ≡ (
      record m {
        heap = erase txn m.heap;
        active_txns = remove txn m.active_txns;
        current_txn = c;
        xid_file = f;
        total_txns_committed = m.total_txns_committed + 1;
      },
      true,
    ))
unfolding commit retire
commit_frame m thread txn p h =
    let (f, e) = persist_xid_frame (retire m txn) in
    let m' = record (retire m txn) {
      xid_file = f;
      total_txns_committed = m.total_txns_committed + 1;
    } in
    let (c, k) = clear_current_frame m' thread txn in
    (f, c, rw (commit, h, e) (ap (λ (n : TransactionManager). (n, true)) k))

pub rollback_frame :
    (m : TransactionManager) (thread txn : ℕ) (p : Option ℕ)
    → active_at m p ≡ some txn
    → (c : List (ℕ × ℕ)) × (rollback m thread p ≡ (
      record m {
        heap = erase txn m.heap;
        active_txns = remove txn m.active_txns;
        current_txn = c;
        total_txns_rolled_back = m.total_txns_rolled_back + 1;
      },
      true,
    ))
unfolding rollback retire
rollback_frame m thread txn p h =
    let m' = record (retire m txn) { total_txns_rolled_back = m.total_txns_rolled_back + 1 } in
    let (c, k) = clear_current_frame m' thread txn in
    (c, rw (rollback, h) (ap (λ (n : TransactionManager). (n, true)) k))

pub commit_failed :
    (m : TransactionManager) (thread : ℕ) (p : Option ℕ)
    → active_at m p ≡ none
    → (commit m thread p ≡ (m, false)) × (rollback m thread p ≡ (m, false))
unfolding commit rollback
commit_failed m thread p h = (rw (commit, h) refl, rw (rollback, h) refl)

-- The last id after `Initialize`: the one in the file, or 1.
abbrev pub start_xid : Option XidFile → ℕ
start_xid none = 1
start_xid (some file) = elim file.stored [ none ↦ 1 | some x ↦ if x == 0 then 1 else x ]

initialize-file :
    (w : Bool) (s : Option ℕ)
    → let file : XidFile = record { stored = s; writable = w } in
      initialize init (some file)
      ≡ record init { xid_file = some file; last_xid = start_xid (some file) }
unfolding initialize init load_xid
initialize-file w none = refl
initialize-file w (some zero) = refl
initialize-file w (some (suc x)) = let z : (suc x == 0) ≡ false = ground arith in rw z (rw z refl)

pub initialize_frame :
    (file : Option XidFile)
    → initialize init file ≡ record init { xid_file = file; last_xid = start_xid file }
unfolding initialize init load_xid
initialize_frame none = refl
initialize_frame (some file) = initialize-file file.writable file.stored
