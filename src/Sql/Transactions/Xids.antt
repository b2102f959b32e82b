-- ===== src/Sql/Transactions/Xids.antt =====
-- The ids of goods_db/src/sql/transaction_manager.cpp over a restart of the server.
use goods_db.Prelude.{
  ℕ, ◌+◌, ◌^◌, ◌<◌, ◌≡◌, refl, true, [], Option, some, arith, Option-cases, inl, inr, ap, sym, ◌∙◌,
}
use goods_db.Sql.Transactions.{
  IsolationLevel, TransactionManager, XidFile, init, write_xid_file, persist_xid, initialize, begin,
  active_at, retire, commit, destroy,
}
use goods_db.Sql.Transactions.Frame.{
  next_xid, begin_frame, initialize_frame, persist_xid_named, clear_current_frame, commit_failed,
}

write_xid_file_stores :
    (m : TransactionManager) (xid : ℕ) (file : XidFile)
    → m.xid_file ≡ some file
    → file.writable ≡ true
    → (write_xid_file m xid).0.xid_file ≡ some (record file { stored = some xid })
unfolding write_xid_file
write_xid_file_stores m xid file h ok = rw (write_xid_file, h, ok) refl

-- A commit that succeeds writes the last id to a file that takes it.
commit_stores :
    (m : TransactionManager) (thread : ℕ) (p : Option ℕ) (file : XidFile)
    → m.xid_file ≡ some file
    → file.writable ≡ true
    → (commit m thread p).1 ≡ true
    → (commit m thread p).0.xid_file ≡ some (record file { stored = some m.last_xid })
unfolding commit retire write_xid_file
commit_stores m thread p file h ok done = elim (Option-cases (active_at m p)) [
  | inl out ↦ absurd (cc (sym (ap (λ r. r.1) (commit_failed m thread p out).0) ∙ done))
  | inr (txn, at) ↦
      let r = retire m txn in
      let stored = record r { xid_file = some (record file { stored = some m.last_xid }) } in
      let e : persist_xid r ≡ (stored, true) =
        persist_xid_named r file h ∙ rw (write_xid_file, h, ok) refl in
      let (c, k) =
        clear_current_frame (record stored { total_txns_committed = m.total_txns_committed + 1 })
          thread txn in
      rw (commit, at, e, k) refl
]

-- A restart with a file that holds the last id.
begin-initialize :
    (file : XidFile) (last thread now : ℕ) (level : IsolationLevel)
    → 0 < last
    → last + 1 < 2 ^ 64
    → (begin (initialize init (some (record file { stored = some last }))) thread now level).1
      ≡ last + 1
unfolding next_xid
begin-initialize file last thread now level pos small =
    let kept = some (record file { stored = some last }) in
    let (f, t, on, e) = begin_frame (initialize init kept) thread now level in
    let same : (initialize init kept).last_xid ≡ last =
      ap (λ (x : TransactionManager). x.last_xid) (initialize_frame kept) ∙ ground arith in
    ap (λ r. r.1) e ∙ omega (arith, same)

-- With a file that takes the ids, the first transaction after a restart that follows a commit has
-- the id after the last one given out before the restart, where the ids do not reach 2^64.
pub begin-commit :
    (m : TransactionManager) (thread thread' now : ℕ) (p : Option ℕ) (level : IsolationLevel)
    (file : XidFile)
    → m.xid_file ≡ some file
    → file.writable ≡ true
    → 0 < m.last_xid
    → m.last_xid + 1 < 2 ^ 64
    → (commit m thread p).1 ≡ true
    → (begin (initialize init (commit m thread p).0.xid_file) thread' now level).1 ≡ m.last_xid + 1
begin-commit m thread thread' now p level file h ok pos small done =
    ap (λ x. (begin (initialize init x) thread' now level).1)
      (commit_stores m thread p file h ok done)
    ∙ begin-initialize file m.last_xid thread' now level pos small

-- The destructor leaves no active transaction, and with a file that takes the ids, the first
-- transaction of the next run has the id after the last one given out before it, where the ids do not
-- reach 2^64.
pub begin-destroy :
    (m : TransactionManager) (thread now : ℕ) (level : IsolationLevel) (file : XidFile)
    → m.xid_file ≡ some file
    → file.writable ≡ true
    → 0 < m.last_xid
    → m.last_xid + 1 < 2 ^ 64
    → ((destroy m).active_txns ≡ [])
      × ((begin (initialize init (destroy m).xid_file) thread now level).1 ≡ m.last_xid + 1)
unfolding destroy
begin-destroy m thread now level file h ok pos small =
    let stores : (persist_xid m).0.xid_file ≡ some (record file { stored = some m.last_xid }) =
      ap (λ r. r.0.xid_file) (persist_xid_named m file h)
      ∙ write_xid_file_stores m m.last_xid file h ok in
    (
      refl,
      ap (λ x. (begin (initialize init x) thread now level).1) stores
          ∙ begin-initialize file m.last_xid thread now level pos small,
    )
