-- ===== src/Disk/Manager/AsStore.antt =====
-- `DiskManager` keeps the promises that the buffer pool relies on.
use goods_db.Prelude.{
  ℕ, ◌<◌, ◌≡◌, ◌≢◌, refl, true, false, none, some, arith, ◌==◌, if◌then◌else◌, Bool-cases,
  Option-cases, inl, inr, sym, ap, ◌∙◌, subst,
}
use goods_db.Prelude.Assoc.{lookup, lookup-put}
use goods_db.Prelude.Bytes.{Bytes}
use goods_db.Disk.{id_limit, get_file_id, get_page_no, make_page_id}
use goods_db.Disk.Store.{Store}
use goods_db.Disk.Manager.{DiskManager, allocate_page, deallocate_page}
use goods_db.Disk.Manager.Pages.{
  page_of, stored, read, write, same_entry, id_parts, read_closed, read_open, stored_open, written,
  write_some, page_of-written, page_of-written_ne,
}

pub read-stored :
    (m : DiskManager) (p : ℕ) (buffer b : Bytes) → stored m p ≡ some b → read m p buffer ≡ (true, b)
read-stored m p buffer b h = elim (Option-cases (lookup (get_file_id p) m.files)) [
  | inl out ↦ absurd (ground (arith, (read_closed m p buffer out).1))
  | inr (e, at) ↦ ground (arith, stored_open m p e at, read_open m p e buffer at)
]

pub read-missing :
    (m : DiskManager) (p : ℕ) (buffer : Bytes) → stored m p ≡ none → (read m p buffer).0 ≡ false
read-missing m p buffer h = elim (Option-cases (lookup (get_file_id p) m.files)) [
  | inl out ↦ ap (λ r. r.0) (read_closed m p buffer out).0
  | inr (e, at) ↦ ground (arith, stored_open m p e at, read_open m p e buffer at)
]

pub allocate-lt :
    (stack : Bytes) (m : DiskManager) (file : ℕ) → (allocate_page stack m file).1 < id_limit
unfolding make_page_id allocate_page
allocate-lt stack m file = ground arith

pub stored-write_self :
    (m m' : DiskManager) (p : ℕ) (b : Bytes) → write m p b ≡ some m' → stored m' p ≡ some b
stored-write_self m m' p b h =
    let (e, at, well, after) = write_some m p m' b h in
    let found : lookup (get_file_id p) m'.files ≡ some (written m p e b) =
      rw (after, lookup-put (get_file_id p) (get_file_id p) (written m p e b) m.files)
        (ground arith) in
    stored_open m' p (written m p e b) found ∙ page_of-written m p e b well

stored-write_ne :
    (m m' : DiskManager) (p q : ℕ) (b c : Bytes)
    → p < id_limit
    → q < id_limit
    → write m p b ≡ some m'
    → stored m q ≡ some c
    → (p == q) ≡ false
    → stored m' q ≡ some c
stored-write_ne m m' p q b c hp hq h k apart =
    let (e, at, well, after) = write_some m p m' b h in
    let put_at : lookup (get_file_id q) m'.files ≡ (
        if get_file_id p == get_file_id q
        then some (written m p e b)
        else lookup (get_file_id q) m.files) =
      rw after (lookup-put (get_file_id p) (get_file_id q) (written m p e b) m.files) in
    elim (Bool-cases (get_file_id p == get_file_id q)) [
      | inl file ↦
          let same : get_file_id p ≡ get_file_id q = ground arith in
          let other : get_page_no q ≢ get_page_no p =
            λ f. (let pq : p ≡ q = id_parts p q hp hq same (sym f) in ground arith) in
          let here : lookup (get_file_id q) m'.files ≡ some (written m p e b) =
            put_at ∙ rw file refl in
          let held : page_of e (get_page_no q) ≡ some c =
            sym (stored_open m q e (subst (λ x. lookup x m.files ≡ some e) same at)) ∙ k in
          stored_open m' q (written m p e b) here
          ∙ page_of-written_ne m p e b c (get_page_no q) well other held
      | inr elsewhere ↦
          let there : lookup (get_file_id q) m'.files ≡ lookup (get_file_id q) m.files =
            put_at ∙ rw elsewhere refl in
          same_entry m m' q there ∙ k
    ]

pub stored-write :
    (m m' : DiskManager) (p q : ℕ) (b c : Bytes)
    → p < id_limit
    → q < id_limit
    → write m p b ≡ some m'
    → stored m q ≡ some c
    → stored m' q ≡ (if p == q then some b else some c)
stored-write m m' p q b c hp hq h k = elim (Bool-cases (p == q)) [
  | inl same ↦
      let e : p ≡ q = ground arith in
      rw same (subst (λ x. stored m' x ≡ some b) e (stored-write_self m m' p b h))
  | inr apart ↦ rw apart (stored-write_ne m m' p q b c hp hq h k apart)
]

abbrev pub disk_store : Bytes → Store
disk_store stack = record {
  State = DiskManager;
  read = read;
  write = write;
  allocate = allocate_page stack;
  deallocate = deallocate_page stack;
  sync = λ m file. m;
  stored = stored;
  read-stored = read-stored;
  read-missing = read-missing;
  stored-write_self = stored-write_self;
  stored-write = stored-write;
  allocate-lt = allocate-lt stack;
  stored-sync = λ m file q. refl;
}

-- After a write that succeeds, `ReadPage` of that page gives the bytes written, and of any other
-- page that could be read the same bytes as before.
pub read-write :
    (m m' : DiskManager) (p q : ℕ) (b c buffer : Bytes)
    → p < id_limit
    → q < id_limit
    → write m p b ≡ some m'
    → stored m q ≡ some c
    → (read m' p buffer ≡ (true, b)) × (read m' q buffer ≡ (true, if p == q then b else c))
read-write m m' p q b c buffer hp hq h k =
    let other = stored-write m m' p q b c hp hq h k in
    (
      read-stored m' p buffer b (stored-write_self m m' p b h),
      read-stored m' q buffer (if p == q then b else c) (other ∙ ground arith),
    )
