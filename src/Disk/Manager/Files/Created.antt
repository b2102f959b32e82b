-- ===== src/Disk/Manager/Files/Created.antt =====
-- A file that `CreateFile` of goods_db/src/storage/disk/disk_manager.cpp has made, and its
-- first page.
use goods_db.Prelude.{ℕ, ◌≡◌, true, false, List, [], none, some, arith, ap, sym}
use mathlib.Core.Option.{some-injective}
use goods_db.Prelude.Assoc.{lookup, put, lookup-put_self}
use goods_db.Prelude.Bytes.{Bytes, read_u16, read_u16-write_u16}
use goods_db.Disk.{make_page_id}
use goods_db.Disk.Manager.{
  Stream, FileEntry, DiskManager, stream_write, first_free_offset, get_num_pages, allocate_in,
  allocate_page,
}
use goods_db.Disk.Manager.Free.{HasFree}
use goods_db.Disk.Manager.Chain.{allocate_in_grow}
use goods_db.Disk.Manager.Files.{register, file_header, create_file}

-- An empty file on a medium that takes writes.
pub record Empty (s : Stream) : Type 0 where
  pub well : s.failed ≡ false
  pub accepts : s.writable ≡ true
  pub size : s.extent ≡ 0

made : List ℕ → List ℕ → Stream → FileEntry
made name path s = record {
  table_name = name;
  db_path = path;
  stream = stream_write s 0 (file_header name);
  num_pages = 1;
}

made-HasFree : (name path : List ℕ) (s : Stream) → Empty s → HasFree (made name path s) []
unfolding made stream_write
made-HasFree name path s v =
    let first : read_u16 (file_header name) first_free_offset ≡ 0 =
      unfold file_header in read_u16-write_u16 _ 66 0 (omega arith) in
    record {
      healthy = ground (arith, v.well, v.accepts);
      sized = ground (arith, v.well, v.accepts, v.size);
      header = omega arith;
      within = omega arith;
      chain = ground (arith, v.well, v.accepts, first);
    }

create_file_lem :
    (m m' : DiskManager) (name path : List ℕ) (s : Stream) (id : ℕ)
    → create_file m name path none (some s) ≡ some (m', id)
    → (id ≡ m.next_file_id) × (lookup id m'.files ≡ some (made name path s))
unfolding create_file register made
create_file_lem m m' name path s id e =
    let r = some-injective _ _ e in
    let n : m.next_file_id ≡ id = ap (λ x. x.1) r in
    let files : put m.next_file_id (made name path s) m.files ≡ m'.files = ap (λ x. x.0.files) r in
    (sym n, rw (sym files, sym n) (lookup-put_self m.next_file_id (made name path s) m.files))

-- Where `CreateFile` makes an empty file on a medium that takes writes, the file has the next id, and
-- `AllocatePage` gives out its page 1, after which the file has two pages.
pub allocate_page-create_file :
    (stack : Bytes) (m m' : DiskManager) (name path : List ℕ) (s : Stream) (id : ℕ)
    → Empty s
    → create_file m name path none (some s) ≡ some (m', id)
    → (id ≡ m.next_file_id)
      × ((allocate_page stack m' id).1 ≡ make_page_id id 1)
      × (get_num_pages (allocate_page stack m' id).0 id ≡ 2)
unfolding allocate_page get_num_pages
allocate_page-create_file stack m m' name path s id v e =
    let (fresh, at) = create_file_lem m m' name path s id e in
    let grown =
      allocate_in_grow stack (made name path s) (made-HasFree name path s v)
        (unfold made in omega arith) in
    let next = (allocate_in stack (made name path s)).0 in
    let there : lookup id (put id next m'.files) ≡ some next = lookup-put_self id next m'.files in
    (
      fresh,
      rw (allocate_page, at) (ap (make_page_id id) (unfold made in grown.0)),
      rw (allocate_page, at) (rw (get_num_pages, there) (unfold made in grown.2)),
    )
