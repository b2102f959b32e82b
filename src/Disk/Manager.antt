-- ===== src/Disk/Manager.antt =====
-- goods_db/src/storage/disk/disk_manager.cpp: the pages of open files, and the chain of free pages. A file
-- holds whole pages, so its size is a number of pages.
use Prim.Native.Nat.{max}
use goods_db.Prelude.{
  ℕ, zero, suc, ◌+◌, ◌-◌, ◌%◌, ◌<◌, Bool, true, false, not, List, [], ◌∷◌, Option, none, some, ltb,
  ◌==◌, if◌then◌else◌, ◌||◌,
}
use goods_db.Prelude.Assoc.{lookup, erase, put}
use goods_db.Prelude.Bytes.{Bytes, zeros, read_u16, write_u16}
use goods_db.Disk.{invalid_page_id, get_file_id, get_page_no, make_page_id}
pub mod Files
pub mod Free
pub mod Chain
pub mod Pages
pub mod AsStore
pub mod Spare
pub mod Tests

-- `std::fstream` on a file of pages; `failed` is its fail bit, `writable` says whether the medium
-- takes a write.
pub record Stream : Type 0 where
  pub pages : ℕ → Bytes
  pub extent : ℕ
  pub failed : Bool
  pub writable : Bool

-- `seekg` and `read` of one page: past the end the read fails, and the buffer keeps its bytes.
unfoldable pub stream_read : Stream → ℕ → Bytes → Stream × Bytes
stream_read s n buffer =
    if s.failed || not (ltb n s.extent)
    then (record s { failed = true }, buffer)
    else (s, s.pages n)

-- `seekp` and `write` of one page; a gap before it reads as zeros.
unfoldable pub stream_write : Stream → ℕ → Bytes → Stream
stream_write s n b =
    if s.failed
    then s
    else if s.writable
    then record s {
      pages = λ k. if k == n then b else if ltb k s.extent then s.pages k else zeros;
      extent = max s.extent (n + 1);
    }
    else record s { failed = true }

unfoldable pub stream_clear : Stream → Stream
stream_clear s = record s { failed = false }

-- `FileHeader`: the name, then `total_pages` and `first_free_page`.
abbrev pub total_pages_offset : ℕ
total_pages_offset = 64

abbrev pub first_free_offset : ℕ
first_free_offset = 66

pub record FileEntry : Type 0 where
  pub table_name : List ℕ
  pub db_path : List ℕ
  pub stream : Stream
  pub num_pages : ℕ

pub record DiskManager : Type 0 where
  pub files : List (ℕ × FileEntry)
  pub next_file_id : ℕ

unfoldable pub set_stream : DiskManager → ℕ → FileEntry → Stream → DiskManager
set_stream m file_id entry s = record m {
  files = put file_id (record entry { stream = s }) m.files;
}

unfoldable pub close_file : DiskManager → ℕ → DiskManager
close_file m file_id = record m { files = erase file_id m.files }

unfoldable pub get_num_pages : DiskManager → ℕ → ℕ
get_num_pages m file_id = elim (lookup file_id m.files) [ none ↦ 0 | some e ↦ e.num_pages ]

-- The stream is cleared where the read failed.
unfoldable pub read_page : DiskManager → ℕ → Bytes → DiskManager × Bool × Bytes
read_page m page_id buffer = elim (lookup (get_file_id page_id) m.files) [
  | none ↦ (m, false, buffer)
  | some entry ↦
      let (s, b) = stream_read entry.stream (get_page_no page_id) buffer in
      if s.failed
      then (set_stream m (get_file_id page_id) entry (stream_clear s), false, b)
      else (m, true, b)
]

unfoldable pub write_page : DiskManager → ℕ → Bytes → DiskManager × Bool
write_page m page_id b = elim (lookup (get_file_id page_id) m.files) [
  | none ↦ (m, false)
  | some entry ↦
      let s = stream_write entry.stream (get_page_no page_id) b in
      if s.failed
      then (set_stream m (get_file_id page_id) entry (stream_clear s), false)
      else (set_stream m (get_file_id page_id) entry s, true)
]

-- `stack` is what the local buffers hold before a read.
module _ (stack : Bytes) where
  -- The head of the free chain is taken, and the header points to the next free page.
  unfoldable pub reuse_page : FileEntry → Stream → Bytes → FileEntry × ℕ
  reuse_page entry s header =
      let page_no = read_u16 header first_free_offset in
      let (s', free_page) = stream_read s page_no stack in
      let header' = write_u16 header first_free_offset (read_u16 free_page 0) in
      (record entry { stream = stream_write s' 0 header' }, page_no)

  -- The file grows by a page of zeros; `num_pages` is a `uint16_t`.
  unfoldable pub grow_file : FileEntry → Stream → Bytes → FileEntry × ℕ
  grow_file entry s header =
      let page_no = entry.num_pages in
      let n = (entry.num_pages + 1) % 65536 in
      let s' = stream_write s 0 (write_u16 header total_pages_offset n) in
      (record entry { stream = stream_write s' page_no zeros; num_pages = n }, page_no)

  unfoldable pub allocate_in : FileEntry → FileEntry × ℕ
  allocate_in entry =
      let (s, header) = stream_read entry.stream 0 stack in
      if read_u16 header first_free_offset == 0
      then grow_file entry s header
      else reuse_page entry s header

  unfoldable pub allocate_page : DiskManager → ℕ → DiskManager × ℕ
  allocate_page m file_id = elim (lookup file_id m.files) [
    | none ↦ (m, invalid_page_id)
    | some entry ↦ (
      record m { files = put file_id (allocate_in entry).0 m.files },
      make_page_id file_id (allocate_in entry).1,
    )
  ]

  -- The page becomes the head of the free chain: its first two bytes point to the old head.
  unfoldable pub deallocate_in : FileEntry → ℕ → FileEntry
  deallocate_in entry page_no =
      let (s, header) = stream_read entry.stream 0 stack in
      let free_page = write_u16 zeros 0 (read_u16 header first_free_offset) in
      let s' = stream_write s page_no free_page in
      record entry { stream = stream_write s' 0 (write_u16 header first_free_offset page_no) }

  unfoldable pub deallocate_page : DiskManager → ℕ → DiskManager
  deallocate_page m page_id = elim (lookup (get_file_id page_id) m.files) [
    | none ↦ m
    | some entry ↦ record m {
      files = put (get_file_id page_id) (deallocate_in entry (get_page_no page_id)) m.files;
    }
  ]
