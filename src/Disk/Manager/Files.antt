-- ===== src/Disk/Manager/Files.antt =====
-- The files that goods_db/src/storage/disk/disk_manager.cpp creates, opens and closes. What
-- `std::fstream` finds or creates under a path is an argument, and `none` where it does not open.
use goods_db.Prelude.{
  ℕ, ◌+◌, ◌%◌, ◌≡◌, Bool, true, false, List, [], ◌∷◌, Option, none, some, ◌==◌, if◌then◌else◌, take,
}
use goods_db.Prelude.Assoc.{lookup, put}
use goods_db.Prelude.Bytes.{Bytes, zeros, write_u16, write_bytes}
use goods_db.Types.Schema.{same_name}
use goods_db.Disk.Manager.{
  Stream, FileEntry, DiskManager, stream_write, total_pages_offset, first_free_offset, close_file,
}
pub mod Ids
pub mod Once
pub mod Created
pub mod Tests

-- `static_cast<uint16_t>(-1)`
abbrev pub no_file : ℕ
no_file = 65535

-- The loop over the open files.
unfoldable pub open_id : List ℕ → List (ℕ × FileEntry) → Option ℕ
open_id path [] = none
open_id path ((file_id, entry) ∷ files) =
    if same_name entry.db_path path then some file_id else open_id path files

-- `next_file_id_` is a `uint16_t`.
unfoldable pub register : DiskManager → FileEntry → DiskManager × ℕ
register m entry = (
  record m {
    files = put m.next_file_id entry m.files;
    next_file_id = (m.next_file_id + 1) % 65536;
  },
  m.next_file_id,
)

-- The size of the file, in pages, is kept in a `uint16_t`.
unfoldable pub open_file : DiskManager → List ℕ → List ℕ → Option Stream → DiskManager × ℕ
open_file m name path found = elim (open_id path m.files) [
  | some file_id ↦ (m, file_id)
  | none ↦ elim found [
    | none ↦ (m, no_file)
    | some s ↦
        register m
          (record { table_name = name; db_path = path; stream = s; num_pages = s.extent % 65536 })
  ]
]

-- The header page of a new file. A name has no zero byte, at which `strncpy` would stop.
unfoldable pub file_header : List ℕ → Bytes
file_header name =
    write_u16 (write_u16 (write_bytes zeros 0 (take 63 name)) total_pages_offset 1)
      first_free_offset 0

-- `none` is a thread that locks the mutex which it holds: where there is a file under the path,
-- `CreateFile` calls `OpenFile` under its own lock.
unfoldable pub create_file :
    DiskManager → List ℕ → List ℕ → Option Stream → Option Stream → Option (DiskManager × ℕ)
create_file m name path found created = elim found [
  | some _ ↦ none
  | none ↦ elim created [
    | none ↦ some (m, no_file)
    | some s ↦ some (
        register m (record {
          table_name = name;
          db_path = path;
          stream = stream_write s 0 (file_header name);
          num_pages = 1;
        }))
  ]
]

-- `DeleteFile`, which also removes what the path names.
unfoldable pub delete_file : DiskManager → ℕ → DiskManager
delete_file m file_id = close_file m file_id

unfoldable pub get_table_name : DiskManager → ℕ → List ℕ
get_table_name m file_id = elim (lookup file_id m.files) [ none ↦ [] | some e ↦ e.table_name ]

-- `SyncFile`, which flushes the stream of an open file.
unfoldable pub sync_file : DiskManager → ℕ → Bool
sync_file m file_id = elim (lookup file_id m.files) [ none ↦ false | some e ↦ true ]
