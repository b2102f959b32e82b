-- ===== src/Disk/Manager/Files/Tests.antt =====
-- Files that are created and opened.
use goods_db.Prelude.{ℕ, ◌<◌, ◌≡◌, refl, false, true, [], ◌∷◌, some, arith}
use goods_db.Prelude.Assoc.{lookup, erase, put}
use goods_db.Prelude.Bytes.{zeros}
use goods_db.Types.Schema.{same_name}
use goods_db.Disk.{make_page_id}
use goods_db.Disk.Manager.{
  Stream, FileEntry, DiskManager, stream_write, get_num_pages, allocate_page,
}
use goods_db.Disk.Manager.Files.{open_id, register, open_file, file_header, create_file}
use goods_db.Disk.Manager.Files.Once.{Run, start, opens, creates, Paths, mark, open_once}
use goods_db.Disk.Manager.Files.Created.{allocate_page-create_file}

program : Unit {0}
unfolding lookup erase put same_name stream_write open_id register open_file create_file
program = tt

abbrev idle : DiskManager
idle = record { files = []; next_file_id = 0 }

abbrev blank : Stream
blank = record { pages = λ p. zeros; extent = 0; failed = false; writable = true }

-- The file `a` of the table `g`.
abbrev with_a : DiskManager
with_a =
    (register idle (record {
      table_name = 103 ∷ [];
      db_path = 97 ∷ [];
      stream = stream_write blank 0 (file_header (103 ∷ []));
      num_pages = 1;
    })).0

-- The file `b` is opened as well.
abbrev with_b : DiskManager
with_b = (open_file with_a (104 ∷ []) (98 ∷ []) (some (record blank { extent = 3 }))).0

-- The file `b` is there from the start.
abbrev paths : Paths
paths path = same_name (98 ∷ []) path

history : Run with_b (mark (97 ∷ []) true paths)
unfolding program
history =
    opens (104 ∷ []) (98 ∷ []) (record blank { extent = 3 })
      (creates (103 ∷ []) (97 ∷ []) blank 0 (start paths) (omega arith) refl refl) (omega arith)
      refl

abbrev file_b : FileEntry
file_b = record {
  table_name = 104 ∷ [];
  db_path = 98 ∷ [];
  stream = record blank { extent = 3 };
  num_pages = 3;
}

open_once_example :
    (mark (97 ∷ []) true paths file_b.db_path ≡ true)
    × (1 < with_b.next_file_id)
    × (◌≡◌ {A = ℕ} 1 1)
unfolding program
open_once_example = open_once 1 1 file_b file_b history refl refl refl

allocate_page-create_file_example :
    (◌≡◌ {A = ℕ} 0 0)
    × ((allocate_page zeros with_a 0).1 ≡ make_page_id 0 1)
    × (get_num_pages (allocate_page zeros with_a 0).0 0 ≡ 2)
unfolding program
allocate_page-create_file_example =
    allocate_page-create_file zeros idle with_a (103 ∷ []) (97 ∷ []) blank 0
      (record { well = refl; accepts = refl; size = refl }) refl
