-- ===== src/Disk.antt =====
-- goods_db/src/storage/disk and goods_db/src/include/storage/disk: pages of files, by page id.
use goods_db.Prelude.{ℕ, ◌+◌, ◌*◌, ◌/◌, ◌%◌}
pub mod Store
pub mod Manager

-- A page id is the bit pattern of an `int32_t`; `INVALID_PAGE_ID` is -1.
abbrev pub invalid_page_id : ℕ
invalid_page_id = 0xffffffff

abbrev pub id_limit : ℕ
id_limit = 0x100000000

unfoldable pub get_file_id : ℕ → ℕ
get_file_id page_id = page_id / 65536 % 65536

unfoldable pub get_page_no : ℕ → ℕ
get_page_no page_id = page_id % 65536

unfoldable pub make_page_id : ℕ → ℕ → ℕ
make_page_id file_id page_no = (file_id * 65536 + page_no) % id_limit
