-- ===== src/Disk/Manager/Tests.antt =====
-- Runs of the disk manager on a file with two free pages.
use goods_db.Prelude.{ℕ, ◌<◌, ◌≡◌, refl, true, false, [], ◌∷◌, some, arith}
use goods_db.Prelude.Assoc.{lookup, erase, put}
use goods_db.Prelude.Bytes.{Bytes, zeros, read_u16, write_u16}
use goods_db.Disk.{get_file_id, get_page_no, make_page_id}
use goods_db.Disk.Manager.{
  FileEntry, DiskManager, stream_read, stream_write, stream_clear, set_stream, read_page,
  write_page, reuse_page, grow_file, allocate_in, allocate_page, deallocate_in, deallocate_page,
}
use goods_db.Disk.Manager.Spare.{stored-allocate_page}
use goods_db.Disk.Manager.Pages.{read, write, stored}
use goods_db.Disk.Manager.AsStore.{read-write}
use goods_db.Disk.Manager.Free.{HasFree}
use goods_db.Disk.Manager.Chain.{allocate_in_wraps, deallocate_in-HasFree, allocate-deallocate}

program : Unit {0}
unfolding lookup erase put read_u16 write_u16 get_file_id get_page_no make_page_id stream_read
    stream_write stream_clear set_stream read_page write_page reuse_page grow_file allocate_in
    allocate_page deallocate_in deallocate_page read write stored
program = tt

-- The header is page 0; `n` pages, and nothing is free.
abbrev sized : ℕ → FileEntry
sized n = record {
  table_name = 103 ∷ [];
  db_path = 115 ∷ [];
  stream = record { pages = λ p. zeros; extent = n; failed = false; writable = true };
  num_pages = n;
}

sized_free : (n : ℕ) → 0 < n → n < 65536 → HasFree (sized n) []
unfolding program
sized_free n pos small = record {
  healthy = (refl, refl);
  sized = refl;
  header = pos;
  within = small;
  chain = refl;
}

-- Pages 2 and 3 were given back, in this order.
abbrev entry : FileEntry
entry = deallocate_in zeros (deallocate_in zeros (sized 5) 2) 3

one_free : HasFree (deallocate_in zeros (sized 5) 2) (2 ∷ [])
one_free =
    deallocate_in-HasFree zeros (sized 5) 2 [] (sized_free 5 (omega arith) (omega arith))
      (omega arith) (omega arith) refl

two_free : HasFree entry (3 ∷ 2 ∷ [])
two_free =
    deallocate_in-HasFree zeros (deallocate_in zeros (sized 5) 2) 3 (2 ∷ []) one_free (omega arith)
      (unfold program in omega arith) refl

allocate-deallocate_example :
    ((allocate_in zeros (deallocate_in zeros entry 4)).1 ≡ 4)
    × HasFree (allocate_in zeros (deallocate_in zeros entry 4)).0 (3 ∷ 2 ∷ [])
allocate-deallocate_example =
    allocate-deallocate zeros entry 4 (3 ∷ 2 ∷ []) two_free (omega arith)
      (unfold program in omega arith) refl

allocate_in_wraps_example :
    ((allocate_in zeros (sized 65535)).0.num_pages ≡ 0)
    × ((allocate_in zeros (allocate_in zeros (sized 65535)).0).1 ≡ 0)
allocate_in_wraps_example =
    allocate_in_wraps zeros (sized 65535) (sized_free 65535 (omega arith) (omega arith)) refl

abbrev manager : DiskManager
manager = record { files = (1, sized 5) ∷ []; next_file_id = 2 }

abbrev ones : Bytes
ones i = 1

-- Page 1 of file 1.
abbrev after : DiskManager
after = (write_page manager 65537 ones).0

read-write_example :
    (read after 65537 zeros ≡ (true, ones)) × (read after 65538 zeros ≡ (true, zeros))
unfolding program
read-write_example =
    read-write manager after 65537 65538 ones zeros zeros (omega arith) (omega arith) refl refl

stored-allocate_page_example : stored (allocate_page zeros after 1).0 65537 ≡ some ones
unfolding program
stored-allocate_page_example =
    stored-allocate_page zeros after 1
      (record (sized 5) { stream = stream_write (sized 5).stream 1 ones }) 65537 ones refl
      (record { well = refl; writable = refl; header = omega arith; chained = omega arith })
      (omega arith) (omega arith) (omega arith) refl
