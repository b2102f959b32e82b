-- ===== src/Buffer/Pool/Tests.antt =====
-- Runs of the pool: two frames, the LRU-K policy, and a file of three pages.
use goods_db.Prelude.{◌≡◌, refl, true, false, [], ◌∷◌, none, some, arith}
use goods_db.Prelude.Assoc.{lookup, erase, put}
use goods_db.Prelude.Bytes.{Bytes, zeros, read_u16}
use goods_db.Disk.{get_file_id, get_page_no, make_page_id}
use goods_db.Disk.Store.{Store}
use goods_db.Disk.Manager.{
  DiskManager, FileEntry, stream_read, stream_write, stream_clear, set_stream, read_page,
  write_page as disk_write_page, allocate_page, deallocate_page, allocate_in, grow_file, reuse_page,
  deallocate_in,
}
use goods_db.Disk.Manager.Pages.{stored, read, write}
use goods_db.Disk.Manager.AsStore.{disk_store}
use goods_db.Buffer.LruK.{
  init as lru_init, history, pop_back, back, push_access, record_access, get_k_distance, consider,
  choose, remove_victim, victim, holds, pin, unpin,
}
use goods_db.Buffer.LruK.Policy.{lru_k}
use goods_db.Buffer.LruK.Valid.{init-IsValid as lru_init-IsValid}
use goods_db.Buffer.Pool.{
  Pool, init, fetch_page, unpin_page, new_page, delete_page, reset_page, unpin_count, update,
  vacate, write_back, evict_page, get_free_frame, fetch_hit, install, load, fetch_miss, unpin_frame,
  new_frame, delete_frame, clear_dirty, flush_page, flush_entry, flush_entries, flush_all_pages,
}
use goods_db.Buffer.Pool.Valid.{IsValid, init-IsValid}
use goods_db.Buffer.Pool.Content.{IsCoherent, content}
use goods_db.Buffer.Pool.Load.{Fetched}
use goods_db.Buffer.Pool.Fetch.{fetch_page-Fetched}
use goods_db.Buffer.Pool.Run.{
  write_page, write_page-IsValid, content-write_page, start, fetched, returned, fetch_after-Reads,
  Reads-keep, Reach-IsValid, Step, next, here,
}

-- Page `n` is filled with bytes `n`.
abbrev pub file : FileEntry
file = record {
  table_name = 103 ∷ [];
  db_path = 115 ∷ [];
  stream = record { pages = λ n i. n; extent = 4; failed = false; writable = true };
  num_pages = 4;
}

abbrev pub manager : DiskManager
manager = record { files = (1, file) ∷ []; next_file_id = 2 }

abbrev pub D : Store
D = disk_store zeros

abbrev pub empty : Pool lru_k D
empty = init lru_k D 2 manager (lru_init 2)

unfoldable pub program : Unit {0}
unfolding lookup erase put stored read write stream_read stream_write stream_clear set_stream
    read_page disk_write_page allocate_page deallocate_page allocate_in grow_file reuse_page
    deallocate_in get_file_id get_page_no lru_init history pop_back back push_access record_access
    get_k_distance consider choose remove_victim victim holds pin unpin init reset_page unpin_count
    update vacate write_back evict_page get_free_frame fetch_hit install load fetch_miss fetch_page
    unpin_frame unpin_page new_frame new_page delete_frame delete_page clear_dirty flush_page
    flush_entry flush_entries flush_all_pages write_page make_page_id read_u16
program = tt

pub empty-IsValid : IsValid {R = lru_k} {D = D} empty
unfolding program
empty-IsValid =
    init-IsValid {R = lru_k} {D = D} 2 manager (lru_init 2) (lru_init-IsValid 2) (λ f. refl)

empty-IsCoherent : IsCoherent {R = lru_k} {D = D} empty
unfolding program
empty-IsCoherent p f k = absurd (cc k)

-- Page 1 of the file is in frame 0, pinned.
abbrev one : Pool lru_k D
one = (fetch_page lru_k D empty 65537).0

one-Fetched : Fetched {R = lru_k} {D = D} empty 65537 (fetch_page lru_k D empty 65537)
one-Fetched = fetch_page-Fetched {R = lru_k} {D = D} empty 65537 empty-IsValid (omega arith)

pub nines : Bytes
nines i = 9

-- Its holder wrote nines.
abbrev pub written : Pool lru_k D
written = write_page one 0 nines

pub written-IsValid : IsValid {R = lru_k} {D = D} written
unfolding program
written-IsValid = write_page-IsValid {R = lru_k} {D = D} one 0 nines one-Fetched.valid

pub written_reads :
    IsCoherent {R = lru_k} {D = D} written
    × (content {R = lru_k} {D = D} written 65537 ≡ some nines)
unfolding program
written_reads =
    content-write_page {R = lru_k} {D = D} one 65537 0 nines (one-Fetched.coherent empty-IsCoherent)
      refl

-- Pages 2 and 3 pass through the pool, and page 1 is evicted.
abbrev given : Pool lru_k D
given = (unpin_page lru_k D written 65537 true).0

abbrev two : Pool lru_k D
two = (fetch_page lru_k D given 65538).0

abbrev evicted : Pool lru_k D
evicted = (fetch_page lru_k D two 65539).0

abbrev freed : Pool lru_k D
freed = (unpin_page lru_k D evicted 65538 false).0

-- What holds of the pools on the way.
abbrev Good : Pool lru_k D → Type 0
Good s =
    IsValid {R = lru_k} {D = D} s
    × IsCoherent {R = lru_k} {D = D} s
    × (content {R = lru_k} {D = D} s 65537 ≡ some nines)

given-Good : Good given
given-Good =
    Reads-keep {R = lru_k} {D = D} {s = written} {t = given} 65537 nines written-IsValid
      written_reads.0 (omega arith) written_reads.1 (returned 65537 true start refl)

two-Good : Good two
two-Good =
    Reads-keep {R = lru_k} {D = D} {s = given} {t = two} 65537 nines given-Good.0 given-Good.1
      (omega arith) given-Good.2 (fetched 65538 start (omega arith) refl)

freed-Good : Good freed
freed-Good =
    Reads-keep {R = lru_k} {D = D} {s = two} {t = freed} 65537 nines two-Good.0 two-Good.1
      (omega arith) two-Good.2 (returned 65538 false (fetched 65539 start (omega arith) refl) refl)

one_absent : lookup 65537 evicted.page_table ≡ none
unfolding program
one_absent = refl

fetch_after-Reads_example : ((fetch_page lru_k D freed 65537).0.pages 1).bytes ≡ nines
unfolding program
fetch_after-Reads_example =
    fetch_after-Reads {R = lru_k} {D = D} {s = written} {t = freed} 65537 1 nines written-IsValid
      written_reads.0 (omega arith) written_reads.1
      (returned 65538 false
        (fetched 65539 (fetched 65538 (returned 65537 true start refl) (omega arith) refl)
          (omega arith) refl)
        refl)
      refl

abbrev made : Pool lru_k D
made = (new_page lru_k D freed 1).0

abbrev deleted : Pool lru_k D
deleted = (delete_page lru_k D freed 65538).0

Reach-IsValid_example : IsValid {R = lru_k} {D = D} deleted
unfolding program
Reach-IsValid_example = Reach-IsValid {R = lru_k} {D = D} {s = empty} {t = deleted} empty-IsValid (
    next
      (next
        (next
          (next
            (next
              (next (next here (Step.fetch 65537 (omega arith) refl))
                (Step.write 0 nines (omega arith) refl))
              (Step.unpin 65537 true refl))
            (Step.fetch 65538 (omega arith) refl))
          (Step.fetch 65539 (omega arith) refl))
        (Step.unpin 65538 false refl))
      (Step.delete 65538 refl))
