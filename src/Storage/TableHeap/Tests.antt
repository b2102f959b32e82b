-- ===== src/Storage/TableHeap/Tests.antt =====
-- Runs of a table: a pool of two frames over a file with one table page.
use goods_db.Prelude.{
  ℕ, ◌≡◌, refl, true, false, List, [], ◌∷◌, none, some, arith, ◌⊎◌, ◌==◌, if◌then◌else◌,
}
use goods_db.Prelude.Members.{member}
use goods_db.Prelude.Bytes.{Bytes, zeros, write_u16, read_u32, write_u32, write_bytes, read_bytes}
use goods_db.Disk.{invalid_page_id}
use goods_db.Disk.Manager.{DiskManager, FileEntry}
use goods_db.Disk.Manager.Spare.{IsSound, stored-allocate_page}
use goods_db.Buffer.LruK.{init as lru_init}
use goods_db.Buffer.LruK.Policy.{lru_k}
use goods_db.Buffer.LruK.Valid.{init-IsValid as lru_init-IsValid}
use goods_db.Buffer.Pool.{Pool, init as pool_init, fetch_page}
use goods_db.Buffer.Pool.Valid.{IsValid, init-IsValid}
use goods_db.Buffer.Pool.Content.{IsCoherent}
use goods_db.Buffer.Pool.Visit.{store, work_on, visit}
use goods_db.Buffer.Pool.NewPage.{IsSpared}
use goods_db.Buffer.Pool.Tests.{D, program as pool_program}
use goods_db.Storage.TablePage.{
  init, get_next_page_id, set_next_page_id, set_prev_page_id, get_slot_count, get_slot_offset,
  slot_tuple_offset, slot_tuple_size, set_slot_info, set_slot_deleted, is_deleted, is_live,
  lowest_from, lowest_tuple, get_free_space, new_tuple_offset, place_tuple,
}
use goods_db.Storage.TablePage
use goods_db.Storage.TablePage.Valid
use goods_db.Storage.TablePage.Client
use goods_db.Storage.TablePage.Valid.{live-below}
use goods_db.Storage.TableHeap.{
  Rid, Heap, make_heap, try_insert, insert_from, allocate_new_page, link_prev, fill_page,
  insert_into_new, append_page, after_search, insert_tuple, get_tuple, mark_delete,
}
use goods_db.Storage.TableHeap.Chain.{row, Chain}
use goods_db.Storage.TableHeap.Search.{Searched, insert_from-Searched}
use goods_db.Storage.TableHeap.NewPage.{with_new_page}
use goods_db.Storage.TableHeap.Insert.{row-insert_tuple, row-append_page}
use goods_db.Storage.TableHeap.Client.{row-mark_delete}

unfoldable pub program : Unit {0}
unfolding pool_program write_u16 read_u32 write_u32 write_bytes read_bytes store work_on visit init
    get_next_page_id set_next_page_id set_prev_page_id get_slot_count get_slot_offset
    slot_tuple_offset slot_tuple_size set_slot_info set_slot_deleted is_deleted is_live lowest_from
    lowest_tuple get_free_space new_tuple_offset place_tuple TablePage.insert_tuple
    TablePage.get_tuple TablePage.mark_delete make_heap try_insert insert_from allocate_new_page
    link_prev fill_page insert_into_new append_page after_search insert_tuple get_tuple mark_delete
program = tt

abbrev pub pen : List ℕ
pen = 112 ∷ 101 ∷ 110 ∷ []

abbrev ink : List ℕ
ink = 105 ∷ 110 ∷ 107 ∷ 33 ∷ []

-- A page with the tuple `pen` at offset `at`.
abbrev page_at : ℕ → Bytes
page_at at = write_u16 (set_slot_info (write_bytes (init 65537) at pen) 0 at 3) 20 1

-- The file has a header and the page.
abbrev file : ℕ → FileEntry
file at = record {
  table_name = 103 ∷ [];
  db_path = 115 ∷ [];
  stream = record {
    pages = λ n. if n == 1 then page_at at else zeros;
    extent = 2;
    failed = false;
    writable = true;
  };
  num_pages = 2;
}

abbrev manager : ℕ → DiskManager
manager at = record { files = (1, file at) ∷ []; next_file_id = 2 }

abbrev pub P : Type 0
P = Pool lru_k D

-- With room in the page, and without.
abbrev pub roomy : P
roomy = pool_init lru_k D 2 (manager 16000) (lru_init 2)

abbrev pub full : P
full = pool_init lru_k D 2 (manager 28) (lru_init 2)

abbrev heap : Heap
heap = make_heap 0 65537

pub start-IsValid :
    (at : ℕ) → IsValid {R = lru_k} {D = D} (pool_init lru_k D 2 (manager at) (lru_init 2))
unfolding program
start-IsValid at =
    init-IsValid {R = lru_k} {D = D} 2 (manager at) (lru_init 2) (lru_init-IsValid 2) (λ f. refl)

pub start-IsCoherent :
    (at : ℕ) → IsCoherent {R = lru_k} {D = D} (pool_init lru_k D 2 (manager at) (lru_init 2))
unfolding program
start-IsCoherent at p f k = absurd (cc k)

only_slot : (at i : ℕ) → is_live (page_at at) i ≡ true → i ≡ 0
unfolding program
only_slot at i h = let (low, d) = live-below (page_at at) i h in omega (arith, low)

page_at-IsValid : TablePage.Valid.IsValid (page_at 16000) × TablePage.Valid.IsValid (page_at 28)
unfolding program
page_at-IsValid = (
  record {
    fits = omega arith;
    placed = λ i h. rw (only_slot 16000 i h) (omega arith, omega arith);
    apart = λ i j h k ne. absurd (ground (arith, only_slot 16000 i h, only_slot 16000 j k));
  },
  record {
    fits = omega arith;
    placed = λ i h. rw (only_slot 28 i h) (omega arith, omega arith);
    apart = λ i j h k ne. absurd (ground (arith, only_slot 28 i h, only_slot 28 j k));
  },
)

pub roomy-Chain : Chain {R = lru_k} {D = D} roomy 65537 (65537 ∷ [])
unfolding program
roomy-Chain =
    (refl, omega arith, omega arith, omega arith, (page_at 16000, refl, page_at-IsValid.0, refl))

full-Chain : Chain {R = lru_k} {D = D} full 65537 (65537 ∷ [])
unfolding program
full-Chain =
    (refl, omega arith, omega arith, omega arith, (page_at 28, refl, page_at-IsValid.1, refl))

insert_from-Searched_example :
    Searched {R = lru_k} {D = D} ink invalid_page_id roomy
      (65537 ∷ [])
      (insert_from lru_k D 2 ink 65537 invalid_page_id roomy)
insert_from-Searched_example =
    insert_from-Searched {R = lru_k} {D = D} 2 ink 65537 invalid_page_id roomy (65537 ∷ [])
      (start-IsValid 16000) (start-IsCoherent 16000) roomy-Chain (omega arith)

abbrev pen_at : Rid
pen_at = record { page_id = 65537; slot_id = 0 }

abbrev ink_at : Rid
ink_at = record { page_id = 65537; slot_id = 1 }

row-insert_tuple_example :
    let r = insert_tuple lru_k D 2 heap ink roomy in
    (r.1 ≡ some ink_at)
    × (member 65537 (65537 ∷ []) ≡ true)
    × (row {R = lru_k} {D = D} r.0 ink_at ≡ some ink)
    × (row {R = lru_k} {D = D} r.0 pen_at ≡ some pen)
    × IsValid {R = lru_k} {D = D} r.0
    × IsCoherent {R = lru_k} {D = D} r.0
    × Chain {R = lru_k} {D = D} r.0 65537 (65537 ∷ [])
unfolding program
row-insert_tuple_example =
    row-insert_tuple {R = lru_k} {D = D} 2 heap ink roomy (65537 ∷ []) ink_at pen_at pen
      (start-IsValid 16000) (start-IsCoherent 16000) roomy-Chain (omega arith) refl refl
      (omega arith) refl

-- `MarkDelete` of the new row, in the pool after the insertion.
abbrev inserted : P
inserted = (insert_tuple lru_k D 2 heap ink roomy).0

inserted_page-IsValid : TablePage.Valid.IsValid (place_tuple (page_at 16000) ink)
unfolding program
inserted_page-IsValid =
    (TablePage.Client.get_tuple-insert_tuple (page_at 16000) (place_tuple (page_at 16000) ink) ink 1
      page_at-IsValid.0 (omega arith) refl).0

row-mark_delete_example :
    ((mark_delete lru_k D ink_at inserted).1 ≡ true)
    × (row {R = lru_k} {D = D} (mark_delete lru_k D ink_at inserted).0 ink_at ≡ none)
    × (row {R = lru_k} {D = D} (mark_delete lru_k D ink_at inserted).0 pen_at ≡ some pen)
unfolding program
row-mark_delete_example =
    row-mark_delete {R = lru_k} {D = D} ink_at pen_at inserted (place_tuple (page_at 16000) ink) 0
      pen row-insert_tuple_example.4 row-insert_tuple_example.5 (omega arith) refl
      inserted_page-IsValid refl refl (omega arith) refl refl

-- The pool when the loop has gone past the full page.
abbrev searched : P
searched = (insert_from lru_k D 2 ink 65537 invalid_page_id full).0

file-IsSound : IsSound (file 28).stream
unfolding program
file-IsSound = record { well = refl; writable = refl; header = omega arith; chained = omega arith }

searched-IsSpared : IsSpared {R = lru_k} {D = D} searched 1
unfolding program
searched-IsSpared = record {
  fresh = refl;
  kept = λ q c low nh ne h.
      stored-allocate_page zeros (manager 28) 1 (file 28) q c refl file-IsSound low nh ne h;
  numbered = omega arith;
  cached = λ q f h. ground (arith, h);
}

abbrev new_row : Rid
new_row = record { page_id = 65538; slot_id = 0 }

row-append_page_example :
    let r = insert_tuple lru_k D 2 heap ink full in
    (r.1 ≡ some new_row)
    × (row {R = lru_k} {D = D} r.0 new_row ≡ some ink)
    × (row {R = lru_k} {D = D} r.0 pen_at ≡ some pen)
    × IsValid {R = lru_k} {D = D} r.0
    × IsCoherent {R = lru_k} {D = D} r.0
    × (Chain {R = lru_k} {D = D} r.0 65537 (65537 ∷ 65538 ∷ [])
        ⊎ (Chain {R = lru_k} {D = D} r.0 65537 (65537 ∷ [])
            × ((fetch_page lru_k D
                  (with_new_page {R = lru_k} {D = D} heap 65537 65538 1 searched)
                  65537).1
                ≡ none)))
unfolding program
row-append_page_example =
    row-append_page {R = lru_k} {D = D} 2 heap ink full 65537 [] 65537 65538 1 pen_at pen
      (start-IsValid 28) (start-IsCoherent 28) refl full-Chain (omega arith) refl refl
      searched-IsSpared refl refl (omega arith) (omega arith) (omega arith) refl
