-- ===== src/Buffer/Pool.antt =====
-- goods_db/src/buffer/buffer_pool_manager.cpp and goods_db/src/include/storage/page/page.h, over any `Replacer` and any
-- `Store`. A call of the C++ runs under the pool's mutex; here it is a function of the pool.
use goods_db.Prelude.{
  ℕ, zero, suc, ◌+◌, ◌-◌, ◌<◌, Bool, true, false, List, [], ◌∷◌, ◌++◌, Option, none, some, ◌==◌,
  if◌then◌else◌, length,
}
use goods_db.Prelude.Assoc.{lookup, erase, put}
use goods_db.Prelude.Bytes.{Bytes, zeros}
use goods_db.Disk.{invalid_page_id, get_file_id}
use goods_db.Disk.Store.{Store}
use goods_db.Buffer.Replacer.{Replacer}
pub mod Frames
pub mod Content
pub mod Load
pub mod Fetch
pub mod Unpin
pub mod Refusal
pub mod Visit
pub mod NewFrame
pub mod Client
pub mod NewPage
pub mod FlushEntry
pub mod Flush
pub mod Durable
pub mod Run
pub mod Tests
pub mod FlushTests
pub mod Valid

-- `data_`, `page_id_`, `pin_count_` and `is_dirty_`. The latch is not modelled, and the count, an
-- `int32_t`, is taken not to reach 2^31.
pub record Page : Type 0 where
  pub bytes : Bytes
  pub page_id : ℕ
  pub pin_count : ℕ
  pub is_dirty : Bool

abbrev pub empty_page : Page
empty_page = record { bytes = zeros; page_id = invalid_page_id; pin_count = 0; is_dirty = false }

-- `ResetMemory`, `SetPageId(INVALID_PAGE_ID)` and `ClearDirty`.
unfoldable pub reset_page : Page → Page
reset_page p = record p { bytes = zeros; page_id = invalid_page_id; is_dirty = false }

-- `Page::Unpin`
unfoldable pub unpin_count : ℕ → ℕ
unpin_count n = n - 1

unfoldable pub update : (ℕ → Page) → ℕ → Page → ℕ → Page
update pages f p g = if f == g then p else pages g

abbrev pub first_frames : ℕ → ℕ → List ℕ
first_frames zero i = []
first_frames (suc n) i = i ∷ first_frames n (i + 1)

module _ (R : Replacer) (D : Store) where
  pub record Pool : Type 0 where
    pub pool_size : ℕ
    pub disk : D.State
    pub replacer : R.State
    pub pages : ℕ → Page
    pub page_table : List (ℕ × ℕ)
    pub free_list : List ℕ
    pub access_count : ℕ
    pub hit_count : ℕ

  unfoldable pub init : ℕ → D.State → R.State → Pool
  init n d r = record {
    pool_size = n;
    disk = d;
    replacer = r;
    pages = λ f. empty_page;
    page_table = [];
    free_list = first_frames n 0;
    access_count = 0;
    hit_count = 0;
  }

  -- The tail of `EvictPage`: the frame leaves the page table and is reset.
  unfoldable pub vacate : Pool → ℕ → Pool
  vacate s f = record s {
    page_table = erase (s.pages f).page_id s.page_table;
    pages = update s.pages f (reset_page (s.pages f));
  }

  -- `EvictPage` after `Victim`: the write back of a dirty page, which may fail.
  unfoldable pub write_back : Pool → ℕ → Pool × Option ℕ
  write_back s f =
      if (s.pages f).is_dirty
      then elim (D.write s.disk (s.pages f).page_id (s.pages f).bytes) [
        | none ↦ (s, none)
        | some d ↦ (vacate (record s { disk = d }) f, some f)
      ]
      else (vacate s f, some f)

  -- `none` is `INVALID_FRAME_ID`.
  unfoldable pub evict_page : Pool → Pool × Option ℕ
  evict_page s = elim (R.victim s.replacer).1 [
    | none ↦ (record s { replacer = (R.victim s.replacer).0 }, none)
    | some f ↦ write_back (record s { replacer = (R.victim s.replacer).0 }) f
  ]

  unfoldable pub get_free_frame : Pool → Pool × Option ℕ
  get_free_frame s = elim s.free_list [
    | [] ↦ evict_page s
    | f ∷ rest ↦ (record s { free_list = rest }, some f)
  ]

  -- `FetchPage` on a page of the pool.
  unfoldable pub fetch_hit : Pool → ℕ → Pool
  fetch_hit s f = record s {
    pages = update s.pages f (record (s.pages f) { pin_count = (s.pages f).pin_count + 1 });
    replacer = R.pin s.replacer f;
    hit_count = s.hit_count + 1;
  }

  -- A frame takes a page: `SetPageId`, `Pin`, `ClearDirty`, `replacer_->Pin`, and the page table.
  unfoldable pub install : Pool → ℕ → ℕ → Bytes → Pool
  install s f page_id b = record s {
    pages = update s.pages f (record {
      bytes = b;
      page_id = page_id;
      pin_count = (s.pages f).pin_count + 1;
      is_dirty = false;
    });
    replacer = R.pin s.replacer f;
    page_table = put page_id f s.page_table;
  }

  -- `FetchPage` with a free frame: the read may fail, and the frame goes back.
  unfoldable pub load : Pool → ℕ → ℕ → Pool × Option ℕ
  load s f page_id =
      let (done, b) = D.read s.disk page_id (s.pages f).bytes in
      if done then (install s f page_id b, some f) else (
        record s {
          pages = update s.pages f (record (s.pages f) { bytes = b });
          free_list = s.free_list ++ f ∷ [];
        },
        none,
      )

  unfoldable pub fetch_miss : Pool → ℕ → Pool × Option ℕ
  fetch_miss s page_id = elim (get_free_frame s).1 [
    | none ↦ ((get_free_frame s).0, none)
    | some f ↦ load (get_free_frame s).0 f page_id
  ]

  -- The pointer that the C++ returns is the frame; `none` is `nullptr`.
  unfoldable pub fetch_page : Pool → ℕ → Pool × Option ℕ
  fetch_page s page_id =
      if page_id == invalid_page_id
      then (s, none)
      else (let s' = record s { access_count = s.access_count + 1 } in
          elim (lookup page_id s.page_table) [
            | some f ↦ (fetch_hit s' f, some f)
            | none ↦ fetch_miss s' page_id
          ])

  unfoldable pub unpin_frame : Pool → ℕ → Bool → Pool
  unpin_frame s f is_dirty =
      let n = unpin_count (s.pages f).pin_count in
      record s {
        pages = update s.pages f (record (s.pages f) {
          pin_count = n;
          is_dirty = if is_dirty then true else (s.pages f).is_dirty;
        });
        replacer = if n == 0 then R.unpin s.replacer f else s.replacer;
      }

  unfoldable pub unpin_page : Pool → ℕ → Bool → Pool × Bool
  unpin_page s page_id is_dirty =
      if page_id == invalid_page_id then (s, false) else elim (lookup page_id s.page_table) [
        | none ↦ (s, false)
        | some f ↦
            if (s.pages f).pin_count == 0 then (s, false) else (unpin_frame s f is_dirty, true)
      ]

  -- `NewPage` after the allocation: without a frame the page goes back to the disk.
  unfoldable pub new_frame : Pool → ℕ → Pool × Option ℕ
  new_frame s page_id = elim (get_free_frame s).1 [
    | none ↦ (
      record (get_free_frame s).0 { disk = D.deallocate (get_free_frame s).0.disk page_id },
      none,
    )
    | some f ↦ (install (get_free_frame s).0 f page_id zeros, some f)
  ]

  -- The new page's id and its frame.
  unfoldable pub new_page : Pool → ℕ → Pool × Option (ℕ × ℕ)
  new_page s file_id =
      let (d, page_id) = D.allocate s.disk file_id in
      if page_id == invalid_page_id
      then (record s { disk = d }, none)
      else (let (s', frame) = new_frame (record s { disk = d }) page_id in
          (s', elim frame [ none ↦ none | some f ↦ some (page_id, f) ]))

  unfoldable pub delete_frame : Pool → ℕ → ℕ → Pool
  delete_frame s page_id f = record s {
    pages = update s.pages f (reset_page (s.pages f));
    replacer = R.pin s.replacer f;
    page_table = erase page_id s.page_table;
    free_list = s.free_list ++ f ∷ [];
  }

  unfoldable pub delete_page : Pool → ℕ → Pool × Bool
  delete_page s page_id =
      if page_id == invalid_page_id then (s, false) else elim (lookup page_id s.page_table) [
        | none ↦ (record s { disk = D.deallocate s.disk page_id }, true)
        | some f ↦
            if (s.pages f).pin_count == 0
            then (
              record (delete_frame s page_id f) {
                disk = D.deallocate (delete_frame s page_id f).disk page_id;
              },
              true,
            )
            else (s, false)
      ]

  unfoldable pub clear_dirty : Pool → ℕ → Pool
  clear_dirty s f = record s { pages = update s.pages f (record (s.pages f) { is_dirty = false }) }

  unfoldable pub flush_page : Pool → ℕ → Bool → Pool × Bool
  flush_page s page_id sync =
      if page_id == invalid_page_id then (s, false) else elim (lookup page_id s.page_table) [
        | none ↦ (s, false)
        | some f ↦
            if (s.pages f).is_dirty
            then elim (D.write s.disk page_id (s.pages f).bytes) [
              | none ↦ (s, false)
              | some d ↦ (
                record (clear_dirty s f) {
                  disk = if sync then D.sync d (get_file_id page_id) else d;
                },
                true,
              )
            ]
            else (s, true)
      ]

  -- The body of the loops of `FlushAllPages` and `FlushFilePages`: the result of the write is not
  -- looked at.
  unfoldable pub flush_entry : Pool → ℕ × ℕ → Pool
  flush_entry s (page_id, f) =
      if (s.pages f).is_dirty
      then elim (D.write s.disk page_id (s.pages f).bytes) [
        | none ↦ clear_dirty s f
        | some d ↦ record (clear_dirty s f) { disk = d }
      ]
      else s

  unfoldable pub flush_entries : List (ℕ × ℕ) → Pool → Pool
  flush_entries [] s = s
  flush_entries (e ∷ table) s = flush_entries table (flush_entry s e)

  unfoldable pub flush_all_pages : Pool → Pool
  flush_all_pages s = flush_entries s.page_table s

  unfoldable pub flush_file_entries : ℕ → List (ℕ × ℕ) → Pool → Pool
  flush_file_entries file_id [] s = s
  flush_file_entries file_id ((page_id, f) ∷ table) s =
      flush_file_entries file_id table
        (if get_file_id page_id == file_id then flush_entry s (page_id, f) else s)

  unfoldable pub flush_file_pages : Pool → ℕ → Pool
  flush_file_pages s file_id = flush_file_entries file_id s.page_table s

  unfoldable pub get_dirty_page_count : List (ℕ × ℕ) → Pool → ℕ
  get_dirty_page_count [] s = 0
  get_dirty_page_count ((page_id, f) ∷ table) s =
      if (s.pages f).is_dirty
      then get_dirty_page_count table s + 1
      else get_dirty_page_count table s

  unfoldable pub get_free_frame_count : Pool → ℕ
  get_free_frame_count s = length s.free_list

  unfoldable pub reset_stats : Pool → Pool
  reset_stats s = record s { access_count = 0; hit_count = 0 }
