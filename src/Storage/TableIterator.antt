-- ===== src/Storage/TableIterator.antt =====
-- goods_db/src/storage/table/table_iterator.cpp: a scan of the rows of a table. The latches are not modelled;
-- slot counts are taken to be below 2^15.
use goods_db.Prelude.{
  ℕ, zero, suc, ◌+◌, ◌-◌, Bool, true, false, not, List, [], ◌∷◌, Option, none, some, ◌==◌,
  if◌then◌else◌,
}
use goods_db.Prelude.Bytes.{Bytes}
use goods_db.Disk.{invalid_page_id}
use goods_db.Disk.Store.{Store}
use goods_db.Buffer.Replacer.{Replacer}
use goods_db.Buffer.Pool.{Pool, fetch_page, unpin_page}
use goods_db.Storage.TablePage.{get_slot_count, get_next_page_id, is_deleted}
use goods_db.Storage.TablePage
use goods_db.Storage.TableHeap.{Rid}
pub mod Slots
pub mod Scan
pub mod Steps
pub mod Rows
pub mod Tests

-- The loops over slots: the first of `n` slots from `i` on that is not deleted.
unfoldable pub first_live : Bytes → ℕ → ℕ → Option ℕ
first_live m zero i = none
first_live m (suc n) i =
    let rest = first_live m n (i + 1) in if is_deleted m i then rest else some i

-- A row id and the bytes that `Tuple::Deserialize` is given; `none` are bytes that `GetTuple` did
-- not write.
abbrev pub Row : Type 0
Row = Rid × Option (List ℕ)

module _ (R : Replacer) (D : Store) where
  -- `next_slot` is `current_slot_id_ + 1`; `current_page` is the frame of `current_page_`, and
  -- `current_table_page_` is a view of its bytes.
  pub record TableIterator : Type 0 where
    pub pool : Pool R D
    pub first_page_id : ℕ
    pub current_page_id : ℕ
    pub next_slot : ℕ
    pub current_page : Option ℕ

  -- `RUnlatch`, `UnpinPage` and `current_page_ = nullptr`, where a page is held.
  unfoldable pub release : TableIterator → TableIterator
  release it = elim it.current_page [
    | none ↦ it
    | some f ↦ record it {
      pool = (unpin_page R D it.pool (it.pool.pages f).page_id false).0;
      current_page = none;
    }
  ]

  -- The iterator behind the page that it holds.
  unfoldable pub leave_page : TableIterator → ℕ → TableIterator
  leave_page it next_page_id = record (release it) { current_page_id = next_page_id }

  -- The page in frame `f`, which was fetched.
  unfoldable pub hold : TableIterator → ℕ → TableIterator
  hold it f = record it {
    pool = (fetch_page R D it.pool it.current_page_id).0;
    current_page = some f;
  }

  -- `current_page_` is `nullptr` after a fetch that fails.
  unfoldable pub give_up : TableIterator → TableIterator
  give_up it = record it {
    pool = (fetch_page R D it.pool it.current_page_id).0;
    current_page_id = invalid_page_id;
    current_page = none;
  }

  -- The loop of `AdvanceToNextValid` over the pages, of which there are less than `fuel`.
  unfoldable pub advance_pages : ℕ → TableIterator → TableIterator
  advance_pages zero it = it
  advance_pages (suc fuel) it = elim (it.current_page_id == invalid_page_id) [
    | true ↦ release it
    | false ↦ elim (fetch_page R D it.pool it.current_page_id).1 [
      | none ↦ give_up it
      | some f ↦
          let m = ((hold it f).pool.pages f).bytes in
          let rest = advance_pages fuel (leave_page (hold it f) (get_next_page_id m)) in
          elim (first_live m (get_slot_count m) 0) [
            | some i ↦ record (hold it f) { next_slot = i + 1 }
            | none ↦ rest
          ]
    ]
  ]

  -- The rest of the page in frame `f`, and then the next pages.
  unfoldable pub advance_from : ℕ → TableIterator → ℕ → TableIterator
  advance_from fuel it f =
      let m = (it.pool.pages f).bytes in
      elim (first_live m (get_slot_count m - it.next_slot) it.next_slot) [
        | some i ↦ record it { next_slot = i + 1 }
        | none ↦ advance_pages fuel (leave_page it (get_next_page_id m))
      ]

  unfoldable pub advance_to_next_valid : ℕ → TableIterator → TableIterator
  advance_to_next_valid fuel it =
      if it.current_page_id == invalid_page_id
      then advance_pages fuel it
      else elim it.current_page [ none ↦ advance_pages fuel it | some f ↦ advance_from fuel it f ]

  unfoldable pub reset : ℕ → TableIterator → TableIterator
  reset fuel it =
      advance_to_next_valid fuel
        (release (record it { current_page_id = it.first_page_id; next_slot = 0 }))

  -- The constructor.
  unfoldable pub make_iterator : ℕ → Pool R D → ℕ → TableIterator
  make_iterator fuel s first_page_id = reset fuel (record {
    pool = s;
    first_page_id = first_page_id;
    current_page_id = invalid_page_id;
    next_slot = 0;
    current_page = none;
  })

  unfoldable pub has_next : TableIterator → Bool
  has_next it = not (it.current_page_id == invalid_page_id)

  -- The row under the iterator; a call without a page is not modelled further.
  unfoldable pub current_row : TableIterator → Row
  current_row it = (
    record { page_id = it.current_page_id; slot_id = it.next_slot - 1 },
    elim it.current_page [
      | none ↦ none
      | some f ↦ TablePage.get_tuple (it.pool.pages f).bytes (it.next_slot - 1)
    ],
  )

  unfoldable pub next : ℕ → TableIterator → TableIterator × Row
  next fuel it = (advance_to_next_valid fuel it, current_row it)

  -- A client's loop of `HasNext` and `Next`, for less than `rows` rows.
  unfoldable pub scan : ℕ → ℕ → TableIterator → TableIterator × List Row
  scan fuel zero it = (it, [])
  scan fuel (suc rows) it =
      let (it', row) = next fuel it in
      let (end, rest) = scan fuel rows it' in if has_next it then (end, row ∷ rest) else (it, [])

  -- The loop of `Count`.
  unfoldable pub count_from : ℕ → ℕ → TableIterator → ℕ → TableIterator × ℕ
  count_from fuel zero it n = (it, n)
  count_from fuel (suc rows) it n =
      let again = count_from fuel rows (next fuel it).0 (n + 1) in
      if has_next it then again else (it, n)

  unfoldable pub count : ℕ → ℕ → TableIterator → TableIterator × ℕ
  count fuel rows it = count_from fuel rows (reset fuel it) 0

  -- The destructor leaves the pool.
  unfoldable pub destroy : TableIterator → Pool R D
  destroy it = (release it).pool
