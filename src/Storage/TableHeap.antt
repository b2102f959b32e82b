-- ===== src/Storage/TableHeap.antt =====
-- goods_db/src/storage/table/table_heap.cpp: a table as a chain of table pages in the buffer pool. The
-- latches are not modelled.
use goods_db.Prelude.{
  ℕ, zero, suc, ◌+◌, Bool, true, false, List, Option, none, some, ltb, leb, ◌==◌, if◌then◌else◌,
  ◌||◌, length,
}
use goods_db.Prelude.Bytes.{Bytes}
use goods_db.Disk.{invalid_page_id, get_file_id}
use goods_db.Disk.Store.{Store}
use goods_db.Buffer.Replacer.{Replacer}
use goods_db.Buffer.Pool.{Pool, fetch_page, unpin_page, new_page}
use goods_db.Buffer.Pool.Visit.{Work, store, visit}
use goods_db.Storage.TablePage.{
  init, get_next_page_id, set_next_page_id, set_prev_page_id, is_deleted, get_free_space,
  max_tuple_size, slot_size,
}
use goods_db.Storage.TablePage
pub mod Rows
pub mod Chain
pub mod Search
pub mod NewPage
pub mod Fill
pub mod Append
pub mod Insert
pub mod Client
pub mod Tests

-- `RID`
pub record Rid : Type 0 where
  pub page_id : ℕ
  pub slot_id : ℕ

pub record Heap : Type 0 where
  pub first_page_id : ℕ
  pub file_id : ℕ

-- `file_id_` keeps what it was where there is no first page.
unfoldable pub make_heap : ℕ → ℕ → Heap
make_heap file_id first_page_id = record {
  first_page_id = first_page_id;
  file_id = if first_page_id == invalid_page_id then file_id else get_file_id first_page_id;
}

-- What a page of the chain answers to an insertion: the slot, or the next page.
pub data Answer : Type 0 where
  slot : ℕ → Answer
  next : ℕ → Answer

unfoldable pub try_insert : List ℕ → Bytes → Bytes × Bool × Answer
try_insert tuple m =
    if leb (length tuple + slot_size) (get_free_space m)
    then elim (TablePage.insert_tuple m tuple) [
      | some (m', slot_id) ↦ (m', true, slot slot_id)
      | none ↦ (m, false, next (get_next_page_id m))
    ]
    else (m, false, next (get_next_page_id m))

-- How the loop over the chain ends: with a row, without a page, or behind the last page.
pub data Outcome : Type 0 where
  placed : Rid → Outcome
  failed : Outcome
  behind : ℕ → Outcome
  out_of_fuel : Outcome

-- The answer of a page that could not be fetched.
abbrev pub join : {A : Type 0} → Option (Option A) → Option A
join none = none
join (some o) = o

abbrev pub answer : Option Bool → Bool
answer none = false
answer (some b) = b

module _ (R : Replacer) (D : Store) where
  unfoldable pub insert_from : ℕ → List ℕ → ℕ → ℕ → Pool R D → Pool R D × Outcome
  insert_from zero tuple current prev s = (s, out_of_fuel)
  insert_from (suc fuel) tuple current prev s = elim (current == invalid_page_id) [
    | true ↦ (s, behind prev)
    | false ↦ elim (visit R D s current (try_insert tuple)).1 [
      | none ↦ ((visit R D s current (try_insert tuple)).0, failed)
      | some a ↦ elim a [
        | slot k ↦ (
          (visit R D s current (try_insert tuple)).0,
          placed (record { page_id = current; slot_id = k }),
        )
        | next p ↦ insert_from fuel tuple p current (visit R D s current (try_insert tuple)).0
      ]
    ]
  ]

  -- `AllocateNewPage`: the page is made, filled and given back.
  unfoldable pub allocate_new_page : Heap → ℕ → Pool R D → Pool R D × Option ℕ
  allocate_new_page h prev_page_id s = elim (new_page R D s h.file_id).1 [
    | none ↦ ((new_page R D s h.file_id).0, none)
    | some (p, f) ↦
        let m = set_prev_page_id (init p) prev_page_id in
        ((unpin_page R D (store R D (new_page R D s h.file_id).0 f m true) p true).0, some p)
  ]

  -- The link from the last page; the new page takes its id where that page could be fetched.
  unfoldable pub link_prev : ℕ → ℕ → Bytes → Pool R D → Pool R D × Bytes
  link_prev prev_page_id new_page_id m s =
      if prev_page_id == invalid_page_id
      then (s, m)
      else (let r =
            visit R D s prev_page_id (λ b. (set_next_page_id b new_page_id, true, tt {0})) in
          (r.0, elim r.1 [ none ↦ m | some u ↦ set_prev_page_id m prev_page_id ]))

  -- The tuple goes into the new page, which the caller has pinned in frame `f`; `none` is the
  -- assertion that fails.
  unfoldable pub fill_page : List ℕ → ℕ → ℕ → Pool R D × Bytes → Pool R D × Option Rid
  fill_page tuple p f (s, m) = elim (TablePage.insert_tuple m tuple) [
    | none ↦ (store R D s f m false, none)
    | some (m', k) ↦ (
      (unpin_page R D (store R D s f m' true) p true).0,
      some (record { page_id = p; slot_id = k }),
    )
  ]

  -- The part of `InsertTuple` behind the loop, once the new page is there.
  unfoldable pub insert_into_new : List ℕ → ℕ → ℕ → Pool R D → Pool R D × Option Rid
  insert_into_new tuple prev_page_id p s = elim (fetch_page R D s p).1 [
    | none ↦ ((fetch_page R D s p).0, none)
    | some f ↦
        fill_page tuple p f
          (link_prev prev_page_id p (init p) (store R D (fetch_page R D s p).0 f (init p) false))
  ]

  unfoldable pub append_page : Heap → List ℕ → ℕ → Pool R D → Pool R D × Option Rid
  append_page h tuple prev_page_id s = elim (allocate_new_page h prev_page_id s).1 [
    | none ↦ ((allocate_new_page h prev_page_id s).0, none)
    | some p ↦ insert_into_new tuple prev_page_id p (allocate_new_page h prev_page_id s).0
  ]

  -- What follows the loop.
  unfoldable pub after_search : Heap → List ℕ → Pool R D × Outcome → Pool R D × Option Rid
  after_search h tuple (s, placed rid) = (s, some rid)
  after_search h tuple (s, failed) = (s, none)
  after_search h tuple (s, behind prev) = append_page h tuple prev s
  after_search h tuple (s, out_of_fuel) = (s, none)

  -- `InsertTuple` of the heap: the loop goes over at most `fuel` pages and the end of the chain.
  unfoldable pub insert_tuple : ℕ → Heap → List ℕ → Pool R D → Pool R D × Option Rid
  insert_tuple fuel h tuple s =
      if length tuple == 0 || ltb max_tuple_size (length tuple)
      then (s, none)
      else after_search h tuple (insert_from fuel tuple h.first_page_id invalid_page_id s)

  -- `GetTuple`: the bytes that are given to `Tuple::Deserialize`.
  unfoldable pub get_tuple : Rid → Pool R D → Pool R D × Option (List ℕ)
  get_tuple rid s =
      let r = visit R D s rid.page_id (λ m.
        (m, false, if is_deleted m rid.slot_id then none else TablePage.get_tuple m rid.slot_id)) in
      (r.0, join r.1)

  unfoldable pub mark_delete : Rid → Pool R D → Pool R D × Bool
  mark_delete rid s =
      let r =
        visit R D s rid.page_id
          (λ m. let (m', done) = TablePage.mark_delete m rid.slot_id in (m', done, done)) in
      (r.0, answer r.1)

  unfoldable pub apply_delete : Rid → Pool R D → Pool R D × Bool
  apply_delete rid s =
      let r =
        visit R D s rid.page_id
          (λ m. let (m', done) = TablePage.apply_delete m rid.slot_id in (m', done, done)) in
      (r.0, answer r.1)

  -- The update of a page: `none` is a deleted slot.
  unfoldable pub try_update : Rid → List ℕ → Bytes → Bytes × Bool × Option Bool
  try_update rid tuple m =
      let (m', in_place) = TablePage.update_tuple m rid.slot_id tuple in
      if is_deleted m rid.slot_id then (m, false, none) else (m', in_place, some in_place)

  -- The old tuple is marked once more, on the page as it is now, and the new one inserted.
  unfoldable pub move_tuple : ℕ → Heap → Rid → List ℕ → Pool R D → Pool R D × Option Rid
  move_tuple fuel h rid tuple s =
      insert_tuple fuel h tuple
        (visit R D s rid.page_id (λ m. ((TablePage.mark_delete m rid.slot_id).0, true, tt {0}))).0

  unfoldable pub update_tuple : ℕ → Heap → Rid → List ℕ → Pool R D → Pool R D × Option Rid
  update_tuple fuel h rid tuple s =
      let r = visit R D s rid.page_id (try_update rid tuple) in
      elim (join r.1) [
        | none ↦ (r.0, none)
        | some in_place ↦ if in_place then (r.0, some rid) else move_tuple fuel h rid tuple r.0
      ]

  -- The loop of `GetLastPageId`: a page that cannot be fetched ends it.
  unfoldable pub last_from : ℕ → ℕ → ℕ → Pool R D → Pool R D × Option ℕ
  last_from zero current last s = (s, none)
  last_from (suc fuel) current last s = elim (current == invalid_page_id) [
    | true ↦ (s, some last)
    | false ↦ elim (visit R D s current (λ m. (m, false, get_next_page_id m))).1 [
      | none ↦ ((visit R D s current (λ m. (m, false, get_next_page_id m))).0, some current)
      | some p ↦
          last_from fuel p current (visit R D s current (λ m. (m, false, get_next_page_id m))).0
    ]
  ]

  unfoldable pub get_last_page_id : ℕ → Heap → Pool R D → Pool R D × Option ℕ
  get_last_page_id fuel h s = last_from fuel h.first_page_id h.first_page_id s
