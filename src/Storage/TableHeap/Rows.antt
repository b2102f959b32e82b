-- ===== src/Storage/TableHeap/Rows.antt =====
-- The rows of the pages of goods_db/src/storage/table/table_heap.cpp, and what an insertion
-- does to one.
use goods_db.Prelude.{
  ℕ, ◌+◌, ◌%◌, ◌≤◌, ◌≡◌, refl, Bool, true, false, List, none, some, arith, leb, length, Bool-cases,
  Option-cases, inl, inr, ap, ◌∙◌,
}
use goods_db.Prelude.Bytes.{
  Bytes, read_u16, read_u32, write_bytes, read_u16-write_bytes_ne, read_u16-write_u16_ne,
}
use goods_db.Storage.TablePage.{
  get_next_page_id, get_free_space, lowest_tuple, get_slot_count, is_live, set_slot_info,
  place_tuple, new_tuple_offset, max_tuple_size,
}
use goods_db.Storage.TablePage
use goods_db.Storage.TablePage.Valid.{IsValid}
use goods_db.Storage.TablePage.Slots.{set_slot_info_ne}
use goods_db.Storage.TablePage.Insert.{Room}
use goods_db.Storage.TablePage.Client.{
  get_tuple-insert_tuple, get_tuple-insert_tuple_ne, insert_tuple-Room,
}
use goods_db.Storage.TableHeap.{Answer, slot, next, try_insert}

-- A row is there only in a live slot.
pub get_tuple-is_live :
    (m : Bytes) (k : ℕ) (t : List ℕ) → TablePage.get_tuple m k ≡ some t → is_live m k ≡ true
get_tuple-is_live m k t h = elim (Bool-cases (is_live m k)) [
  | inl live ↦ live
  | inr dead ↦ absurd (
      let e : TablePage.get_tuple m k ≡ none = unfold TablePage.get_tuple in rw dead refl in
      cc (e, h))
]

-- An insertion leaves the header behind the neighbours alone.
place_low :
    (m : Bytes) (tuple : List ℕ) (p : ℕ)
    → Room m tuple
    → p + 2 ≤ 20
    → read_u16 (place_tuple m tuple) p ≡ read_u16 m p
unfolding place_tuple
place_low m tuple p r h =
    let at = new_tuple_offset m (length tuple) in
    let count = get_slot_count m in
    let above = r.above in
    read_u16-write_u16_ne (set_slot_info (write_bytes m at tuple) count at (length tuple)) 20 p
      ((count + 1) % 65536) (inr (omega arith))
    ∙ set_slot_info_ne (write_bytes m at tuple) count at (length tuple) p (inl (omega arith))
    ∙ read_u16-write_bytes_ne m at p tuple (inl (omega arith))

place-get_next_page_id :
    (m : Bytes) (tuple : List ℕ)
    → Room m tuple
    → get_next_page_id (place_tuple m tuple) ≡ get_next_page_id m
unfolding get_next_page_id read_u32
place-get_next_page_id m tuple r =
    omega (arith, place_low m tuple 16 r (omega arith), place_low m tuple 18 r (omega arith))

-- The page after an insertion that found room.
pub record Placed (m m' : Bytes) (tuple : List ℕ) (k : ℕ) : Type 0 where
  pub valid : IsValid m'
  pub there : TablePage.get_tuple m' k ≡ some tuple
  pub kept :
      (j : ℕ) (u : List ℕ) → TablePage.get_tuple m j ≡ some u → TablePage.get_tuple m' j ≡ some u
  pub chained : get_next_page_id m' ≡ get_next_page_id m

pub insert_tuple-Placed :
    (m m' : Bytes) (tuple : List ℕ) (k : ℕ)
    → IsValid m
    → length tuple ≤ lowest_tuple m
    → TablePage.insert_tuple m tuple ≡ some (m', k)
    → Placed m m' tuple k
insert_tuple-Placed m m' tuple k v fits h =
    let (valid, there) = get_tuple-insert_tuple m m' tuple k v fits h in
    let (r, e, n) = insert_tuple-Room m tuple m' k fits h in
    record {
      valid = valid;
      there = there;
      kept = λ j u held.
          get_tuple-insert_tuple_ne m m' tuple k j fits h (get_tuple-is_live m j u held) ∙ held;
      chained = ap get_next_page_id e ∙ place-get_next_page_id m tuple r;
    }

-- What an attempt on a valid page does: it places the tuple, or leaves the page and names the next.
abbrev pub Tried : Bytes → List ℕ → Bytes × Bool × Answer → Type 0
Tried m tuple (m', dirty, slot k) = (dirty ≡ true) × Placed m m' tuple k
Tried m tuple (m', dirty, next p) = (m' ≡ m) × (dirty ≡ false) × (p ≡ get_next_page_id m)

pub try_insert-Tried : (m : Bytes) (tuple : List ℕ) → IsValid m → Tried m tuple (try_insert tuple m)
unfolding try_insert
try_insert-Tried m tuple v = elim (Bool-cases (leb (length tuple + 4) (get_free_space m))) [
  | inl room ↦
      let fits : length tuple ≤ lowest_tuple m = free_space room in
      rw room (elim (Option-cases (TablePage.insert_tuple m tuple)) [
        | inl refused ↦ rw (refused, try_insert) (refl, refl, refl)
        | inr ((m', k), done) ↦
            rw (done, try_insert) (refl, insert_tuple-Placed m m' tuple k v fits done)
      ])
  | inr full ↦ rw full (refl, refl, refl)
]
  where
    free_space : leb (length tuple + 4) (get_free_space m) ≡ true → length tuple ≤ lowest_tuple m
    free_space h = unfold get_free_space in ground (arith, h)

pub try_insert_honest :
    (m : Bytes) (tuple : List ℕ) → (try_insert tuple m).1 ≡ false → (try_insert tuple m).0 ≡ m
unfolding try_insert
try_insert_honest m tuple = ground arith

pub Tried-slot :
    (m : Bytes) (tuple : List ℕ) (x : Bytes × Bool × Answer) (k : ℕ)
    → Tried m tuple x
    → slot k ≡ x.2
    → Placed m x.0 tuple k
Tried-slot m tuple (m', dirty, slot j) k t e = ground arith
Tried-slot m tuple (m', dirty, next p) k t e = absurd (cc e)

pub Tried-next :
    (m : Bytes) (tuple : List ℕ) (x : Bytes × Bool × Answer) (p : ℕ)
    → Tried m tuple x
    → next p ≡ x.2
    → (x.0 ≡ m) × (p ≡ get_next_page_id m)
Tried-next m tuple (m', dirty, slot j) p t e = absurd (cc e)
Tried-next m tuple (m', dirty, next q) p (same, clean, link) e = (same, ground (arith, e, link))
