-- ===== src/Storage/TablePage/Moved.antt =====
-- `UpdateTuple` of goods_db/src/storage/page/table_page.cpp where the tuple grows.
use goods_db.Prelude.{ℕ, ◌≤◌, ◌<◌, ◌≡◌, refl, true, false, List, some, arith, length}
use goods_db.Prelude.Bytes.{Bytes}
use goods_db.Storage.TablePage.{
  slot_tuple_size, set_slot_deleted, lowest_tuple, insert_tuple, is_live, get_tuple, reinsert,
  update_tuple,
}
use goods_db.Storage.TablePage.Valid.{IsValid}
use goods_db.Storage.TablePage.Delete.{gone-IsValid}
use goods_db.Storage.TablePage.Client.{get_tuple-insert_tuple}

reinsert-insert_tuple :
    (m m' : Bytes) (i k : ℕ) (tuple : List ℕ)
    → insert_tuple (set_slot_deleted m i) tuple ≡ some (m', k)
    → reinsert m i tuple ≡ m'
unfolding reinsert
reinsert-insert_tuple m m' i k tuple h = rw (reinsert, h) refl

update_tuple-reinsert :
    (m : Bytes) (i : ℕ) (tuple : List ℕ)
    → is_live m i ≡ true
    → slot_tuple_size m i < length tuple
    → update_tuple m i tuple ≡ (reinsert m i tuple, false)
unfolding update_tuple
update_tuple-reinsert m i tuple live larger = ground arith

-- `UpdateTuple` of a live slot of a valid page by a larger tuple, where the other tuples leave at
-- least its size below them and `InsertTuple` takes it, answers false, although the valid page that
-- it leaves has the tuple in the new slot.
pub get_tuple-update_tuple_larger :
    (m m' : Bytes) (i k : ℕ) (tuple : List ℕ)
    → IsValid m
    → is_live m i ≡ true
    → slot_tuple_size m i < length tuple
    → length tuple ≤ lowest_tuple (set_slot_deleted m i)
    → insert_tuple (set_slot_deleted m i) tuple ≡ some (m', k)
    → ((update_tuple m i tuple).1 ≡ false)
      × IsValid (update_tuple m i tuple).0
      × (get_tuple (update_tuple m i tuple).0 k ≡ some tuple)
get_tuple-update_tuple_larger m m' i k tuple v live larger fits h =
    let (after, found) =
      get_tuple-insert_tuple (set_slot_deleted m i) m' tuple k (gone-IsValid m i v) fits h in
    rw (update_tuple-reinsert m i tuple live larger, reinsert-insert_tuple m m' i k tuple h)
      (refl, after, found)
