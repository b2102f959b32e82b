-- ===== src/Storage/TablePage.antt =====
-- goods_db/src/storage/page/table_page.cpp: slots and tuples in the bytes of a page. Slot ids are not
-- negative here; a `uint32_t` that goes below 0 wraps.
use goods_db.Prelude.{
  ℕ, zero, suc, ◌+◌, ◌-◌, ◌*◌, ◌/◌, ◌%◌, ◌^◌, ◌≡◌, Bool, true, false, not, List, [], ◌∷◌, Option,
  none, some, ltb, leb, ◌==◌, if◌then◌else◌, ◌||◌, length, replicate,
}
use goods_db.Prelude.Bytes.{
  Bytes, zeros, read_u16, write_u16, read_u32, write_u32, write_bytes, read_bytes,
}
use goods_db.Disk.{invalid_page_id}
pub mod Slots
pub mod Valid
pub mod Insert
pub mod Client
pub mod Delete
pub mod Update
pub mod Shift
pub mod Apply
pub mod Moved
pub mod Links
pub mod Tests

abbrev pub page_size : ℕ
page_size = 16384

abbrev pub table_page_header_size : ℕ
table_page_header_size = 24

abbrev pub offset_slot_count : ℕ
offset_slot_count = 20

abbrev pub slot_size : ℕ
slot_size = 4

abbrev pub max_tuple_size : ℕ
max_tuple_size = 8192

abbrev pub deleted_flag : ℕ
deleted_flag = 0xffff

-- The fields of the header. The sequence number is an `int64_t`, as its 64 bits.
unfoldable pub get_page_id : Bytes → ℕ
get_page_id m = read_u32 m 0

unfoldable pub set_page_id : Bytes → ℕ → Bytes
set_page_id m page_id = write_u32 m 0 page_id

unfoldable pub get_lsn : Bytes → ℕ
get_lsn m = read_u32 m 4 + 2 ^ 32 * read_u32 m 8

unfoldable pub set_lsn : Bytes → ℕ → Bytes
set_lsn m lsn = write_u32 (write_u32 m 4 (lsn % 2 ^ 32)) 8 (lsn / 2 ^ 32)

unfoldable pub get_prev_page_id : Bytes → ℕ
get_prev_page_id m = read_u32 m 12

unfoldable pub set_prev_page_id : Bytes → ℕ → Bytes
set_prev_page_id m prev = write_u32 m 12 prev

unfoldable pub get_next_page_id : Bytes → ℕ
get_next_page_id m = read_u32 m 16

unfoldable pub set_next_page_id : Bytes → ℕ → Bytes
set_next_page_id m next = write_u32 m 16 next

unfoldable pub get_free_space_pointer : Bytes → ℕ
get_free_space_pointer m = read_u16 m 22

-- `Init` of a page without neighbours.
unfoldable pub init : ℕ → Bytes
init page_id =
    let m1 = set_lsn (set_page_id zeros page_id) 0 in
    let m2 = set_next_page_id (set_prev_page_id m1 invalid_page_id) invalid_page_id in
    write_u16 (write_u16 m2 offset_slot_count 0) 22 0

unfoldable pub get_slot_count : Bytes → ℕ
get_slot_count m = read_u16 m offset_slot_count

unfoldable pub get_slot_offset : ℕ → ℕ
get_slot_offset slot_id = table_page_header_size + slot_id * slot_size

-- `GetSlotInfo`: the offset and the size.
unfoldable pub slot_tuple_offset : Bytes → ℕ → ℕ
slot_tuple_offset m slot_id = read_u16 m (get_slot_offset slot_id)

unfoldable pub slot_tuple_size : Bytes → ℕ → ℕ
slot_tuple_size m slot_id = read_u16 m (get_slot_offset slot_id + 2)

unfoldable pub set_slot_info : Bytes → ℕ → ℕ → ℕ → Bytes
set_slot_info m slot_id offset size =
    write_u16 (write_u16 m (get_slot_offset slot_id) (offset % 65536)) (get_slot_offset slot_id + 2)
      (size % 65536)

unfoldable pub set_slot_deleted : Bytes → ℕ → Bytes
set_slot_deleted m slot_id = write_u16 m (get_slot_offset slot_id) deleted_flag

unfoldable pub is_deleted : Bytes → ℕ → Bool
is_deleted m slot_id = read_u16 m (get_slot_offset slot_id) == deleted_flag

-- The loop of `GetFreeSpace` and `InsertTuple` over `n` slots from `i` on. `i` is an `int16_t`, and for
-- more than 32767 slots the loop of the code does not end; a page has room for 4090.
unfoldable pub lowest_from : Bytes → ℕ → ℕ → ℕ → ℕ
lowest_from m zero i lowest = lowest
lowest_from m (suc n) i lowest = lowest_from m n (i + 1) (
    if is_deleted m i
    then lowest
    else if ltb (slot_tuple_offset m i) lowest
    then slot_tuple_offset m i
    else lowest)

unfoldable pub lowest_tuple : Bytes → ℕ
lowest_tuple m = lowest_from m (get_slot_count m) 0 page_size

unfoldable pub get_free_space : Bytes → ℕ
get_free_space m =
    let slot_array_end = table_page_header_size + get_slot_count m * slot_size in
    if leb (lowest_tuple m) slot_array_end then 0 else lowest_tuple m - slot_array_end

-- The offset that `InsertTuple` gives a tuple: a difference of `uint32_t`.
unfoldable pub new_tuple_offset : Bytes → ℕ → ℕ
new_tuple_offset m size = (lowest_tuple m + 2 ^ 32 - size) % 2 ^ 32

-- The writes of `InsertTuple`, for an offset from which the tuple ends in the page: the code copies
-- it to what follows the page otherwise.
unfoldable pub place_tuple : Bytes → List ℕ → Bytes
place_tuple m tuple =
    let slot_count = get_slot_count m in
    let offset = new_tuple_offset m (length tuple) in
    let m' = set_slot_info (write_bytes m offset tuple) slot_count offset (length tuple) in
    write_u16 m' offset_slot_count ((slot_count + 1) % 65536)

-- The new slot id, or `none`. `max_tuple_size` is `MAX_TUPLE_SIZE`.
unfoldable pub insert_tuple : Bytes → List ℕ → Option (Bytes × ℕ)
insert_tuple m tuple =
    let slot_array_end = table_page_header_size + (get_slot_count m + 1) * slot_size in
    if length tuple == 0 || ltb max_tuple_size (length tuple)
    then none
    else if ltb (new_tuple_offset m (length tuple)) slot_array_end
    then none
    else some (place_tuple m tuple, get_slot_count m)

-- A slot that is out of range or deleted has no tuple.
unfoldable pub is_live : Bytes → ℕ → Bool
is_live m slot_id = if ltb slot_id (get_slot_count m) then not (is_deleted m slot_id) else false

unfoldable pub get_tuple : Bytes → ℕ → Option (List ℕ)
get_tuple m slot_id =
    if is_live m slot_id
    then some (read_bytes m (slot_tuple_offset m slot_id) (slot_tuple_size m slot_id))
    else none

unfoldable pub mark_delete : Bytes → ℕ → Bytes × Bool
mark_delete m slot_id = if is_live m slot_id then (set_slot_deleted m slot_id, true) else (m, false)

-- `UpdateTuple` where the new tuple is not larger: the rest of the old one is cleared.
unfoldable pub overwrite : Bytes → ℕ → List ℕ → Bytes
overwrite m slot_id tuple =
    let offset = slot_tuple_offset m slot_id in
    let rest = replicate (slot_tuple_size m slot_id - length tuple) 0 in
    set_slot_info (write_bytes (write_bytes m offset tuple) (offset + length tuple) rest) slot_id
      offset (length tuple)

-- `UpdateTuple` where it is larger: the old slot is marked, and the answer is false in any case.
unfoldable pub reinsert : Bytes → ℕ → List ℕ → Bytes
reinsert m slot_id tuple = elim (insert_tuple (set_slot_deleted m slot_id) tuple) [
  | none ↦
      set_slot_info (set_slot_deleted m slot_id) slot_id (slot_tuple_offset m slot_id)
        (slot_tuple_size m slot_id)
  | some (m', new_slot) ↦ m'
]

unfoldable pub update_tuple : Bytes → ℕ → List ℕ → Bytes × Bool
update_tuple m slot_id tuple =
    if is_live m slot_id
    then if leb (length tuple) (slot_tuple_size m slot_id)
      then (overwrite m slot_id tuple, true)
      else (reinsert m slot_id tuple, false)
    else (m, false)

-- The loops of `ApplyDelete`: `n` slots from `i` on. Tuples above the deleted one move down.
unfoldable pub compact : ℕ → ℕ → ℕ → ℕ → ℕ → Bytes → Bytes
compact zero i slot_id offset size m = m
compact (suc n) i slot_id offset size m =
    let off = slot_tuple_offset m i in
    let new_off = (off + 2 ^ 32 - size) % 2 ^ 32 in
    let moved = write_bytes m new_off (read_bytes m off (slot_tuple_size m i)) in
    compact n (i + 1) slot_id offset size (
      if i == slot_id || is_deleted m i
      then m
      else if ltb offset off
      then set_slot_info moved i new_off (slot_tuple_size m i)
      else m)

unfoldable pub shift_slots : ℕ → ℕ → Bytes → Bytes
shift_slots zero i m = m
shift_slots (suc n) i m =
    shift_slots n (i + 1)
      (set_slot_info m i (slot_tuple_offset m (i + 1)) (slot_tuple_size m (i + 1)))

unfoldable pub apply_delete : Bytes → ℕ → Bytes × Bool
apply_delete m slot_id =
    if is_live m slot_id
    then (let n = get_slot_count m in
        let m1 = compact n 0 slot_id (slot_tuple_offset m slot_id) (slot_tuple_size m slot_id) m in
        (write_u16 (shift_slots (n - 1 - slot_id) slot_id m1) offset_slot_count (n - 1), true))
    else (m, false)
