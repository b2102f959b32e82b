-- ===== src/Storage/TablePage/Links.antt =====
-- `SetPrevPageId` and `SetNextPageId` of goods_db/src/storage/page/table_page.cpp beside the rows.
use goods_db.Prelude.{
  ℕ, ◌+◌, ◌/◌, ◌%◌, ◌^◌, ◌≤◌, ◌<◌, ◌≡◌, refl, false, List, some, arith, ltb, ◌==◌, ◌||◌, length,
  ◌⊎◌, inl, inr, ap, sym, ◌∙◌, Bool-cases,
}
use goods_db.Prelude.Bytes.{
  Bytes, read_u16-write_u32_ne, read_u32-write_u32, read_u32-write_u32_ne, read_u16, write_u16,
  write_u32, read_u32, read_u16-write_u16, read_u16-write_u16_ne, write_u16_ne, read_bytes_cong,
}
use goods_db.Disk.{id_limit, invalid_page_id}
use goods_db.Storage.TablePage.{
  init, get_slot_count, slot_tuple_offset, slot_tuple_size, is_live, get_tuple, lowest_from,
  lowest_tuple, new_tuple_offset, get_next_page_id, set_next_page_id, set_prev_page_id, set_page_id,
  set_lsn, get_page_id, get_lsn, get_prev_page_id, insert_tuple, place_tuple, max_tuple_size,
}
use goods_db.Storage.TablePage.Slots.{SameSlot, fields-SameSlot}
use goods_db.Storage.TablePage.Valid.{IsValid}

-- A page id in the header, in front of the slot count.
module _ (m : Bytes) (o v : ℕ) (h : o + 4 ≤ 20) where
  abbrev linked : Bytes
  linked = write_u32 m o v

  linked_byte : (p : ℕ) → 20 ≤ p → linked p ≡ m p
  unfolding write_u32
  linked_byte p b =
      write_u16_ne _ (o + 2) p (v / 65536) (inr (omega arith))
      ∙ write_u16_ne m o p (v % 65536) (inr (omega arith))

  linked_count : get_slot_count linked ≡ get_slot_count m
  unfolding get_slot_count
  linked_count = read_u16-write_u32_ne m o 20 v (inl h)

  linked_slot : (j : ℕ) → SameSlot m linked j
  linked_slot j =
      fields-SameSlot m linked j (λ p a b. read_u16-write_u32_ne m o p v (inl (omega (arith, h))))

  linked_live : (j : ℕ) → is_live linked j ≡ is_live m j
  unfolding is_live
  linked_live j = rw ((linked_slot j).deleted, linked_count) refl

  linked_get : (j : ℕ) → IsValid m → get_tuple linked j ≡ get_tuple m j
  unfolding get_tuple
  linked_get j valid = elim (Bool-cases (is_live m j)) [
    | inl there ↦
        let s = linked_slot j in
        let (start, _) = valid.placed j there in
        rw (linked_live j, there, s.offset, s.size)
          (ap some (
            read_bytes_cong linked m (slot_tuple_offset m j) (slot_tuple_size m j)
              (λ p a b. linked_byte p (omega (arith, start)))))
    | inr absent ↦ rw (linked_live j, absent) refl
  ]

  linked-IsValid : IsValid m → IsValid linked
  linked-IsValid w = record {
    fits = omega (arith, w.fits, linked_count);
    placed = λ j k.
        let s = linked_slot j in
        let there = sym (linked_live j) ∙ k in
        (
          omega (arith, linked_count, s.offset, w.placed j there),
          omega (arith, s.offset, s.size, w.placed j there),
        );
    apart = λ j k a b ne.
        let s = linked_slot j in
        let s' = linked_slot k in
        elim (w.apart j k (sym (linked_live j) ∙ a) (sym (linked_live k) ∙ b) ne) [
          | inl x ↦ inl (omega (arith, s.offset, s.size, s'.offset, x))
          | inr x ↦ inr (omega (arith, s.offset, s'.size, s'.offset, x))
        ];
  }

-- What a change of a link keeps.
pub record Relinked (m m' : Bytes) : Type 0 where
  pub valid : IsValid m → IsValid m'
  pub kept : (j : ℕ) → IsValid m → get_tuple m' j ≡ get_tuple m j
  pub counted : get_slot_count m' ≡ get_slot_count m

relinked : (m : Bytes) (o v : ℕ) (h : o + 4 ≤ 20) → Relinked m (linked m o v h)
relinked m o v h = record {
  valid = linked-IsValid m o v h;
  kept = linked_get m o v h;
  counted = linked_count m o v h;
}

pub set_next_page_id-Relinked : (m : Bytes) (p : ℕ) → Relinked m (set_next_page_id m p)
unfolding set_next_page_id
set_next_page_id-Relinked m p = relinked m 16 p (omega arith)

pub set_prev_page_id-Relinked : (m : Bytes) (p : ℕ) → Relinked m (set_prev_page_id m p)
unfolding set_prev_page_id
set_prev_page_id-Relinked m p = relinked m 12 p (omega arith)

Relinked-trans : (a b c : Bytes) → Relinked a b → Relinked b c → Relinked a c
Relinked-trans a b c h k = ground arith

set_lsn-Relinked : (m : Bytes) (lsn : ℕ) → Relinked m (set_lsn m lsn)
unfolding set_lsn
set_lsn-Relinked m lsn =
    Relinked-trans m _ _ (relinked m 4 (lsn % 2 ^ 32) (omega arith))
      (relinked _ 8 (lsn / 2 ^ 32) (omega arith))

pub get_next_page_id-set_next_page_id :
    (m : Bytes) (p : ℕ) → p < id_limit → get_next_page_id (set_next_page_id m p) ≡ p
unfolding get_next_page_id set_next_page_id
get_next_page_id-set_next_page_id m p h = read_u32-write_u32 m 16 p h

pub get_next_page_id-set_prev_page_id :
    (m : Bytes) (p : ℕ) → get_next_page_id (set_prev_page_id m p) ≡ get_next_page_id m
unfolding get_next_page_id set_prev_page_id
get_next_page_id-set_prev_page_id m p = read_u32-write_u32_ne m 12 16 p (inl (omega arith))

read_u32-set_lsn :
    (m : Bytes) (lsn p : ℕ) → (p + 4 ≤ 4) ⊎ (12 ≤ p) → read_u32 (set_lsn m lsn) p ≡ read_u32 m p
unfolding set_lsn
read_u32-set_lsn m lsn p (inl h) =
    read_u32-write_u32_ne (write_u32 m 4 (lsn % 2 ^ 32)) 8 p (lsn / 2 ^ 32) (inr (omega arith))
    ∙ read_u32-write_u32_ne m 4 p (lsn % 2 ^ 32) (inr h)
read_u32-set_lsn m lsn p (inr h) =
    read_u32-write_u32_ne (write_u32 m 4 (lsn % 2 ^ 32)) 8 p (lsn / 2 ^ 32) (inl (omega arith))
    ∙ read_u32-write_u32_ne m 4 p (lsn % 2 ^ 32) (inl (omega arith))

-- A sequence number of 64 bits is read back, and leaves the other fields of the header and the
-- tuples of a valid page alone.
pub get_lsn-set_lsn :
    (m : Bytes) (lsn j : ℕ)
    → lsn < 2 ^ 64
    → IsValid m
    → (get_lsn (set_lsn m lsn) ≡ lsn)
      × (get_page_id (set_lsn m lsn) ≡ get_page_id m)
      × (get_prev_page_id (set_lsn m lsn) ≡ get_prev_page_id m)
      × (get_next_page_id (set_lsn m lsn) ≡ get_next_page_id m)
      × (get_slot_count (set_lsn m lsn) ≡ get_slot_count m)
      × (get_tuple (set_lsn m lsn) j ≡ get_tuple m j)
unfolding get_lsn set_lsn get_page_id get_prev_page_id get_next_page_id
get_lsn-set_lsn m lsn j h valid =
    let first = write_u32 m 4 (lsn % 2 ^ 32) in
    let low : read_u32 (write_u32 first 8 (lsn / 2 ^ 32)) 4 ≡ lsn % 2 ^ 32 =
      read_u32-write_u32_ne first 8 4 (lsn / 2 ^ 32) (inr (omega arith))
      ∙ read_u32-write_u32 m 4 (lsn % 2 ^ 32) (omega arith) in
    let high = read_u32-write_u32 first 8 (lsn / 2 ^ 32) (omega (arith, h)) in
    let aside = read_u32-set_lsn m lsn in
    let rows = set_lsn-Relinked m lsn in
    (
      omega (arith, low, high),
      aside 0 (inl (omega arith)),
      aside 12 (inr (omega arith)),
      aside 16 (inr (omega arith)),
      rows.counted,
      rows.kept j valid,
    )

tail_lem :
    (m : Bytes) (o v w : ℕ)
    → o + 2 ≤ 20
    → read_u16 (write_u16 (write_u16 m 20 v) 22 w) o ≡ read_u16 m o
tail_lem m o v w h =
    read_u16-write_u16_ne (write_u16 m 20 v) 22 o w (inr (omega arith))
    ∙ read_u16-write_u16_ne m 20 o v (inr (omega arith))

pub get_next_page_id-init : (p : ℕ) → get_next_page_id (init p) ≡ invalid_page_id
unfolding get_next_page_id init set_page_id set_lsn set_prev_page_id set_next_page_id read_u32
    write_u32
get_next_page_id-init p =
    let low : read_u16 (init p) 16 ≡ 65535 =
      tail_lem _ 16 0 0 (omega arith)
      ∙ read_u16-write_u16_ne _ 18 16 65535 (inr (omega arith))
      ∙ read_u16-write_u16 _ 16 65535 (omega arith) in
    let high : read_u16 (init p) 18 ≡ 65535 =
      tail_lem _ 18 0 0 (omega arith) ∙ read_u16-write_u16 _ 18 65535 (omega arith) in
    omega (arith, low, high)

-- A page without slots takes any tuple of a permitted size.
pub insert_tuple-empty :
    (m : Bytes) (tuple : List ℕ)
    → get_slot_count m ≡ 0
    → (length tuple == 0 || ltb max_tuple_size (length tuple)) ≡ false
    → (length tuple ≤ lowest_tuple m) × (insert_tuple m tuple ≡ some (place_tuple m tuple, 0))
unfolding insert_tuple lowest_tuple lowest_from new_tuple_offset
insert_tuple-empty m tuple e size = ground arith
