-- ===== src/Storage/TablePage/Valid.antt =====
-- The invariant of a slotted page: live tuples lie between the slot array and the end of the page,
-- and do not overlap.
use goods_db.Prelude.{
  ℕ, zero, suc, ◌+◌, ◌*◌, ◌≤◌, ◌<◌, ◌≡◌, true, false, arith, ◌==◌, ◌⊎◌, inl, inr, ap, ◌∙◌,
  Bool-cases,
}
use goods_db.Prelude.Bytes.{Bytes, read_u16-write_u16, read_u16-write_u16_ne}
use goods_db.Storage.TablePage.{
  init, get_slot_count, slot_tuple_offset, slot_tuple_size, is_deleted, is_live, lowest_from,
  lowest_tuple, page_size,
}

pub record IsValid (m : Bytes) : Type 0 where
  pub fits : 24 + get_slot_count m * 4 ≤ 16384
  pub placed :
      (i : ℕ)
      → is_live m i ≡ true
      → (24 + get_slot_count m * 4 ≤ slot_tuple_offset m i)
        × (slot_tuple_offset m i + slot_tuple_size m i ≤ 16384)
  pub apart :
      (i j : ℕ)
      → is_live m i ≡ true
      → is_live m j ≡ true
      → (i == j) ≡ false
      → (slot_tuple_offset m i + slot_tuple_size m i ≤ slot_tuple_offset m j)
        ⊎ (slot_tuple_offset m j + slot_tuple_size m j ≤ slot_tuple_offset m i)

pub live-below :
    (m : Bytes) (i : ℕ) → is_live m i ≡ true → (i < get_slot_count m) × (is_deleted m i ≡ false)
unfolding is_live
live-below m i h = (ground arith, ground arith)

pub live-intro :
    (m : Bytes) (i : ℕ) → i < get_slot_count m → is_deleted m i ≡ false → is_live m i ≡ true
unfolding is_live
live-intro m i b d = ground (arith, d)

-- The lowest tuple is not above the start value, nor above any live tuple that the loop passes.
lowest_from-le : (m : Bytes) (n i l : ℕ) → lowest_from m n i l ≤ l
unfolding lowest_from
lowest_from-le m zero i l = omega arith
lowest_from-le m (suc n) i l =
    ground (arith, lowest_from-le m n (i + 1) l, lowest_from-le m n (i + 1) (slot_tuple_offset m i))

lowest_from-slot :
    (m : Bytes) (n i l j : ℕ)
    → i ≤ j
    → j < i + n
    → is_deleted m j ≡ false
    → lowest_from m n i l ≤ slot_tuple_offset m j
unfolding lowest_from
lowest_from-slot m zero i l j le lt d = absurd (omega arith)
lowest_from-slot m (suc n) i l j le lt d = elim (Bool-cases (i == j)) [
  | inl same ↦
      let e : i ≡ j = ground arith in
      let live : is_deleted m i ≡ false = ap (is_deleted m) e ∙ d in
      let o : slot_tuple_offset m i ≡ slot_tuple_offset m j = ap (slot_tuple_offset m) e in
      rw live (
        ground (
          arith,
          o,
          lowest_from-le m n (i + 1) l,
          lowest_from-le m n (i + 1) (slot_tuple_offset m i),
        ))
  | inr other ↦ lowest_from-slot m n (i + 1) _ j (ground arith) (omega arith) d
]

pub lowest_tuple-le : (m : Bytes) → lowest_tuple m ≤ 16384
unfolding lowest_tuple
lowest_tuple-le m = lowest_from-le m (get_slot_count m) 0 page_size

pub lowest_tuple-live :
    (m : Bytes) (j : ℕ) → is_live m j ≡ true → lowest_tuple m ≤ slot_tuple_offset m j
unfolding lowest_tuple
lowest_tuple-live m j h =
    let (below, d) = live-below m j h in
    lowest_from-slot m (get_slot_count m) 0 page_size j (omega arith) (omega arith) d

pub init-get_slot_count : (page_id : ℕ) → get_slot_count (init page_id) ≡ 0
unfolding init get_slot_count
init-get_slot_count page_id =
    read_u16-write_u16_ne _ 22 20 0 (inr (omega arith)) ∙ read_u16-write_u16 _ 20 0 (omega arith)

-- A new page is valid.
pub init-IsValid : (page_id : ℕ) → IsValid (init page_id)
init-IsValid page_id =
    let none_yet : get_slot_count (init page_id) ≡ 0 = init-get_slot_count page_id in
    record {
      fits = omega (arith, none_yet);
      placed =
          λ i h. absurd (let (b, d) = live-below (init page_id) i h in omega (arith, b, none_yet));
      apart = λ i j h k ne.
          absurd (let (b, d) = live-below (init page_id) i h in omega (arith, b, none_yet));
    }
