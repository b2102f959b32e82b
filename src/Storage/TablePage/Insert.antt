-- ===== src/Storage/TablePage/Insert.antt =====
-- `InsertTuple` of goods_db/src/storage/page/table_page.cpp.
use goods_db.Prelude.{
  ℕ, ◌+◌, ◌*◌, ◌%◌, ◌≤◌, ◌<◌, ◌≡◌, true, false, List, some, arith, ltb, length, ◌⊎◌, inl, inr, ap,
  sym, ◌∙◌, Bool-cases,
}
use goods_db.Prelude.Bytes.{
  Bytes, read_u16, write_bytes, read_u16-write_u16, read_u16-write_u16_ne, write_u16_ne,
  write_bytes_ne, read_u16-write_bytes_ne, read_bytes_cong, read_bytes-write_bytes,
}
use goods_db.Storage.TablePage.{
  get_slot_count, get_slot_offset, slot_tuple_offset, slot_tuple_size, set_slot_info, is_deleted,
  lowest_tuple, new_tuple_offset, place_tuple, is_live, get_tuple,
}
use goods_db.Storage.TablePage.Slots.{
  set_slot_info-offset, set_slot_info-size, set_slot_info_ne, set_slot_info-byte, SameSlot,
  fields-SameSlot,
}
use goods_db.Storage.TablePage.Valid.{live-below, live-intro, lowest_tuple-le, lowest_tuple-live}

-- An insertion into the free space between the slot array and the lowest tuple.
module _ (m : Bytes) (tuple : List ℕ) where
  abbrev pub count : ℕ
  count = get_slot_count m

  abbrev pub at : ℕ
  at = new_tuple_offset m (length tuple)

  abbrev pub after : Bytes
  after = place_tuple m tuple

  pub record Room : Type 0 where
    pub above : 24 + (count + 1) * 4 ≤ at
    pub below : at + length tuple ≤ lowest_tuple m

  pub new_tuple_offset-lem : length tuple ≤ lowest_tuple m → at + length tuple ≡ lowest_tuple m
  unfolding new_tuple_offset
  new_tuple_offset-lem h = omega (arith, lowest_tuple-le m)

  -- The count is written last; a field behind it reads as the slot does.
  place_field :
      (p : ℕ)
      → 22 ≤ p
      → read_u16 after p
        ≡ read_u16 (set_slot_info (write_bytes m at tuple) count at (length tuple)) p
  unfolding place_tuple
  place_field p h =
      read_u16-write_u16_ne (set_slot_info (write_bytes m at tuple) count at (length tuple)) 20 p
        ((count + 1) % 65536) (inl (omega arith))

  pub place_count : count + 1 < 65536 → get_slot_count after ≡ count + 1
  unfolding place_tuple get_slot_count
  place_count h = read_u16-write_u16 _ 20 ((count + 1) % 65536) (omega arith) ∙ omega arith

  pub place_old : (i : ℕ) → Room → i < count → SameSlot m after i
  place_old i r h = fields-SameSlot m after i (λ p a b.
      place_field p (omega arith)
      ∙ set_slot_info_ne (write_bytes m at tuple) count at (length tuple) p (inl (omega arith))
      ∙ read_u16-write_bytes_ne m at p tuple (inl (omega (arith, r.above))))

  place_byte : (p : ℕ) → Room → at + length tuple ≤ p → after p ≡ m p
  unfolding place_tuple
  place_byte p r h =
      write_u16_ne (set_slot_info (write_bytes m at tuple) count at (length tuple)) 20 p
        ((count + 1) % 65536) (inr (omega (arith, r.above)))
      ∙ set_slot_info-byte (write_bytes m at tuple) count at (length tuple) p
          (omega (arith, r.above))
      ∙ write_bytes_ne m at p tuple (inr h)

  place_new_byte : (p : ℕ) → Room → at ≤ p → after p ≡ write_bytes m at tuple p
  unfolding place_tuple
  place_new_byte p r h =
      write_u16_ne (set_slot_info (write_bytes m at tuple) count at (length tuple)) 20 p
        ((count + 1) % 65536) (inr (omega (arith, r.above)))
      ∙ set_slot_info-byte (write_bytes m at tuple) count at (length tuple) p
          (omega (arith, r.above))

  pub room_count : Room → (count + 1 < 65536) × (at < 65535) × (length tuple < 65536)
  room_count r =
      let low = lowest_tuple-le m in
      (omega (arith, r.above, r.below), omega (arith, r.above, r.below), omega (arith, r.below))

  pub place_new_offset : Room → slot_tuple_offset after count ≡ at
  unfolding slot_tuple_offset get_slot_offset
  place_new_offset r =
      let (_, small, _) = room_count r in
      place_field (24 + count * 4) (omega arith)
      ∙ set_slot_info-offset (write_bytes m at tuple) count at (length tuple) (omega arith)

  pub place_new_size : Room → slot_tuple_size after count ≡ length tuple
  unfolding slot_tuple_size get_slot_offset
  place_new_size r =
      let (_, _, small) = room_count r in
      place_field (24 + count * 4 + 2) (omega arith)
      ∙ set_slot_info-size (write_bytes m at tuple) count at (length tuple) small

  place_new_kept : Room → is_deleted after count ≡ false
  unfolding is_deleted slot_tuple_offset get_slot_offset
  place_new_kept r = let (_, small, _) = room_count r in let o = place_new_offset r in ground arith

  pub place_new_live : Room → is_live after count ≡ true
  place_new_live r =
      let (small, _, _) = room_count r in
      live-intro after count (omega (arith, place_count small)) (place_new_kept r)

  pub place_old_live : (i : ℕ) → Room → i < count → is_live after i ≡ is_live m i
  unfolding is_live
  place_old_live i r h =
      let (small, _, _) = room_count r in
      ground (arith, (place_old i r h).deleted, place_count small)

  -- The new slot holds the tuple.
  pub place_get_new : Room → get_tuple after count ≡ some tuple
  unfolding get_tuple
  place_get_new r =
      rw (place_new_live r, place_new_offset r, place_new_size r)
        (ap some (
          read_bytes_cong after (write_bytes m at tuple) at (length tuple)
            (λ p a b. place_new_byte p r a)
          ∙ read_bytes-write_bytes m at tuple))

  -- The other slots hold what they held.
  pub place_get_old : (i : ℕ) → Room → is_live m i ≡ true → get_tuple after i ≡ get_tuple m i
  unfolding get_tuple
  place_get_old i r h =
      let (low, _) = live-below m i h in
      let s = place_old i r low in
      rw (place_old_live i r low, h, s.offset, s.size)
        (ap some (
          read_bytes_cong after m (slot_tuple_offset m i) (slot_tuple_size m i)
            (λ p a b. place_byte p r (omega (arith, r.below, lowest_tuple-live m i h)))))

  -- A live slot of the page after the insertion is an old one or the new one.
  pub place_live_cases :
      (i : ℕ) → Room → is_live after i ≡ true → ((i < count) × (is_live m i ≡ true)) ⊎ (i ≡ count)
  place_live_cases i r h =
      let (small, _, _) = room_count r in
      let (b, d) = live-below after i h in
      let bound : i < count + 1 = omega (arith, place_count small) in
      elim (Bool-cases (ltb i count)) [
        | inl old ↦
            (let low : i < count = ground arith in inl (low, sym (place_old_live i r low) ∙ h))
        | inr new ↦ inr (ground arith)
      ]
