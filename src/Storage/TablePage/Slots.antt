-- ===== src/Storage/TablePage/Slots.antt =====
-- Which bytes of a page the writes of goods_db/src/storage/page/table_page.cpp change.
use goods_db.Prelude.{ℕ, ◌+◌, ◌*◌, ◌%◌, ◌≤◌, ◌<◌, ◌≡◌, arith, ◌==◌, ◌⊎◌, inl, inr, ap, ◌∙◌}
use goods_db.Prelude.Bytes.{
  Bytes, read_u16, write_u16, read_u16-write_u16, read_u16-write_u16_ne, write_u16_ne,
}
use goods_db.Storage.TablePage.{
  get_slot_offset, slot_tuple_offset, slot_tuple_size, set_slot_info, is_deleted,
}

module _ (m : Bytes) (i o s : ℕ) where
  pub set_slot_info-offset : o < 65536 → slot_tuple_offset (set_slot_info m i o s) i ≡ o
  unfolding slot_tuple_offset set_slot_info
  set_slot_info-offset h =
      let a = get_slot_offset i in
      read_u16-write_u16_ne (write_u16 m a (o % 65536)) (a + 2) a (s % 65536) (inr (omega arith))
      ∙ read_u16-write_u16 m a (o % 65536) (omega arith)
      ∙ omega arith

  pub set_slot_info-size : s < 65536 → slot_tuple_size (set_slot_info m i o s) i ≡ s
  unfolding slot_tuple_size set_slot_info
  set_slot_info-size h =
      let a = get_slot_offset i in
      read_u16-write_u16 (write_u16 m a (o % 65536)) (a + 2) (s % 65536) (omega arith) ∙ omega arith

  -- A field that does not overlap the slot.
  pub set_slot_info_ne :
      (p : ℕ)
      → (p + 2 ≤ 24 + i * 4) ⊎ (24 + i * 4 + 4 ≤ p)
      → read_u16 (set_slot_info m i o s) p ≡ read_u16 m p
  unfolding set_slot_info get_slot_offset
  set_slot_info_ne p (inl h) =
      read_u16-write_u16_ne (write_u16 m (24 + i * 4) (o % 65536)) (24 + i * 4 + 2) p (s % 65536)
        (inr (omega arith))
      ∙ read_u16-write_u16_ne m (24 + i * 4) p (o % 65536) (inr (omega arith))
  set_slot_info_ne p (inr h) =
      read_u16-write_u16_ne (write_u16 m (24 + i * 4) (o % 65536)) (24 + i * 4 + 2) p (s % 65536)
        (inl (omega arith))
      ∙ read_u16-write_u16_ne m (24 + i * 4) p (o % 65536) (inl (omega arith))

  pub set_slot_info-byte : (p : ℕ) → 24 + i * 4 + 4 ≤ p → set_slot_info m i o s p ≡ m p
  unfolding set_slot_info get_slot_offset
  set_slot_info-byte p h =
      write_u16_ne (write_u16 m (24 + i * 4) (o % 65536)) (24 + i * 4 + 2) p (s % 65536)
        (inr (omega arith))
      ∙ write_u16_ne m (24 + i * 4) p (o % 65536) (inr (omega arith))

-- Two pages with the same slot array and, in it, the same slot.
pub record SameSlot (m m' : Bytes) (i : ℕ) : Type 0 where
  pub offset : slot_tuple_offset m' i ≡ slot_tuple_offset m i
  pub size : slot_tuple_size m' i ≡ slot_tuple_size m i
  pub deleted : is_deleted m' i ≡ is_deleted m i

-- A slot is the same when its two fields read the same.
pub fields-SameSlot :
    (m m' : Bytes) (i : ℕ)
    → ((p : ℕ) → 24 + i * 4 ≤ p → p + 2 ≤ 24 + i * 4 + 4 → read_u16 m' p ≡ read_u16 m p)
    → SameSlot m m' i
unfolding slot_tuple_offset slot_tuple_size is_deleted get_slot_offset
fields-SameSlot m m' i h = record {
  offset = h (24 + i * 4) (omega arith) (omega arith);
  size = h (24 + i * 4 + 2) (omega arith) (omega arith);
  deleted = ap (λ x. x == 0xffff) (h (24 + i * 4) (omega arith) (omega arith));
}
