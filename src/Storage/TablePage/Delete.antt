-- ===== src/Storage/TablePage/Delete.antt =====
-- `MarkDelete` of goods_db/src/storage/page/table_page.cpp.
use goods_db.Prelude.{
  ℕ, ◌+◌, ◌*◌, ◌≤◌, ◌≡◌, refl, true, false, none, some, arith, ◌==◌, if◌then◌else◌, ◌⊎◌, inl, inr,
  ap, sym, ◌∙◌, Bool-cases,
}
use goods_db.Prelude.Bytes.{
  Bytes, read_u16, read_u16-write_u16, read_u16-write_u16_ne, write_u16_ne, read_bytes_cong,
}
use goods_db.Storage.TablePage.{
  get_slot_count, get_slot_offset, slot_tuple_offset, slot_tuple_size, set_slot_deleted, is_deleted,
  is_live, get_tuple, mark_delete,
}
use goods_db.Storage.TablePage.Slots.{SameSlot, fields-SameSlot}
use goods_db.Storage.TablePage.Valid.{IsValid, live-below}

module _ (m : Bytes) (i : ℕ) where
  abbrev gone : Bytes
  gone = set_slot_deleted m i

  gone_field :
      (p : ℕ) → (p + 2 ≤ 24 + i * 4) ⊎ (24 + i * 4 + 2 ≤ p) → read_u16 gone p ≡ read_u16 m p
  unfolding set_slot_deleted get_slot_offset
  gone_field p (inl h) = read_u16-write_u16_ne m (24 + i * 4) p 0xffff (inr h)
  gone_field p (inr h) = read_u16-write_u16_ne m (24 + i * 4) p 0xffff (inl h)

  gone_count : get_slot_count gone ≡ get_slot_count m
  unfolding get_slot_count
  gone_count = gone_field 20 (inl (omega arith))

  gone_deleted : is_deleted gone i ≡ true
  unfolding is_deleted set_slot_deleted
  gone_deleted = rw (read_u16-write_u16 m (get_slot_offset i) 0xffff (omega arith)) refl

  gone_slot : (j : ℕ) → (i == j) ≡ false → SameSlot m gone j
  gone_slot j ne = fields-SameSlot m gone j (λ p a b. gone_field p (ground arith))

  gone_live : (j : ℕ) → is_live gone j ≡ (if i == j then false else is_live m j)
  unfolding is_live
  gone_live j = elim (Bool-cases (i == j)) [
    | inl same ↦
        let e : i ≡ j = ground arith in
        let d : is_deleted gone j ≡ true = ap (is_deleted gone) (sym e) ∙ gone_deleted in
        rw same (ground (arith, d))
    | inr other ↦ rw (other, (gone_slot j other).deleted, gone_count) refl
  ]

  gone_byte : (p : ℕ) → 24 + i * 4 + 2 ≤ p → gone p ≡ m p
  unfolding set_slot_deleted get_slot_offset
  gone_byte p h = write_u16_ne m (24 + i * 4) p 0xffff (inr h)

  mark_delete-gone : is_live m i ≡ true → mark_delete m i ≡ (gone, true)
  unfolding mark_delete
  mark_delete-gone h = rw h refl

  gone_get :
      (j : ℕ)
      → IsValid m
      → is_live m i ≡ true
      → get_tuple gone j ≡ (if i == j then none else get_tuple m j)
  unfolding get_tuple
  gone_get j v live = elim (Bool-cases (i == j)) [
    | inl same ↦ rw (gone_live j, same) refl
    | inr other ↦ elim (Bool-cases (is_live m j)) [
      | inl there ↦
          let s = gone_slot j other in
          let (low, _) = live-below m i live in
          let (start, _) = v.placed j there in
          rw (gone_live j, other, there, s.offset, s.size)
            (ap some (
              read_bytes_cong gone m (slot_tuple_offset m j) (slot_tuple_size m j)
                (λ p a b. gone_byte p (omega (arith, start, low)))))
      | inr absent ↦ rw (gone_live j, other, absent) refl
    ]
  ]

  pub gone-IsValid : IsValid m → IsValid gone
  gone-IsValid v = record {
    fits = omega (arith, v.fits, gone_count);
    placed = λ j h.
        let (other, there) = kept j h in
        let s = gone_slot j other in
        (
          omega (arith, gone_count, s.offset, v.placed j there),
          omega (arith, s.offset, s.size, v.placed j there),
        );
    apart = λ j k h h' ne.
        let (other, there) = kept j h in
        let (other', there') = kept k h' in
        let s = gone_slot j other in
        let s' = gone_slot k other' in
        elim (v.apart j k there there' ne) [
          | inl a ↦ inl (omega (arith, s.offset, s.size, s'.offset, a))
          | inr b ↦ inr (omega (arith, s.offset, s'.size, s'.offset, b))
        ];
  }
    where
      kept : (j : ℕ) → is_live gone j ≡ true → ((i == j) ≡ false) × (is_live m j ≡ true)
      kept j h = (ground (arith, gone_live j), ground (arith, gone_live j))

-- `MarkDelete` of a live slot of a valid page succeeds and leaves a valid page, where that slot has
-- no tuple and every other slot has the tuple that it had.
pub get_tuple-mark_delete :
    (m : Bytes) (i j : ℕ)
    → IsValid m
    → is_live m i ≡ true
    → ((mark_delete m i).1 ≡ true)
      × IsValid (mark_delete m i).0
      × (get_tuple (mark_delete m i).0 j ≡ (if i == j then none else get_tuple m j))
get_tuple-mark_delete m i j v live =
    rw (mark_delete-gone m i live) (refl, gone-IsValid m i v, gone_get m i j v live)
