-- ===== src/Storage/TablePage/Apply.antt =====
-- `ApplyDelete` of goods_db/src/storage/page/table_page.cpp.
use goods_db.Prelude.{
  ℕ, ◌+◌, ◌-◌, ◌*◌, ◌≤◌, ◌<◌, ◌≡◌, refl, true, some, arith, ltb, if◌then◌else◌, inl, inr, ap, ◌∙◌,
  Bool-cases,
}
use goods_db.Prelude.Bytes.{
  Bytes, read_u16, write_u16, read_u16-write_u16, read_u16-write_u16_ne, write_u16_ne,
  read_bytes_cong,
}
use goods_db.Storage.TablePage.{
  get_slot_count, get_slot_offset, slot_tuple_offset, slot_tuple_size, is_deleted, is_live,
  get_tuple, shift_slots, apply_delete,
}
use goods_db.Storage.TablePage.Valid.{IsValid, live-below, live-intro}
use goods_db.Storage.TablePage.Shift.{
  compact-above_none, shift_field, shift_byte, shift_offset, shift_size,
}

-- The slot that a slot id names before the slot `i` is removed.
abbrev pub old_slot : ℕ → ℕ → ℕ
old_slot i j = if ltb j i then j else j + 1

-- The slots of a page hold 16-bit numbers.
abbrev pub HasFields : Bytes → Type 0
HasFields m =
    (k : ℕ) → k < get_slot_count m → (slot_tuple_offset m k < 65536) × (slot_tuple_size m k < 65536)

module _ (m : Bytes) (i : ℕ) where
  abbrev shifted : Bytes
  shifted = shift_slots (get_slot_count m - 1 - i) i m

  abbrev final : Bytes
  final = write_u16 shifted 20 (get_slot_count m - 1)

  -- The slot `i` of a valid page is live, and no tuple is above its tuple.
  record Top : Type 0 where
    valid : IsValid m
    fields : HasFields m
    live : is_live m i ≡ true
    highest : (k : ℕ) → is_live m k ≡ true → slot_tuple_offset m k ≤ slot_tuple_offset m i

  final_field : (p : ℕ) → 22 ≤ p → read_u16 final p ≡ read_u16 shifted p
  final_field p h = read_u16-write_u16_ne shifted 20 p (get_slot_count m - 1) (inl (omega arith))

  final_count : Top → get_slot_count final ≡ get_slot_count m - 1
  unfolding get_slot_count
  final_count t = read_u16-write_u16 shifted 20 (get_slot_count m - 1) (omega (arith, t.valid.fits))

  final_offset :
      (j : ℕ)
      → Top
      → j < get_slot_count m - 1
      → slot_tuple_offset final j ≡ slot_tuple_offset m (old_slot i j)
  unfolding slot_tuple_offset get_slot_offset
  final_offset j t low = final_field (24 + j * 4) (omega arith) ∙ elim (Bool-cases (ltb j i)) [
    | inl before ↦
        rw before
          (shift_field (get_slot_count m - 1 - i) i m (24 + j * 4) (inl (ground (arith, before))))
    | inr behind ↦ rw behind (
        shift_offset (get_slot_count m - 1 - i) i m j (ground (arith, behind))
          (ground (arith, behind)) (t.fields (j + 1) (omega arith)).0)
  ]

  final_size :
      (j : ℕ)
      → Top
      → j < get_slot_count m - 1
      → slot_tuple_size final j ≡ slot_tuple_size m (old_slot i j)
  unfolding slot_tuple_size get_slot_offset
  final_size j t low = final_field (24 + j * 4 + 2) (omega arith) ∙ elim (Bool-cases (ltb j i)) [
    | inl before ↦
        rw before (
          shift_field (get_slot_count m - 1 - i) i m (24 + j * 4 + 2)
            (inl (ground (arith, before))))
    | inr behind ↦ rw behind (
        shift_size (get_slot_count m - 1 - i) i m j (ground (arith, behind))
          (ground (arith, behind)) (t.fields (j + 1) (omega arith)).1)
  ]

  final_live : (j : ℕ) → Top → is_live final j ≡ is_live m (old_slot i j)
  unfolding is_live is_deleted slot_tuple_offset get_slot_offset
  final_live j t =
      let count = final_count t in
      let (within, _) = live-below m i t.live in
      elim (Bool-cases (ltb j (get_slot_count m - 1))) [
        | inl low ↦ (let o = final_offset j t (ground arith) in ground (arith, o, count))
        | inr high ↦ ground (arith, count, within)
      ]

  final_byte : (p : ℕ) → Top → 24 + get_slot_count m * 4 ≤ p → final p ≡ m p
  final_byte p t h =
      let (within, _) = live-below m i t.live in
      write_u16_ne shifted 20 p (get_slot_count m - 1) (inr (omega arith))
      ∙ shift_byte (get_slot_count m - 1 - i) i m p (omega arith)

  final_get : (j : ℕ) → Top → get_tuple final j ≡ get_tuple m (old_slot i j)
  unfolding get_tuple
  final_get j t = elim (Bool-cases (is_live m (old_slot i j))) [
    | inl there ↦
        (let (within, _) = live-below m i t.live in
          let (low, _) = live-below m (old_slot i j) there in
          let below : j < get_slot_count m - 1 = ground (arith, within, low) in
          let (start, _) = t.valid.placed (old_slot i j) there in
          rw (final_live j t, there, final_offset j t below, final_size j t below)
            (ap some (
              read_bytes_cong final m (slot_tuple_offset m (old_slot i j))
                (slot_tuple_size m (old_slot i j))
                (λ p a b. final_byte p t (omega (arith, start, a))))))
    | inr absent ↦ rw (final_live j t, absent) refl
  ]

  apply_delete-final : Top → apply_delete m i ≡ (final, true)
  unfolding apply_delete
  apply_delete-final t =
      let live = t.live in
      let still =
        compact-above_none (get_slot_count m) 0 i (slot_tuple_offset m i) (slot_tuple_size m i) m
          (λ k low high kept. t.highest k (live-intro m k (omega arith) kept)) in
      rw (live, still) refl

-- `ApplyDelete` of a live slot of a valid page of 16-bit slots, where no live tuple starts above the
-- one of the slot, succeeds: the slots before it have the tuples that they had, and each slot from it
-- on has what the next one had.
pub get_tuple-apply_delete :
    (m : Bytes) (i j : ℕ)
    → IsValid m
    → HasFields m
    → is_live m i ≡ true
    → ((k : ℕ) → is_live m k ≡ true → slot_tuple_offset m k ≤ slot_tuple_offset m i)
    → ((apply_delete m i).1 ≡ true)
      × (get_tuple (apply_delete m i).0 j ≡ get_tuple m (if ltb j i then j else j + 1))
get_tuple-apply_delete m i j v fields live highest =
    let t : Top m i = record { valid = v; fields = fields; live = live; highest = highest } in
    rw (apply_delete-final m i t) (refl, final_get m i j t)
