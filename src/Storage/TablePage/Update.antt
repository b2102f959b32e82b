-- ===== src/Storage/TablePage/Update.antt =====
-- `UpdateTuple` of goods_db/src/storage/page/table_page.cpp where the tuple does not grow.
use goods_db.Prelude.{
  ℕ, ◌+◌, ◌-◌, ◌*◌, ◌≤◌, ◌<◌, ◌≡◌, refl, true, false, List, some, arith, ltb, ◌==◌, if◌then◌else◌,
  length, replicate, length-replicate, ◌⊎◌, inl, inr, ap, sym, ◌∙◌, subst, Bool-cases,
}
use goods_db.Prelude.Bytes.{
  Bytes, read_u16, write_bytes, write_bytes_ne, read_u16-write_bytes_ne, read_bytes_cong,
  read_bytes-write_bytes,
}
use goods_db.Storage.TablePage.{
  get_slot_count, get_slot_offset, slot_tuple_offset, slot_tuple_size, is_deleted, is_live,
  get_tuple, overwrite, update_tuple,
}
use goods_db.Storage.TablePage.Slots.{
  set_slot_info-offset, set_slot_info-size, set_slot_info_ne, set_slot_info-byte, SameSlot,
  fields-SameSlot,
}
use goods_db.Storage.TablePage.Valid.{IsValid, live-below, live-intro}

-- A live slot `i` of a valid page, and a tuple that is not larger than the one it holds.
module _ (m : Bytes) (i : ℕ) (tuple : List ℕ) where
  abbrev off : ℕ
  off = slot_tuple_offset m i

  abbrev rest : List ℕ
  rest = replicate (slot_tuple_size m i - length tuple) 0

  abbrev filled : Bytes
  filled = write_bytes (write_bytes m off tuple) (off + length tuple) rest

  abbrev after : Bytes
  after = overwrite m i tuple

  record Smaller : Type 0 where
    valid : IsValid m
    live : is_live m i ≡ true
    fits : length tuple ≤ slot_tuple_size m i

  -- The slot array ends before the tuple, which ends in the page.
  record Bounds : Type 0 where
    index : i < get_slot_count m
    start : 24 + get_slot_count m * 4 ≤ off
    stop : off + slot_tuple_size m i ≤ 16384
    cleared : off + length tuple + length rest ≡ off + slot_tuple_size m i

  bounds : Smaller → Bounds
  bounds h =
      let (low, high) = h.valid.placed i h.live in
      record {
        index = (live-below m i h.live).0;
        start = low;
        stop = high;
        cleared =
            omega (arith, h.fits, length-replicate {A = ℕ} (slot_tuple_size m i - length tuple) 0);
      }

  filled_field :
      (p : ℕ) → Bounds → p + 2 ≤ 24 + get_slot_count m * 4 → read_u16 filled p ≡ read_u16 m p
  filled_field p b h =
      read_u16-write_bytes_ne (write_bytes m off tuple) (off + length tuple) p rest
        (inl (omega (arith, b.start)))
      ∙ read_u16-write_bytes_ne m off p tuple (inl (omega (arith, b.start)))

  after_field :
      (p : ℕ)
      → Bounds
      → p + 2 ≤ 24 + get_slot_count m * 4
      → (p + 2 ≤ 24 + i * 4) ⊎ (24 + i * 4 + 4 ≤ p)
      → read_u16 after p ≡ read_u16 m p
  unfolding overwrite
  after_field p b h k = set_slot_info_ne filled i off (length tuple) p k ∙ filled_field p b h

  after_count : Bounds → get_slot_count after ≡ get_slot_count m
  unfolding get_slot_count
  after_count b = after_field 20 b (omega arith) (inl (omega arith))

  after_slot : (j : ℕ) → Bounds → j < get_slot_count m → (i == j) ≡ false → SameSlot m after j
  after_slot j b low ne =
      fields-SameSlot m after j (λ p a c. after_field p b (omega (arith, low)) (ground arith))

  after_offset : Bounds → slot_tuple_offset after i ≡ off
  unfolding overwrite
  after_offset b = set_slot_info-offset filled i off (length tuple) (omega (arith, b.stop))

  after_size : Bounds → slot_tuple_size after i ≡ length tuple
  unfolding overwrite
  after_size b = set_slot_info-size filled i off (length tuple) (omega (arith, b.stop, b.cleared))

  after_byte :
      (p : ℕ)
      → Bounds
      → 24 + get_slot_count m * 4 ≤ p
      → (p < off) ⊎ (off + slot_tuple_size m i ≤ p)
      → after p ≡ m p
  unfolding overwrite
  after_byte p b low out =
      let c = b.cleared in
      set_slot_info-byte filled i off (length tuple) p (omega (arith, low, b.index))
      ∙ write_bytes_ne (write_bytes m off tuple) (off + length tuple) p rest (ground (arith, c))
      ∙ write_bytes_ne m off p tuple (ground (arith, c))

  after_new_byte :
      (p : ℕ) → Bounds → off ≤ p → p < off + length tuple → after p ≡ write_bytes m off tuple p
  unfolding overwrite
  after_new_byte p b low high =
      set_slot_info-byte filled i off (length tuple) p (omega (arith, low, b.index, b.start))
      ∙ write_bytes_ne (write_bytes m off tuple) (off + length tuple) p rest (inl high)

  after_kept : Bounds → is_deleted after i ≡ false
  unfolding is_deleted slot_tuple_offset get_slot_offset
  after_kept b = let o = after_offset b in let s = b.stop in ground arith

  after_self : Bounds → is_live after i ≡ true
  after_self b = live-intro after i (omega (arith, b.index, after_count b)) (after_kept b)

  -- Every slot is live after the update where it was live before.
  after_live : (j : ℕ) → Smaller → is_live after j ≡ is_live m j
  unfolding is_live
  after_live j h =
      let b = bounds h in
      elim (Bool-cases (i == j)) [
        | inl same ↦
            (let e : i ≡ j = ground arith in
              subst (λ k. is_live after k ≡ is_live m k) e (after_self b ∙ sym h.live))
        | inr other ↦ elim (Bool-cases (ltb j (get_slot_count m))) [
          | inl low ↦
              (let s = (after_slot j b (ground arith) other).deleted in
                ground (arith, s, after_count b))
          | inr high ↦ ground (arith, after_count b)
        ]
      ]

  after_get_self : Smaller → get_tuple after i ≡ some tuple
  unfolding get_tuple
  after_get_self h =
      let b = bounds h in
      rw (after_self b, after_offset b, after_size b)
        (ap some (
          read_bytes_cong after (write_bytes m off tuple) off (length tuple)
            (λ p low high. after_new_byte p b low high)
          ∙ read_bytes-write_bytes m off tuple))

  after_get_other :
      (j : ℕ) → Smaller → is_live m j ≡ true → (i == j) ≡ false → get_tuple after j ≡ get_tuple m j
  unfolding get_tuple
  after_get_other j h live ne =
      let b = bounds h in
      let s = after_slot j b (live-below m j live).0 ne in
      let (low, high) = h.valid.placed j live in
      let away = h.valid.apart i j h.live live ne in
      rw (after_live j h, live, s.offset, s.size)
        (ap some (
          read_bytes_cong after m (slot_tuple_offset m j) (slot_tuple_size m j) (λ p from to.
            after_byte p b (omega (arith, low, from)) (ground (arith, away, from, to)))))

  after_get : (j : ℕ) → Smaller → get_tuple after j ≡ (if i == j then some tuple else get_tuple m j)
  unfolding get_tuple
  after_get j h = elim (Bool-cases (i == j)) [
    | inl same ↦
        (let e : i ≡ j = ground arith in
          rw same (subst (λ k. get_tuple after k ≡ some tuple) e (after_get_self h)))
    | inr other ↦ elim (Bool-cases (is_live m j)) [
      | inl there ↦ rw other (after_get_other j h there other)
      | inr absent ↦ rw (other, after_live j h, absent) refl
    ]
  ]

  -- A live slot keeps its offset, and takes no more room than before.
  after_within :
      (j : ℕ)
      → Smaller
      → is_live m j ≡ true
      → (slot_tuple_offset after j ≡ slot_tuple_offset m j)
        × (slot_tuple_size after j ≤ slot_tuple_size m j)
  after_within j h there =
      let b = bounds h in
      elim (Bool-cases (i == j)) [
        | inl same ↦
            (let e : i ≡ j = ground arith in
              subst
                (λ k.
                  (slot_tuple_offset after k ≡ slot_tuple_offset m k)
                  × (slot_tuple_size after k ≤ slot_tuple_size m k))
                e (after_offset b, omega (arith, after_size b, h.fits)))
        | inr other ↦
            (let s = after_slot j b (live-below m j there).0 other in
              (s.offset, omega (arith, s.size)))
      ]

  after-IsValid : Smaller → IsValid after
  after-IsValid h =
      let count = after_count (bounds h) in
      record {
        fits = omega (arith, count, h.valid.fits);
        placed = λ j live.
            let (same, less) = after_within j h (there j live) in
            let (low, high) = h.valid.placed j (there j live) in
            (omega (arith, count, same, low), omega (arith, same, less, high));
        apart = λ j k live live' ne.
            let (same, less) = after_within j h (there j live) in
            let (same', less') = after_within k h (there k live') in
            elim (h.valid.apart j k (there j live) (there k live') ne) [
              | inl a ↦ inl (omega (arith, same, less, same', a))
              | inr c ↦ inr (omega (arith, same, same', less', c))
            ];
      }
    where
      there : (j : ℕ) → is_live after j ≡ true → is_live m j ≡ true
      there j live = sym (after_live j h) ∙ live

  update_tuple-overwrite : Smaller → update_tuple m i tuple ≡ (after, true)
  unfolding update_tuple
  update_tuple-overwrite h = ground arith

-- `UpdateTuple` of a live slot of a valid page by a tuple that is not larger than the one it holds
-- succeeds and leaves a valid page, where that slot has the new tuple and every other slot has what
-- it had.
pub get_tuple-update_tuple :
    (m : Bytes) (i j : ℕ) (tuple : List ℕ)
    → IsValid m
    → is_live m i ≡ true
    → length tuple ≤ slot_tuple_size m i
    → ((update_tuple m i tuple).1 ≡ true)
      × IsValid (update_tuple m i tuple).0
      × (get_tuple (update_tuple m i tuple).0 j ≡ (if i == j then some tuple else get_tuple m j))
get_tuple-update_tuple m i j tuple v live small =
    let h : Smaller m i tuple = record { valid = v; live = live; fits = small } in
    rw (update_tuple-overwrite m i tuple h)
      (refl, after-IsValid m i tuple h, after_get m i tuple j h)
