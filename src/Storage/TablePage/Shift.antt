-- ===== src/Storage/TablePage/Shift.antt =====
-- The loops of `ApplyDelete` of goods_db/src/storage/page/table_page.cpp.
use goods_db.Prelude.{
  ℕ, zero, suc, ◌+◌, ◌*◌, ◌≤◌, ◌<◌, ◌≡◌, refl, false, arith, ltb, ◌==◌, ◌||◌, ◌⊎◌, inl, inr, sym,
  ◌∙◌, subst, Bool-cases,
}
use goods_db.Prelude.Bytes.{Bytes, read_u16}
use goods_db.Storage.TablePage.{
  get_slot_offset, slot_tuple_offset, slot_tuple_size, set_slot_info, is_deleted, compact,
  shift_slots,
}
use goods_db.Storage.TablePage.Slots.{
  set_slot_info-offset, set_slot_info-size, set_slot_info_ne, set_slot_info-byte,
}

-- A loop that finds no tuple above the deleted one moves none.
pub compact-above_none :
    (n i slot_id offset size : ℕ) (m : Bytes)
    → ((k : ℕ) → i ≤ k → k < i + n → is_deleted m k ≡ false → slot_tuple_offset m k ≤ offset)
    → compact n i slot_id offset size m ≡ m
unfolding compact
compact-above_none zero i slot_id offset size m h = refl
compact-above_none (suc n) i slot_id offset size m h =
    let rest =
      compact-above_none n (i + 1) slot_id offset size m
        (λ k low high. h k (omega arith) (omega arith)) in
    elim (Bool-cases (i == slot_id || is_deleted m i)) [
      | inl skip ↦ rw skip rest
      | inr there ↦
          (let kept : is_deleted m i ≡ false = ground (arith, there) in
            let low : slot_tuple_offset m i ≤ offset = h i (omega arith) (omega arith) kept in
            let below : ltb offset (slot_tuple_offset m i) ≡ false = ground (arith, low) in
            rw (there, below) rest)
    ]

-- The shifts of `n` slots from `i` on leave the other fields and the bytes behind the slots.
pub shift_field :
    (n i : ℕ) (m : Bytes) (p : ℕ)
    → (p + 2 ≤ 24 + i * 4) ⊎ (24 + (i + n) * 4 ≤ p)
    → read_u16 (shift_slots n i m) p ≡ read_u16 m p
unfolding shift_slots
shift_field zero i m p h = refl
shift_field (suc n) i m p h =
    shift_field n (i + 1) _ p (ground arith)
    ∙ set_slot_info_ne m i (slot_tuple_offset m (i + 1)) (slot_tuple_size m (i + 1)) p
        (ground arith)

pub shift_byte : (n i : ℕ) (m : Bytes) (p : ℕ) → 24 + (i + n) * 4 ≤ p → shift_slots n i m p ≡ m p
unfolding shift_slots
shift_byte zero i m p h = refl
shift_byte (suc n) i m p h =
    shift_byte n (i + 1) _ p (omega arith)
    ∙ set_slot_info-byte m i (slot_tuple_offset m (i + 1)) (slot_tuple_size m (i + 1)) p
        (omega arith)

-- Each of them takes the slot behind it.
pub shift_offset :
    (n i : ℕ) (m : Bytes) (j : ℕ)
    → i ≤ j
    → j < i + n
    → slot_tuple_offset m (j + 1) < 65536
    → slot_tuple_offset (shift_slots n i m) j ≡ slot_tuple_offset m (j + 1)
unfolding shift_slots slot_tuple_offset get_slot_offset
shift_offset zero i m j low high small = absurd (omega arith)
shift_offset (suc n) i m j low high small =
    let m1 = set_slot_info m i (slot_tuple_offset m (i + 1)) (slot_tuple_size m (i + 1)) in
    let next =
      set_slot_info_ne m i (slot_tuple_offset m (i + 1)) (slot_tuple_size m (i + 1))
        (24 + (j + 1) * 4) (inr (omega arith)) in
    elim (Bool-cases (i == j)) [
      | inl same ↦
          (let e : i ≡ j = ground arith in
            shift_field n (i + 1) m1 (24 + j * 4) (inl (omega (arith, e)))
            ∙ subst (λ k. read_u16 m1 (24 + k * 4) ≡ read_u16 m (24 + (k + 1) * 4)) e
                (set_slot_info-offset m i (slot_tuple_offset m (i + 1)) (slot_tuple_size m (i + 1))
                  (subst (λ k. slot_tuple_offset m (k + 1) < 65536) (sym e) small)))
      | inr other ↦
          shift_offset n (i + 1) m1 j (ground arith) (omega arith)
            (subst (λ x. x < 65536) (sym next) small)
          ∙ next
    ]

pub shift_size :
    (n i : ℕ) (m : Bytes) (j : ℕ)
    → i ≤ j
    → j < i + n
    → slot_tuple_size m (j + 1) < 65536
    → slot_tuple_size (shift_slots n i m) j ≡ slot_tuple_size m (j + 1)
unfolding shift_slots slot_tuple_size get_slot_offset
shift_size zero i m j low high small = absurd (omega arith)
shift_size (suc n) i m j low high small =
    let m1 = set_slot_info m i (slot_tuple_offset m (i + 1)) (slot_tuple_size m (i + 1)) in
    let next =
      set_slot_info_ne m i (slot_tuple_offset m (i + 1)) (slot_tuple_size m (i + 1))
        (24 + (j + 1) * 4 + 2) (inr (omega arith)) in
    elim (Bool-cases (i == j)) [
      | inl same ↦
          (let e : i ≡ j = ground arith in
            shift_field n (i + 1) m1 (24 + j * 4 + 2) (inl (omega (arith, e)))
            ∙ subst (λ k. read_u16 m1 (24 + k * 4 + 2) ≡ read_u16 m (24 + (k + 1) * 4 + 2)) e
                (set_slot_info-size m i (slot_tuple_offset m (i + 1)) (slot_tuple_size m (i + 1))
                  (subst (λ k. slot_tuple_size m (k + 1) < 65536) (sym e) small)))
      | inr other ↦
          shift_size n (i + 1) m1 j (ground arith) (omega arith)
            (subst (λ x. x < 65536) (sym next) small)
          ∙ next
    ]
