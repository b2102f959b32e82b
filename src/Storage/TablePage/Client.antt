-- ===== src/Storage/TablePage/Client.antt =====
-- What a client of goods_db/src/storage/page/table_page.cpp sees: insertions and deletions.
use goods_db.Prelude.{
  ℕ, ◌+◌, ◌*◌, ◌≤◌, ◌≡◌, refl, Bool, true, false, List, none, some, arith, ltb, ◌==◌, ◌||◌, length,
  ◌⊎◌, inl, inr, ap, sym, ◌∙◌, subst, Bool-cases,
}
use mathlib.Core.Option.{some-injective}
use goods_db.Prelude.Bytes.{Bytes}
use goods_db.Storage.TablePage.{
  get_slot_count, slot_tuple_offset, slot_tuple_size, lowest_tuple, place_tuple, insert_tuple,
  is_live, get_tuple, max_tuple_size, new_tuple_offset,
}
use goods_db.Storage.TablePage.Valid.{IsValid, live-below, lowest_tuple-le, lowest_tuple-live}
use goods_db.Storage.TablePage.Insert.{
  Room, place_count, place_old, room_count, place_new_offset, place_new_size, place_get_new,
  place_get_old, place_live_cases, new_tuple_offset-lem,
}

module _ (m : Bytes) (tuple : List ℕ) where
  -- `size == 0 || size > MAX_TUPLE_SIZE`, and the slot array against the new tuple.
  abbrev bad_size : Bool
  bad_size = length tuple == 0 || ltb max_tuple_size (length tuple)

  abbrev no_room : Bool
  no_room = ltb (new_tuple_offset m (length tuple)) (24 + (get_slot_count m + 1) * 4)

  insert_tuple-bad_size : bad_size ≡ true → insert_tuple m tuple ≡ none
  unfolding insert_tuple
  insert_tuple-bad_size h = rw h refl

  insert_tuple-no_room : bad_size ≡ false → no_room ≡ true → insert_tuple m tuple ≡ none
  unfolding insert_tuple
  insert_tuple-no_room h k = rw (h, k) refl

  insert_tuple-place_tuple :
      bad_size ≡ false
      → no_room ≡ false
      → insert_tuple m tuple ≡ some (place_tuple m tuple, get_slot_count m)
  unfolding insert_tuple
  insert_tuple-place_tuple h k = rw (h, k) refl

  -- An insertion that succeeds found room, and was written.
  pub insert_tuple-Room :
      (m' : Bytes) (k : ℕ)
      → length tuple ≤ lowest_tuple m
      → insert_tuple m tuple ≡ some (m', k)
      → Room m tuple × (m' ≡ place_tuple m tuple) × (k ≡ get_slot_count m)
  insert_tuple-Room m' k fits h = elim (Bool-cases bad_size) [
    | inl bad ↦ absurd (cc (sym (insert_tuple-bad_size bad) ∙ h))
    | inr ok ↦ elim (Bool-cases no_room) [
      | inl full ↦ absurd (cc (sym (insert_tuple-no_room ok full) ∙ h))
      | inr room ↦
          let e =
            some-injective (m', k) (place_tuple m tuple, get_slot_count m)
              (sym h ∙ insert_tuple-place_tuple ok room) in
          let there = new_tuple_offset-lem m tuple fits in
          (
            record { above = ground (arith, room); below = omega (arith, there) },
            ap (λ x. x.0) e,
            ap (λ x. x.1) e,
          )
    ]
  ]

abbrev Apart : Bytes → ℕ → ℕ → Type 0
Apart m i j =
    (slot_tuple_offset m i + slot_tuple_size m i ≤ slot_tuple_offset m j)
    ⊎ (slot_tuple_offset m j + slot_tuple_size m j ≤ slot_tuple_offset m i)

-- The new tuple ends below every old one.
place-above :
    (m : Bytes) (tuple : List ℕ) (i : ℕ)
    → Room m tuple
    → is_live m i ≡ true
    → slot_tuple_offset (place_tuple m tuple) (get_slot_count m)
        + slot_tuple_size (place_tuple m tuple) (get_slot_count m)
      ≤ slot_tuple_offset (place_tuple m tuple) i
place-above m tuple i r old =
    let s = place_old m tuple i r (live-below m i old).0 in
    omega (
      arith,
      place_new_offset m tuple r,
      place_new_size m tuple r,
      s.offset,
      r.below,
      lowest_tuple-live m i old,
    )

place-Apart :
    (m : Bytes) (tuple : List ℕ) (i j : ℕ)
    → IsValid m
    → Room m tuple
    → is_live m i ≡ true
    → is_live m j ≡ true
    → (i == j) ≡ false
    → Apart (place_tuple m tuple) i j
place-Apart m tuple i j v r old old' ne =
    let s = place_old m tuple i r (live-below m i old).0 in
    let s' = place_old m tuple j r (live-below m j old').0 in
    elim (v.apart i j old old' ne) [
      | inl a ↦ inl (omega (arith, s.offset, s.size, s'.offset, a))
      | inr b ↦ inr (omega (arith, s.offset, s'.size, s'.offset, b))
    ]

place-IsValid :
    (m : Bytes) (tuple : List ℕ) → IsValid m → Room m tuple → IsValid (place_tuple m tuple)
place-IsValid m tuple v r =
    let (small, _, _) = room_count m tuple r in
    let c = place_count m tuple small in
    let o = place_new_offset m tuple r in
    let z = place_new_size m tuple r in
    record {
      fits = omega (arith, c, r.above, r.below, lowest_tuple-le m);
      placed = λ i h. elim (place_live_cases m tuple i r h) [
        | inl (low, old) ↦
            let s = place_old m tuple i r low in
            (
              omega (arith, c, s.offset, r.above, r.below, lowest_tuple-live m i old),
              omega (arith, s.offset, s.size, v.placed i old),
            )
        | inr new ↦
            subst
              (λ j.
                (24 + get_slot_count (place_tuple m tuple) * 4
                  ≤ slot_tuple_offset (place_tuple m tuple) j)
                × (slot_tuple_offset (place_tuple m tuple) j
                      + slot_tuple_size (place_tuple m tuple) j
                    ≤ 16384))
              (sym new)
              (omega (arith, c, o, r.above), omega (arith, o, z, r.below, lowest_tuple-le m))
      ];
      apart = λ i j h k ne. elim (place_live_cases m tuple i r h) [
        | inl (low, old) ↦ elim (place_live_cases m tuple j r k) [
          | inl (low', old') ↦ place-Apart m tuple i j v r old old' ne
          | inr new ↦
              subst (λ x. Apart (place_tuple m tuple) i x) (sym new)
                (inr (place-above m tuple i r old))
        ]
        | inr new ↦ elim (place_live_cases m tuple j r k) [
          | inl (low', old') ↦
              subst (λ x. Apart (place_tuple m tuple) x j) (sym new)
                (inl (place-above m tuple j r old'))
          | inr new' ↦ absurd (let e : i ≡ j = new ∙ sym new' in ground arith)
        ]
      ];
    }

-- Where the lowest tuple of a valid page leaves at least the size of the tuple below it, an
-- `InsertTuple` that succeeds leaves a valid page whose new slot holds the tuple.
pub get_tuple-insert_tuple :
    (m m' : Bytes) (tuple : List ℕ) (k : ℕ)
    → IsValid m
    → length tuple ≤ lowest_tuple m
    → insert_tuple m tuple ≡ some (m', k)
    → IsValid m' × (get_tuple m' k ≡ some tuple)
get_tuple-insert_tuple m m' tuple k v fits h =
    let (r, e, n) = insert_tuple-Room m tuple m' k fits h in
    rw (e, n) (place-IsValid m tuple v r, place_get_new m tuple r)

-- Where the lowest tuple leaves at least the size of the tuple below it, an `InsertTuple` that
-- succeeds leaves every live slot with the tuple that it held.
pub get_tuple-insert_tuple_ne :
    (m m' : Bytes) (tuple : List ℕ) (k i : ℕ)
    → length tuple ≤ lowest_tuple m
    → insert_tuple m tuple ≡ some (m', k)
    → is_live m i ≡ true
    → get_tuple m' i ≡ get_tuple m i
get_tuple-insert_tuple_ne m m' tuple k i fits h live =
    let (r, e, _) = insert_tuple-Room m tuple m' k fits h in rw e (place_get_old m tuple i r live)
