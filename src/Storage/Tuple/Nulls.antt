-- ===== src/Storage/Tuple/Nulls.antt =====
-- The null bitmap of goods_db/src/storage/table/tuple.cpp.
use goods_db.Prelude.{
  ℕ, zero, suc, ◌+◌, ◌/◌, ◌%◌, ◌≤◌, ◌<◌, ◌≡◌, refl, Bool, true, false, List, [], ◌∷◌, arith, ◌==◌,
  if◌then◌else◌, Bool-cases, inl, inr, length, get_or, ap, ◌∙◌,
}
use goods_db.Prelude.Bytes.{Bytes, write_bytes, write_bytes_ne, write_bytes-one}
use goods_db.Prelude.Bits.{set_bit, has_bit, has_bit-set_bit, set_bit-lt}
use goods_db.Types.Value.{Value, invalid}
use goods_db.Storage.Tuple.{is_null, set_nulls}

-- The test of `GetValue`.
abbrev pub null_bit : Bytes → ℕ → Bool
null_bit m i = has_bit (m (4 + i / 8 % 256)) (i % 8)

-- The bitmap holds bytes.
abbrev pub HasBytes : Bytes → Type 0
HasBytes m = (p : ℕ) → 4 ≤ p → m p < 256

-- One bit is set.
module _ (m : Bytes) (i : ℕ) where
  abbrev at : ℕ
  at = 4 + i / 8 % 256

  abbrev marked : Bytes
  marked = write_bytes m at (set_bit (m at) (i % 8) ∷ [])

  marked_byte : (p : ℕ) → marked p ≡ (if p == at then set_bit (m at) (i % 8) else m p)
  marked_byte p = write_bytes-one m at (set_bit (m at) (i % 8)) p

  marked-HasBytes : HasBytes m → HasBytes marked
  marked-HasBytes h p low =
      ground (
        arith,
        marked_byte p,
        h p low,
        set_bit-lt (m at) (i % 8) (h at (omega arith)) (omega arith),
      )

  marked_bit :
      (j : ℕ)
      → HasBytes m
      → i < 2048
      → j < 2048
      → null_bit marked j ≡ (if i == j then true else null_bit m j)
  marked_bit j h hi hj =
      let law =
        has_bit-set_bit (m at) (i % 8) (j % 8) (h at (omega arith)) (omega arith) (omega arith) in
      let there = marked_byte (4 + j / 8 % 256) in
      elim (Bool-cases (4 + j / 8 % 256 == at)) [
        | inl same ↦
            let e : 4 + j / 8 % 256 ≡ at = ground (arith, same) in
            let w : marked (4 + j / 8 % 256) ≡ set_bit (m at) (i % 8) =
              ground (arith, there, same) in
            let bits : (i % 8 == j % 8) ≡ (i == j) = ground (arith, e, hi, hj) in
            ap (λ b. has_bit b (j % 8)) w ∙ law ∙ rw (bits, e) refl
        | inr other ↦
            let w : marked (4 + j / 8 % 256) ≡ m (4 + j / 8 % 256) = ground (arith, there, other) in
            let ne : (i == j) ≡ false = ground (arith, other) in
            ap (λ b. has_bit b (j % 8)) w ∙ rw ne refl
      ]

-- The loop keeps the bits of the columns before it.
set_nulls_keep :
    (values : List Value) (i j : ℕ) (m : Bytes)
    → HasBytes m
    → i + length values ≤ 2048
    → j < i
    → null_bit (set_nulls values i m) j ≡ null_bit m j
unfolding set_nulls
set_nulls_keep [] i j m h few before = refl
set_nulls_keep (v ∷ values) i j m h few before = elim (Bool-cases (is_null v)) [
  | inl absent ↦
      let ne : (i == j) ≡ false = ground arith in
      rw absent (
        set_nulls_keep values (i + 1) j (marked m i) (marked-HasBytes m i h) (omega arith)
          (omega arith)
        ∙ marked_bit m i j h (omega arith) (omega arith)
        ∙ rw ne refl)
  | inr there ↦ rw there (set_nulls_keep values (i + 1) j m h (omega arith) (omega arith))
]

-- The bit of a column is set when its value is NULL.
pub set_nulls_at :
    (values : List Value) (i k : ℕ) (m : Bytes)
    → HasBytes m
    → i + length values ≤ 2048
    → k < length values
    → ((j : ℕ) → i ≤ j → j < 2048 → null_bit m j ≡ false)
    → null_bit (set_nulls values i m) (i + k) ≡ is_null (get_or values k invalid)
unfolding set_nulls
set_nulls_at [] i k m h few low clear = absurd (omega (arith, low))
set_nulls_at (v ∷ values) i zero m h few low clear = elim (Bool-cases (is_null v)) [
  | inl absent ↦
      let e : (i == i) ≡ true = ground arith in
      rw absent (
        ap (null_bit (set_nulls values (i + 1) (marked m i))) (let z : i + 0 ≡ i = omega arith in z)
        ∙ set_nulls_keep values (i + 1) i (marked m i) (marked-HasBytes m i h) (omega arith)
            (omega arith)
        ∙ marked_bit m i i h (omega arith) (omega arith)
        ∙ rw e refl)
  | inr there ↦ rw there (
      ap (null_bit (set_nulls values (i + 1) m)) (let z : i + 0 ≡ i = omega arith in z)
      ∙ set_nulls_keep values (i + 1) i m h (omega arith) (omega arith)
      ∙ clear i (omega arith) (omega arith))
]
set_nulls_at (v ∷ values) i (suc k) m h few low clear = elim (Bool-cases (is_null v)) [
  | inl absent ↦ rw absent (
      ap (null_bit (set_nulls values (i + 1) (marked m i))) shift
      ∙ set_nulls_at values (i + 1) k (marked m i) (marked-HasBytes m i h) (omega arith)
          (omega arith)
          (λ j after lt.
            let ne : (i == j) ≡ false = ground (arith, after) in
            marked_bit m i j h (omega arith) lt ∙ rw ne (clear j (omega arith) lt)))
  | inr there ↦ rw there (
      ap (null_bit (set_nulls values (i + 1) m)) shift
      ∙ set_nulls_at values (i + 1) k m h (omega arith) (omega arith)
          (λ j after lt. clear j (omega arith) lt))
]
  where
    shift : i + suc k ≡ i + 1 + k
    shift = omega arith

-- The bytes before and after the bitmap stay.
pub set_nulls-byte :
    (values : List Value) (i : ℕ) (m : Bytes) (p : ℕ) → p < 4 → set_nulls values i m p ≡ m p
unfolding set_nulls
set_nulls-byte [] i m p h = refl
set_nulls-byte (v ∷ values) i m p h = elim (Bool-cases (is_null v)) [
  | inl absent ↦ rw absent (
      set_nulls-byte values (i + 1) (marked m i) p h
      ∙ write_bytes_ne m (at m i) p (set_bit (m (at m i)) (i % 8) ∷ []) (inl (omega arith)))
  | inr there ↦ rw there (set_nulls-byte values (i + 1) m p h)
]
