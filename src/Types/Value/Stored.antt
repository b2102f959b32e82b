-- ===== src/Types/Value/Stored.antt =====
-- A stored value reads back: `SerializeTo` and `DeserializeFrom` of goods_db/src/type/value.cpp.
use goods_db.Prelude.{
  ℕ, ◌+◌, ◌%◌, ◌^◌, ◌≤◌, ◌<◌, ◌≡◌, refl, true, false, List, [], ◌∷◌, ◌++◌, arith, length,
  length-append, ◌⊎◌, ap, ◌∙◌, sym,
}
use goods_db.Prelude.Bytes.{
  Bytes, read_bytes, write_bytes, write_bytes_ne, write_bytes-one, read_bytes-write_bytes,
  read_bytes-write_bytes_left, read_bytes-write_bytes_right,
}
use goods_db.Types.Encoding.{to_bytes, from_bytes, limit, length-to_bytes, from_bytes-to_bytes}
use goods_db.Types.Value.{
  Value, invalid, boolean, tinyint, smallint, integer, bigint, decimal, timestamp, varchar,
  get_type_id, get_serialized_size, value_bytes, serialize_to, read_number, deserialize_from,
}

-- The numbers are bit patterns of their widths, and the length of a string with its four bytes is
-- a `uint32_t`.
abbrev pub Fits : Value → Type 0
Fits invalid = Unit {0}
Fits (boolean b) = Unit {0}
Fits (tinyint n) = n < limit 1
Fits (smallint n) = n < limit 2
Fits (integer n) = n < limit 4
Fits (bigint n) = n < limit 8
Fits (decimal n) = n < limit 8
Fits (timestamp n) = n < limit 8
Fits (varchar s) = 4 + length s < 2 ^ 32

pub read_number-write_bytes :
    (m : Bytes) (at n v : ℕ) → v < limit n → read_number (write_bytes m at (to_bytes n v)) at n ≡ v
unfolding read_number
read_number-write_bytes m at n v h =
    ap (λ k. from_bytes (read_bytes (write_bytes m at (to_bytes n v)) at k))
      (sym (length-to_bytes n v))
    ∙ ap from_bytes (read_bytes-write_bytes m at (to_bytes n v))
    ∙ from_bytes-to_bytes n v h

pub length-value_bytes : (v : Value) → Fits v → length (value_bytes v) ≡ get_serialized_size v
unfolding value_bytes get_serialized_size
length-value_bytes invalid h = refl
length-value_bytes (boolean b) h = refl
length-value_bytes (tinyint n) h = length-to_bytes 1 n
length-value_bytes (smallint n) h = length-to_bytes 2 n
length-value_bytes (integer n) h = length-to_bytes 4 n
length-value_bytes (bigint n) h = length-to_bytes 8 n
length-value_bytes (decimal n) h = length-to_bytes 8 n
length-value_bytes (timestamp n) h = length-to_bytes 8 n
length-value_bytes (varchar s) h =
    omega (
      arith,
      length-append (to_bytes 4 (length s % 2 ^ 32)) s,
      length-to_bytes 4 (length s % 2 ^ 32),
    )

get_serialized_size-lt : (v : Value) → get_serialized_size v < 2 ^ 32
unfolding get_serialized_size
get_serialized_size-lt invalid = omega arith
get_serialized_size-lt (boolean b) = omega arith
get_serialized_size-lt (tinyint n) = omega arith
get_serialized_size-lt (smallint n) = omega arith
get_serialized_size-lt (integer n) = omega arith
get_serialized_size-lt (bigint n) = omega arith
get_serialized_size-lt (decimal n) = omega arith
get_serialized_size-lt (timestamp n) = omega arith
get_serialized_size-lt (varchar s) = omega arith

-- The length of a string, then its bytes.
module _ (m : Bytes) (at : ℕ) (s : List ℕ) (short : 4 + length s < 2 ^ 32) where
  abbrev prefix : List ℕ
  prefix = to_bytes 4 (length s % 2 ^ 32)

  abbrev stored : Bytes
  stored = write_bytes m at (prefix ++ s)

  stored_length : read_number stored at 4 ≡ length s
  unfolding read_number
  stored_length =
      ap (λ k. from_bytes (read_bytes stored at k)) (sym (length-to_bytes 4 (length s % 2 ^ 32)))
      ∙ ap from_bytes (read_bytes-write_bytes_left m at prefix s)
      ∙ from_bytes-to_bytes 4 (length s % 2 ^ 32) (omega arith)
      ∙ omega arith

  stored_string : read_bytes stored (at + 4) (length s) ≡ s
  stored_string =
      ap (λ k. read_bytes stored (at + k) (length s)) (sym (length-to_bytes 4 (length s % 2 ^ 32)))
      ∙ read_bytes-write_bytes_right m at prefix s

one_byte : (m : Bytes) (at b : ℕ) → write_bytes m at (b ∷ []) at ≡ b
one_byte m at b = write_bytes-one m at b at ∙ ground arith

pub deserialize_from-value_bytes :
    (v : Value) (m : Bytes) (at : ℕ)
    → Fits v
    → deserialize_from (write_bytes m at (value_bytes v)) at (get_type_id v)
      ≡ (v, get_serialized_size v)
unfolding deserialize_from value_bytes get_type_id get_serialized_size
deserialize_from-value_bytes invalid m at h = refl
deserialize_from-value_bytes (boolean true) m at h = rw (one_byte m at 1) refl
deserialize_from-value_bytes (boolean false) m at h = rw (one_byte m at 0) refl
deserialize_from-value_bytes (tinyint n) m at h = rw (read_number-write_bytes m at 1 n h) refl
deserialize_from-value_bytes (smallint n) m at h = rw (read_number-write_bytes m at 2 n h) refl
deserialize_from-value_bytes (integer n) m at h = rw (read_number-write_bytes m at 4 n h) refl
deserialize_from-value_bytes (bigint n) m at h = rw (read_number-write_bytes m at 8 n h) refl
deserialize_from-value_bytes (decimal n) m at h = rw (read_number-write_bytes m at 8 n h) refl
deserialize_from-value_bytes (timestamp n) m at h = rw (read_number-write_bytes m at 8 n h) refl
deserialize_from-value_bytes (varchar s) m at h =
    rw (stored_length m at s h, stored_string m at s h) refl

-- A value whose parts fit their widths reads back from where it was stored, whatever the buffer
-- held, both calls take the bytes that `GetSerializedSize` counts, and no byte outside of them
-- changes.
pub deserialize_from-serialize_to :
    (v : Value) (buffer : Bytes) (at p : ℕ)
    → Fits v
    → (p < at) ⊎ (at + get_serialized_size v ≤ p)
    → (deserialize_from (serialize_to v buffer at).0 at (get_type_id v)
        ≡ (v, get_serialized_size v))
      × ((serialize_to v buffer at).1 ≡ get_serialized_size v)
      × ((serialize_to v buffer at).0 p ≡ buffer p)
unfolding serialize_to
deserialize_from-serialize_to v buffer at p h out =
    let n = length-value_bytes v h in
    (
      deserialize_from-value_bytes v buffer at h,
      ap (λ k. k % 2 ^ 32) n ∙ omega (arith, get_serialized_size-lt v),
      write_bytes_ne buffer at p (value_bytes v) (rw n out),
    )
