-- ===== src/Sql/Protocol/Wire.antt =====
-- A reader of the wire format that goods_db/src/include/sql/protocol/protocol_binary.h describes.
use goods_db.Prelude.{
  ℕ, ◌<◌, ◌≡◌, refl, List, [], ◌∷◌, ◌++◌, Option, none, some, arith, ltb, ◌==◌, if◌then◌else◌,
  Bool-cases, inl, inr,
}
use goods_db.Types.Encoding.{
  to_bytes, from_bytes, split_at, ◌>>=◌, split_at-to_bytes, split_at-one, from_bytes-to_bytes,
  from_bytes-one, limit,
}
use goods_db.Sql.Protocol.{write_lenenc, len_encoded}

-- The next number of `n` bytes.
unfoldable pub read_number : ℕ → List ℕ → Option (ℕ × List ℕ)
read_number n l = split_at n l >>= λ r. some (from_bytes r.0, r.1)

pub read_number-to_bytes :
    (n v : ℕ) (rest : List ℕ) → v < limit n → read_number n (to_bytes n v ++ rest) ≡ some (v, rest)
unfolding read_number
read_number-to_bytes n v rest h = rw (split_at-to_bytes n v rest, from_bytes-to_bytes n v h) refl

pub read_number-one : (v : ℕ) (rest : List ℕ) → read_number 1 (v ∷ rest) ≡ some (v, rest)
unfolding read_number
read_number-one v rest = rw (split_at-one v rest, from_bytes-one v) refl

-- A length-encoded number, behind its first byte.
unfoldable pub read_lenenc_after : ℕ → List ℕ → Option (ℕ × List ℕ)
read_lenenc_after b l =
    if ltb b 251
    then some (b, l)
    else if b == 0xfc
    then read_number 2 l
    else if b == 0xfd
    then read_number 3 l
    else if b == 0xfe
    then read_number 8 l
    else none

unfoldable pub read_lenenc : List ℕ → Option (ℕ × List ℕ)
read_lenenc [] = none
read_lenenc (b ∷ l) = read_lenenc_after b l

pub read_lenenc-write_lenenc :
    (v : ℕ) (rest : List ℕ) → v < limit 8 → read_lenenc (write_lenenc v ++ rest) ≡ some (v, rest)
unfolding write_lenenc read_lenenc read_lenenc_after
read_lenenc-write_lenenc v rest h = elim (Bool-cases (ltb v 251)) [
  | inl small ↦ rw (small, small) refl
  | inr big ↦ elim (Bool-cases (ltb v 65536)) [
    | inl two ↦ rw (big, two) (read_number-to_bytes 2 v rest (ground (arith, two)))
    | inr more ↦ rw (big, more) (read_number-to_bytes 8 v rest h)
  ]
]

pub read_lenenc-len_encoded :
    (v : ℕ) (rest : List ℕ) → v < limit 8 → read_lenenc (len_encoded v ++ rest) ≡ some (v, rest)
unfolding len_encoded read_lenenc read_lenenc_after
read_lenenc-len_encoded v rest h = elim (Bool-cases (ltb v 251)) [
  | inl small ↦ rw (small, small) refl
  | inr big ↦ elim (Bool-cases (ltb v 65536)) [
    | inl two ↦ rw (big, two) (read_number-to_bytes 2 v rest (ground (arith, two)))
    | inr more ↦ elim (Bool-cases (ltb v 16777216)) [
      | inl three ↦ rw (big, more, three) (read_number-to_bytes 3 v rest (ground (arith, three)))
      | inr eight ↦ rw (big, more, eight) (read_number-to_bytes 8 v rest h)
    ]
  ]
]
