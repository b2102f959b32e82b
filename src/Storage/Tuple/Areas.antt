-- ===== src/Storage/Tuple/Areas.antt =====
-- What the columns that goods_db/src/storage/table/tuple.cpp has written leave alone, and
-- reading them back.
use goods_db.Prelude.{
  ℕ, ◌+◌, ◌*◌, ◌^◌, ◌≤◌, ◌<◌, ◌≡◌, refl, true, false, not, List, [], ◌∷◌, arith, ◌==◌,
  if◌then◌else◌, ◌⊎◌, inl, inr, Bool-cases, length, ap, ◌∙◌,
}
use goods_db.Prelude.Bytes.{
  Bytes, read_bytes, write_bytes, write_bytes_ne, read_bytes_cong, read_bytes-write_bytes,
}
use goods_db.Types.Encoding.{to_bytes, from_bytes, length-to_bytes}
use goods_db.Types.Schema.{TypeId, Column, Schema, type_id_size}
use goods_db.Types.Value.{
  Value, invalid, boolean, tinyint, smallint, integer, bigint, decimal, timestamp, varchar,
  get_type_id, read_number, deserialize_from,
}
use goods_db.Types.Value.Stored.{read_number-write_bytes}
use goods_db.Storage.Tuple.{
  Texts, varchar_type, is_varchar, fixed_data_size, varchar_count, write_varchar, deserialize_value,
  read_varchar,
}
use goods_db.Storage.Tuple.Columns.{AllMatch, string_of, cell_of, laid, length-cell_of}

pub read_number_cong :
    (m w : Bytes) (at n : ℕ)
    → ((i : ℕ) → at ≤ i → i < at + n → m i ≡ w i)
    → read_number m at n ≡ read_number w at n
unfolding read_number
read_number_cong m w at n h = ap from_bytes (read_bytes_cong m w at n h)

-- One string.
module _ (L : Texts) (m : Bytes) (v t : ℕ) (s : List ℕ) (apart : v + 4 ≤ t) where
  abbrev first : Bytes
  first = write_bytes m v (to_bytes 4 t)

  abbrev second : Bytes
  second = write_bytes first t (to_bytes 4 (length s))

  write_varchar-byte : (p : ℕ) → (p < v) ⊎ (v + 4 ≤ p) → p < t → write_varchar L m v t s p ≡ m p
  unfolding write_varchar
  write_varchar-byte p out below =
      let n = length-to_bytes 4 t in
      write_bytes_ne second (t + 4) p s (inl (omega arith))
      ∙ write_bytes_ne first t p (to_bytes 4 (length s)) (inl below)
      ∙ write_bytes_ne m v p (to_bytes 4 t) (rw n out)

  write_varchar-offset : t < 2 ^ 32 → read_number (write_varchar L m v t s) v 4 ≡ t
  unfolding write_varchar
  write_varchar-offset small =
      read_number_cong (write_bytes second (t + 4) s) first v 4 (λ i from to.
        write_bytes_ne second (t + 4) i s (inl (omega arith))
        ∙ write_bytes_ne first t i (to_bytes 4 (length s)) (inl (omega arith)))
      ∙ read_number-write_bytes m v 4 t (omega arith)

  write_varchar-length : length s < 2 ^ 32 → read_number (write_varchar L m v t s) t 4 ≡ length s
  unfolding write_varchar
  write_varchar-length small =
      read_number_cong (write_bytes second (t + 4) s) second t 4
        (λ i from to. write_bytes_ne second (t + 4) i s (inl (omega arith)))
      ∙ read_number-write_bytes first t 4 (length s) (omega arith)

  write_varchar-string : read_bytes (write_varchar L m v t s) (t + 4) (length s) ≡ s
  unfolding write_varchar
  write_varchar-string = read_bytes-write_bytes second (t + 4) s

  -- A string reads back from any memory that keeps its parts.
  pub read_varchar-kept :
      (w : Bytes)
      → t + (4 + length s) < 2 ^ 32
      → ((p : ℕ)
          → ((v ≤ p) × (p < v + 4)) ⊎ ((t ≤ p) × (p < t + (4 + length s)))
          → w p ≡ write_varchar L m v t s p)
      → read_varchar w v ≡ varchar s
  unfolding read_varchar
  read_varchar-kept w small keep =
      let w' = write_varchar L m v t s in
      let o : read_number w v 4 ≡ t =
        read_number_cong w w' v 4 (λ i from to. keep i (inl (from, to)))
        ∙ write_varchar-offset (omega arith) in
      let n : read_number w t 4 ≡ length s =
        read_number_cong w w' t 4 (λ i from to. keep i (inr (from, omega arith)))
        ∙ write_varchar-length (omega arith) in
      let b : read_bytes w (t + 4) (length s) ≡ s =
        read_bytes_cong w w' (t + 4) (length s)
          (λ i from to. keep i (inr (omega (arith, from), omega arith)))
        ∙ write_varchar-string in
      rw (o, n, b) refl

-- The bytes that the columns from `f`, `v` and `t` on leave alone.
abbrev pub Outside : Schema → ℕ → ℕ → ℕ → ℕ → Type 0
Outside columns f v t p =
    (p < f)
    ⊎ ((f + fixed_data_size columns ≤ p) × (p < v))
    ⊎ ((v + varchar_count columns * 4 ≤ p) × (p < t))

-- The three areas of a row do not overlap.
pub record Areas (columns : Schema) (f v t : ℕ) : Type 0 where
  pub fixed : f + fixed_data_size columns ≤ v
  pub offsets : v + varchar_count columns * 4 ≤ t

-- What one column takes of each area.
module _ (c : Column) (columns : Schema) where
  pub record OneString : Type 0 where
    pub fixed : fixed_data_size (c ∷ columns) ≡ fixed_data_size columns
    pub offsets : varchar_count (c ∷ columns) ≡ varchar_count columns + 1

  pub one_string : is_varchar c ≡ true → OneString
  unfolding fixed_data_size varchar_count
  one_string h = record { fixed = rw h (omega arith); offsets = rw h (omega arith) }

  pub record OneCell : Type 0 where
    pub fixed : fixed_data_size (c ∷ columns) ≡ type_id_size c.column_type + fixed_data_size columns
    pub offsets : varchar_count (c ∷ columns) ≡ varchar_count columns

  pub one_cell : is_varchar c ≡ false → OneCell
  unfolding fixed_data_size varchar_count
  one_cell h = record { fixed = rw h (omega arith); offsets = rw h (omega arith) }

-- The loop leaves the bytes outside of its areas.
pub laid-byte :
    (L : Texts) (columns : Schema) (values : List Value) (f v t : ℕ) (m : Bytes) (p : ℕ)
    → AllMatch columns values
    → Areas columns f v t
    → Outside columns f v t p
    → laid L columns values f v t m p ≡ m p
unfolding laid
laid-byte L [] values f v t m p h a o = refl
laid-byte L (c ∷ columns) [] f v t m p h a o = absurd h
laid-byte L (c ∷ columns) (x ∷ values) f v t m p (this, rest) a o =
    let areas = a.fixed in
    let offsets = a.offsets in
    elim (Bool-cases (is_varchar c)) [
      | inl text ↦
          let k = one_string c columns text in
          let n = length (string_of x) in
          rw text (
            laid-byte L columns values f (v + 4) (t + (4 + n)) (write_varchar L m v t (string_of x))
              p rest (record { fixed = omega (arith, k.fixed); offsets = omega (arith, k.offsets) })
              (ground (arith, o, k.fixed, k.offsets))
            ∙ write_varchar-byte L m v t (string_of x) (omega (arith, k.offsets)) p
                (ground (arith, o, k.fixed, k.offsets)) (ground (arith, o, k.fixed, k.offsets)))
      | inr fixed ↦
          let k = one_cell c columns fixed in
          let n = length-cell_of c x this fixed in
          rw fixed (
            laid-byte L columns values (f + type_id_size c.column_type) v t
              (write_bytes m f (cell_of c x)) p rest
              (record { fixed = omega (arith, k.fixed); offsets = omega (arith, k.offsets) })
              (ground (arith, o, k.fixed, k.offsets))
            ∙ write_bytes_ne m f p (cell_of c x) (ground (arith, o, k.fixed, k.offsets, n)))
    ]

-- What `GetValue` reads once it has found the place of a column.
abbrev pub read_cell : Bytes → Column → ℕ → ℕ → Value
read_cell m c f v = if is_varchar c then read_varchar m v else deserialize_value m f c.column_type

pub varchar-string_of :
    (x : Value) → varchar_type (get_type_id x) ≡ true → varchar (string_of x) ≡ x
unfolding get_type_id
varchar-string_of invalid h = absurd (cc h)
varchar-string_of (boolean b) h = absurd (cc h)
varchar-string_of (tinyint n) h = absurd (cc h)
varchar-string_of (smallint n) h = absurd (cc h)
varchar-string_of (integer n) h = absurd (cc h)
varchar-string_of (bigint n) h = absurd (cc h)
varchar-string_of (decimal n) h = absurd (cc h)
varchar-string_of (timestamp n) h = absurd (cc h)
varchar-string_of (varchar s) h = refl

-- A column of fixed size depends on its own bytes alone.
pub deserialize_value_cong :
    (m w : Bytes) (at : ℕ) (t : TypeId)
    → ((i : ℕ) → at ≤ i → i < at + type_id_size t → m i ≡ w i)
    → deserialize_value m at t ≡ deserialize_value w at t
unfolding deserialize_value type_id_size
deserialize_value_cong m w at TypeId.invalid h = refl
deserialize_value_cong m w at TypeId.boolean h =
    ap (λ b. boolean (not (b == 0))) (h at (omega arith) (omega arith))
deserialize_value_cong m w at TypeId.tinyint h = ap tinyint (read_number_cong m w at 1 h)
deserialize_value_cong m w at TypeId.smallint h = ap smallint (read_number_cong m w at 2 h)
deserialize_value_cong m w at TypeId.integer h = ap integer (read_number_cong m w at 4 h)
deserialize_value_cong m w at TypeId.bigint h = ap bigint (read_number_cong m w at 8 h)
deserialize_value_cong m w at TypeId.decimal h = ap decimal (read_number_cong m w at 8 h)
deserialize_value_cong m w at TypeId.timestamp h = ap timestamp (read_number_cong m w at 8 h)
deserialize_value_cong m w at TypeId.varchar h = refl
deserialize_value_cong m w at (TypeId.other b) h = refl

-- `DeserializeValue` and `DeserializeFrom` agree where the column is not VARCHAR.
pub deserialize_value-deserialize_from :
    (m : Bytes) (at : ℕ) (t : TypeId)
    → varchar_type t ≡ false
    → deserialize_value m at t ≡ (deserialize_from m at t).0
unfolding deserialize_value deserialize_from
deserialize_value-deserialize_from m at TypeId.invalid h = refl
deserialize_value-deserialize_from m at TypeId.boolean h = refl
deserialize_value-deserialize_from m at TypeId.tinyint h = refl
deserialize_value-deserialize_from m at TypeId.smallint h = refl
deserialize_value-deserialize_from m at TypeId.integer h = refl
deserialize_value-deserialize_from m at TypeId.bigint h = refl
deserialize_value-deserialize_from m at TypeId.decimal h = refl
deserialize_value-deserialize_from m at TypeId.timestamp h = refl
deserialize_value-deserialize_from m at TypeId.varchar h = absurd (cc h)
deserialize_value-deserialize_from m at (TypeId.other b) h = refl

pub varchar-size : (t : TypeId) → varchar_type t ≡ true → type_id_size t ≡ 0
unfolding type_id_size
varchar-size TypeId.varchar h = refl
varchar-size TypeId.invalid h = refl
varchar-size TypeId.boolean h = absurd (cc h)
varchar-size TypeId.tinyint h = absurd (cc h)
varchar-size TypeId.smallint h = absurd (cc h)
varchar-size TypeId.integer h = absurd (cc h)
varchar-size TypeId.bigint h = absurd (cc h)
varchar-size TypeId.decimal h = absurd (cc h)
varchar-size TypeId.timestamp h = absurd (cc h)
varchar-size (TypeId.other b) h = refl
