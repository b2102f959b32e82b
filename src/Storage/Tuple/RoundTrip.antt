-- ===== src/Storage/Tuple/RoundTrip.antt =====
-- What `CreateFromValues` of goods_db/src/storage/table/tuple.cpp stores, `GetValue` reads.
use goods_db.Prelude.{
  ℕ, ◌+◌, ◌-◌, ◌*◌, ◌/◌, ◌%◌, ◌^◌, ◌≤◌, ◌<◌, ◌≡◌, refl, true, false, List, some, arith, ◌==◌, leb,
  inl, inr, Bool-cases, length, get_or, ap, ◌∙◌,
}
use goods_db.Prelude.Bytes.{Bytes, zeros, read_u16, write_u16, write_u16_ne, read_u16-write_u16}
use goods_db.Prelude.Bits.{has_bit, zero-has_bit}
use goods_db.Types.Schema.{Column, Schema}
use goods_db.Types.Value.{Value, invalid}
use goods_db.Storage.Tuple.{
  Tuple, Texts, is_varchar, is_null, null_bitmap_size, fixed_data_size, var_data_start, set_nulls,
  create_from_values, deserialize, size_before, varchars_upto, read_varchar, no_column, get_value,
}
use goods_db.Storage.Tuple.Nulls.{null_bit, set_nulls_at, set_nulls-byte}
use goods_db.Storage.Tuple.Columns.{AllMatch, laid, string_sizes, write_columns-Written}
use goods_db.Storage.Tuple.Areas.{Areas, read_cell, laid-byte}
use goods_db.Storage.Tuple.Places.{
  vars_before, varchars_upto-vars_before, laid-read_cell, null_value, length-AllMatch,
}

-- A row of at most 2048 columns whose size is a `uint16_t`.
module _ (L : Texts) (columns : Schema) (values : List Value) where
  abbrev pub total : ℕ
  total = var_data_start columns + string_sizes columns values

  pub record Storable : Type 0 where
    pub match : AllMatch columns values
    pub some_column : 0 < length columns
    pub few : length columns ≤ 2048
    pub small : total < 65536

  abbrev header : Bytes
  header = write_u16 (write_u16 zeros 0 (length columns % 65536)) 2 (total % 65536)

  abbrev marked : Bytes
  marked = set_nulls values 0 header

  abbrev f : ℕ
  f = 4 + null_bitmap_size columns

  abbrev v : ℕ
  v = f + fixed_data_size columns

  abbrev row : Bytes
  row = laid L columns values f v (var_data_start columns) marked

  areas : Areas columns f v (var_data_start columns)
  areas = record { fixed = omega arith; offsets = omega arith }

  header_clear : (p : ℕ) → 4 ≤ p → header p ≡ 0
  header_clear p h =
      write_u16_ne (write_u16 zeros 0 (length columns % 65536)) 2 p (total % 65536)
        (inr (omega arith))
      ∙ write_u16_ne zeros 0 p (length columns % 65536) (inr (omega arith))

  row_low : (p : ℕ) → Storable → p < f → row p ≡ marked p
  row_low p r h =
      laid-byte L columns values f v (var_data_start columns) marked p r.match areas (inl h)

  row_null :
      (i : ℕ) → Storable → i < length columns → null_bit row i ≡ is_null (get_or values i invalid)
  row_null i r h =
      let few = r.few in
      let n = length-AllMatch columns values r.match in
      ap (λ b. has_bit b (i % 8)) (row_low (4 + i / 8 % 256) r (omega arith))
      ∙ ap (null_bit marked) (let e : i ≡ 0 + i = omega arith in e)
      ∙ set_nulls_at values 0 i header (λ p low. omega (arith, header_clear p low))
          (omega (arith, n)) (omega (arith, n))
          (λ j low lt.
            ap (λ b. has_bit b (j % 8)) (header_clear (4 + j / 8 % 256) (omega arith))
            ∙ zero-has_bit (j % 8) (omega arith))

  row_size : Storable → read_u16 row 2 ≡ total
  unfolding read_u16
  row_size r =
      let keep = λ (p : ℕ) (h : p < 4).
        row_low p r (omega (arith, h)) ∙ set_nulls-byte values 0 header p h in
      let low = keep 2 (omega arith) in
      let high = keep 3 (omega arith) in
      let size : read_u16 header 2 ≡ total =
        read_u16-write_u16 (write_u16 zeros 0 (length columns % 65536)) 2 (total % 65536)
          (omega arith)
        ∙ omega (arith, r.small) in
      omega (arith, low, high, size)

  create_from_values-row :
      Storable → create_from_values L columns values ≡ some (record { bytes = row; size = total })
  unfolding create_from_values
  create_from_values-row r =
      let n = length-AllMatch columns values r.match in
      let w = write_columns-Written L columns values f v (var_data_start columns) marked r.match in
      let full : (length values == 0) ≡ false = ground (arith, n, r.some_column) in
      let same : (length values == length columns) ≡ true = ground (arith, n) in
      rw (full, same, w.computed, w.written) refl

  abbrev cell : ℕ → Column
  cell i = get_or columns i no_column

  row_reads :
      (i : ℕ)
      → Storable
      → i < length columns
      → is_null (get_or values i invalid) ≡ false
      → read_cell row (cell i) (f + size_before columns i) (v + vars_before columns i * 4)
        ≡ get_or values i invalid
  row_reads i r h there =
      let small : var_data_start columns + string_sizes columns values < 2 ^ 32 =
        omega (arith, r.small) in
      laid-read_cell L columns values i f v (var_data_start columns) marked r.match h areas small
        there

  row_value :
      (i : ℕ)
      → Storable
      → i < length columns
      → get_value (record { bytes = row; size = total }) columns i ≡ get_or values i invalid
  unfolding get_value
  row_value i r h =
      let within : leb (length columns) i ≡ false = ground arith in
      elim (Bool-cases (is_null (get_or values i invalid))) [
        | inl absent ↦
            let bit : null_bit row i ≡ true = row_null i r h ∙ absent in
            rw (within, bit) (null_value (get_or values i invalid) absent)
        | inr there ↦
            let bit : null_bit row i ≡ false = row_null i r h ∙ there in
            let read = row_reads i r h there in
            rw (within, bit)
              (elim (Bool-cases (is_varchar (cell i))) [
                | inl text ↦
                    let e : (varchars_upto columns i - 1) * 4 ≡ vars_before columns i * 4 =
                      omega (arith, varchars_upto-vars_before columns i h text) in
                    rw text (ap (λ k. read_varchar row (v + k)) e ∙ rw text at read)
                | inr plain ↦ rw plain (rw plain at read)
              ])
      ]

-- Where each value has the type of its column or is NULL, there are at most 2048 columns, and the
-- whole size is a `uint16_t`, `CreateFromValues` makes a tuple whose bytes `Deserialize` takes back,
-- and `GetValue` gives the value of each column, NULL included.
pub get_value-create_from_values :
    (L : Texts) (columns : Schema) (values : List Value) (i : ℕ)
    → Storable L columns values
    → i < length columns
    → (t : Tuple) × (create_from_values L columns values ≡ some t)
      × (deserialize t.bytes ≡ t)
      × (get_value t columns i ≡ get_or values i invalid)
get_value-create_from_values L columns values i r h = (
  record { bytes = row L columns values; size = total L columns values },
  create_from_values-row L columns values r,
  deserialize_row,
  row_value L columns values i r h,
)
  where
    deserialize_row :
        deserialize (row L columns values)
        ≡ record { bytes = row L columns values; size = total L columns values }
    deserialize_row = unfold deserialize in rw (row_size L columns values r) refl
