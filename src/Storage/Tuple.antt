-- ===== src/Storage/Tuple.antt =====
-- goods_db/src/storage/table/tuple.cpp: rows as bytes. What `std::stoll`, `std::stod`, `sscanf` and the
-- conversions between `int64_t` and `double` give is a parameter.
use goods_db.Prelude.{
  ℕ, zero, suc, ◌+◌, ◌-◌, ◌*◌, ◌/◌, ◌%◌, ◌^◌, Bool, true, false, not, List, [], ◌∷◌, ◌++◌, Option,
  none, some, ltb, leb, ◌==◌, if◌then◌else◌, ◌&&◌, ◌||◌, length, replicate, get_or,
}
use goods_db.Prelude.Bytes.{Bytes, zeros, read_u16, write_u16, read_bytes, write_bytes}
use goods_db.Prelude.Bits.{set_bit, has_bit}
use goods_db.Types.Encoding.{◌>>=◌, to_bytes, limit}
use goods_db.Types.Schema.{TypeId, Column, Schema, type_byte, type_id_size, same_name, flag}
use goods_db.Types.Timestamp.{Moment, parse_timestamp}
use goods_db.Types.Value.{
  Value, invalid, boolean, tinyint, smallint, integer, bigint, decimal, timestamp, varchar,
  get_type_id, value_bytes, read_number, sign_extend,
}
pub mod Nulls
pub mod Columns
pub mod Areas
pub mod Layout
pub mod Places
pub mod RoundTrip
pub mod Tests

-- `data_`; the row id is kept beside it.
pub record Tuple : Type 0 where
  pub bytes : Bytes
  pub size : ℕ

-- What the code calls of the standard library; `none` is an exception.
pub record Texts : Type 0 where
  pub stoll : List ℕ → Option ℕ
  pub stod : List ℕ → Option ℕ
  pub sscanf : List ℕ → Moment
  pub int_of_double : ℕ → ℕ
  pub double_of_int : ℕ → ℕ

abbrev pub header_size : ℕ
header_size = 4

abbrev pub null_bitmap_size : Schema → ℕ
null_bitmap_size columns = (length columns + 7) / 8

abbrev pub varchar_type : TypeId → Bool
varchar_type TypeId.varchar = true
varchar_type t = false

abbrev pub is_varchar : Column → Bool
is_varchar c = varchar_type c.column_type

-- The loops over the columns that add up what is not and what is VARCHAR.
unfoldable pub fixed_data_size : Schema → ℕ
fixed_data_size [] = 0
fixed_data_size (c ∷ columns) =
    (if is_varchar c then 0 else type_id_size c.column_type) + fixed_data_size columns

unfoldable pub varchar_count : Schema → ℕ
varchar_count [] = 0
varchar_count (c ∷ columns) = (if is_varchar c then 1 else 0) + varchar_count columns

abbrev pub var_data_start : Schema → ℕ
var_data_start columns =
    header_size + null_bitmap_size columns + fixed_data_size columns + varchar_count columns * 4

-- `GetAsVarchar`, with the empty string for NULL; the assertion fails on other types.
unfoldable pub get_as_varchar : Value → Option (List ℕ)
get_as_varchar invalid = some []
get_as_varchar (varchar s) = some s
get_as_varchar v = none

-- The offsets of the strings from `total_size` on, and the total size.
unfoldable pub varchar_offsets : Schema → List Value → ℕ → Option (List ℕ × ℕ)
varchar_offsets [] values total_size = some ([], total_size)
varchar_offsets (c ∷ columns) [] total_size = some ([], total_size)
varchar_offsets (c ∷ columns) (v ∷ values) total_size = elim (is_varchar c) [
  | false ↦ varchar_offsets columns values total_size
  | true ↦ get_as_varchar v >>= λ s.
      varchar_offsets columns values (total_size + (4 + length s)) >>= λ r.
      some (total_size ∷ r.0, r.1)
]

abbrev pub is_null : Value → Bool
is_null invalid = true
is_null v = false

-- The loop that sets the bits of NULL values, from column `i` on; `byte_idx` is a `uint8_t`.
unfoldable pub set_nulls : List Value → ℕ → Bytes → Bytes
set_nulls [] i m = m
set_nulls (v ∷ values) i m =
    let at = header_size + i / 8 % 256 in
    set_nulls values (i + 1)
      (if is_null v then write_bytes m at (set_bit (m at) (i % 8) ∷ []) else m)

unfoldable pub is_numeric : TypeId → Bool
is_numeric t = leb 2 (type_byte t) && leb (type_byte t) 6

module _ (L : Texts) where
  -- `num`
  unfoldable pub int_of_value : Value → ℕ
  int_of_value (tinyint n) = sign_extend 1 n
  int_of_value (smallint n) = sign_extend 2 n
  int_of_value (integer n) = sign_extend 4 n
  int_of_value (bigint n) = n
  int_of_value (decimal d) = L.int_of_double d
  int_of_value v = 0

  -- A number in a column of another numeric type.
  unfoldable pub number_bytes : TypeId → ℕ → List ℕ
  number_bytes TypeId.decimal num = to_bytes 8 (L.double_of_int num)
  number_bytes t num = to_bytes (type_id_size t) num

  -- A string literal in a column of another type.
  unfoldable pub text_bytes : TypeId → List ℕ → Option (List ℕ)
  text_bytes TypeId.boolean s =
      some (flag (same_name s (116 ∷ 114 ∷ 117 ∷ 101 ∷ []) || same_name s (49 ∷ [])) ∷ [])
  text_bytes TypeId.decimal s = L.stod s >>= λ d. some (to_bytes 8 d)
  text_bytes TypeId.timestamp s =
      if length s == 0
      then some (to_bytes 8 0)
      else (parse_timestamp (L.sscanf s) >>= λ t. some (to_bytes 8 t))
  text_bytes TypeId.tinyint s = L.stoll s >>= λ n. some (to_bytes 1 n)
  text_bytes TypeId.smallint s = L.stoll s >>= λ n. some (to_bytes 2 n)
  text_bytes TypeId.integer s = L.stoll s >>= λ n. some (to_bytes 4 n)
  text_bytes TypeId.bigint s = L.stoll s >>= λ n. some (to_bytes 8 n)
  text_bytes t s = some (replicate (type_id_size t) 0)

  unfoldable pub text_of : Value → Option (List ℕ)
  text_of (varchar s) = some s
  text_of v = none

  -- The bytes of a value that is not of the type of its column.
  unfoldable pub coerced_bytes : TypeId → Value → Option (List ℕ)
  coerced_bytes t v =
      if is_numeric (get_type_id v) && is_numeric t
      then some (number_bytes t (int_of_value v))
      else elim (text_of v) [ some s ↦ text_bytes t s | none ↦ some (replicate (type_id_size t) 0) ]

  -- `serialized`, for a column that is not VARCHAR.
  unfoldable pub fixed_bytes : Column → Value → Option (List ℕ)
  fixed_bytes c v =
      if is_null v
      then some (replicate (type_id_size c.column_type) 0)
      else if type_byte (get_type_id v) == type_byte c.column_type
      then some (value_bytes v)
      else coerced_bytes c.column_type v

  -- The offset of a string, its length and its bytes.
  unfoldable pub write_varchar : Bytes → ℕ → ℕ → List ℕ → Bytes
  write_varchar m var_offset_ptr offset s =
      write_bytes
        (write_bytes (write_bytes m var_offset_ptr (to_bytes 4 offset)) offset
          (to_bytes 4 (length s)))
        (offset + 4) s

  -- The loop that writes the columns, with the offsets that are left.
  unfoldable pub write_columns : Schema → List Value → List ℕ → ℕ → ℕ → Bytes → Option Bytes
  write_columns [] values offsets fixed_ptr var_offset_ptr m = some m
  write_columns (c ∷ columns) [] offsets fixed_ptr var_offset_ptr m = some m
  write_columns (c ∷ columns) (v ∷ values) [] fixed_ptr var_offset_ptr m = elim (is_varchar c) [
    | true ↦ none
    | false ↦ fixed_bytes c v >>= λ b.
        write_columns columns values [] (fixed_ptr + type_id_size c.column_type) var_offset_ptr
          (write_bytes m fixed_ptr b)
  ]
  write_columns (c ∷ columns) (v ∷ values) (o ∷ offsets) fixed_ptr var_offset_ptr m =
      elim (is_varchar c) [
        | true ↦ get_as_varchar v >>= λ s.
            write_columns columns values offsets fixed_ptr (var_offset_ptr + 4)
              (write_varchar m var_offset_ptr o s)
        | false ↦ fixed_bytes c v >>= λ b.
            write_columns columns values (o ∷ offsets) (fixed_ptr + type_id_size c.column_type)
              var_offset_ptr (write_bytes m fixed_ptr b)
      ]

  -- `none` is an assertion that fails or an exception. The total size does not reach 2^32.
  unfoldable pub create_from_values : Schema → List Value → Option Tuple
  create_from_values columns values =
      let fixed_ptr = header_size + null_bitmap_size columns in
      if length values == 0
      then some (record { bytes = zeros; size = 0 })
      else if length values == length columns
      then (varchar_offsets columns values (var_data_start columns) >>= λ r.
          let header = write_u16 (write_u16 zeros 0 (length columns % 65536)) 2 (r.1 % 65536) in
          write_columns columns values r.0 fixed_ptr (fixed_ptr + fixed_data_size columns)
            (set_nulls values 0 header)
          >>= λ m. some (record { bytes = m; size = r.1 }))
      else none

-- `Deserialize`: as many bytes as the header says.
unfoldable pub deserialize : Bytes → Tuple
deserialize m = record { bytes = m; size = read_u16 m 2 }

-- `DeserializeValue`
unfoldable pub deserialize_value : Bytes → ℕ → TypeId → Value
deserialize_value m at TypeId.boolean = boolean (not (m at == 0))
deserialize_value m at TypeId.tinyint = tinyint (read_number m at 1)
deserialize_value m at TypeId.smallint = smallint (read_number m at 2)
deserialize_value m at TypeId.integer = integer (read_number m at 4)
deserialize_value m at TypeId.bigint = bigint (read_number m at 8)
deserialize_value m at TypeId.decimal = decimal (read_number m at 8)
deserialize_value m at TypeId.timestamp = timestamp (read_number m at 8)
deserialize_value m at t = invalid

-- The loop over the columns before `i` that adds their fixed sizes.
unfoldable pub size_before : Schema → ℕ → ℕ
size_before [] i = 0
size_before (c ∷ columns) zero = 0
size_before (c ∷ columns) (suc i) = type_id_size c.column_type + size_before columns i

-- The VARCHAR columns up to column `i`, which `varchar_idx` counts from -1 on.
unfoldable pub varchars_upto : Schema → ℕ → ℕ
varchars_upto [] i = 0
varchars_upto (c ∷ columns) zero = if is_varchar c then 1 else 0
varchars_upto (c ∷ columns) (suc i) = (if is_varchar c then 1 else 0) + varchars_upto columns i

unfoldable pub read_varchar : Bytes → ℕ → Value
read_varchar m at =
    let offset = read_number m at 4 in varchar (read_bytes m (offset + 4) (read_number m offset 4))

abbrev pub no_column : Column
no_column = record {
  column_name = [];
  column_type = TypeId.invalid;
  max_length = 0;
  is_nullable = true;
  is_primary_key = false;
}

unfoldable pub get_value : Tuple → Schema → ℕ → Value
get_value t columns col_idx =
    let fixed_offset = header_size + null_bitmap_size columns in
    let c = get_or columns col_idx no_column in
    if leb (length columns) col_idx
    then invalid
    else if has_bit (t.bytes (header_size + col_idx / 8 % 256)) (col_idx % 8)
    then invalid
    else if is_varchar c
    then read_varchar t.bytes
        (fixed_offset + fixed_data_size columns + (varchars_upto columns col_idx - 1) * 4)
    else deserialize_value t.bytes (fixed_offset + size_before columns col_idx) c.column_type
