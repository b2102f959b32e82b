-- ===== src/Types/Value.antt =====
-- goods_db/src/type/value.cpp: values and the bytes in which a column keeps them. A signed integer and a
-- `double` are the bit patterns that the union holds.
use goods_db.Prelude.{
  ℕ, ◌+◌, ◌-◌, ◌*◌, ◌/◌, ◌%◌, ◌^◌, ◌<◌, Bool, true, false, not, ltb, List, [], ◌∷◌, ◌++◌, ◌==◌,
  if◌then◌else◌, length,
}
use goods_db.Prelude.Bytes.{Bytes, read_bytes, write_bytes}
use goods_db.Types.Encoding.{to_bytes, from_bytes, limit}
use goods_db.Types.Schema.{TypeId, flag}
pub mod Stored
pub mod Compare
pub mod Tests

-- `type_id_` with the member of the union that it names; `invalid` is NULL.
pub data Value : Type 0 where
  invalid : Value
  boolean : Bool → Value
  tinyint : ℕ → Value
  smallint : ℕ → Value
  integer : ℕ → Value
  bigint : ℕ → Value
  decimal : ℕ → Value
  timestamp : ℕ → Value
  varchar : List ℕ → Value

unfoldable pub get_type_id : Value → TypeId
get_type_id invalid = TypeId.invalid
get_type_id (boolean b) = TypeId.boolean
get_type_id (tinyint n) = TypeId.tinyint
get_type_id (smallint n) = TypeId.smallint
get_type_id (integer n) = TypeId.integer
get_type_id (bigint n) = TypeId.bigint
get_type_id (decimal n) = TypeId.decimal
get_type_id (timestamp n) = TypeId.timestamp
get_type_id (varchar s) = TypeId.varchar

-- A signed number of `n` bytes as an `int64_t`.
unfoldable pub sign_extend : ℕ → ℕ → ℕ
sign_extend n v = if ltb v (limit n / 2) then v else v + limit 8 - limit n

unfoldable pub get_serialized_size : Value → ℕ
get_serialized_size invalid = 0
get_serialized_size (boolean b) = 1
get_serialized_size (tinyint n) = 1
get_serialized_size (smallint n) = 2
get_serialized_size (integer n) = 4
get_serialized_size (bigint n) = 8
get_serialized_size (decimal n) = 8
get_serialized_size (timestamp n) = 8
get_serialized_size (varchar s) = (4 + length s) % 2 ^ 32

-- The bytes that `SerializeTo` writes; its result is their number.
unfoldable pub value_bytes : Value → List ℕ
value_bytes invalid = []
value_bytes (boolean b) = flag b ∷ []
value_bytes (tinyint n) = to_bytes 1 n
value_bytes (smallint n) = to_bytes 2 n
value_bytes (integer n) = to_bytes 4 n
value_bytes (bigint n) = to_bytes 8 n
value_bytes (decimal n) = to_bytes 8 n
value_bytes (timestamp n) = to_bytes 8 n
value_bytes (varchar s) = to_bytes 4 (length s % 2 ^ 32) ++ s

-- `SerializeTo` at an offset of a buffer.
unfoldable pub serialize_to : Value → Bytes → ℕ → Bytes × ℕ
serialize_to v buffer at = (write_bytes buffer at (value_bytes v), length (value_bytes v) % 2 ^ 32)

-- `memcpy(&v, buffer + at, n)`
unfoldable pub read_number : Bytes → ℕ → ℕ → ℕ
read_number buffer at n = from_bytes (read_bytes buffer at n)

-- `DeserializeFrom`: the value, and the bytes taken. The type `INVALID`, or a byte that is no type,
-- leaves a value without data.
unfoldable pub deserialize_from : Bytes → ℕ → TypeId → Value × ℕ
deserialize_from buffer at TypeId.invalid = (invalid, 0)
deserialize_from buffer at TypeId.boolean = (boolean (not (buffer at == 0)), 1)
deserialize_from buffer at TypeId.tinyint = (tinyint (read_number buffer at 1), 1)
deserialize_from buffer at TypeId.smallint = (smallint (read_number buffer at 2), 2)
deserialize_from buffer at TypeId.integer = (integer (read_number buffer at 4), 4)
deserialize_from buffer at TypeId.bigint = (bigint (read_number buffer at 8), 8)
deserialize_from buffer at TypeId.decimal = (decimal (read_number buffer at 8), 8)
deserialize_from buffer at TypeId.timestamp = (timestamp (read_number buffer at 8), 8)
deserialize_from buffer at TypeId.varchar =
    let len = read_number buffer at 4 in
    (varchar (read_bytes buffer (at + 4) len), (4 + len) % 2 ^ 32)
deserialize_from buffer at (TypeId.other b) = (invalid, 0)
