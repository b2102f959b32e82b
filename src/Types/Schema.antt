-- ===== src/Types/Schema.antt =====
-- goods_db/src/type/schema.cpp: columns, and the bytes in which the catalog keeps a schema. A string
-- is the list of its bytes.
use goods_db.Prelude.{
  ℕ, zero, suc, ◌+◌, ◌*◌, ◌%◌, ◌^◌, ◌<◌, ◌≡◌, Bool, true, false, not, List, [], ◌∷◌, ◌++◌, Option,
  none, some, ltb, ◌==◌, if◌then◌else◌, length,
}
use goods_db.Types.Encoding.{◌>>=◌, to_bytes, from_bytes, split_at}
pub mod RoundTrip
pub mod Columns
pub mod Tests

-- `TypeId`; `other` is a byte that is no enumerator, which a cast lets through.
pub data TypeId : Type 0 where
  invalid : TypeId
  boolean : TypeId
  tinyint : TypeId
  smallint : TypeId
  integer : TypeId
  bigint : TypeId
  decimal : TypeId
  timestamp : TypeId
  varchar : TypeId
  other : ℕ → TypeId

unfoldable pub type_byte : TypeId → ℕ
type_byte invalid = 0
type_byte boolean = 1
type_byte tinyint = 2
type_byte smallint = 3
type_byte integer = 4
type_byte bigint = 5
type_byte decimal = 6
type_byte timestamp = 7
type_byte varchar = 8
type_byte (other b) = b

unfoldable pub type_of_byte : ℕ → TypeId
type_of_byte b =
    if b == 0
    then invalid
    else (if b == 1
        then boolean
        else (if b == 2
            then tinyint
            else (if b == 3
                then smallint
                else (if b == 4
                    then integer
                    else (if b == 5
                        then bigint
                        else (if b == 6
                            then decimal
                            else (if b == 7
                                then timestamp
                                else (if b == 8 then varchar else other b))))))))

unfoldable pub type_id_size : TypeId → ℕ
type_id_size invalid = 0
type_id_size boolean = 1
type_id_size tinyint = 1
type_id_size smallint = 2
type_id_size integer = 4
type_id_size bigint = 8
type_id_size decimal = 8
type_id_size timestamp = 8
type_id_size varchar = 0
type_id_size (other b) = 0

pub record Column : Type 0 where
  pub column_name : List ℕ
  pub column_type : TypeId
  pub max_length : ℕ
  pub is_nullable : Bool
  pub is_primary_key : Bool

abbrev pub Schema : Type 0
Schema = List Column

-- `==` of `std::string`.
unfoldable pub same_name : List ℕ → List ℕ → Bool
same_name [] [] = true
same_name [] (y ∷ m) = false
same_name (x ∷ l) [] = false
same_name (x ∷ l) (y ∷ m) = if x == y then same_name l m else false

-- The loop of `GetColIdx` from index `i` on; `none` is -1.
unfoldable pub col_idx_from : Schema → List ℕ → ℕ → Option ℕ
col_idx_from [] name i = none
col_idx_from (c ∷ columns) name i =
    if same_name c.column_name name then some i else col_idx_from columns name (i + 1)

unfoldable pub get_col_idx : Schema → List ℕ → Option ℕ
get_col_idx columns name = col_idx_from columns name 0

unfoldable pub get_fixed_length_size : Schema → ℕ
get_fixed_length_size [] = 0
get_fixed_length_size (c ∷ columns) = type_id_size c.column_type + get_fixed_length_size columns

abbrev pub flag : Bool → ℕ
flag true = 1
flag false = 0

-- The body of the loop of `Serialize`; `name_len` is a `uint16_t`.
unfoldable pub serialize_column : Column → List ℕ
serialize_column c =
    to_bytes 2 (length c.column_name % 65536)
    ++ (c.column_name
        ++ (type_byte c.column_type
            ∷ (to_bytes 4 c.max_length ++ (flag c.is_nullable ∷ flag c.is_primary_key ∷ []))))

unfoldable pub serialize_columns : Schema → List ℕ
serialize_columns [] = []
serialize_columns (c ∷ columns) = serialize_column c ++ serialize_columns columns

unfoldable pub serialize : Schema → List ℕ
serialize columns = to_bytes 4 (length columns % 2 ^ 32) ++ serialize_columns columns

-- `is_primary_key` is missing in the bytes of older versions.
unfoldable pub read_primary_key : List ℕ → Bool × List ℕ
read_primary_key [] = (false, [])
read_primary_key (b ∷ rest) = (not (b == 0), rest)

-- The body of the loop of `Deserialize`: `none` is a `break`.
unfoldable pub read_column : List ℕ → Option (Column × List ℕ)
read_column bytes = do
  len ← split_at 2 bytes
  name ← split_at (from_bytes len.0) len.1
  kind ← split_at 1 name.1
  max ← split_at 4 kind.1
  nullable ← split_at 1 max.1
  let (key, rest) = read_primary_key nullable.1
  some (
    record {
      column_name = name.0;
      column_type = type_of_byte (from_bytes kind.0);
      max_length = from_bytes max.0;
      is_nullable = not (from_bytes nullable.0 == 0);
      is_primary_key = key;
    },
    rest,
  )

unfoldable pub read_columns : ℕ → List ℕ → Schema
read_columns zero bytes = []
read_columns (suc n) bytes = elim (read_column bytes) [
  | none ↦ []
  | some (c, rest) ↦ c ∷ read_columns n rest
]

unfoldable pub deserialize : List ℕ → Schema
deserialize bytes = elim (split_at 4 bytes) [
  | none ↦ []
  | some (count, rest) ↦ read_columns (from_bytes count) rest
]
