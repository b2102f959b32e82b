-- ===== src/Storage/Tuple/Tests.antt =====
-- A row of goods: a number, a name and a missing price.
use goods_db.Prelude.{ℕ, ◌≡◌, refl, true, false, List, [], ◌∷◌, Option, none, some, arith}
use goods_db.Prelude.Bytes.{Bytes, read_u16, write_u16, read_bytes, write_bytes}
use goods_db.Prelude.Bits.{set_bit, has_bit}
use goods_db.Types.Encoding.{to_bytes, from_bytes}
use goods_db.Types.Schema.{TypeId, Column, Schema, type_byte, type_id_size}
use goods_db.Types.Value.{
  sign_extend, Value, invalid, smallint, bigint, varchar, get_type_id, value_bytes, read_number,
}
use goods_db.Storage.Tuple.{
  Tuple, Texts, fixed_data_size, varchar_count, get_as_varchar, varchar_offsets, set_nulls,
  is_numeric, int_of_value, number_bytes, coerced_bytes, fixed_bytes, write_varchar, write_columns,
  create_from_values, deserialize, deserialize_value, size_before, varchars_upto, read_varchar,
  get_value,
}
use goods_db.Storage.Tuple.Columns.{null, typed}
use goods_db.Storage.Tuple.RoundTrip.{Storable, get_value-create_from_values}

program : Unit {0}
unfolding read_u16 write_u16 read_bytes write_bytes set_bit has_bit to_bytes from_bytes type_byte
    type_id_size get_type_id value_bytes read_number fixed_data_size varchar_count get_as_varchar
    varchar_offsets set_nulls sign_extend is_numeric int_of_value number_bytes coerced_bytes
    fixed_bytes write_varchar write_columns create_from_values deserialize deserialize_value
    size_before varchars_upto read_varchar get_value
program = tt

-- A library without numbers in texts.
abbrev library : Texts
library = record {
  stoll = λ s. none;
  stod = λ s. none;
  sscanf = λ s. record { year = 0; month = 1; day = 1; hour = 0; minute = 0; second = 0 };
  int_of_double = λ d. 0;
  double_of_int = λ n. 0;
}

abbrev column : TypeId → Column
column t = record {
  column_name = [];
  column_type = t;
  max_length = 0;
  is_nullable = true;
  is_primary_key = false;
}

abbrev columns : Schema
columns = column TypeId.smallint ∷ column TypeId.varchar ∷ column TypeId.bigint ∷ []

abbrev pen : Value
pen = varchar (112 ∷ 101 ∷ 110 ∷ [])

abbrev goods : List Value
goods = smallint 513 ∷ pen ∷ invalid ∷ []

goods-Storable : Storable library columns goods
unfolding program
goods-Storable = record {
  match = (typed (omega arith) refl refl, (typed (omega arith) refl refl, (null, tt)));
  some_column = omega arith;
  few = omega arith;
  small = omega arith;
}

get_value-create_from_values_example :
    (t : Tuple) × (create_from_values library columns goods ≡ some t)
    × (deserialize t.bytes ≡ t)
    × (get_value t columns 1 ≡ pen)
get_value-create_from_values_example =
    get_value-create_from_values library columns goods 1 goods-Storable (omega arith)

abbrev stored : Bytes → ℕ → List ℕ
stored m n = read_bytes m 0 n

abbrev bytes_of : Option Tuple → List ℕ
bytes_of none = []
bytes_of (some t) = stored t.bytes t.size

-- The bitmap has bit 2, and the string lies at offset 19.
create_from_values_runs :
    bytes_of (create_from_values library columns goods)
    ≡ 3 ∷ 0 ∷ 26 ∷ 0 ∷ 4 ∷ 1 ∷ 2 ∷ 0 ∷ 0 ∷ 0 ∷ 0 ∷ 0 ∷ 0 ∷ 0 ∷ 0 ∷ 19 ∷ 0 ∷ 0 ∷ 0 ∷ 3 ∷ 0 ∷ 0 ∷ 0
      ∷ 112 ∷ 101 ∷ 110 ∷ []
unfolding program
create_from_values_runs = refl

-- The parser makes a BIGINT of every integer: -2 in a SMALLINT column.
coerced_runs :
    fixed_bytes library (column TypeId.smallint) (bigint 0xfffffffffffffffe) ≡ some (254 ∷ 255 ∷ [])
unfolding program
coerced_runs = refl
