-- ===== src/Types/Schema/Tests.antt =====
-- Runs of the schema of a table of goods.
use goods_db.Prelude.{◌≡◌, refl, true, false, [], ◌∷◌, ◌++◌, arith}
use goods_db.Types.Encoding.{to_bytes, from_bytes, split_at}
use goods_db.Types.Schema.{
  integer, varchar, type_byte, type_of_byte, Column, Schema, same_name, col_idx_from, get_col_idx,
  serialize_column, serialize_columns, serialize, read_primary_key, read_column, read_columns,
  deserialize,
}
use goods_db.Types.Schema.RoundTrip.{Fits, deserialize-serialize}

program : Unit {0}
unfolding to_bytes from_bytes split_at type_byte type_of_byte same_name col_idx_from get_col_idx
    serialize_column serialize_columns serialize read_primary_key read_column read_columns
    deserialize
program = tt

-- `id` and `name`
abbrev id : Column
id = record {
  column_name = 105 ∷ 100 ∷ [];
  column_type = integer;
  max_length = 0;
  is_nullable = false;
  is_primary_key = true;
}

abbrev name : Column
name = record {
  column_name = 110 ∷ 97 ∷ 109 ∷ 101 ∷ [];
  column_type = varchar;
  max_length = 300;
  is_nullable = true;
  is_primary_key = false;
}

abbrev goods : Schema
goods = id ∷ name ∷ []

id-Fits : Fits id
id-Fits = record { name = omega arith; kind = refl; max = omega arith }

name-Fits : Fits name
name-Fits = record { name = omega arith; kind = refl; max = omega arith }

deserialize-serialize_example : deserialize (serialize goods ++ 7 ∷ []) ≡ goods
deserialize-serialize_example =
    deserialize-serialize goods (7 ∷ []) (id-Fits, (name-Fits, tt)) (omega arith)
