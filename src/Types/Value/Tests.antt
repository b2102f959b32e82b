-- ===== src/Types/Value/Tests.antt =====
-- A string in the middle of a buffer.
use goods_db.Prelude.{◌≡◌, refl, [], ◌∷◌, arith, inr}
use goods_db.Prelude.Bytes.{zeros, read_bytes, write_bytes}
use goods_db.Types.Encoding.{to_bytes}
use goods_db.Types.Value.{
  Value, varchar, get_type_id, get_serialized_size, value_bytes, serialize_to, deserialize_from,
}
use goods_db.Types.Value.Stored.{deserialize_from-serialize_to}

abbrev pen : Value
pen = varchar (112 ∷ 101 ∷ 110 ∷ [])

serialize_to_runs :
    read_bytes (serialize_to pen zeros 2).0 1 9 ≡ 0 ∷ 3 ∷ 0 ∷ 0 ∷ 0 ∷ 112 ∷ 101 ∷ 110 ∷ 0 ∷ []
unfolding serialize_to value_bytes to_bytes write_bytes read_bytes
serialize_to_runs = refl

deserialize_from-serialize_to_example :
    (deserialize_from (serialize_to pen zeros 2).0 2 (get_type_id pen) ≡ (pen, 7))
    × ((serialize_to pen zeros 2).1 ≡ 7)
    × ((serialize_to pen zeros 2).0 9 ≡ 0)
unfolding get_serialized_size
deserialize_from-serialize_to_example =
    deserialize_from-serialize_to pen zeros 2 9 (omega arith) (inr (omega arith))
