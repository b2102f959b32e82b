-- ===== src/Types/Value/Compare/Tests.antt =====
-- Values of two integer types are compared.
use goods_db.Prelude.{◌-◌, ◌^◌, ◌≡◌, refl, Bool, some, arith, ◌==◌}
use goods_db.Types.Value.{sign_extend, smallint, integer, get_type_id}
use goods_db.Types.Value.Compare.{
  Doubles, signed_less, text_less, less_data, is_numeric_type, equals, less_than,
}
use goods_db.Types.Value.Compare.Total.{OneOf, IsExact, numbers, less_than-equals}

-- A `double` that keeps integers as they are.
abbrev wide : Doubles
wide = record { of_int = λ n. n; same = λ x y. x == y; less = signed_less }

wide-IsExact : IsExact wide
wide-IsExact = record { less_exact = λ x y h k. refl; same_exact = λ x y h k. refl }

-- 7 and -5.
less_than-equals_example :
    (l : Bool) × (g : Bool) × (less_than wide (smallint 7) (integer (2 ^ 32 - 5)) ≡ some l)
    × (less_than wide (integer (2 ^ 32 - 5)) (smallint 7) ≡ some g)
    × OneOf l (equals wide (smallint 7) (integer (2 ^ 32 - 5))) g
less_than-equals_example =
    less_than-equals wide (smallint 7) (integer (2 ^ 32 - 5)) wide-IsExact (omega arith)
      (omega arith) (numbers (sign_extend 2 7) (sign_extend 4 (2 ^ 32 - 5)) refl refl)

text_program : Unit {0}
unfolding less_than less_data text_less is_numeric_type get_type_id
text_program = tt
