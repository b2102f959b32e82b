-- ===== src/Types/Value/Compare.antt =====
-- The comparison of values of goods_db/src/type/value.cpp. What `double` arithmetic gives is a
-- parameter.
use goods_db.Prelude.{
  ℕ, zero, suc, ◌+◌, ◌-◌, ◌*◌, ◌/◌, ◌%◌, ◌^◌, ◌<◌, ◌≡◌, refl, Bool, true, false, not, List, [], ◌∷◌,
  Option, none, some, arith, ltb, ◌==◌, if◌then◌else◌, ◌&&◌, ◌⊎◌, inl, inr, sym, ap, ◌∙◌, map,
}
use goods_db.Types.Encoding.{limit}
use goods_db.Types.Schema.{TypeId, same_name, flag}
use goods_db.Types.Value.{
  Value, invalid, boolean, tinyint, smallint, integer, bigint, decimal, timestamp, varchar,
  get_type_id, sign_extend,
}
pub mod Total
pub mod Chain
pub mod Tests

-- `static_cast<double>` of an `int64_t`, `==` and `<`, on the bit patterns.
pub record Doubles : Type 0 where
  pub of_int : ℕ → ℕ
  pub same : ℕ → ℕ → Bool
  pub less : ℕ → ℕ → Bool

unfoldable pub is_numeric_type : TypeId → Bool
is_numeric_type TypeId.tinyint = true
is_numeric_type TypeId.smallint = true
is_numeric_type TypeId.integer = true
is_numeric_type TypeId.bigint = true
is_numeric_type TypeId.decimal = true
is_numeric_type t = false

-- `<` on `int64_t`: the bit of the sign is turned over.
unfoldable pub signed_less : ℕ → ℕ → Bool
signed_less x y = ltb ((x + 2 ^ 63) % 2 ^ 64) ((y + 2 ^ 63) % 2 ^ 64)

-- `<` on `std::string`, byte by byte.
unfoldable pub text_less : List ℕ → List ℕ → Bool
text_less s [] = false
text_less [] (y ∷ t) = true
text_less (x ∷ s) (y ∷ t) = if ltb x y then true else if x == y then text_less s t else false

-- The cases of `==` on one type.
unfoldable pub same_data : Value → Value → Bool
same_data invalid invalid = true
same_data (boolean x) (boolean y) = flag x == flag y
same_data (timestamp x) (timestamp y) = x == y
same_data (varchar x) (varchar y) = same_name x y
same_data a b = false

-- The cases of `<` on one type; values of two types fail the assertion.
unfoldable pub less_data : Value → Value → Option Bool
less_data invalid invalid = some false
less_data (boolean x) (boolean y) = some (ltb (flag x) (flag y))
less_data (timestamp x) (timestamp y) = some (signed_less x y)
less_data (varchar x) (varchar y) = some (text_less x y)
less_data a b = none

module _ (D : Doubles) where
  unfoldable pub to_double : Value → ℕ
  to_double (tinyint n) = D.of_int (sign_extend 1 n)
  to_double (smallint n) = D.of_int (sign_extend 2 n)
  to_double (integer n) = D.of_int (sign_extend 4 n)
  to_double (bigint n) = D.of_int n
  to_double (decimal d) = d
  to_double v = 0

  -- `operator==`. Two numbers never reach the cases on one type.
  unfoldable pub equals : Value → Value → Bool
  equals a b =
      if is_numeric_type (get_type_id a) && is_numeric_type (get_type_id b)
      then D.same (to_double a) (to_double b)
      else same_data a b

  -- `operator<`; `none` is the assertion.
  unfoldable pub less_than : Value → Value → Option Bool
  less_than a b =
      if is_numeric_type (get_type_id a) && is_numeric_type (get_type_id b)
      then some (D.less (to_double a) (to_double b))
      else less_data a b

  -- `operator<=`, which is `!(other < *this)`.
  unfoldable pub at_most : Value → Value → Option Bool
  at_most a b = elim (less_than b a) [ none ↦ none | some r ↦ some (not r) ]
