-- ===== src/Types/Value/Compare/Total.antt =====
-- Values that goods_db/src/type/value.cpp compares exactly, and the results of their comparison.
use goods_db.Prelude.{
  ℕ, ◌-◌, ◌^◌, ◌<◌, ◌≤◌, ◌≡◌, refl, Bool, true, false, List, [], ◌∷◌, Option, none, some, arith,
  ltb, ◌==◌, ◌⊎◌, ap,
}
use goods_db.Types.Schema.{same_name, flag}
use goods_db.Types.Value.{
  Value, invalid, boolean, tinyint, smallint, integer, bigint, decimal, timestamp, varchar,
  get_type_id, sign_extend,
}
use goods_db.Types.Value.Stored.{Fits}
use goods_db.Types.Value.Compare.{
  Doubles, is_numeric_type, signed_less, text_less, same_data, less_data, to_double, equals,
  less_than,
}

-- One of less, equal and greater, given by three tests.
abbrev pub OneOf : Bool → Bool → Bool → Type 0
OneOf l e g =
    (l ≡ true) × (e ≡ false) × (g ≡ false)
    ⊎ (l ≡ false) × (e ≡ true) × (g ≡ false)
    ⊎ (l ≡ false) × (e ≡ false) × (g ≡ true)

signed_less-OneOf :
    (x y : ℕ) → x < 2 ^ 64 → y < 2 ^ 64 → OneOf (signed_less x y) (x == y) (signed_less y x)
unfolding signed_less
signed_less-OneOf x y h k = ground arith

text_less-OneOf : (s t : List ℕ) → OneOf (text_less s t) (same_name s t) (text_less t s)
unfolding text_less same_name
text_less-OneOf [] [] = ground arith
text_less-OneOf [] (y ∷ t) = ground arith
text_less-OneOf (x ∷ s) [] = ground arith
text_less-OneOf (x ∷ s) (y ∷ t) = ground (arith, text_less-OneOf s t)

-- The integer of a value of at most 32 bits, as an `int64_t`.
abbrev pub whole : Value → Option ℕ
whole (tinyint n) = some (sign_extend 1 n)
whole (smallint n) = some (sign_extend 2 n)
whole (integer n) = some (sign_extend 4 n)
whole v = none

-- From -2^53 on and below 2^53, as 64 bits.
abbrev pub IsSmall : ℕ → Type 0
IsSmall x = (x < 2 ^ 53) ⊎ (2 ^ 64 - 2 ^ 53 ≤ x) × (x < 2 ^ 64)

-- A `double` holds the integers of 53 bits exactly, and is compared as they are.
pub record IsExact (D : Doubles) : Type 0 where
  pub less_exact :
      (x y : ℕ) → IsSmall x → IsSmall y → D.less (D.of_int x) (D.of_int y) ≡ signed_less x y
  pub same_exact : (x y : ℕ) → IsSmall x → IsSmall y → D.same (D.of_int x) (D.of_int y) ≡ (x == y)

-- Two integers of at most 32 bits each, or two values of one other type but BIGINT and DECIMAL.
pub data Comparable : Value → Value → Type 0 where
  numbers : {a b : Value} (x y : ℕ) → whole a ≡ some x → whole b ≡ some y → Comparable a b
  nulls : Comparable invalid invalid
  truths : (x y : Bool) → Comparable (boolean x) (boolean y)
  times : (x y : ℕ) → Comparable (timestamp x) (timestamp y)
  texts : (s t : List ℕ) → Comparable (varchar s) (varchar t)

module _ (D : Doubles) where
  pub whole_lem :
      (a : Value) (x : ℕ)
      → Fits a
      → whole a ≡ some x
      → IsSmall x × (is_numeric_type (get_type_id a) ≡ true) × (to_double D a ≡ D.of_int x)
  unfolding is_numeric_type get_type_id to_double sign_extend
  whole_lem (tinyint n) x h e = ground arith
  whole_lem (smallint n) x h e = ground arith
  whole_lem (integer n) x h e = ground arith
  whole_lem invalid x h e = absurd (cc e)
  whole_lem (boolean b) x h e = absurd (cc e)
  whole_lem (bigint n) x h e = absurd (cc e)
  whole_lem (decimal n) x h e = absurd (cc e)
  whole_lem (timestamp n) x h e = absurd (cc e)
  whole_lem (varchar s) x h e = absurd (cc e)

  -- Where doubles hold the integers of 53 bits exactly, comparison of two integers of at most 32
  -- bits each, and of two values of one type that is neither BIGINT nor DECIMAL, NULL included, does
  -- not fail, and exactly one of `a < b`, `a == b` and `b < a` is true.
  pub less_than-equals :
      (a b : Value)
      → IsExact D
      → Fits a
      → Fits b
      → Comparable a b
      → (l : Bool) × (g : Bool) × (less_than D a b ≡ some l)
        × (less_than D b a ≡ some g)
        × OneOf l (equals D a b) g
  unfolding less_than equals less_data same_data is_numeric_type get_type_id
  less_than-equals _ _ exact fa fb (numbers {a} {b} x y ea eb) =
      let (sa, na, da) = whole_lem a x fa ea in
      let (sb, nb, db) = whole_lem b y fb eb in
      (
        signed_less x y,
        signed_less y x,
        rw (less_than, na, nb) (ap some (rw (da, db) (exact.less_exact x y sa sb))),
        rw (less_than, na, nb) (ap some (rw (da, db) (exact.less_exact y x sb sa))),
        rw (equals, na, nb)
            (rw (da, db, exact.same_exact x y sa sb)
              (signed_less-OneOf x y (omega (arith, sa)) (omega (arith, sb)))),
      )
  less_than-equals _ _ exact fa fb nulls = (false, false, refl, refl, ground arith)
  less_than-equals _ _ exact fa fb (truths x y) =
      (ltb (flag x) (flag y), ltb (flag y) (flag x), refl, refl, ground arith)
  less_than-equals _ _ exact fa fb (times x y) =
      (signed_less x y, signed_less y x, refl, refl, signed_less-OneOf x y fa fb)
  less_than-equals _ _ exact fa fb (texts s t) =
      (text_less s t, text_less t s, refl, refl, text_less-OneOf s t)
