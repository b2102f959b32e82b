-- ===== src/Types/Value/Compare/Chain.antt =====
-- Values in a row, as `operator<` of goods_db/src/type/value.cpp orders them.
use goods_db.Prelude.{ℕ, ◌≡◌, Bool, List, some}
use goods_db.Types.Value.{
  Value, invalid, boolean, tinyint, smallint, integer, bigint, decimal, timestamp, varchar,
}
use goods_db.Types.Value.Compare.Total.{whole}

-- What a value is that can be compared with `b`.
abbrev Alike : Value → Value → Type 0
Alike invalid c = c ≡ invalid
Alike (boolean y) c = (z : Bool) × (c ≡ boolean z)
Alike (timestamp y) c = (z : ℕ) × (c ≡ timestamp z)
Alike (varchar t) c = (u : List ℕ) × (c ≡ varchar u)
Alike (bigint y) c = ⊥
Alike (decimal y) c = ⊥
Alike (tinyint y) c = (z : ℕ) × (whole c ≡ some z)
Alike (smallint y) c = (z : ℕ) × (whole c ≡ some z)
Alike (integer y) c = (z : ℕ) × (whole c ≡ some z)
